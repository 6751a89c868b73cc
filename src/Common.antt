-- ===== src/Common.antt =====
-- The library that the nodes share (inspection_common).
pub mod Idempotency
pub mod NodeBase
