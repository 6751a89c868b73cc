-- ===== src/Master.antt =====
-- The master node (inspection_master): its rules, and the requests that move the line.
pub mod SystemFsm
pub mod Product
pub mod Ledger
pub mod Messages
pub mod Reorder
pub mod Worker
pub mod Sensors
pub mod Equipment
pub mod Operation
pub mod Flow
