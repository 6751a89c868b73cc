-- ===== src/Vision.antt =====
-- The vision node: the queue of its inference jobs.
pub mod Queue
pub mod Worker
pub mod Png
pub mod Capture
