-- ===== src/Examples.antt =====
-- Runs of the model on small inputs, and each theorem at a concrete input.
pub mod Products
pub mod Line
pub mod Nodes
pub mod Vision
pub mod Commands
pub mod Control
pub mod Operation
pub mod Flow
pub mod Images
