-- ===== src/Control.antt =====
-- The control node: the serial protocol that it speaks with the Mega board, and the node itself.
pub mod Protocol
pub mod Node
