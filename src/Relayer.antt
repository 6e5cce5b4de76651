-- ===== src/Relayer.antt =====
-- block_relayer/src: the process that feeds the relay program.
pub mod Merkle
pub mod Node
pub mod Interaction
pub mod Blocks
pub mod Web
