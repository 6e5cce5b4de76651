-- ===== src/Utils.antt =====
-- programs/btc-relay/src/utils.rs: the rules for block headers, Merkle proofs and deposits.
pub mod Target
pub mod Retarget
pub mod Median
pub mod Header
pub mod Merkle
