-- ===== src/Program.antt =====
-- programs/btc-relay/src/lib.rs: the instructions of the relay program. An instruction takes the
-- accounts that it reads and returns those that it writes; a failure returns none, since the
-- runtime rolls the writes back.
pub mod Loop
pub mod Submit
pub mod Fork
pub mod Transaction
pub mod Tree
pub mod Bridge
