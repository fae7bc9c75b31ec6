-- ===== src/Transaction.antt =====
-- internal/transaction/recover.go and the Transaction type of journal.go: how a prepared transaction
-- is applied, committed, aborted, finalized and recovered.
pub mod Errors
pub mod Match
pub mod Replace
pub mod Converge
pub mod Finish
pub mod Handle
pub mod Beside
pub mod Inspect
mod Tests
