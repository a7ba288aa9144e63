-- ===== src/Budget/Ledger.antt =====
-- The specification of budget.py: the balances of an account are what its ledger entries add up to.
pub mod Sums
pub mod Accounts
pub mod Spec
pub mod Posts
pub mod Effects
pub mod Operations
pub mod Grants
pub mod Misuse
pub mod Guards
pub mod Histories
pub mod Limits
pub mod Overdraft
pub mod Undo
