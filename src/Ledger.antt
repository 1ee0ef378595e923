-- ===== src/Ledger.antt =====
-- The ledger (apps/ledger): who owes the firm, whom the firm owes, and where its money is.
pub mod Decimal
pub mod Models
pub mod Posting
pub mod Reversal
pub mod Balances
pub mod Services
pub mod Documents
pub mod Transfers
pub mod Statement
pub mod Openings
pub mod Parties
pub mod Invoices
pub mod Collections
pub mod Invariant
pub mod Calls
pub mod Sample
pub mod Tests
