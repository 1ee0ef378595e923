-- ===== src/Billing.antt =====
-- apps/billing/services.py: invoice drafts made from contracts, and their life cycle.
pub mod Money
pub mod Lines
pub mod Drafts
pub mod Calls
pub mod Papers
pub mod Elsewhere
pub mod Totals
pub mod Refusals
pub mod Fees
pub mod Generation
pub mod Tests
