-- ===== src/Faults.antt =====
-- apps/faults/services.py: reporting a fault, its transitions, its billing and who hears of it.
pub mod Notices
pub mod Rows
pub mod Reports
pub mod Covering
pub mod Transitions
pub mod Lifecycle
pub mod Table
pub mod Merging
pub mod Calls
pub mod Tests
pub mod Retention
