-- ===== src/Vendors.antt =====
-- The vendors application: suppliers, the clients and projects they may work on, and the
-- reservation that freezes a respondent's commercial terms.
pub mod Models
pub mod Policy
pub mod Scope
pub mod Context
pub mod Reservation
mod Tests
