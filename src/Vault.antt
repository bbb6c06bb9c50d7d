-- ===== src/Vault.antt =====
-- The prescreener vault's reuse of registered respondent profiles: prescreener_vault/reuse.py.
pub mod Models
pub mod Budget
pub mod Commit
pub mod Select
mod Tests
