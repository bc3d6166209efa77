-- ===== src/Preflight.antt =====
-- internal/preflight: the read-only checks before a deployment.
pub mod Probe
pub mod Host
pub mod Evidence
pub mod Accounts
pub mod Tables
pub mod Linux
pub mod Run
pub mod Judged
pub mod Observed
pub mod Ready
pub mod Entries
pub mod Rows
pub mod Fields
