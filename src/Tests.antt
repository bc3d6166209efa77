-- ===== src/Tests.antt =====
-- Runs of the model at concrete inputs.
mod Documents
mod Values
mod Configs
mod Renders
mod Files
mod Credentials
mod Journals
mod Redactions
mod Hosts
mod Runs
mod Commands
