-- ===== src/Traffic.antt =====
-- engine/mihomo/overlay/tunnel/statistic/domain_accounting.go: the traffic journal.
pub mod Journal
pub mod Totals
pub mod Bounds
pub mod Domain
pub mod Hosts
