-- ===== src/Config.antt =====
-- internal/config/config.go: documents, their parser and their validation.
pub mod Document
pub mod Lines
pub mod Posture
pub mod Validate
pub mod Parse
pub mod RawLines
pub mod Accepted
pub mod Listeners
