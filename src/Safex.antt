-- ===== src/Safex.antt =====
-- internal/safex: error codes, results and the redaction of text.
pub mod Codes
pub mod Redact
pub mod Assignments
pub mod Masked
pub mod Userinfo
