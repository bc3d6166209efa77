-- ===== src/Credential.antt =====
-- internal/credential: the bundle of a role's credentials and its loader.
pub mod Bundle
pub mod Loader
pub mod Scalar
pub mod Loaded
pub mod UnitDir
pub mod Confined
