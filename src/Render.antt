-- ===== src/Render.antt =====
-- internal/render: the placeholders, the templates and their substitution.
pub mod Schema
pub mod Template
pub mod Substitute
pub mod Loops
pub mod Resolved
pub mod Assets
pub mod Run
pub mod Material
pub mod Prepared
pub mod Published
