-- ===== src/Writer.antt =====
-- internal/render/writer.go: the publication transaction.
pub mod Exec
pub mod Names
pub mod Backend
pub mod Transaction
pub mod Walk
pub mod Reached
pub mod Kernel
pub mod Respects
pub mod Calls
pub mod Kept
pub mod Made
pub mod Tracked
pub mod Undone
pub mod Staged
pub mod Linked
pub mod Placed
pub mod Completed
