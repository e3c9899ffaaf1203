-- ===== src/Handler.antt =====
-- pkg/handler: the state that a request handler works on, and the steps that all handlers share.
pub mod Monad
pub mod Request
pub mod Config
pub mod Respond
pub mod Chunk
pub mod Post
pub mod Patch
pub mod Read
pub mod Delete
pub mod Routes
pub mod Keeps
pub mod Locks
