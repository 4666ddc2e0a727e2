-- ===== src/Handler.antt =====
-- crates/fileloft-core/src/handler/: the module `Base` has what the handlers share.
pub mod Base
pub mod Named
pub mod Patch
pub mod Read
pub mod Delete
pub mod Options
pub mod Post
pub mod Dispatch
pub mod Locks
pub mod Expiry
pub mod Errors
