-- ===== src/Memory.antt =====
-- crates/fileloft-store-memory/src/: the store and the locker of one process.
pub mod Store
pub mod Refinement
pub mod Locker
