-- ===== src/Files.antt =====
-- crates/fileloft-store-fs/src/: the store that keeps its uploads as files, and its locker.
pub mod Keys
pub mod Parts
pub mod Store
pub mod Uploads
