-- ===== src/Tests.antt =====
-- Tests of the definitions, and the theorems at concrete inputs.
mod Samples
mod Codec
mod Folder
mod Drive
mod Framed
mod Files
mod LockFiles
mod Gcs
mod Azure
mod Upload
mod Patching
mod Locking
mod Requests
mod Concat
