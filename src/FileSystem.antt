-- ===== src/FileSystem.antt =====
-- src/drivers/filesystems.cpp: paths of the file systems.
pub mod Paths
pub mod Splitting
pub mod Parent
pub mod Nodes
pub mod Descriptors
pub mod Opening
mod Tests
