-- ===== src/Fs.antt =====
-- src/kernel/fs: the file system.
pub mod Disk
pub mod Sample
pub mod Bitmap
pub mod Index
pub mod Inode
pub mod Data
pub mod Cache
pub mod Names
pub mod Dentry
pub mod Paths
pub mod Device
pub mod File
pub mod Buffer
