-- ===== src/Fat.antt =====
-- fs/fat/fat16.c: a read-only FAT16 file system over three streams of the disk.
pub mod Layout
pub mod Clusters
pub mod Chain
pub mod Content
pub mod Read
pub mod Names
pub mod Directory
pub mod Count
pub mod Lookup
pub mod File
pub mod Members
pub mod Open
pub mod Walk
pub mod Seek
pub mod Mount
pub mod Mounting
pub mod Resolve
pub mod Load
pub mod Paths
