-- ===== src/Fs.antt =====
-- Assignment4/source/fs.c: the file system, in layers.
pub mod Disk
pub mod Log
pub mod Blocks
pub mod Inode
pub mod Bmap
pub mod Itrunc
mod Tests
