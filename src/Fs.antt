-- ===== src/Fs.antt =====
-- The file system: the inode cache, the open files, the inode map, the transfer of bytes, paths and
-- directories, of fs/main.c, fs/open.c, fs/link.c, fs/misc.c and fs/read_write.c.
pub mod Inodes
pub mod Lseek
pub mod Bitmap
pub mod Transfer
pub mod Directory
pub mod Path
pub mod Files
