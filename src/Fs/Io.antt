-- ===== src/Fs/Io.antt =====
-- What tfs_write and tfs_read of P2/fs/operations.c do to the bytes of the files.
pub mod Write
pub mod RoundTrip
pub mod Isolation
pub mod Read
pub mod Inside
