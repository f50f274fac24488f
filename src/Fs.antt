-- ===== src/Fs.antt =====
-- The file system of P2/fs: its tables (state.h), the functions of state.c in the children `Block`,
-- `Inode`, `Dir` and `OpenFile`, and those of operations.c in `Operations`.
pub mod State
pub mod Block
pub mod Inode
pub mod Dir
pub mod OpenFile
pub mod Operations
pub mod Valid
pub mod Io
pub mod Handles
pub mod Alloc
pub mod Misuse
pub mod Refine
pub mod Locks
pub mod Destroy
pub mod Naming
mod Tests
