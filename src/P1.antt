-- ===== src/P1.antt =====
-- The file system of P1/fs: files of several blocks, found through direct and indirect pointers in the
-- i-node. The constants, the i-node types and the loops over directory entries are the same text in
-- P1/fs and P2/fs, and stand in `Fs`. The code takes locks and does not look at the results; `P1.Threads`
-- and `P1.Locks` are about several threads, the other modules about a call that runs alone.
pub mod State
pub mod Block
pub mod Inode
pub mod Dir
pub mod OpenFile
pub mod Update
pub mod Files
pub mod Operations
pub mod Copy
pub mod Threads
pub mod Locks
pub mod Release
pub mod Bounds
pub mod Naming
pub mod Tests
