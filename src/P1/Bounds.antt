-- ===== src/P1/Bounds.antt =====
-- The positions of the handles of P1/fs, and the rounds of the loops of tfs_write and tfs_read.
pub mod Update
pub mod Rounds
