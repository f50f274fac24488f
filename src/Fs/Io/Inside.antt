-- ===== src/Fs/Io/Inside.antt =====
-- The copies of tfs_write and tfs_read of P2/fs/operations.c stay in `fs_data`.
use so_project.Base.{ℕ, ◌+◌, ◌*◌, ◌^◌, ◌≤◌, ◌<◌, ◌≡◌, ℤ, pos, negsuc, pos_part, true, arith}
use so_project.Fs.State.{Fs, block_size, data_blocks, valid_block_number}
use so_project.Fs.Operations.{ensure_block}
use so_project.Fs.Valid.{IsValid, IsOpen}
use so_project.Fs.Valid.Handle.{file_of, offset_of, size_of, amount_read, amount_written}
use so_project.Fs.Valid.Write.{clamp_write-le}

block-inside :
    (b : ℤ) (n : ℕ)
    → valid_block_number b ≡ true
    → n ≤ block_size
    → pos_part b * block_size + n ≤ data_blocks * block_size
block-inside (pos b) n valid le =
    let below : b < data_blocks = ground (arith, valid) in omega (arith, below)
block-inside (negsuc b) n valid le = cc valid

-- For well formed tables: the bytes that a write of less than 2 ^ 63 bytes through an open handle
-- copies lie in `fs_data`, when the file has a block or gets one.
pub write-inside :
    (h to_write : ℕ) {s : Fs}
    → IsValid s
    → IsOpen h s
    → to_write < 2 ^ 63
    → let block = ((ensure_block (file_of h s) s).inode_table (file_of h s)).i_data_block in
      valid_block_number block ≡ true
      → pos_part block * block_size + (offset_of h s + amount_written h to_write s)
        ≤ data_blocks * block_size
write-inside h to_write {s} v o w valid =
    block-inside ((ensure_block (file_of h s) s).inode_table (file_of h s)).i_data_block
      (offset_of h s + amount_written h to_write s) valid
      (clamp_write-le (offset_of h s) to_write (v.offsets h o.is_taken) w)

-- For well formed tables: the bytes that a read through an open handle copies lie in `fs_data`, when
-- the handle does not stand behind the end of its file.
pub read-inside :
    (h len : ℕ) {s : Fs}
    → IsValid s
    → IsOpen h s
    → offset_of h s ≤ size_of h s
    → 0 < amount_read h len s
    → pos_part (s.inode_table (file_of h s)).i_data_block * block_size
        + (offset_of h s + amount_read h len s)
      ≤ data_blocks * block_size
read-inside h len {s} v o le some_bytes =
    let f = v.handles h o.is_taken in
    let within = v.sizes (file_of h s) f.is_taken in
    block-inside (s.inode_table (file_of h s)).i_data_block (offset_of h s + amount_read h len s)
      (v.block_valid (file_of h s) f.is_taken (ground (arith, some_bytes, le)))
      (ground (arith, le, within))
