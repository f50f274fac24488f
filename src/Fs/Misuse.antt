-- ===== src/Fs/Misuse.antt =====
-- What tfs_write and tfs_read do with a handle that tfs_open has not returned, or that is closed: no
-- operation looks at `free_open_file_entries`.
use so_project.Base.{ℕ, ◌≤◌, ◌<◌, ◌≡◌, pos, Memory, arith}
use so_project.Fs.State.{Fs, max_open_files, block_size}
use so_project.Fs.Block.{data_block_alloc, data_block_get}
use so_project.Fs.Inode.{inode_get}
use so_project.Fs.OpenFile.{remove_from_open_file_table, get_open_file_entry}
use so_project.Fs.Operations.{write_unsynchronized, write_block, ensure_block}
use so_project.Fs.Valid.{IsValid, IsOpen}

-- The bug of the missing check, first form, for well formed tables: a write of 1 to 1024 bytes
-- through an entry of the table that holds i-number 0 and offset 0, as one that was never used
-- does, succeeds, and its bytes overwrite the entries of the root directory.
pub write-never_opened :
    (h : ℕ) (buffer : Memory) (n : ℕ) {s : Fs}
    → IsValid s
    → h < max_open_files
    → (s.open_file_table h).of_inumber ≡ pos 0
    → (s.open_file_table h).of_offset ≡ 0
    → 0 < n
    → n ≤ block_size
    → ((write_unsynchronized (pos h) buffer n s).0 ≡ pos n)
      × ((k : ℕ) → k < n → (write_unsynchronized (pos h) buffer n s).1.fs_data k ≡ buffer k)
unfolding write_unsynchronized get_open_file_entry inode_get write_block ensure_block data_block_get
write-never_opened h buffer n {s} v lt root start p le =
    (ground (arith, v.root_size, v.root_block), λ k kn. ground (arith, v.root_size, v.root_block))

-- The bug of the missing check, second form: after an open handle has been closed, a write
-- through it has the result that it had before, and leaves the same bytes in the data.
pub write-closed :
    (h : ℕ) (buffer : Memory) (n : ℕ) {s : Fs}
    → IsOpen h s
    → let closed = (remove_from_open_file_table (pos h) s).1 in
      ((write_unsynchronized (pos h) buffer n closed).0
        ≡ (write_unsynchronized (pos h) buffer n s).0)
      × ((write_unsynchronized (pos h) buffer n closed).1.fs_data
          ≡ (write_unsynchronized (pos h) buffer n s).1.fs_data)
unfolding write_unsynchronized write_block ensure_block data_block_alloc remove_from_open_file_table
write-closed h buffer n {s} o = (
  rw (o.in_table, o.is_taken, remove_from_open_file_table) (ground arith),
  rw (o.in_table, o.is_taken, remove_from_open_file_table) (ground arith),
)
