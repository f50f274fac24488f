-- ===== src/Fs/Valid/Handle.antt =====
-- What a write and a read do at a handle that is open, in a valid state.
use so_project.Base.{
  ℕ, ◌+◌, ◌*◌, ◌≡◌, ℤ, pos, negsuc, pos_part, signed64, add64, Memory, blit, ltb, if◌then◌else◌,
  arith, minus_one, some, none,
}
use so_project.Fs.State.{Fs, block_size}
use so_project.Fs.Block.{data_block_get}
use so_project.Fs.Inode.{inode_get}
use so_project.Fs.OpenFile.{get_open_file_entry}
use so_project.Fs.Operations.{
  write_block, write_unsynchronized, read_unsynchronized, clamp_write, clamp_read, set_offset,
}
use so_project.Fs.Valid.{IsValid, IsFile, IsOpen}

pub IsFile-pos : {s : Fs} {z : ℤ} → IsFile s z → IsFile s (pos (pos_part z))
IsFile-pos {s} {z = pos n} f = f
IsFile-pos {s} {z = negsuc n} f = absurd (omega (arith, f.not_root))

-- The i-number, the offset and the size of the file that a handle refers to, and how many bytes a read through it copies.
abbrev pub file_of : ℕ → Fs → ℕ
file_of h s = pos_part (s.open_file_table h).of_inumber

abbrev pub offset_of : ℕ → Fs → ℕ
offset_of h s = (s.open_file_table h).of_offset

abbrev pub size_of : ℕ → Fs → ℕ
size_of h s = (s.inode_table (file_of h s)).i_size

-- The k-th byte of the block of the i-node j.
abbrev pub byte_of : Fs → ℕ → ℕ → ℕ
byte_of s j k = s.fs_data (pos_part (s.inode_table j).i_data_block * block_size + k)

abbrev pub amount_read : ℕ → ℕ → Fs → ℕ
amount_read h len s =
    clamp_read (s.inode_table (file_of h s)).i_size (s.open_file_table h).of_offset len

abbrev pub amount_written : ℕ → ℕ → Fs → ℕ
amount_written h to_write s = clamp_write (s.open_file_table h).of_offset to_write

pub write_unsynchronized-open :
    (h : ℕ) (buffer : Memory) (to_write : ℕ) {s : Fs}
    → IsValid s
    → IsOpen h s
    → write_unsynchronized (pos h) buffer to_write s ≡ (
        if ltb 0 (amount_written h to_write s)
        then write_block h (file_of h s) buffer (amount_written h to_write s) s
        else (signed64 (amount_written h to_write s), s))
unfolding write_unsynchronized get_open_file_entry inode_get
write_unsynchronized-open h buffer to_write {s} v o =
    rw (o.in_table, write_unsynchronized, get_open_file_entry)
      (rw ((v.handles h o.is_taken).in_table, write_unsynchronized, inode_get))

pub read_unsynchronized-open :
    (h : ℕ) (buffer : Memory) (len : ℕ) {s : Fs}
    → IsValid s
    → IsOpen h s
    → read_unsynchronized (pos h) buffer len s ≡ (
        if ltb 0 (amount_read h len s)
        then elim (data_block_get (s.inode_table (file_of h s)).i_data_block) [
          | none ↦ (minus_one, buffer, s)
          | some block ↦ (
            signed64 (amount_read h len s),
            blit buffer 0
                (amount_read h len s)
                (λ k. s.fs_data (block + (s.open_file_table h).of_offset + k)),
            set_offset h (add64 (s.open_file_table h).of_offset (amount_read h len s)) s,
          )
        ]
        else (signed64 (amount_read h len s), buffer, s))
unfolding read_unsynchronized get_open_file_entry inode_get
read_unsynchronized-open h buffer len {s} v o =
    rw (o.in_table, read_unsynchronized, get_open_file_entry)
      (rw ((v.handles h o.is_taken).in_table, read_unsynchronized, inode_get))
