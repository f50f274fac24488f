-- ===== src/Fs/Valid/Write.antt =====
-- A write through an open handle keeps the invariant; so does a read.
use so_project.Base.{
  ℕ, ◌+◌, ◌*◌, ◌^◌, ◌≤◌, ◌<◌, ◌≡◌, inl, inr, pos, pos_part, true, arith, Bool-cases, ltb, signed64,
  Memory, blit, load_int-blit, add64,
}
use so_project.Fs.State.{Fs, block_size, max_dir_entries, valid_block_number}
use so_project.Fs.Block.{data_block_get}
use so_project.Fs.Dir.{d_inumber, entry_at}
use so_project.Fs.Operations.{
  ensure_block, write_block, grow, set_offset, write_unsynchronized, read_unsynchronized,
  clamp_write,
}
use so_project.Fs.Valid.{IsValid, IsFile, IsOpen}
use so_project.Fs.Valid.Blocks.{
  OwnsBlock, ensure_block-IsFile, ensure_block-open_files, ensure_block-IsValid,
  ensure_block-OwnsBlock,
}
use so_project.Fs.Valid.Handle.{
  IsFile-pos, file_of, amount_read, write_unsynchronized-open, read_unsynchronized-open,
}
use so_project.Fs.Valid.Data.{with_data-IsValid}
use so_project.Fs.Valid.Tables.{set_offset-IsValid}

module _ (i : ℕ) {s : Fs} (v : IsValid s) (f : IsFile s (pos i)) (own : OwnsBlock i s) where
  -- The block of a file is not the root directory's.
  pub block_pos : 0 < pos_part (s.inode_table i).i_data_block
  block_pos = ground (arith, own.valid_number, own.alone 0 v.root_taken, f.not_root)

  entry_kept :
      (at n : ℕ) (buffer : Memory) (k : ℕ)
      → k < max_dir_entries
      → d_inumber
          (blit s.fs_data (pos_part (s.inode_table i).i_data_block * block_size + at) n buffer)
          0
          k
        ≡ d_inumber s.fs_data 0 k
  entry_kept at n buffer k h =
      load_int-blit s.fs_data (pos_part (s.inode_table i).i_data_block * block_size + at) n buffer
        (entry_at 0 k + 40) (inl (grind (arith, block_pos)))

  pub blit-IsValid :
      (at n : ℕ) (buffer : Memory)
      → IsValid (record s {
        fs_data =
            blit s.fs_data (pos_part (s.inode_table i).i_data_block * block_size + at) n buffer;
      })
  blit-IsValid at n buffer =
      with_data-IsValid v _ (λ k h. rw (entry_kept at n buffer k h) (v.entries k h))

  pub grow-IsValid : (o : ℕ) → o ≤ block_size → IsValid (grow i o s)
  grow-IsValid o h = grind (
    arith, v.sizes, v.block_valid, v.block_taken, v.separate, v.entries, v.handles, v.offsets,
    own.alone, own.valid_number, own.allocated,
  )

-- The write of n bytes at an offset o' of the i-node's block, as write_block makes it.
abbrev pub stored : ℕ → ℕ → ℕ → ℕ → Memory → Fs → Fs
stored h i at n buffer s = grow i (add64 at n) (
    set_offset h (add64 at n) (record s {
      fs_data = blit s.fs_data (pos_part (s.inode_table i).i_data_block * block_size + at) n buffer;
    }))

module _ (h i : ℕ) {s : Fs} (v : IsValid s) (f : IsFile s (pos i)) where
  stored-IsValid :
      (at n : ℕ) (buffer : Memory)
      → OwnsBlock i s
      → at + n ≤ block_size
      → IsValid (stored h i at n buffer s)
  stored-IsValid at n buffer own le =
      grow-IsValid i
        (set_offset-IsValid h (add64 at n) (blit-IsValid i v f own at n buffer) (omega arith))
        (record {
          in_table = f.in_table;
          not_root = f.not_root;
          is_taken = f.is_taken;
          is_file = f.is_file;
        })
        (record { valid_number = own.valid_number; allocated = own.allocated; alone = own.alone })
        (add64 at n) (omega arith)

-- write_block once the i-node has a block.
pub write_block-stored :
    (h i : ℕ) (s : Fs) (buffer : Memory) (n : ℕ)
    → valid_block_number ((ensure_block i s).inode_table i).i_data_block ≡ true
    → write_block h i buffer n s
      ≡ (signed64 n, stored h i (s.open_file_table h).of_offset n buffer (ensure_block i s))
unfolding write_block data_block_get
write_block-stored h i s buffer n good =
    rw (good, write_block, data_block_get) (rw (ensure_block-open_files i s))

-- The block of a file is allocated if needed, and the bytes go into it.
pub write_block-IsValid :
    (h i : ℕ) {s : Fs} (buffer : Memory) (n : ℕ)
    → IsValid s
    → IsFile s (pos i)
    → (s.open_file_table h).of_offset + n ≤ block_size
    → IsValid (write_block h i buffer n s).1
unfolding write_block data_block_get
write_block-IsValid h i {s} buffer n v f le =
    elim (Bool-cases (valid_block_number ((ensure_block i s).inode_table i).i_data_block)) [
      | inr bad ↦ rw (bad, write_block, data_block_get) (ensure_block-IsValid i v f)
      | inl good ↦
          rw (good, write_block, data_block_get)
            (stored-IsValid h i (ensure_block-IsValid i v f) (ensure_block-IsFile i v f)
              ((ensure_block i s).open_file_table h).of_offset n buffer
              (ensure_block-OwnsBlock i v f good) (rw (ensure_block-open_files i s) le))
    ]

-- An open handle names a file, and the amount to write fits the block.
pub clamp_write-le :
    (offset to_write : ℕ)
    → offset ≤ block_size
    → to_write < 2 ^ 63
    → offset + clamp_write offset to_write ≤ block_size
clamp_write-le offset to_write h w = ground arith

pub write-IsValid :
    (h : ℕ) (buffer : Memory) (to_write : ℕ) {s : Fs}
    → IsValid s
    → IsOpen h s
    → to_write < 2 ^ 63
    → IsValid (write_unsynchronized (pos h) buffer to_write s).1
write-IsValid h buffer to_write {s} v o w =
    let f = v.handles h o.is_taken in
    let le = clamp_write-le (s.open_file_table h).of_offset to_write (v.offsets h o.is_taken) w in
    let n : ℕ = clamp_write (s.open_file_table h).of_offset to_write in
    rw (write_unsynchronized-open h buffer to_write v o) (elim (Bool-cases (ltb 0 n)) [
      | inl some_bytes ↦
          rw some_bytes (write_block-IsValid h (file_of h s) buffer n v (IsFile-pos f) le)
      | inr nothing ↦ rw nothing v
    ])

-- A read moves the offset at most.
pub read-IsValid :
    (h : ℕ) (buffer : Memory) (len : ℕ) {s : Fs}
    → IsValid s
    → IsOpen h s
    → (s.open_file_table h).of_offset ≤ (s.inode_table (file_of h s)).i_size
    → IsValid (read_unsynchronized (pos h) buffer len s).2
unfolding data_block_get
read-IsValid h buffer len {s} v o le =
    rw (read_unsynchronized-open h buffer len v o)
      (elim (Bool-cases (ltb 0 (amount_read h len s))) [
        | inl some_bytes ↦
            (let f = v.handles h o.is_taken in
              let positive : 0 < (s.inode_table (file_of h s)).i_size = ground arith in
              let le_size = v.sizes (file_of h s) f.is_taken in
              rw (some_bytes, v.block_valid (file_of h s) f.is_taken positive)
                (set_offset-IsValid h (add64 (s.open_file_table h).of_offset (amount_read h len s))
                  v (ground arith)))
        | inr nothing ↦ rw nothing v
      ])
