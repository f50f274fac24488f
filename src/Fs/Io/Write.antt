-- ===== src/Fs/Io/Write.antt =====
-- The outcome of a write through an open handle.
use so_project.Base.{
  ℕ, ◌+◌, ◌-◌, ◌^◌, ◌≤◌, ◌<◌, ◌≡◌, ◌≢◌, ◌⊎◌, inl, inr, ℤ, pos, minus_one, Memory, signed64,
  Option-cases, none, taken, first_free, first_free-some, first_free-none, true, false, Bool-cases,
  ltb, ◌==◌, if◌then◌else◌, arith, refl,
}
use Prim.Native.Nat.{min, max}
use native.Mathlib.Decide.{ℕ_discrete}
use so_project.Fs.State.{Fs, block_size, data_blocks, valid_block_number}
use so_project.Fs.Block.{data_block_alloc, data_block_get}
use so_project.Fs.Operations.{ensure_block, write_block, write_unsynchronized}
use so_project.Fs.Valid.{IsValid, IsFile, IsOpen}
use so_project.Fs.Valid.Blocks.{ensure_block-open_files}
use so_project.Fs.Valid.Handle.{
  IsFile-pos, file_of, offset_of, size_of, byte_of, amount_written, write_unsynchronized-open,
}
use so_project.Fs.Valid.Write.{stored, write_block-stored, clamp_write-le}

-- Either the file is empty and no block is free, or the i-node has a block after ensure_block.
pub ensure_block-cases :
    (i : ℕ) {s : Fs}
    → IsValid s
    → IsFile s (pos i)
    → (valid_block_number ((ensure_block i s).inode_table i).i_data_block ≡ true)
      ⊎ (((s.inode_table i).i_size ≡ 0)
          × (first_free s.free_blocks data_blocks 0 ≡ none)
          × (valid_block_number ((ensure_block i s).inode_table i).i_data_block ≡ false))
unfolding ensure_block data_block_alloc
ensure_block-cases i {s} v f = elim (Bool-cases ((s.inode_table i).i_size == 0)) [
  | inr full ↦ ground (arith, v.block_valid i f.is_taken)
  | inl empty ↦ elim (Option-cases (first_free s.free_blocks data_blocks 0)) [
    | inl e ↦ ground arith
    | inr (b, e) ↦ ground (arith, first_free-some s.free_blocks data_blocks 0 {j = b} e)
  ]
]

pub ensure_block-size :
    (i j : ℕ) (s : Fs) → ((ensure_block i s).inode_table j).i_size ≡ (s.inode_table j).i_size
unfolding ensure_block data_block_alloc
ensure_block-size i j s = ground arith

pub ensure_block-data : (i : ℕ) (s : Fs) → (ensure_block i s).fs_data ≡ s.fs_data
unfolding ensure_block data_block_alloc
ensure_block-data i s = ground arith

pub ensure_block-handles :
    (i : ℕ) (s : Fs) → (ensure_block i s).free_open_file_entries ≡ s.free_open_file_entries
unfolding ensure_block data_block_alloc
ensure_block-handles i s = ground arith

-- The bytes of the buffer are in the file's block behind the offset, and the offset and the size of
-- the file have moved.
abbrev pub Written : ℕ → Memory → ℕ → Fs → Fs → Type 0
Written h buffer n s s' =
    (offset_of h s' ≡ offset_of h s + n)
    × ((s'.inode_table (file_of h s)).i_size
        ≡ (if n == 0 then size_of h s else max (size_of h s) (offset_of h s + n)))
    × ((k : ℕ) → k < n → byte_of s' (file_of h s) (offset_of h s + k) ≡ buffer k)

module _ (h : ℕ) (buffer : Memory) (to_write : ℕ) {s : Fs} (v : IsValid s) (o : IsOpen h s)
    (w : to_write < 2 ^ 63) where
  abbrev n : ℕ
  n = amount_written h to_write s

  abbrev result : ℤ × Fs
  result = write_unsynchronized (pos h) buffer to_write s

  f : IsFile s (pos (file_of h s))
  f = IsFile-pos (v.handles h o.is_taken)

  fits : offset_of h s + n ≤ block_size
  fits = clamp_write-le (offset_of h s) to_write (v.offsets h o.is_taken) w

  pub write-blocked :
      0 < n
      → valid_block_number ((ensure_block (file_of h s) s).inode_table (file_of h s)).i_data_block
        ≡ false
      → result ≡ (minus_one, ensure_block (file_of h s) s)
  unfolding write_block data_block_get
  write-blocked p bad =
      rw (write_unsynchronized-open h buffer to_write v o)
        (let e : ltb 0 n ≡ true = ground arith in rw (e, bad, write_block, data_block_get))

  pub write-stored :
      0 < n
      → valid_block_number ((ensure_block (file_of h s) s).inode_table (file_of h s)).i_data_block
        ≡ true
      → result ≡ (
        signed64 n,
        stored h (file_of h s) (offset_of h s) n buffer (ensure_block (file_of h s) s),
      )
  write-stored p good = rw (write_unsynchronized-open h buffer to_write v o) (
      let e : ltb 0 n ≡ true = ground arith in
      rw (e, write_block-stored h (file_of h s) s buffer n good))

  pub write-nothing : n ≡ 0 → result ≡ (pos 0, s)
  write-nothing z =
      rw (write_unsynchronized-open h buffer to_write v o)
        (let e : ltb 0 n ≡ false = ground arith in rw (e, z))

  -- The bytes that the call reports: those that fit behind the offset.
  pub amount_written-min : n ≡ min to_write (block_size - offset_of h s)
  amount_written-min = ground (arith, v.offsets h o.is_taken)

  stored-Written :
      0 < n
      → Written h buffer n s
          (stored h (file_of h s) (offset_of h s) n buffer (ensure_block (file_of h s) s))
  stored-Written p = (
    ground (arith, fits),
    ground (arith, fits, ensure_block-size (file_of h s) (file_of h s) s),
    λ k lt. ground (arith, fits),
  )

  outcome_stored :
      0 < n
      → valid_block_number ((ensure_block (file_of h s) s).inode_table (file_of h s)).i_data_block
        ≡ true
      → (result.0 ≡ pos n) × Written h buffer n s result.1
  outcome_stored p good = rw (write-stored p good) (ground (arith, fits), stored-Written p)

  outcome_nothing : n ≡ 0 → (result.0 ≡ pos n) × Written h buffer n s result.1
  outcome_nothing z =
      rw (write-nothing z)
        (ground arith, (ground arith, ground arith, λ k lt. absurd (omega arith)))

  -- For well formed tables: a write of less than 2 ^ 63 bytes through an open handle stores the
  -- bytes that fit in the block behind the offset, returns their number, and moves the offset and
  -- the size of the file accordingly; or it returns -1, and then the file is empty, every data
  -- block is taken, and neither the data nor the open file table has changed.
  pub write_outcome :
      ((result.0 ≡ pos (min to_write (block_size - offset_of h s)))
        × Written h buffer (min to_write (block_size - offset_of h s)) s result.1)
      ⊎ ((result.0 ≡ minus_one)
          × (size_of h s ≡ 0)
          × ((b : ℕ) → b < data_blocks → s.free_blocks b ≡ taken)
          × (result.1.fs_data ≡ s.fs_data)
          × (result.1.open_file_table ≡ s.open_file_table))
  write_outcome = elim (ℕ_discrete n 0) [
    | yes z ↦ inl (rw (← amount_written-min) (outcome_nothing z))
    | no p ↦ elim (ensure_block-cases (file_of h s) v f) [
      | inl good ↦ inl (rw (← amount_written-min) (outcome_stored (omega arith) good))
      | inr (empty, none_free, bad) ↦ inr (
          rw (write-blocked (omega arith) bad) (
            refl,
            empty,
            (λ b lt.
                first_free-none s.free_blocks data_blocks 0 none_free b (omega arith)
                  (omega arith)),
            ensure_block-data (file_of h s) s,
            ensure_block-open_files (file_of h s) s,
          ))
    ]
  ]

  -- The other entries of the open file table stay.
  pub write-handles :
      (g : ℕ)
      → g ≢ h
      → (result.1.open_file_table g ≡ s.open_file_table g)
        × (result.1.free_open_file_entries ≡ s.free_open_file_entries)
  write-handles g ne = elim (ℕ_discrete n 0) [
    | yes z ↦ rw (write-nothing z) (refl, refl)
    | no p ↦ elim (ensure_block-cases (file_of h s) v f) [
      | inl good ↦ rw (write-stored (omega arith) good) (
        ground (arith, ensure_block-open_files (file_of h s) s, ne),
        ground (arith, ensure_block-handles (file_of h s) s),
      )
      | inr (empty, none_free, bad) ↦
          rw (write-blocked (omega arith) bad)
            (cc (ensure_block-open_files (file_of h s) s), ensure_block-handles (file_of h s) s)
    ]
  ]
