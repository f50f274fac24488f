-- ===== src/Fs/Valid/Blocks.antt =====
-- Allocation and truncation keep the invariant.
use so_project.Base.{
  ℕ, ◌<◌, ◌≡◌, inl, inr, pos, pos_part, true, free, taken, first_free, first_free-some,
  Option-cases, arith, update, some, Bool-cases, ltb, if◌then◌else◌, ◌==◌,
}
use so_project.Fs.State.{Fs, data_blocks, valid_block_number}
use so_project.Fs.Block.{data_block_alloc, data_block_free}
use so_project.Fs.Inode.{set_inode}
use so_project.Fs.Operations.{truncate, ensure_block}
use so_project.Fs.Valid.{IsValid, IsFile}

-- The i-node i has a block that no other i-node with data uses.
pub record OwnsBlock (i : ℕ) (s : Fs) : Type 0 where
  pub valid_number : valid_block_number (s.inode_table i).i_data_block ≡ true
  pub allocated : s.free_blocks (pos_part (s.inode_table i).i_data_block) ≡ taken
  pub alone :
      (j : ℕ)
      → s.freeinode_ts j ≡ taken
      → 0 < (s.inode_table j).i_size
      → (s.inode_table j).i_data_block ≡ (s.inode_table i).i_data_block
      → j ≡ i

-- The state after a truncation.
abbrev pub truncated : ℕ → Fs → Fs
truncated i s =
    if ltb 0 (s.inode_table i).i_size
    then record (set_inode i (record (s.inode_table i) { i_size = 0 }) s) {
      free_blocks = update s.free_blocks (pos_part (s.inode_table i).i_data_block) free;
    }
    else s

pub ensure_block-open_files :
    (i : ℕ) (s : Fs) → (ensure_block i s).open_file_table ≡ s.open_file_table
unfolding ensure_block data_block_alloc
ensure_block-open_files i s = ground arith

module _ (i : ℕ) {s : Fs} (v : IsValid s) (f : IsFile s (pos i)) where
  pub ensure_block-IsValid : IsValid (ensure_block i s)
  unfolding ensure_block data_block_alloc
  ensure_block-IsValid = elim (Bool-cases ((s.inode_table i).i_size == 0)) [
    | inr full ↦ ground (arith, full)
    | inl empty ↦ elim (Option-cases (first_free s.free_blocks data_blocks 0)) [
      | inl e ↦
          grind (arith, v.sizes, v.block_valid, v.block_taken, v.separate, v.entries, v.handles)
      | inr (b, e) ↦
          grind (arith, v.sizes, v.block_valid, v.block_taken, v.separate, v.entries, v.handles)
    ]
  ]

  pub ensure_block-OwnsBlock :
      valid_block_number ((ensure_block i s).inode_table i).i_data_block ≡ true
      → OwnsBlock i (ensure_block i s)
  unfolding ensure_block data_block_alloc
  ensure_block-OwnsBlock h = elim (Bool-cases ((s.inode_table i).i_size == 0)) [
    | inr full ↦ grind (arith, full, v.block_valid, v.block_taken, v.separate)
    | inl empty ↦ elim (Option-cases (first_free s.free_blocks data_blocks 0)) [
      | inl e ↦ ground (arith, e)
      | inr (b, e) ↦ grind (
        arith,
        first_free-some s.free_blocks data_blocks 0 {j = b} e,
        v.block_valid,
        v.block_taken,
        v.separate,
      )
    ]
  ]

  pub ensure_block-IsFile : IsFile (ensure_block i s) (pos i)
  unfolding ensure_block data_block_alloc
  ensure_block-IsFile = ground (arith, f)

  -- In a valid state a truncation succeeds.
  pub truncate-succeeds : truncate i s ≡ some (truncated i s)
  unfolding truncate data_block_free
  truncate-succeeds = grind (arith, v.block_valid i f.is_taken)

  pub truncated-IsValid : IsValid (truncated i s)
  truncated-IsValid = elim (Bool-cases (ltb 0 (s.inode_table i).i_size)) [
    | inr empty ↦ ground (arith, empty, v)
    | inl full ↦ grind (
      arith,
      v.sizes,
      v.block_valid,
      v.block_taken,
      v.block_valid i f.is_taken,
      v.separate,
      v.entries,
      v.handles,
    )
  ]

  pub truncated-IsFile : IsFile (truncated i s) (pos i)
  truncated-IsFile = ground (arith, f)
