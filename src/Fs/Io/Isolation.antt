-- ===== src/Fs/Io/Isolation.antt =====
-- A write through one handle against the contents of the other files.
use so_project.Base.{
  ℕ, ◌+◌, ◌*◌, ◌^◌, ◌≤◌, ◌<◌, ◌≡◌, ◌≢◌, inl, inr, ℤ, pos, negsuc, pos_part, Memory, blit, taken,
  true, arith, refl, sym,
}
use so_project.Fs.State.{Fs, block_size, valid_block_number}
use so_project.Fs.Block.{data_block_alloc}
use so_project.Fs.Operations.{ensure_block, write_unsynchronized}
use so_project.Fs.Valid.{IsValid, IsFile, IsOpen}
use so_project.Fs.Valid.Blocks.{OwnsBlock, ensure_block-OwnsBlock}
use so_project.Fs.Valid.Handle.{IsFile-pos, file_of, byte_of, amount_written}
use so_project.Fs.Valid.Write.{stored, clamp_write-le}
use so_project.Fs.Io.Write.{
  ensure_block-cases, ensure_block-data, write-blocked, write-stored, write-nothing,
}
use native.Mathlib.Decide.{ℕ_discrete}

-- The i-node j and every byte of its block are as they were.
abbrev pub SameFile : ℕ → Fs → Fs → Type 0
SameFile j s s' =
    (s'.inode_table j ≡ s.inode_table j)
    × ((k : ℕ) → k < block_size → byte_of s' j k ≡ byte_of s j k)

pub ensure_block-other :
    (i j : ℕ) (s : Fs) → j ≢ i → (ensure_block i s).inode_table j ≡ s.inode_table j
unfolding ensure_block data_block_alloc
ensure_block-other i j s ne = ground arith

pub ensure_block-taken : (i : ℕ) (s : Fs) → (ensure_block i s).freeinode_ts ≡ s.freeinode_ts
unfolding ensure_block data_block_alloc
ensure_block-taken i s = ground arith

numbers-apart :
    (a b : ℤ)
    → valid_block_number a ≡ true
    → valid_block_number b ≡ true
    → a ≢ b
    → pos_part a ≢ pos_part b
numbers-apart (pos a) (pos b) h g ne = ground arith
numbers-apart (pos a) (negsuc b) h g ne = ground arith
numbers-apart (negsuc a) b h g ne = ground arith

-- Ranges within two different blocks have no byte in common.
outside :
    (m : Memory) (b c at n : ℕ) (src : Memory) (k : ℕ)
    → b ≢ c
    → at + n ≤ block_size
    → k < block_size
    → blit m (b * block_size + at) n src (c * block_size + k) ≡ m (c * block_size + k)
outside m b c at n src k ne le lt = ground arith

module _ (h : ℕ) (buffer : Memory) (to_write : ℕ) {s : Fs} (v : IsValid s) (o : IsOpen h s)
    (w : to_write < 2 ^ 63) (j : ℕ) (t : s.freeinode_ts j ≡ taken)
    (holds : 0 < (s.inode_table j).i_size) (other : j ≢ file_of h s) where
  abbrev s₁ : Fs
  s₁ = ensure_block (file_of h s) s

  f : IsFile s (pos (file_of h s))
  f = IsFile-pos (v.handles h o.is_taken)

  same_node : s₁.inode_table j ≡ s.inode_table j
  same_node = ensure_block-other (file_of h s) j s other

  same_data : s₁.fs_data ≡ s.fs_data
  same_data = ensure_block-data (file_of h s) s

  ensured-Same : SameFile j s s₁
  ensured-Same = (same_node, λ k lt. cc (same_node, same_data))

  blocks_apart :
      OwnsBlock (file_of h s) s₁
      → pos_part (s₁.inode_table (file_of h s)).i_data_block
        ≢ pos_part (s.inode_table j).i_data_block
  blocks_apart own =
      numbers-apart (s₁.inode_table (file_of h s)).i_data_block (s.inode_table j).i_data_block
        own.valid_number (v.block_valid j t holds)
        (λ e. other (
          own.alone j (rw (ensure_block-taken (file_of h s) s) t) (rw same_node holds)
            (rw same_node (sym e))))

  stored-Same :
      valid_block_number (s₁.inode_table (file_of h s)).i_data_block ≡ true
      → SameFile j s (
          stored h
            (file_of h s)
            (s.open_file_table h).of_offset
            (amount_written h to_write s)
            buffer
            s₁)
  stored-Same good = (
    ground (arith, same_node),
    λ k lt. ground (
      arith,
      same_node,
      same_data,
      outside s₁.fs_data (pos_part (s₁.inode_table (file_of h s)).i_data_block)
          (pos_part (s.inode_table j).i_data_block) (s.open_file_table h).of_offset
          (amount_written h to_write s) buffer k
          (blocks_apart (ensure_block-OwnsBlock (file_of h s) v f good))
          (clamp_write-le (s.open_file_table h).of_offset to_write (v.offsets h o.is_taken) w) lt,
    ),
  )

  -- For well formed tables: a write of less than 2 ^ 63 bytes through an open handle leaves every
  -- other i-node that is taken and holds data, the root directory's among them, and every byte of
  -- its block as they were.
  pub write-others : SameFile j s (write_unsynchronized (pos h) buffer to_write s).1
  write-others = elim (ℕ_discrete (amount_written h to_write s) 0) [
    | yes z ↦ rw (write-nothing h buffer to_write v o w z) (refl, λ k lt. refl)
    | no p ↦ elim (ensure_block-cases (file_of h s) v f) [
      | inl good ↦ rw (write-stored h buffer to_write v o w (omega arith) good) (stored-Same good)
      | inr (empty, none_free, bad) ↦
          rw (write-blocked h buffer to_write v o w (omega arith) bad) ensured-Same
    ]
  ]
