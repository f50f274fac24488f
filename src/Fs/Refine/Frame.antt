-- ===== src/Fs/Refine/Frame.antt =====
-- What a write through an open handle leaves alone, in the file itself and in the tables.
use so_project.Base.{
  ℕ, ◌+◌, ◌≤◌, ◌<◌, ◌≡◌, ◌≢◌, ◌⊎◌, inl, inr, ◌^◌, ℤ, pos, minus_one, signed64, ◌∙◌, sym, ap, Memory,
  arith, refl,
}
use native.Mathlib.Decide.{ℕ_discrete}
use so_project.Fs.State.{Fs}
use so_project.Fs.Block.{data_block_alloc}
use so_project.Fs.Operations.{ensure_block, write_unsynchronized}
use so_project.Fs.Valid.{IsValid, IsOpen}
use so_project.Fs.Valid.Handle.{IsFile-pos, file_of, offset_of, size_of, byte_of, amount_written}
use so_project.Fs.Valid.Write.{stored, clamp_write-le}
use so_project.Fs.Io.Write.{
  ensure_block-cases, ensure_block-size, write-blocked, write-stored, write-nothing,
}
use so_project.Fs.Io.Isolation.{ensure_block-taken}

-- A file with data has its block.
ensure_block-full : (i : ℕ) (s : Fs) → 0 < (s.inode_table i).i_size → ensure_block i s ≡ s
unfolding ensure_block
ensure_block-full i s p = ground arith

ensure_block-type :
    (i j : ℕ) (s : Fs)
    → ((ensure_block i s).inode_table j).i_node_type ≡ (s.inode_table j).i_node_type
unfolding ensure_block data_block_alloc
ensure_block-type i j s = ground arith

ensure_block-inumber :
    (i g : ℕ) (s : Fs)
    → ((ensure_block i s).open_file_table g).of_inumber ≡ (s.open_file_table g).of_inumber
unfolding ensure_block data_block_alloc
ensure_block-inumber i g s = ground arith

-- From s to s', n bytes at the most were stored behind the offset of h.
pub record Framed (h n : ℕ) (s s' : Fs) : Type 0 where
  pub used : s'.freeinode_ts ≡ s.freeinode_ts
  pub types : (j : ℕ) → (s'.inode_table j).i_node_type ≡ (s.inode_table j).i_node_type
  pub other_sizes : (j : ℕ) → j ≢ file_of h s → (s'.inode_table j).i_size ≡ (s.inode_table j).i_size
  pub same_file : file_of h s' ≡ file_of h s
  pub own_bytes :
      (p : ℕ)
      → p < size_of h s
      → (p < offset_of h s) ⊎ (offset_of h s + n ≤ p)
      → byte_of s' (file_of h s) p ≡ byte_of s (file_of h s) p

Framed-refl : (h n : ℕ) (s : Fs) → Framed h n s s
Framed-refl h n s = record {
  used = refl;
  types = λ j. refl;
  other_sizes = λ j ne. refl;
  same_file = refl;
  own_bytes = λ p lt apart. refl;
}

ensure_block-Framed : (h n : ℕ) (s : Fs) → Framed h n s (ensure_block (file_of h s) s)
ensure_block-Framed h n s = record {
  used = ensure_block-taken (file_of h s) s;
  types = λ j. ensure_block-type (file_of h s) j s;
  other_sizes = λ j ne. ensure_block-size (file_of h s) j s;
  same_file = ground (arith, ensure_block-inumber (file_of h s) h s);
  own_bytes = λ p lt apart. rw (ensure_block-full (file_of h s) s (omega arith)) refl;
}

stored-Framed :
    (h n : ℕ) (buffer : Memory) (s : Fs)
    → Framed h n s (stored h (file_of h s) (offset_of h s) n buffer (ensure_block (file_of h s) s))
stored-Framed h n buffer s = record {
  used = ground (arith, ensure_block-taken (file_of h s) s);
  types = λ j. ground (arith, ensure_block-type (file_of h s) j s);
  other_sizes = λ j ne. ground (arith, ensure_block-size (file_of h s) j s, ne);
  same_file = ground (arith, ensure_block-inumber (file_of h s) h s);
  own_bytes = λ p lt apart. rw (ensure_block-full (file_of h s) s (omega arith)) (ground arith);
}

pub write-Framed :
    (h : ℕ) (buffer : Memory) (to_write : ℕ) {s : Fs} (v : IsValid s) (o : IsOpen h s)
    → to_write < 2 ^ 63
    → Framed h (amount_written h to_write s) s (write_unsynchronized (pos h) buffer to_write s).1
write-Framed h buffer to_write {s} v o w = elim (ℕ_discrete (amount_written h to_write s) 0) [
  | yes z ↦
      rw (write-nothing h buffer to_write v o w z) (Framed-refl h (amount_written h to_write s) s)
  | no p ↦ elim (ensure_block-cases (file_of h s) v (IsFile-pos (v.handles h o.is_taken))) [
    | inl good ↦
        rw (write-stored h buffer to_write v o w (omega arith) good)
          (stored-Framed h (amount_written h to_write s) buffer s)
    | inr (empty, none_free, bad) ↦
        rw (write-blocked h buffer to_write v o w (omega arith) bad)
          (ensure_block-Framed h (amount_written h to_write s) s)
  ]
]

-- A write that fails leaves the size.
pub write_failed-size :
    (h : ℕ) (buffer : Memory) (to_write : ℕ) {s : Fs} (v : IsValid s) (o : IsOpen h s)
    → to_write < 2 ^ 63
    → (write_unsynchronized (pos h) buffer to_write s).0 ≡ minus_one
    → size_of h (write_unsynchronized (pos h) buffer to_write s).1 ≡ size_of h s
write_failed-size h buffer to_write {s} v o w failed =
    elim (ℕ_discrete (amount_written h to_write s) 0) [
      | yes z ↦ rw (write-nothing h buffer to_write v o w z) refl
      | no p ↦ elim (ensure_block-cases (file_of h s) v (IsFile-pos (v.handles h o.is_taken))) [
        | inl good ↦
            (let stored_it = write-stored h buffer to_write v o w (omega arith) good in
              let value : signed64 (amount_written h to_write s) ≡ minus_one =
                sym (ap (λ (r : ℤ × Fs). r.0) stored_it) ∙ failed in
              let fits = clamp_write-le (offset_of h s) to_write (v.offsets h o.is_taken) w in
              absurd (ground (arith, value, fits)))
        | inr (empty, none_free, bad) ↦
            rw (write-blocked h buffer to_write v o w (omega arith) bad) (
              ground (
                arith,
                ensure_block-size (file_of h s) (file_of h s) s,
                ensure_block-inumber (file_of h s) h s,
              ))
      ]
    ]
