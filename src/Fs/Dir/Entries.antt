-- ===== src/Fs/Dir/Entries.antt =====
-- What the entries of a directory read after one of them has been filled.
use so_project.Base.{
  ℕ, zero, suc, ◌+◌, ◌≤◌, ◌<◌, ◌≡◌, ◌≢◌, ◌⊎◌, inl, inr, ℤ, minus_one, ◌==ℤ◌, IsInt, Memory, CString,
  chars, blit, store_int, ltb, if◌then◌else◌, ==ℤ_iff, load_int-put, load_int-blit,
  load_int-store_apart, load_int-store_int, ◌∙◌, arith, some, Bool-cases,
}
use so_project.Fs.State.{max_file_name}
use so_project.Fs.Dir.{d_inumber, d_name, entry_at, fill_entry, find_empty}

module _ (m : Memory) (block k : ℕ) (z : ℤ) (name : CString) where
  -- The i-number that was stored is read back.
  pub d_inumber-fill_self : IsInt z → d_inumber (fill_entry m (entry_at block k) z name) block k ≡ z
  d_inumber-fill_self h =
      load_int-put (blit (store_int m (entry_at block k + 40) z) (entry_at block k) 39 (chars name))
        (entry_at block k + 39) 0 (entry_at block k + 40) (inr (omega arith))
      ∙ load_int-blit (store_int m (entry_at block k + 40) z) (entry_at block k) 39 (chars name)
          (entry_at block k + 40) (inr (omega arith))
      ∙ load_int-store_int m (entry_at block k + 40) z h

  -- No other entry's i-number changes.
  pub d_inumber-fill_ne :
      (j : ℕ)
      → j ≢ k
      → d_inumber (fill_entry m (entry_at block k) z name) block j ≡ d_inumber m block j
  d_inumber-fill_ne j ne = elim (apart j ne) [
    | inl before ↦
        load_int-put
          (blit (store_int m (entry_at block k + 40) z) (entry_at block k) 39 (chars name))
          (entry_at block k + 39) 0 (entry_at block j + 40) (inl (omega arith))
        ∙ load_int-blit (store_int m (entry_at block k + 40) z) (entry_at block k) 39 (chars name)
            (entry_at block j + 40) (inl (omega arith))
        ∙ load_int-store_apart m (entry_at block k + 40) z (entry_at block j + 40)
            (inl (omega arith))
    | inr after ↦
        load_int-put
          (blit (store_int m (entry_at block k + 40) z) (entry_at block k) 39 (chars name))
          (entry_at block k + 39) 0 (entry_at block j + 40) (inr (omega arith))
        ∙ load_int-blit (store_int m (entry_at block k + 40) z) (entry_at block k) 39 (chars name)
            (entry_at block j + 40) (inr (omega arith))
        ∙ load_int-store_apart m (entry_at block k + 40) z (entry_at block j + 40)
            (inr (omega arith))
  ]
    where
      apart : (j : ℕ) → j ≢ k → (j < k) ⊎ (k < j)
      apart j ne = omega arith

  -- The name field holds the first 39 characters and a terminator.
  pub d_name-fill_self :
      (x : ℕ)
      → x < max_file_name
      → d_name (fill_entry m (entry_at block k) z name) block k x
        ≡ (if ltb x 39 then chars name x else 0)
  d_name-fill_self x h = ground arith

  pub d_name-fill_ne :
      (j x : ℕ)
      → x < max_file_name
      → j ≢ k
      → d_name (fill_entry m (entry_at block k) z name) block j x ≡ d_name m block j x
  d_name-fill_ne j x h ne = ground arith

pub find_empty-some :
    (m : Memory) (block n i : ℕ) {j : ℕ}
    → find_empty m block n i ≡ some j
    → (i ≤ j) × (j < i + n) × (d_inumber m block j ≡ minus_one)
unfolding find_empty
find_empty-some m block zero i h = ground arith
find_empty-some m block (suc n) i {j} h = elim (Bool-cases (d_inumber m block i ==ℤ minus_one)) [
  | inl e ↦ ground (arith, ==ℤ_iff (d_inumber m block i) minus_one)
  | inr e ↦
      (let ih = find_empty-some m block n (i + 1) {j = j} (ground arith) in
        (omega arith, omega arith, ih.2))
]
