-- ===== src/P1/Files/Indirects.antt =====
-- The loop of inode_update over the pointers in the block of pointers.
use so_project.Base.{
  ℕ, zero, suc, ◌+◌, ◌-◌, ◌*◌, ◌≤◌, ◌<◌, ◌≡◌, ◌≢◌, ◌⊎◌, inl, inr, pos, minus_one, ◌==ℤ◌, ==ℤ_iff,
  Bool-cases, free, taken, first_free-some, update, arith, refl, ◌∙◌, update-same, update-other,
  sym, ap, subst, load_int, store_int, load_int-store_int, load_int-store_apart,
}
use so_project.Fs.State.{block_size, data_blocks}
use so_project.P1.State.{Fs, direct_block_pointers, max_block_pointers}
use so_project.P1.Block.{data_block_alloc}
use so_project.P1.Update.{ensure_indirect, ensure_indirects}
use so_project.P1.Files.Blocks.{OwnsBlocks, pointers, indirect, file_blocks}
use so_project.P1.Files.Ensure.{block_of, Extends-refl, Given, Ensured, Given-Ensured}
use so_project.P1.Files.Directs.{
  pointers-direct, room-first_free, EnsuredAll, EnsuredAll-nothing, EnsuredAll-next,
}
use so_project.P1.Files.PointerBlock.{pointers-behind, indirect-block}

-- The free block b has become the pointer k of the block c of pointers.
abbrev given_indirect : ℕ → ℕ → ℕ → Fs → Fs
given_indirect c k b s = record s {
  free_blocks = update s.free_blocks b taken;
  fs_data = store_int s.fs_data (c * block_size + 4 * k) (pos b);
}

module _ (w i c k b : ℕ) (s : Fs) (v : OwnsBlocks w i s) (block : block_of i s ≡ pos c)
    (below : b < data_blocks) (fresh : s.free_blocks b ≡ free) (here : k < max_block_pointers)
    (absent : pointers i s (direct_block_pointers + k) ≡ minus_one) where
  indirect-of :
      (t : Fs) (j : ℕ)
      → block_of i t ≡ pos c
      → direct_block_pointers ≤ j
      → pointers i t j ≡ load_int t.fs_data (c * block_size + 4 * (j - direct_block_pointers))
  indirect-of t j e le =
      pointers-behind i j t le
      ∙ ap (λ z. indirect t.fs_data z (j - direct_block_pointers)) e
      ∙ indirect-block t.fs_data c (j - direct_block_pointers)

  given_indirect-pointers :
      (j : ℕ)
      → pointers i (given_indirect c k b s) j
        ≡ update (pointers i s) (direct_block_pointers + k) (pos b) j
  given_indirect-pointers j = elim (ℕ_place j) [
    | inl direct ↦
        pointers-direct i j (given_indirect c k b s) direct
        ∙ sym (pointers-direct i j s direct)
        ∙ sym (
            update-other (pointers i s) (direct_block_pointers + k) j (pos b)
              (λ e. absurd (omega arith)))
    | inr (inl e) ↦
        indirect-of (given_indirect c k b s) j block (omega arith)
        ∙ ap (λ x. load_int (given_indirect c k b s).fs_data (c * block_size + 4 * x))
            (let at_k : j - direct_block_pointers ≡ k = omega arith in at_k)
        ∙ load_int-store_int s.fs_data (c * block_size + 4 * k) (pos b) (omega arith)
        ∙ sym (
            ap (update (pointers i s) (direct_block_pointers + k) (pos b)) e
            ∙ update-same (pointers i s) (direct_block_pointers + k) (pos b))
    | inr (inr (le, ne)) ↦
        indirect-of (given_indirect c k b s) j block le
        ∙ load_int-store_apart s.fs_data (c * block_size + 4 * k) (pos b)
            (c * block_size + 4 * (j - direct_block_pointers)) (omega arith)
        ∙ sym (indirect-of s j block le)
        ∙ sym (update-other (pointers i s) (direct_block_pointers + k) j (pos b) ne)
  ]
    where
      ℕ_place :
          (j' : ℕ)
          → (j' < direct_block_pointers)
            ⊎ (j' ≡ direct_block_pointers + k)
            ⊎ ((direct_block_pointers ≤ j') × (j' ≢ direct_block_pointers + k))
      ℕ_place j' = ground arith

  given_indirect-Given : Given i (direct_block_pointers + k) b s (given_indirect c k b s)
  given_indirect-Given = record {
    below = below;
    fresh = fresh;
    absent = absent;
    named = λ j j_lt. given_indirect-pointers j;
    marked = refl;
    block = refl;
    same_entries = refl;
    same_handles = refl;
    same_size = refl;
    same_nodes = λ j ne. refl;
    same_bytes = λ d r lt e ne.
        (let other : d ≢ c = λ same. ne (block ∙ ap pos (sym same)) in ground (arith, other));
  }

pub ensure_indirect-Ensured :
    (w i c k : ℕ) (s : Fs)
    → OwnsBlocks w i s
    → block_of i s ≡ pos c
    → direct_block_pointers + k < w
    → w ≤ file_blocks
    → Ensured w i (direct_block_pointers + k) s (ensure_indirect (c * block_size) k s)
unfolding ensure_indirect data_block_alloc
ensure_indirect-Ensured w i c k s v block lt le =
    let pointer : pointers i s (direct_block_pointers + k)
        ≡ load_int s.fs_data (c * block_size + 4 * k) =
      pointers-behind i (direct_block_pointers + k) s (omega arith)
      ∙ ap (λ z. indirect s.fs_data z (direct_block_pointers + k - direct_block_pointers)) block
      ∙ indirect-block s.fs_data c (direct_block_pointers + k - direct_block_pointers)
      ∙ ap (λ x. load_int s.fs_data (c * block_size + 4 * x))
          (let back : direct_block_pointers + k - direct_block_pointers ≡ k = omega arith in
            back) in
    elim (Bool-cases (load_int s.fs_data (c * block_size + 4 * k) ==ℤ minus_one)) [
      | inr there ↦ rw there (v, Extends-refl i s, λ e. ground (arith, e, pointer, there))
      | inl none_there ↦
          (let absent =
              pointer
              ∙ (==ℤ_iff (load_int s.fs_data (c * block_size + 4 * k)) minus_one).0 none_there in
            let (b, e) = room-first_free w i (direct_block_pointers + k) s v lt absent in
            let found = first_free-some s.free_blocks data_blocks 0 {j = b} e in
            rw none_there (
              rw (e, data_block_alloc)
                (Given-Ensured w i (direct_block_pointers + k) b s (given_indirect c k b s)
                  (given_indirect-Given w i c k b s v block (omega arith) found.2 (omega arith)
                    absent)
                  v lt le)))
    ]

pub ensure_indirects-EnsuredAll :
    (w i c n k : ℕ) (s : Fs)
    → OwnsBlocks w i s
    → block_of i s ≡ pos c
    → direct_block_pointers + k + n ≤ w
    → w ≤ file_blocks
    → EnsuredAll w i n (direct_block_pointers + k) s (ensure_indirects (c * block_size) n k s)
unfolding ensure_indirects
ensure_indirects-EnsuredAll w i c zero k s v block within le =
    EnsuredAll-nothing w i (direct_block_pointers + k) s v
ensure_indirects-EnsuredAll w i c (suc n) k s v block within le =
    let t = ensure_indirect (c * block_size) k s in
    let one = ensure_indirect-Ensured w i c k s v block (omega arith) le in
    let block' : block_of i t ≡ pos c = one.1.block_kept (λ e. cc (e, block)) ∙ block in
    let next : direct_block_pointers + (k + 1) ≡ direct_block_pointers + k + 1 = omega arith in
    EnsuredAll-next w i n (direct_block_pointers + k) s t
      (ensure_indirects (c * block_size) n (k + 1) t) (omega arith) one
      (subst (λ j. EnsuredAll w i n j t (ensure_indirects (c * block_size) n (k + 1) t)) next
        (ensure_indirects-EnsuredAll w i c n (k + 1) t one.0 block' (omega arith) le))
