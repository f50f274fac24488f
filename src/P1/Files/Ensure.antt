-- ===== src/P1/Files/Ensure.antt =====
-- What the allocation of blocks in inode_update does to the pointers of the i-node.
use so_project.Base.{
  ℕ, ◌+◌, ◌*◌, ◌≤◌, ◌<◌, ◌≡◌, ◌≢◌, ℤ, pos, minus_one, free, taken, update, arith, refl, ◌∙◌, sym,
  ap, subst,
}
use so_project.Fs.State.{block_size, data_blocks}
use so_project.P1.State.{Fs}
use so_project.P1.Files.Blocks.{OwnsBlocks, Owned, Owned-eq, update-Owned, pointers, file_blocks}

abbrev pub block_of : ℕ → Fs → ℤ
block_of i s = (s.inode_table i).i_data_block

-- What inode_update leaves alone: all but the pointers that named no block, the block of pointers, and
-- the free blocks.
pub record Extends (i : ℕ) (s s' : Fs) : Type 0 where
  pub same_entries : s'.open_file_table ≡ s.open_file_table
  pub same_handles : s'.free_open_file_entries ≡ s.free_open_file_entries
  pub same_size : (s'.inode_table i).i_size ≡ (s.inode_table i).i_size
  pub same_nodes : (j : ℕ) → j ≢ i → s'.inode_table j ≡ s.inode_table j
  pub kept :
      (k : ℕ) → k < file_blocks → pointers i s k ≢ minus_one → pointers i s' k ≡ pointers i s k
  pub block_kept : block_of i s ≢ minus_one → block_of i s' ≡ block_of i s
  pub still_taken : (c : ℕ) → s.free_blocks c ≡ taken → s'.free_blocks c ≡ taken
  pub unnamed :
      (c k : ℕ)
      → k < file_blocks
      → s.free_blocks c ≡ taken
      → pointers i s k ≢ pos c
      → pointers i s' k ≢ pos c
  pub not_pointers :
      (c : ℕ) → s.free_blocks c ≡ taken → block_of i s ≢ pos c → block_of i s' ≢ pos c
  pub same_bytes :
      (c r : ℕ)
      → r < block_size
      → s.free_blocks c ≡ taken
      → block_of i s ≢ pos c
      → s'.fs_data (c * block_size + r) ≡ s.fs_data (c * block_size + r)

pub Extends-refl : (i : ℕ) (s : Fs) → Extends i s s
Extends-refl i s = record {
  same_entries = refl;
  same_handles = refl;
  same_size = refl;
  same_nodes = λ j ne. refl;
  kept = λ k lt ne. refl;
  block_kept = λ ne. refl;
  still_taken = λ c e. e;
  unnamed = λ c k lt e ne. ne;
  not_pointers = λ c e ne. ne;
  same_bytes = λ c r lt e ne. refl;
}

pub Extends-trans : {i : ℕ} {s t u : Fs} → Extends i s t → Extends i t u → Extends i s u
Extends-trans a b = record {
  same_entries = b.same_entries ∙ a.same_entries;
  same_handles = b.same_handles ∙ a.same_handles;
  same_size = b.same_size ∙ a.same_size;
  same_nodes = λ j ne. b.same_nodes j ne ∙ a.same_nodes j ne;
  kept = λ k lt ne. b.kept k lt (λ e. ne (sym (a.kept k lt ne) ∙ e)) ∙ a.kept k lt ne;
  block_kept = λ ne. b.block_kept (λ e. ne (sym (a.block_kept ne) ∙ e)) ∙ a.block_kept ne;
  still_taken = λ c e. b.still_taken c (a.still_taken c e);
  unnamed = λ c k lt e ne. b.unnamed c k lt (a.still_taken c e) (a.unnamed c k lt e ne);
  not_pointers = λ c e ne. b.not_pointers c (a.still_taken c e) (a.not_pointers c e ne);
  same_bytes = λ c r lt e ne.
      b.same_bytes c r lt (a.still_taken c e) (a.not_pointers c e ne) ∙ a.same_bytes c r lt e ne;
}

-- The free block b has become the k-th block of the i-node i.
pub record Given (i k b : ℕ) (s t : Fs) : Type 0 where
  pub below : b < data_blocks
  pub fresh : s.free_blocks b ≡ free
  pub absent : pointers i s k ≡ minus_one
  pub named : (j : ℕ) → j < file_blocks → pointers i t j ≡ update (pointers i s) k (pos b) j
  pub marked : t.free_blocks ≡ update s.free_blocks b taken
  pub block : block_of i t ≡ block_of i s
  pub same_entries : t.open_file_table ≡ s.open_file_table
  pub same_handles : t.free_open_file_entries ≡ s.free_open_file_entries
  pub same_size : (t.inode_table i).i_size ≡ (s.inode_table i).i_size
  pub same_nodes : (j : ℕ) → j ≢ i → t.inode_table j ≡ s.inode_table j
  pub same_bytes :
      (c r : ℕ)
      → r < block_size
      → s.free_blocks c ≡ taken
      → block_of i s ≢ pos c
      → t.fs_data (c * block_size + r) ≡ s.fs_data (c * block_size + r)

-- One round: the invariant holds, nothing else changes, and the pointer names a block.
abbrev pub Ensured : ℕ → ℕ → ℕ → Fs → Fs → Type 0
Ensured w i k s t = OwnsBlocks w i t × Extends i s t × (pointers i t k ≢ minus_one)

module _ (w i k b : ℕ) (s t : Fs) (g : Given i k b s t) (v : OwnsBlocks w i s) (lt : k < w)
    (le : w ≤ file_blocks) where
  Given-Owned : OwnsBlocks w i t
  Given-Owned =
      subst (λ z. Owned w z (pointers i t) t.free_blocks) (sym g.block)
        (subst (λ f. Owned w (block_of i s) (pointers i t) f) (sym g.marked)
          (Owned-eq w (block_of i s) (update (pointers i s) k (pos b)) (pointers i t)
            (update s.free_blocks b taken)
            (update-Owned w (block_of i s) (pointers i s) s.free_blocks k b v lt g.below g.fresh
              g.absent)
            (λ j j_lt. g.named j (omega arith))))

  Given-Extends : Extends i s t
  Given-Extends = record {
    same_entries = g.same_entries;
    same_handles = g.same_handles;
    same_size = g.same_size;
    same_nodes = g.same_nodes;
    kept = λ j j_lt ne. g.named j j_lt ∙ ground (arith, ne, g.absent);
    block_kept = λ ne. g.block;
    still_taken = λ c e. ap (λ f. f c) g.marked ∙ ground (arith, e);
    unnamed = λ c j j_lt e ne e'.
        (let named = g.named j j_lt in let fresh = g.fresh in ground (arith, e', ne, e));
    not_pointers = λ c e ne e'. ne (sym g.block ∙ e');
    same_bytes = g.same_bytes;
  }

  pub Given-Ensured : Ensured w i k s t
  Given-Ensured =
      (Given-Owned, Given-Extends, λ e. (let named = g.named k (omega arith) in ground (arith, e)))
