-- ===== src/P1/Files/PointerBlock.antt =====
-- The block of pointers of an i-node, and its allocation in inode_update.
use so_project.Base.{
  ℕ, zero, suc, ◌+◌, ◌-◌, ◌*◌, ◌≤◌, ◌<◌, ◌≡◌, ◌≢◌, ◌⊎◌, inl, inr, ℤ, pos, negsuc, minus_one,
  pos_part, ◌==ℤ◌, ==ℤ_iff, Bool-cases, Option-cases, free, taken, first_free, first_free-some,
  update, arith, refl, ◌∙◌, update-same, update-other, sym, ap, subst, true, ltb, some, Memory,
  load_int, store_int, load_int-store_int,
}
use native.Mathlib.Decide.{ℕ_discrete}
use so_project.Fs.State.{block_size, data_blocks, valid_block_number}
use so_project.P1.State.{Fs, Inode, direct_block_pointers, max_block_pointers}
use so_project.P1.Block.{data_block_alloc, data_block_get, pointer_block_alloc, clear_pointers}
use so_project.P1.Inode.{set_inode}
use so_project.P1.Update.{ensure_pointer_block}
use so_project.P1.Files.Blocks.{
  direct_or_behind, first_free-full, OwnsBlocks, Owned, Owned-eq, block-Owned, pointers, indirect,
  file_blocks,
}
use so_project.P1.Files.Ensure.{block_of, Extends, Extends-refl}
use so_project.P1.Files.Directs.{pointers-direct}

pub pointers-behind :
    (i k : ℕ) (s : Fs)
    → direct_block_pointers ≤ k
    → pointers i s k ≡ indirect s.fs_data (block_of i s) (k - direct_block_pointers)
unfolding pointers
pointers-behind i k s le = ground arith

pub indirect-block :
    (m : Memory) (c k : ℕ) → indirect m (pos c) k ≡ load_int m (c * block_size + 4 * k)
unfolding indirect
indirect-block m c k = refl

pub indirect-none : (m : Memory) (k : ℕ) → indirect m minus_one k ≡ minus_one
unfolding indirect
indirect-none m k = refl

clear_pointers-apart :
    (m : Memory) (a n k x : ℕ)
    → (x < a + 4 * k) ⊎ (a + 4 * (k + n) ≤ x)
    → clear_pointers m a n k x ≡ m x
unfolding clear_pointers
clear_pointers-apart m a zero k x h = refl
clear_pointers-apart m a (suc n) k x h =
    clear_pointers-apart (store_int m (a + 4 * k) minus_one) a n (k + 1) x (ground arith)
    ∙ ground arith

clear_pointers-kept :
    (m : Memory) (a n k x : ℕ)
    → x + 4 ≤ a + 4 * k
    → load_int (clear_pointers m a n k) x ≡ load_int m x
clear_pointers-kept m a n k x h =
    rw
      (
        clear_pointers-apart m a n k x (inl (omega arith)),
        clear_pointers-apart m a n k (x + 1) (inl (omega arith)),
        clear_pointers-apart m a n k (x + 2) (inl (omega arith)),
        clear_pointers-apart m a n k (x + 3) (inl (omega arith)),
      )
      refl

clear_pointers-cleared :
    (m : Memory) (a n k j : ℕ)
    → k ≤ j
    → j < k + n
    → load_int (clear_pointers m a n k) (a + 4 * j) ≡ minus_one
unfolding clear_pointers
clear_pointers-cleared m a zero k j le lt = absurd (omega arith)
clear_pointers-cleared m a (suc n) k j le lt =
    let m' = store_int m (a + 4 * k) minus_one in
    elim (ℕ_discrete j k) [
      | yes e ↦ rw e (
          clear_pointers-kept m' a n (k + 1) (a + 4 * k) (omega arith)
          ∙ load_int-store_int m (a + 4 * k) minus_one (omega arith))
      | no ne ↦ clear_pointers-cleared m' a n (k + 1) j (omega arith) (omega arith)
    ]

-- The free block b has become the block of pointers of the i-node i.
abbrev given_block : ℕ → ℕ → Fs → Fs
given_block i b s =
    set_inode i (record (s.inode_table i) { i_data_block = pos b })
      (record s {
        free_blocks = update s.free_blocks b taken;
        fs_data = clear_pointers s.fs_data (b * block_size) max_block_pointers 0;
      })

module _ (i b : ℕ) (s : Fs) (below : b < data_blocks) (fresh : s.free_blocks b ≡ free)
    (absent : block_of i s ≡ minus_one) where
  given_block-node :
      (given_block i b s).inode_table i ≡ record (s.inode_table i) { i_data_block = pos b }
  given_block-node = update-same s.inode_table i _

  given_block-pointers :
      (j : ℕ) → j < file_blocks → pointers i (given_block i b s) j ≡ pointers i s j
  given_block-pointers j lt = elim (direct_or_behind j) [
    | inl direct ↦
        pointers-direct i j (given_block i b s) direct
        ∙ ap (λ (n : Inode). n.i_direct_blocks j) given_block-node
        ∙ sym (pointers-direct i j s direct)
    | inr behind ↦
        pointers-behind i j (given_block i b s) behind
        ∙ ap
            (λ (n : Inode).
              indirect (given_block i b s).fs_data n.i_data_block (j - direct_block_pointers))
            given_block-node
        ∙ indirect-block (given_block i b s).fs_data b (j - direct_block_pointers)
        ∙ clear_pointers-cleared s.fs_data (b * block_size) max_block_pointers 0
            (j - direct_block_pointers) (omega arith) (omega arith)
        ∙ sym (indirect-none s.fs_data (j - direct_block_pointers))
        ∙ ap (λ z. indirect s.fs_data z (j - direct_block_pointers)) (sym absent)
        ∙ sym (pointers-behind i j s behind)
  ]

  given_block-Extends : Extends i s (given_block i b s)
  given_block-Extends = record {
    same_entries = refl;
    same_handles = refl;
    same_size = ap (λ (n : Inode). n.i_size) given_block-node;
    same_nodes = λ j ne. update-other s.inode_table i j _ ne;
    kept = λ k lt ne. given_block-pointers k lt;
    block_kept = λ ne. absurd (ne absent);
    still_taken = λ c e. ground (arith, e);
    unnamed = λ c k lt e ne e'. ne (sym (given_block-pointers k lt) ∙ e');
    not_pointers = λ c e ne e'.
        (let same : b ≡ c =
            ap pos_part (sym (ap (λ (n : Inode). n.i_data_block) given_block-node) ∙ e') in
          cc (e, fresh, same));
    same_bytes = λ c r lt e ne.
        (let other : c ≢ b = λ same. cc (e, fresh, same) in
          clear_pointers-apart s.fs_data (b * block_size) max_block_pointers 0 (c * block_size + r)
            (ground (arith, other)));
  }

  given_block-Owned :
      (w : ℕ)
      → direct_block_pointers < w
      → w ≤ file_blocks
      → OwnsBlocks w i s
      → OwnsBlocks w i (given_block i b s)
  given_block-Owned w lt le v =
      subst (λ z. Owned w z (pointers i (given_block i b s)) (given_block i b s).free_blocks)
        (sym (ap (λ (n : Inode). n.i_data_block) given_block-node))
        (Owned-eq w (pos b) (pointers i s) (pointers i (given_block i b s))
          (update s.free_blocks b taken)
          (block-Owned w (pointers i s) s.free_blocks b
            (subst (λ z. Owned w z (pointers i s) s.free_blocks) absent v) lt below fresh)
          (λ k k_lt. given_block-pointers k (omega arith)))

-- The block of pointers is there, or a free block is taken for it.
abbrev pub BlockEnsured : ℕ → ℕ → Fs → Fs → Type 0
BlockEnsured w i s t =
    OwnsBlocks w i t × Extends i s t × ((c : ℕ) × (block_of i t ≡ pos c) × (c < data_blocks))

room-block :
    (w i : ℕ) (s : Fs)
    → OwnsBlocks w i s
    → direct_block_pointers < w
    → block_of i s ≡ minus_one
    → (b : ℕ) × (first_free s.free_blocks data_blocks 0 ≡ some b)
room-block w i s v lt absent = elim (Option-cases (first_free s.free_blocks data_blocks 0)) [
  | inl e ↦
      (let room = v.room in
        let full = first_free-full s.free_blocks data_blocks e in absurd (ground (arith, absent)))
  | inr found ↦ found
]

block-pos :
    (z : ℤ)
    → z ≢ minus_one
    → valid_block_number z ≡ true
    → (c : ℕ) × (z ≡ pos c) × (c < data_blocks)
block-pos (pos c) ne e = (c, refl, ground arith)
block-pos (negsuc c) ne e = cc

data_block_alloc-first :
    (b : ℕ) (s : Fs)
    → first_free s.free_blocks data_blocks 0 ≡ some b
    → data_block_alloc s ≡ (pos b, record s { free_blocks = update s.free_blocks b taken })
unfolding data_block_alloc
data_block_alloc-first b s e = rw (e, data_block_alloc) refl

pointer_block_alloc-first :
    (b : ℕ) (s : Fs)
    → first_free s.free_blocks data_blocks 0 ≡ some b
    → b < data_blocks
    → pointer_block_alloc s ≡ (
      pos b,
      record s {
        free_blocks = update s.free_blocks b taken;
        fs_data = clear_pointers s.fs_data (b * block_size) max_block_pointers 0;
      },
    )
unfolding pointer_block_alloc data_block_get
pointer_block_alloc-first b s e below =
    let q = data_block_alloc-first b s e in
    let valid : ltb b data_blocks ≡ true = ground arith in rw q (rw valid (rw q refl))

pub ensure_pointer_block-Ensured :
    (w i : ℕ) (s : Fs)
    → OwnsBlocks w i s
    → direct_block_pointers < w
    → w ≤ file_blocks
    → BlockEnsured w i s (ensure_pointer_block i s)
unfolding ensure_pointer_block
ensure_pointer_block-Ensured w i s v lt le = elim (Bool-cases (block_of i s ==ℤ minus_one)) [
  | inr there ↦ rw there (
    v,
    Extends-refl i s,
    (let ne : block_of i s ≢ minus_one = ground arith in
        block-pos (block_of i s) ne (v.block_valid ne)),
  )
  | inl none_there ↦
      (let absent = (==ℤ_iff (block_of i s) minus_one).0 none_there in
        let (b, e) = room-block w i s v lt absent in
        let found = first_free-some s.free_blocks data_blocks 0 {j = b} e in
        let below : b < data_blocks = omega arith in
        let t = given_block i b s in
        let all : BlockEnsured w i s t = (
          given_block-Owned i b s below found.2 absent w lt le v,
          given_block-Extends i b s below found.2 absent,
          (
            b,
            ap (λ (n : Inode). n.i_data_block) (given_block-node i b s below found.2 absent),
            below,
          ),
        ) in
        rw none_there (rw (pointer_block_alloc-first b s e below) all))
]
