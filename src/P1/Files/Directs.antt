-- ===== src/P1/Files/Directs.antt =====
-- The loop of inode_update over the direct pointers.
use so_project.Base.{
  ℕ, zero, suc, ◌+◌, ◌≤◌, ◌<◌, ◌≡◌, ◌≢◌, inl, inr, pos, minus_one, ◌==ℤ◌, ==ℤ_iff, Bool-cases,
  Option-cases, free, taken, first_free, first_free-some, update, arith, refl, ◌∙◌, update-same,
  update-other, sym, ap, some,
}
use native.Mathlib.Decide.{ℕ_discrete}
use so_project.Fs.State.{data_blocks}
use so_project.P1.State.{Fs, Inode, direct_block_pointers}
use so_project.P1.Block.{data_block_alloc}
use so_project.P1.Inode.{set_direct}
use so_project.P1.Update.{ensure_direct, ensure_directs}
use so_project.P1.Files.Blocks.{missing-pos, first_free-full, OwnsBlocks, pointers, file_blocks}
use so_project.P1.Files.Ensure.{Extends, Extends-refl, Extends-trans, Given, Ensured, Given-Ensured}

pub pointers-direct :
    (i k : ℕ) (s : Fs)
    → k < direct_block_pointers
    → pointers i s k ≡ (s.inode_table i).i_direct_blocks k
unfolding pointers
pointers-direct i k s lt = ground arith

-- The search for a block finds one while there is room.
pub room-first_free :
    (w i k : ℕ) (s : Fs)
    → OwnsBlocks w i s
    → k < w
    → pointers i s k ≡ minus_one
    → (b : ℕ) × (first_free s.free_blocks data_blocks 0 ≡ some b)
room-first_free w i k s v lt absent = elim (Option-cases (first_free s.free_blocks data_blocks 0)) [
  | inl e ↦ absurd (
      omega (
        arith,
        v.room,
        first_free-full s.free_blocks data_blocks e,
        missing-pos (pointers i s) w k lt absent,
      ))
  | inr found ↦ found
]

-- The block b has become the k-th direct block of the i-node i.
abbrev given_direct : ℕ → ℕ → ℕ → Fs → Fs
given_direct i k b s =
    set_direct i k (pos b) (record s { free_blocks = update s.free_blocks b taken })

given_direct-pointers :
    (i k b : ℕ) (s : Fs)
    → k < direct_block_pointers
    → (j : ℕ) → pointers i (given_direct i k b s) j ≡ update (pointers i s) k (pos b) j
unfolding pointers
given_direct-pointers i k b s lt j = ground arith

given_direct-Given :
    (i k b : ℕ) (s : Fs)
    → k < direct_block_pointers
    → b < data_blocks
    → s.free_blocks b ≡ free
    → (s.inode_table i).i_direct_blocks k ≡ minus_one
    → Given i k b s (given_direct i k b s)
given_direct-Given i k b s lt below fresh absent =
    let here = update-same s.inode_table i (record (s.inode_table i) {
      i_direct_blocks = update (s.inode_table i).i_direct_blocks k (pos b);
    }) in
    record {
      below = below;
      fresh = fresh;
      absent = pointers-direct i k s lt ∙ absent;
      named = λ j j_lt. given_direct-pointers i k b s lt j;
      marked = refl;
      block = ap (λ (n : Inode). n.i_data_block) here;
      same_entries = refl;
      same_handles = refl;
      same_size = ap (λ (n : Inode). n.i_size) here;
      same_nodes = λ j ne. update-other s.inode_table i j _ ne;
      same_bytes = λ c r r_lt e ne. refl;
    }

pub ensure_direct-Ensured :
    (w i k : ℕ) (s : Fs)
    → OwnsBlocks w i s
    → k < w
    → w ≤ file_blocks
    → k < direct_block_pointers
    → Ensured w i k s (ensure_direct i k s)
unfolding ensure_direct data_block_alloc
ensure_direct-Ensured w i k s v lt le direct =
    elim (Bool-cases ((s.inode_table i).i_direct_blocks k ==ℤ minus_one)) [
      | inr there ↦ rw there (
        v,
        Extends-refl i s,
        λ e. (let d = pointers-direct i k s direct in ground (arith, e, there)),
      )
      | inl none_there ↦
          (let absent = (==ℤ_iff ((s.inode_table i).i_direct_blocks k) minus_one).0 none_there in
            let (b, e) = room-first_free w i k s v lt (pointers-direct i k s direct ∙ absent) in
            let found = first_free-some s.free_blocks data_blocks 0 {j = b} e in
            rw none_there (
              rw (e, data_block_alloc)
                (Given-Ensured w i k b s (given_direct i k b s)
                  (given_direct-Given i k b s direct (omega arith) found.2 absent) v lt le)))
    ]

-- What a loop over the pointers from k to k + n has done.
abbrev pub EnsuredAll : ℕ → ℕ → ℕ → ℕ → Fs → Fs → Type 0
EnsuredAll w i n k s t =
    OwnsBlocks w i t × Extends i s t × ((j : ℕ) → k ≤ j → j < k + n → pointers i t j ≢ minus_one)

pub EnsuredAll-nothing : (w i k : ℕ) (s : Fs) → OwnsBlocks w i s → EnsuredAll w i 0 k s s
EnsuredAll-nothing w i k s v = (v, Extends-refl i s, λ j a b. absurd (omega arith))

pub EnsuredAll-next :
    (w i n k : ℕ) (s t u : Fs)
    → k < file_blocks
    → Ensured w i k s t
    → EnsuredAll w i n (k + 1) t u
    → EnsuredAll w i (suc n) k s u
EnsuredAll-next w i n k s t u k_lt (v, x, there) (v', y, rest) = (
  v',
  Extends-trans x y,
  λ j a b. elim (ℕ_discrete j k) [
    | yes e ↦
        λ none_there. there (sym (y.kept k k_lt there) ∙ ap (pointers i u) (sym e) ∙ none_there)
    | no ne ↦ rest j (omega arith) (omega arith)
  ],
)

-- The whole loop.
pub ensure_directs-EnsuredAll :
    (w i n k : ℕ) (s : Fs)
    → OwnsBlocks w i s
    → k + n ≤ w
    → w ≤ file_blocks
    → k + n ≤ direct_block_pointers
    → EnsuredAll w i n k s (ensure_directs i n k s)
unfolding ensure_directs
ensure_directs-EnsuredAll w i zero k s v within le direct = EnsuredAll-nothing w i k s v
ensure_directs-EnsuredAll w i (suc n) k s v within le direct =
    let one = ensure_direct-Ensured w i k s v (omega arith) le (omega arith) in
    EnsuredAll-next w i n k s (ensure_direct i k s)
      (ensure_directs i n (k + 1) (ensure_direct i k s)) (omega arith) one
      (ensure_directs-EnsuredAll w i n (k + 1) (ensure_direct i k s) one.0 (omega arith) le
        (omega arith))
