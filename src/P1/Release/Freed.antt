-- ===== src/P1/Release/Freed.antt =====
-- The loops of inode_data_free of P1/fs/state.c over pointers.
use so_project.Base.{
  ℕ, zero, suc, ◌+◌, ◌*◌, ◌≤◌, ◌<◌, ◌≡◌, ◌≢◌, ◌⊎◌, inl, inr, ℤ, pos, minus_one, pos_part, ◌==ℤ◌,
  ==ℤ_iff, load_int, Memory, AllocationState, free, update, true, Bool-cases, arith, refl, ◌∙◌, sym,
  ap, if◌then◌else◌,
}
use native.Mathlib.Decide.{ℕ_discrete}
use so_project.Fs.State.{valid_block_number}
use so_project.P1.State.{Fs}
use so_project.P1.Block.{data_block_free}
use so_project.P1.Inode.{free_block, unless_stopped, free_direct, free_indirect}

-- A pointer names no block, or a block of the volume.
abbrev pub IsPointer : ℤ → Type 0
IsPointer z = (z ≡ minus_one) ⊎ (valid_block_number z ≡ true)

-- The table f, with the blocks that the n pointers from the k-th on name free.
pub freed : (ℕ → ℤ) → ℕ → ℕ → (ℕ → AllocationState) → ℕ → AllocationState
freed p zero k f = f
freed p (suc n) k f =
    freed p n (k + 1) (if p k ==ℤ minus_one then f else update f (pos_part (p k)) free)

abbrev pub with_blocks : (ℕ → AllocationState) → Fs → Fs
with_blocks f s = record s { free_blocks = f }

free_block-with_blocks :
    (z : ℤ) (s : Fs)
    → IsPointer z
    → free_block z s ≡ (
      true,
      with_blocks
          (if z ==ℤ minus_one then s.free_blocks else update s.free_blocks (pos_part z) free)
          s,
    )
unfolding data_block_free
free_block-with_blocks z s (inl e) = rw e refl
free_block-with_blocks z s (inr valid) = elim (Bool-cases (z ==ℤ minus_one)) [
  | inl absent ↦ rw absent refl
  | inr there ↦ rw valid (rw there refl)
]

pub free_direct-freed :
    (i n k : ℕ) (s : Fs)
    → ((j : ℕ) → j < k + n → IsPointer ((s.inode_table i).i_direct_blocks j))
    → free_direct i n k s
      ≡ (true, with_blocks (freed (s.inode_table i).i_direct_blocks n k s.free_blocks) s)
unfolding free_direct freed unless_stopped
free_direct-freed i zero k s p = refl
free_direct-freed i (suc n) k s p =
    let z = (s.inode_table i).i_direct_blocks k in
    let f = if z ==ℤ minus_one then s.free_blocks else update s.free_blocks (pos_part z) free in
    ap (λ r. unless_stopped r (λ s'. free_direct i n (k + 1) s'))
      (free_block-with_blocks z s (p k (omega arith)))
    ∙ free_direct-freed i n (k + 1) (with_blocks f s) (λ j lt. p j (omega arith))

-- The k-th pointer of the block of pointers at the address `content`.
abbrev pub pointer_in : Memory → ℕ → ℕ → ℤ
pointer_in m content k = load_int m (content + 4 * k)

pub free_indirect-freed :
    (content n k : ℕ) (s : Fs)
    → ((j : ℕ) → j < k + n → IsPointer (pointer_in s.fs_data content j))
    → free_indirect content n k s
      ≡ (true, with_blocks (freed (pointer_in s.fs_data content) n k s.free_blocks) s)
unfolding free_indirect freed unless_stopped
free_indirect-freed content zero k s p = refl
free_indirect-freed content (suc n) k s p =
    let z = pointer_in s.fs_data content k in
    let f = if z ==ℤ minus_one then s.free_blocks else update s.free_blocks (pos_part z) free in
    ap (λ r. unless_stopped r (λ s'. free_indirect content n (k + 1) s'))
      (free_block-with_blocks z s (p k (omega arith)))
    ∙ free_indirect-freed content n (k + 1) (with_blocks f s) (λ j lt. p j (omega arith))

-- A block is free behind the loop if it was, or if a pointer names it.
pub freed-kept :
    (p : ℕ → ℤ) (n k : ℕ) (f : ℕ → AllocationState) (b : ℕ) → f b ≡ free → freed p n k f b ≡ free
unfolding freed
freed-kept p zero k f b e = e
freed-kept p (suc n) k f b e = freed-kept p n (k + 1) _ b (ground arith)

pub freed-named :
    (p : ℕ → ℤ) (n k j : ℕ) (f : ℕ → AllocationState) (b : ℕ)
    → k ≤ j
    → j < k + n
    → p j ≡ pos b
    → freed p n k f b ≡ free
unfolding freed
freed-named p zero k j f b le lt e = absurd (omega arith)
freed-named p (suc n) k j f b le lt e = elim (ℕ_discrete j k) [
  | yes here ↦
      (let named : p k ≡ pos b = ap p (sym here) ∙ e in freed-kept p n (k + 1) _ b (ground arith))
  | no behind ↦ freed-named p n (k + 1) j _ b (omega arith) (omega arith) e
]

-- The table behind one pointer, at a block that it does not name.
one-other :
    (z : ℤ) (f : ℕ → AllocationState) (b : ℕ)
    → IsPointer z
    → z ≢ pos b
    → (if z ==ℤ minus_one then f else update f (pos_part z) free) b ≡ f b
one-other (pos a) f b v ne = ground arith
one-other (ℤ.negsuc a) f b (inl e) ne = ground (arith, (==ℤ_iff (ℤ.negsuc a) minus_one).1 e)
one-other (ℤ.negsuc a) f b (inr e) ne = cc

pub freed-other :
    (p : ℕ → ℤ) (n k : ℕ) (f : ℕ → AllocationState) (b : ℕ)
    → ((j : ℕ) → j < k + n → IsPointer (p j))
    → ((j : ℕ) → j < k + n → p j ≢ pos b)
    → freed p n k f b ≡ f b
unfolding freed
freed-other p zero k f b v ne = refl
freed-other p (suc n) k f b v ne =
    freed-other p n (k + 1) _ b (λ j lt. v j (omega arith)) (λ j lt. ne j (omega arith))
    ∙ one-other (p k) f b (v k (omega arith)) (ne k (omega arith))
