-- ===== src/P1/Release.antt =====
-- What inode_data_free of P1/fs/state.c releases.
pub mod Freed
use so_project.Base.{
  ℕ, zero, suc, ◌+◌, ◌*◌, ◌≤◌, ◌<◌, ◌≡◌, ◌≢◌, ◌⊎◌, inl, inr, ℤ, pos, minus_one, pos_part, ◌==ℤ◌,
  ==ℤ_iff, load_int, Memory, AllocationState, free, update, true, Bool-cases, arith, refl, ◌∙◌, sym,
  ap, ltb, if◌then◌else◌,
}
use native.Mathlib.Decide.{ℕ_discrete}
use so_project.Fs.State.{block_size, valid_block_number}
use so_project.P1.State.{Fs, direct_block_pointers, max_block_pointers}
use so_project.P1.Block.{data_block_free, data_block_get}
use so_project.P1.Inode.{
  free_block, unless_stopped, free_last, free_pointer_block, free_direct, free_indirect,
  free_pointers, inode_data_free,
}
use so_project.P1.Release.Freed.{
  IsPointer, pointer_in, freed, with_blocks, free_direct-freed, free_indirect-freed, freed-kept,
  freed-named, freed-other,
}

-- The block k is one of those that the i-node i names: through a direct pointer, as its block of
-- pointers, or through a pointer in that block.
pub data Names (i : ℕ) (s : Fs) (k : ℕ) : Type 0 where
  direct :
      (j : ℕ)
      → j < direct_block_pointers
      → (s.inode_table i).i_direct_blocks j ≡ pos k
      → Names i s k
  block : (s.inode_table i).i_data_block ≡ pos k → Names i s k
  indirect :
      (j c : ℕ)
      → j < max_block_pointers
      → (s.inode_table i).i_data_block ≡ pos c
      → pointer_in s.fs_data (c * block_size) j ≡ pos k
      → Names i s k

-- Every pointer of the i-node i is one.
pub record Pointers (i : ℕ) (s : Fs) : Type 0 where
  pub directs :
      (j : ℕ) → j < direct_block_pointers → IsPointer ((s.inode_table i).i_direct_blocks j)
  pub block : IsPointer (s.inode_table i).i_data_block
  pub indirects :
      (c j : ℕ)
      → (s.inode_table i).i_data_block ≡ pos c
      → j < max_block_pointers
      → IsPointer (pointer_in s.fs_data (c * block_size) j)

-- From s to t the blocks that the i-node i names became free, and nothing else changed.
pub record Released (i : ℕ) (s t : Fs) : Type 0 where
  pub only_blocks : t ≡ with_blocks t.free_blocks s
  pub named : (k : ℕ) → Names i s k → t.free_blocks k ≡ free
  pub others : (k : ℕ) → ¬ Names i s k → t.free_blocks k ≡ s.free_blocks k

valid-pos : (z : ℤ) → valid_block_number z ≡ true → z ≡ pos (pos_part z)
valid-pos (pos n) e = refl
valid-pos (ℤ.negsuc n) e = cc

module _ (i : ℕ) (s : Fs) (some_bytes : 0 < (s.inode_table i).i_size) (p : Pointers i s) where
  abbrev d : ℕ → ℤ
  d = (s.inode_table i).i_direct_blocks

  abbrev z : ℤ
  z = (s.inode_table i).i_data_block

  abbrev f : ℕ → AllocationState
  f = freed d direct_block_pointers 0 s.free_blocks

  data_free-pointers : inode_data_free i s ≡ free_pointers i (true, with_blocks f s)
  unfolding inode_data_free
  data_free-pointers =
      let not_empty : ltb 0 (s.inode_table i).i_size ≡ true = ground arith in
      rw not_empty (
        ap (free_pointers i)
          (free_direct-freed i direct_block_pointers 0 s (λ j lt. p.directs j (omega arith))))

  f-named : (j k : ℕ) → j < direct_block_pointers → d j ≡ pos k → f k ≡ free
  f-named j k lt e =
      freed-named d direct_block_pointers 0 j s.free_blocks k (omega arith) (omega arith) e

  f-other : (k : ℕ) → ¬ Names i s k → f k ≡ s.free_blocks k
  f-other k unnamed =
      freed-other d direct_block_pointers 0 s.free_blocks k (λ j lt. p.directs j (omega arith))
        (λ j lt e. unnamed (direct j (omega arith) e))

  without_block : z ≡ minus_one → (t : Fs) × (inode_data_free i s ≡ (pos 0, t)) × Released i s t
  unfolding free_pointers free_pointer_block
  without_block e = (
    with_blocks f s,
    data_free-pointers ∙ rw e refl,
    record { only_blocks = refl; named = named; others = f-other },
  )
    where
      named : (k : ℕ) → Names i s k → f k ≡ free
      named k (direct j lt e') = f-named j k lt e'
      named k (block e') = cc (e, e')
      named k (indirect j c lt e' q) = cc (e, e')

  module _ (c : ℕ) (is : z ≡ pos c) (valid : valid_block_number (pos c) ≡ true) where
    abbrev r : ℕ → ℤ
    r = pointer_in s.fs_data (c * block_size)

    abbrev g : ℕ → AllocationState
    g = update (freed r max_block_pointers 0 f) c free

    free_pointers-block : free_pointers i (true, with_blocks f s) ≡ (pos 0, with_blocks g s)
    unfolding free_pointers free_pointer_block free_last data_block_get data_block_free
    free_pointers-block =
        let loop =
          free_indirect-freed (c * block_size) max_block_pointers 0 (with_blocks f s)
            (λ j lt. p.indirects c j is (omega arith)) in
        ap (λ b. free_pointer_block b (with_blocks f s)) is
        ∙ rw valid (ap (free_last (pos c)) loop ∙ rw valid refl)

    g-named : (k : ℕ) → Names i s k → g k ≡ free
    g-named k (direct j lt e) =
        ground (arith, freed-kept r max_block_pointers 0 f k (f-named j k lt e))
    g-named k (block e) = let same : c ≡ k = cc (is, e) in ground arith
    g-named k (indirect j c' lt e q) =
        let same : c ≡ c' = cc (is, e) in
        let here : r j ≡ pos k = ap (λ x. pointer_in s.fs_data (x * block_size) j) same ∙ q in
        ground (arith, freed-named r max_block_pointers 0 j f k (omega arith) (omega arith) here)

    g-other : (k : ℕ) → ¬ Names i s k → g k ≡ s.free_blocks k
    g-other k unnamed = elim (ℕ_discrete c k) [
      | yes e ↦ absurd (unnamed (block (is ∙ ap pos e)))
      | no ne ↦ ground (
        arith,
        freed-other r max_block_pointers 0 f k (λ j lt. p.indirects c j is (omega arith))
              (λ j lt e. unnamed (indirect j c (omega arith) is e))
            ∙ f-other k unnamed,
      )
    ]

  -- inode_data_free of a file that has bytes and whose pointers all name blocks of the volume or none
  -- returns 0, frees exactly the blocks that the i-node names, directly, as its block of pointers or
  -- in that block, and changes nothing else: the pointers of the i-node and of that block keep their
  -- values.
  pub inode_data_free-Released : (t : Fs) × (inode_data_free i s ≡ (pos 0, t)) × Released i s t
  inode_data_free-Released = elim p.block [
    | inl e ↦ without_block e
    | inr valid ↦
        (let is = valid-pos z valid in
          let c = pos_part z in
          let valid' : valid_block_number (pos c) ≡ true = ap valid_block_number (sym is) ∙ valid in
          (
            with_blocks (g c is valid') s,
            data_free-pointers ∙ free_pointers-block c is valid',
            record {
              only_blocks = refl;
              named = g-named c is valid';
              others = g-other c is valid';
            },
          ))
  ]
