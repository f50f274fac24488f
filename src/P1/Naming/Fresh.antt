-- ===== src/P1/Naming/Fresh.antt =====
-- inode_create of P1/fs/state.c for a file.
use so_project.Base.{
  ℕ, zero, suc, ◌+◌, ◌≤◌, ◌<◌, ◌≡◌, ◌≢◌, ℤ, pos, minus_one, some, taken, first_free, arith, refl,
  ◌∙◌, ap, update, update-same, update-other,
}
use native.Mathlib.Decide.{ℕ_discrete}
use so_project.Fs.State.{t_file, inode_table_size}
use so_project.P1.State.{Fs, Inode, direct_block_pointers}
use so_project.P1.Inode.{
  set_inode, set_freeinode, set_direct, clear_direct, create_at, inode_create,
}

clear_direct-only_nodes :
    (i n k : ℕ) (s : Fs)
    → clear_direct i n k s ≡ record s { inode_table = (clear_direct i n k s).inode_table }
unfolding clear_direct
clear_direct-only_nodes i zero k s = refl
clear_direct-only_nodes i (suc n) k s =
    clear_direct-only_nodes i n (k + 1) (set_direct i k minus_one s)

clear_direct-others :
    (i n k j : ℕ) (s : Fs) → j ≢ i → (clear_direct i n k s).inode_table j ≡ s.inode_table j
unfolding clear_direct
clear_direct-others i zero k j s ne = refl
clear_direct-others i (suc n) k j s ne =
    clear_direct-others i n (k + 1) j (set_direct i k minus_one s) ne
    ∙ update-other s.inode_table i j _ ne

clear_direct-size :
    (i n k : ℕ) (s : Fs) → ((clear_direct i n k s).inode_table i).i_size ≡ (s.inode_table i).i_size
unfolding clear_direct
clear_direct-size i zero k s = refl
clear_direct-size i (suc n) k s =
    clear_direct-size i n (k + 1) (set_direct i k minus_one s)
    ∙ ap (λ (m : Inode). m.i_size) (update-same s.inode_table i _)

clear_direct-block :
    (i n k : ℕ) (s : Fs)
    → ((clear_direct i n k s).inode_table i).i_data_block ≡ (s.inode_table i).i_data_block
unfolding clear_direct
clear_direct-block i zero k s = refl
clear_direct-block i (suc n) k s =
    clear_direct-block i n (k + 1) (set_direct i k minus_one s)
    ∙ ap (λ (m : Inode). m.i_data_block) (update-same s.inode_table i _)

set_direct-direct :
    (i k : ℕ) (s : Fs)
    → ((set_direct i k minus_one s).inode_table i).i_direct_blocks
      ≡ update (s.inode_table i).i_direct_blocks k minus_one
set_direct-direct i k s = ap (λ (m : Inode). m.i_direct_blocks) (update-same s.inode_table i _)

-- A pointer before the loop that is missing stays so.
clear_direct-kept :
    (i n k j : ℕ) (s : Fs)
    → (s.inode_table i).i_direct_blocks j ≡ minus_one
    → ((clear_direct i n k s).inode_table i).i_direct_blocks j ≡ minus_one
unfolding clear_direct
clear_direct-kept i zero k j s e = e
clear_direct-kept i (suc n) k j s e =
    clear_direct-kept i n (k + 1) j (set_direct i k minus_one s)
      (ap (λ (d : ℕ → ℤ). d j) (set_direct-direct i k s) ∙ ground arith)

clear_direct-missing :
    (i n k j : ℕ) (s : Fs)
    → k ≤ j
    → j < k + n
    → ((clear_direct i n k s).inode_table i).i_direct_blocks j ≡ minus_one
unfolding clear_direct
clear_direct-missing i zero k j s le lt = absurd (omega arith)
clear_direct-missing i (suc n) k j s le lt = elim (ℕ_discrete k j) [
  | yes here ↦
      clear_direct-kept i n (k + 1) j (set_direct i k minus_one s)
        (ap (λ (d : ℕ → ℤ). d j) (set_direct-direct i k s) ∙ ground arith)
  | no later ↦
      clear_direct-missing i n (k + 1) j (set_direct i k minus_one s) (omega arith) (omega arith)
]

-- The i-node i is taken for a file.
abbrev typed : ℕ → Fs → Fs
typed i s =
    set_inode i (record (s.inode_table i) { i_node_type = t_file }) (set_freeinode i taken s)

abbrev emptied : Inode → Inode
emptied n = record n { i_size = 0; i_data_block = minus_one }

-- The state with the i-node i of an empty file.
pub fresh_file : ℕ → Fs → Fs
fresh_file i s =
    clear_direct i direct_block_pointers 0
      (set_inode i (emptied ((typed i s).inode_table i)) (typed i s))

module _ (i : ℕ) (s : Fs) where
  pub create-fresh_file :
      first_free s.freeinode_ts inode_table_size 0 ≡ some i
      → inode_create t_file s ≡ (pos i, fresh_file i s)
  unfolding inode_create create_at fresh_file
  create-fresh_file e = rw (e, inode_create) refl

  -- Only the i-node table and its free list differ from before.
  pub fresh_file-only_nodes : fresh_file i s ≡ record s {
    inode_table = (fresh_file i s).inode_table;
    freeinode_ts = update s.freeinode_ts i taken;
  }
  unfolding fresh_file
  fresh_file-only_nodes = clear_direct-only_nodes i direct_block_pointers 0 _

  pub fresh_file-others : (j : ℕ) → j ≢ i → (fresh_file i s).inode_table j ≡ s.inode_table j
  unfolding fresh_file
  fresh_file-others j ne =
      clear_direct-others i direct_block_pointers 0 j
        (set_inode i (emptied ((typed i s).inode_table i)) (typed i s)) ne
      ∙ update-other (typed i s).inode_table i j (emptied ((typed i s).inode_table i)) ne
      ∙ update-other s.inode_table i j (record (s.inode_table i) { i_node_type = t_file }) ne

  pub fresh_file-size : ((fresh_file i s).inode_table i).i_size ≡ 0
  unfolding fresh_file
  fresh_file-size =
      clear_direct-size i direct_block_pointers 0
        (set_inode i (emptied ((typed i s).inode_table i)) (typed i s))
      ∙ ap (λ (m : Inode). m.i_size)
          (update-same (typed i s).inode_table i (emptied ((typed i s).inode_table i)))

  pub fresh_file-missing :
      (j : ℕ)
      → j < direct_block_pointers
      → ((fresh_file i s).inode_table i).i_direct_blocks j ≡ minus_one
  unfolding fresh_file
  fresh_file-missing j lt =
      clear_direct-missing i direct_block_pointers 0 j _ (omega arith) (omega arith)

  pub fresh_file-block : ((fresh_file i s).inode_table i).i_data_block ≡ minus_one
  unfolding fresh_file
  fresh_file-block =
      clear_direct-block i direct_block_pointers 0
        (set_inode i (emptied ((typed i s).inode_table i)) (typed i s))
      ∙ ap (λ (m : Inode). m.i_data_block)
          (update-same (typed i s).inode_table i (emptied ((typed i s).inode_table i)))
