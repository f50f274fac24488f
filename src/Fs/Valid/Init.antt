-- ===== src/Fs/Valid/Init.antt =====
-- tfs_init builds a valid state with an empty root directory.
use so_project.Base.{
  ℕ, zero, suc, ◌+◌, ◌*◌, ◌≤◌, ◌<◌, ◌≡◌, inl, pos, minus_one, Memory, store_int, load_int-store_int,
  load_int-store_apart, AllocationState, free, taken, first_free, count_taken, update, arith, refl,
  ◌∙◌,
}
use so_project.Fs.State.{
  Fs, state_init, t_directory, opened, max_dir_entries, dir_entry_size, block_size, max_open_files,
}
use so_project.Fs.Block.{data_block_alloc, data_block_get}
use so_project.Fs.Inode.{clear_entries, inode_create}
use so_project.Fs.Dir.{d_inumber}
use so_project.Fs.Operations.{Pthread, tfs_init}
use so_project.Fs.Valid.{IsValid}
use native.Mathlib.Decide.{ℕ_discrete}

clear_entries-before :
    (m : Memory) (block n i k : ℕ)
    → k < i
    → d_inumber (clear_entries m block n i) block k ≡ d_inumber m block k
unfolding clear_entries
clear_entries-before m block zero i k h = refl
clear_entries-before m block (suc n) i k h =
    clear_entries-before (store_int m (block + dir_entry_size * i + 40) minus_one) block n (i + 1) k
      (omega arith)
    ∙ load_int-store_apart m (block + dir_entry_size * i + 40) minus_one
        (block + dir_entry_size * k + 40) (inl (omega arith))

-- After the loop every entry that it covers is empty.
pub clear_entries-empty :
    (m : Memory) (block n i k : ℕ)
    → i ≤ k
    → k < i + n
    → d_inumber (clear_entries m block n i) block k ≡ minus_one
unfolding clear_entries
clear_entries-empty m block zero i k a b = absurd (omega arith)
clear_entries-empty m block (suc n) i k a b = elim (ℕ_discrete i k) [
  | yes q ↦ rw (← q) (
      clear_entries-before (store_int m (block + dir_entry_size * i + 40) minus_one) block n (i + 1)
        i (omega arith)
      ∙ load_int-store_int m (block + dir_entry_size * i + 40) minus_one (omega arith))
  | no q ↦
      clear_entries-empty (store_int m (block + dir_entry_size * i + 40) minus_one) block n (i + 1)
        k (omega arith) (omega arith)
]

count_taken-none : (t : ℕ → AllocationState) (n : ℕ) → ((i : ℕ) → t i ≡ free) → count_taken t n ≡ 0
unfolding count_taken
count_taken-none t zero h = refl
count_taken-none t (suc n) h = ground (arith, h n, count_taken-none t n h)

-- The state that tfs_init leaves when the mutex and the condition variable can be made.
pub initial : Fs → Fs
initial s = record (state_init s) {
  state = opened;
  freeinode_ts = update (λ i. free) 0 taken;
  free_blocks = update (λ i. free) 0 taken;
  inode_table =
      update (update s.inode_table 0 (record (s.inode_table 0) { i_node_type = t_directory })) 0
        (record { i_node_type = t_directory; i_size = block_size; i_data_block = pos 0 });
  fs_data = clear_entries s.fs_data 0 max_dir_entries 0;
}

module _ (s : Fs) where
  pub initial-empty : (k : ℕ) → k < max_dir_entries → d_inumber (initial s).fs_data 0 k ≡ minus_one
  unfolding initial
  initial-empty k h =
      clear_entries-empty s.fs_data 0 max_dir_entries 0 k (omega arith) (omega arith)

  pub initial-IsValid : IsValid (initial s)
  unfolding initial state_init
  initial-IsValid =
      grind (arith, initial-empty, count_taken-none (λ i. free) max_open_files (λ i. refl))

  pub tfs_init-initial :
      (p : Pthread) → p.mutex_init ≡ pos 0 → p.cond_init ≡ pos 0 → tfs_init p s ≡ (pos 0, initial s)
  unfolding tfs_init inode_create data_block_alloc data_block_get initial state_init first_free
  tfs_init-initial p a b = rw (a, b)
