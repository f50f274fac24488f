-- ===== src/Fs/Valid/Create.antt =====
-- Creating a file, and undoing the creation, keep the invariant.
use so_project.Base.{
  ℕ, ◌<◌, ◌≡◌, ◌⊎◌, inl, inr, pos, minus_one, some, free, taken, first_free, Option-cases, CString,
  IsInt, arith,
}
use so_project.Fs.State.{Fs, t_file, max_dir_entries, inode_table_size}
use so_project.Fs.Inode.{inode_create, inode_delete, set_inode, set_freeinode}
use so_project.Fs.Dir.{d_inumber, find_empty, add_in_block, entry_at, fill_entry}
use so_project.Fs.Dir.Entries.{d_inumber-fill_self, d_inumber-fill_ne}
use so_project.Fs.Valid.{IsValid, IsFile}
use so_project.Fs.Valid.Data.{with_data-IsValid}
use native.Mathlib.Decide.{ℕ_discrete}

-- The state after an i-node has been created for a file.
abbrev pub created : ℕ → Fs → Fs
created i s =
    set_inode i (record { i_node_type = t_file; i_size = 0; i_data_block = minus_one })
      (set_inode i (record (s.inode_table i) { i_node_type = t_file }) (set_freeinode i taken s))

pub inode_create-file :
    (s : Fs) (i : ℕ)
    → first_free s.freeinode_ts inode_table_size 0 ≡ some i
    → inode_create t_file s ≡ (pos i, created i s)
unfolding inode_create
inode_create-file s i e = rw (e, inode_create)

module _ (i : ℕ) {s : Fs} (v : IsValid s) (available : s.freeinode_ts i ≡ free) where
  pub created-IsValid : IsValid (created i s)
  created-IsValid =
      grind
        (arith, v.sizes, v.block_valid, v.block_taken, v.separate, v.entries, v.handles, v.offsets)

  pub created-IsFile : i < inode_table_size → IsFile (created i s) (pos i)
  created-IsFile h = ground (arith, v.root_taken)

  pub inode_delete-created :
      i < inode_table_size
      → inode_delete (pos i) (created i s) ≡ (pos 0, set_freeinode i free (created i s))
  unfolding inode_delete
  inode_delete-created h = ground arith

  pub deleted-IsValid : IsValid (set_freeinode i free (created i s))
  deleted-IsValid = grind (
    arith, v.root_taken, v.sizes, v.block_valid, v.block_taken, v.separate, v.entries, v.handles,
    v.offsets,
  )

module _ (i : ℕ) (name : CString) {s : Fs} (v : IsValid s) (f : IsFile s (pos i)) where
  pub IsFile-IsInt : IsInt (pos i)
  IsFile-IsInt = ground (arith, f.in_table)

  pub add_in_block-IsValid : IsValid (add_in_block 0 (pos i) name s).1
  unfolding add_in_block
  add_in_block-IsValid = elim (Option-cases (find_empty s.fs_data 0 max_dir_entries 0)) [
    | inl full ↦ rw (full, add_in_block) v
    | inr (k, e) ↦
        rw (e, add_in_block)
          (with_data-IsValid v (fill_entry s.fs_data (entry_at 0 k) (pos i) name) (entry k))
  ]
    where
      entry :
          (k j : ℕ)
          → j < max_dir_entries
          → (d_inumber (fill_entry s.fs_data (entry_at 0 k) (pos i) name) 0 j ≡ minus_one)
            ⊎ IsFile s (d_inumber (fill_entry s.fs_data (entry_at 0 k) (pos i) name) 0 j)
      entry k j h = elim (ℕ_discrete j k) [
        | yes q ↦ rw q (rw (d_inumber-fill_self s.fs_data 0 k (pos i) name IsFile-IsInt) (inr f))
        | no q ↦ rw (d_inumber-fill_ne s.fs_data 0 k (pos i) name j q) (v.entries j h)
      ]

  pub add_in_block-IsFile : IsFile (add_in_block 0 (pos i) name s).1 (pos i)
  unfolding add_in_block
  add_in_block-IsFile = ground (arith, f)
