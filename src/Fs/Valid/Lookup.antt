-- ===== src/Fs/Valid/Lookup.antt =====
-- The directory functions in a valid state, where the root directory is block 0.
use so_project.Base.{
  ℕ, ◌<◌, ◌≡◌, ◌⊎◌, inl, inr, pos, minus_one, Option, CString, length, ◌==◌, if◌then◌else◌,
  Bool-cases, arith, refl,
}
use so_project.Fs.State.{Fs, max_dir_entries, inode_table_size}
use so_project.Fs.Block.{data_block_get}
use so_project.Fs.Dir.{find_in_block, find_in_dir, add_dir_entry, add_in_block}
use so_project.Fs.Dir.Find.{find_in_block-cases}
use so_project.Fs.Operations.{lookup_unsynchronized, valid_pathname, tail_of}
use so_project.Fs.Valid.{IsValid, IsFile}

module _ {s : Fs} (v : IsValid s) where
  pub find_in_dir-root :
      (name : CString)
      → find_in_dir (pos 0) name s ≡ find_in_block s.fs_data 0 name max_dir_entries 0
  unfolding find_in_dir data_block_get
  find_in_dir-root name = rw (v.root_directory, find_in_dir) (rw (v.root_block, find_in_dir))

  pub add_dir_entry-root :
      (i : ℕ) (name : CString)
      → i < inode_table_size
      → add_dir_entry (pos 0) (pos i) name s
        ≡ (if length name == 0 then (minus_one, s) else add_in_block 0 (pos i) name s)
  unfolding add_dir_entry data_block_get
  add_dir_entry-root i name h = ground (arith, v.root_directory, v.root_block)

  -- A lookup fails, or returns the i-number of a file that exists.
  pub lookup-IsFile :
      (name : Option CString)
      → (lookup_unsynchronized name s ≡ minus_one) ⊎ IsFile s (lookup_unsynchronized name s)
  unfolding lookup_unsynchronized
  lookup-IsFile name = elim (Bool-cases (valid_pathname name)) [
    | inr bad ↦ rw bad (inl refl)
    | inl good ↦ rw good (
        rw (find_in_dir-root (tail_of name)) (
          find_in_block-cases (IsFile s) s.fs_data 0 (tail_of name) max_dir_entries 0
            (λ k a b. v.entries k (omega arith))))
  ]
