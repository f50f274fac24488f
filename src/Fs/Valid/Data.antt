-- ===== src/Fs/Valid/Data.antt =====
-- The invariant sees the bytes of the blocks only through the entries of the root directory.
use so_project.Base.{ℕ, ◌<◌, ◌≡◌, ◌⊎◌, inl, inr, ℤ, minus_one, Memory}
use so_project.Fs.State.{Fs, max_dir_entries}
use so_project.Fs.Dir.{d_inumber}
use so_project.Fs.Valid.{IsValid, IsFile}

module _ {s : Fs} (v : IsValid s) (m : Memory) where
  same : {z : ℤ} → IsFile s z → IsFile (record s { fs_data = m }) z
  same g = record {
    in_table = g.in_table;
    not_root = g.not_root;
    is_taken = g.is_taken;
    is_file = g.is_file;
  }

  same_entry :
      {z : ℤ} → (z ≡ minus_one) ⊎ IsFile s z → (z ≡ minus_one) ⊎ IsFile (record s { fs_data = m }) z
  same_entry (inl e) = inl e
  same_entry (inr g) = inr (same g)

  pub with_data-IsValid :
      ((k : ℕ) → k < max_dir_entries → (d_inumber m 0 k ≡ minus_one) ⊎ IsFile s (d_inumber m 0 k))
      → IsValid (record s { fs_data = m })
  with_data-IsValid h = record {
    root_taken = v.root_taken;
    root_directory = v.root_directory;
    root_size = v.root_size;
    root_block = v.root_block;
    sizes = v.sizes;
    block_valid = v.block_valid;
    block_taken = v.block_taken;
    separate = v.separate;
    entries = λ k lt. same_entry (h k lt);
    offsets = v.offsets;
    handles = λ k t. same (v.handles k t);
    counted = v.counted;
  }
