-- ===== src/P1/Naming.antt =====
-- tfs_open of P1/fs/operations.c with TFS_O_CREAT for a file that does not exist.
pub mod Fresh
use so_project.Base.{
  ℕ, zero, suc, ◌+◌, ◌≤◌, ◌<◌, ◌≡◌, ◌≢◌, ◌⊎◌, inl, inr, ◌-◌, subst, ℤ, pos, minus_one, CString,
  NoNul, length, some, Option, free, taken, first_free, first_free-some, count_taken, ◌∷◌, true,
  false, arith, refl, ◌∙◌, sym, ap, ltb, update, update-same, update-other, ◌==◌, if◌then◌else◌,
}
use so_project.Fs.State.{
  t_file, max_dir_entries, max_open_files, inode_table_size, data_blocks, valid_inumber,
}
use so_project.Fs.Dir.{d_inumber, is_directory, find_empty, find_in_block, fill_entry, entry_at}
use so_project.Fs.Dir.Entries.{find_empty-some}
use so_project.Fs.Dir.Filled.{find-filled, find-filled_other}
use so_project.Fs.Operations.{has_flag, tfs_o_creat}
use so_project.P1.State.{Fs, Inode, OpenFileEntry, direct_block_pointers}
use so_project.P1.Block.{data_block_get}
use so_project.P1.Inode.{inode_create, inode_get}
use so_project.P1.Dir.{add_dir_entry, find_in_dir}
use so_project.P1.OpenFile.{add_to_open_file_table}
use so_project.P1.Operations.{tfs_lookup, open_new, tfs_open}
use so_project.P1.Files.Blocks.{
  direct_or_behind, OwnsBlocks, Owned, missing-le, missing_block, pointers, indirect, file_blocks,
}
use so_project.P1.Files.Directs.{pointers-direct}
use so_project.P1.Files.PointerBlock.{pointers-behind, indirect-none}
use so_project.P1.Files.Place.{EntryAt, StandsAt}
use so_project.P1.Files.Copying.{opened}
use so_project.P1.Naming.Fresh.{
  fresh_file, create-fresh_file, fresh_file-others, fresh_file-size, fresh_file-missing,
  fresh_file-block, fresh_file-only_nodes,
}

-- The i-node 0 is a directory whose block begins at the address `block`.
pub record IsRoot (block : ℕ) (s : Fs) : Type 0 where
  pub is_dir : is_directory (s.inode_table 0).i_node_type ≡ true
  pub its_block : data_block_get (s.inode_table 0).i_data_block ≡ some block
  pub in_use : s.freeinode_ts 0 ≡ taken

find_in_dir-IsRoot :
    (block : ℕ) (name : CString) (s : Fs)
    → IsRoot block s
    → find_in_dir (pos 0) name s ≡ find_in_block s.fs_data block name max_dir_entries 0
unfolding find_in_dir
find_in_dir-IsRoot block name s root = rw root.is_dir (rw (root.its_block, find_in_dir) refl)

lookup-find :
    (name : CString) (s : Fs)
    → 0 < length name
    → tfs_lookup (some (b'/' ∷ name)) s ≡ find_in_dir (pos 0) name s
unfolding tfs_lookup
lookup-find name s p = ground arith

-- The handle h stands at the start of the empty file i, whose blocks can be allocated.
pub record IsEmptyFile (w i h : ℕ) (s : Fs) : Type 0 where
  pub stands : StandsAt h i 0 0 s
  pub size : (s.inode_table i).i_size ≡ 0
  pub no_pointers : (j : ℕ) → pointers i s j ≡ minus_one
  pub no_pointer_block : (s.inode_table i).i_data_block ≡ minus_one
  pub owns : OwnsBlocks w i s

-- There is room for a file: the i-node i, the entry k of the directory, and the handle h.
module _ (block i k h : ℕ) (cs : CString) (flags : ℕ) (s : Fs) (root : IsRoot block s)
    (named : 0 < length cs) (short : length cs ≤ 39) (nn : NoNul cs)
    (node : first_free s.freeinode_ts inode_table_size 0 ≡ some i)
    (entry : find_empty s.fs_data block max_dir_entries 0 ≡ some k)
    (handle : first_free s.free_open_file_entries max_open_files 0 ≡ some h)
    (create : has_flag flags tfs_o_creat ≡ true)
    (absent : tfs_lookup (some (b'/' ∷ cs)) s ≡ minus_one) where
  abbrev made : Fs
  made = fresh_file i s

  -- The file is in the directory.
  abbrev entered : Fs
  entered = record made { fs_data = fill_entry made.fs_data (entry_at block k) (pos i) cs }

  node-free : (i < inode_table_size) × (s.freeinode_ts i ≡ free)
  node-free =
      let found = first_free-some s.freeinode_ts inode_table_size 0 {j = i} node in
      (omega (arith, found.1), found.2)

  not_root : 0 ≢ i
  not_root e = cc (e, root.in_use, node-free.1)

  root_kept : made.inode_table 0 ≡ s.inode_table 0
  root_kept = fresh_file-others i s 0 not_root

  same_data : made.fs_data ≡ s.fs_data
  same_data = ap (λ (t : Fs). t.fs_data) (fresh_file-only_nodes i s)

  same_handles : made.free_open_file_entries ≡ s.free_open_file_entries
  same_handles = ap (λ (t : Fs). t.free_open_file_entries) (fresh_file-only_nodes i s)

  add-entered : add_dir_entry (pos 0) (pos i) cs made ≡ (pos 0, entered)
  unfolding add_dir_entry
  add-entered =
      let valid : ltb i inode_table_size ≡ true = ground (arith, node-free.0) in
      let empty : find_empty made.fs_data block max_dir_entries 0 ≡ some k =
        ap (λ m. find_empty m block max_dir_entries 0) same_data ∙ entry in
      let some_name : (length cs == 0) ≡ false = ground arith in
      rw valid (
        rw root_kept (
          rw root.is_dir
            (rw some_name (rw (root.its_block, add_dir_entry) (rw (empty, add_dir_entry) refl)))))

  add-opened : add_to_open_file_table (pos i) 0 entered ≡ (pos h, opened h i entered)
  unfolding add_to_open_file_table
  add-opened =
      let handle' : first_free made.free_open_file_entries max_open_files 0 ≡ some h =
        ap (λ t. first_free t max_open_files 0) same_handles ∙ handle in
      rw (handle', add_to_open_file_table) refl

  open_new-opened : open_new cs s ≡ (pos h, opened h i entered)
  unfolding open_new
  open_new-opened = rw (create-fresh_file i s node) (rw add-entered add-opened)

  -- The call of tfs_open.
  create-opened : tfs_open (some (b'/' ∷ cs)) flags s ≡ (pos h, opened h i entered)
  unfolding tfs_open
  create-opened =
      let some_name : ltb 1 (length (b'/' ∷ cs)) ≡ true = ground arith in
      rw absent (rw create (rw some_name open_new-opened))

  root' : IsRoot block (opened h i entered)
  root' = record {
    is_dir = ap (λ (n : Inode). is_directory n.i_node_type) root_kept ∙ root.is_dir;
    its_block = ap (λ (n : Inode). data_block_get n.i_data_block) root_kept ∙ root.its_block;
    in_use =
        ap (λ (t : Fs). t.freeinode_ts 0) (fresh_file-only_nodes i s)
        ∙ update-other s.freeinode_ts i 0 taken not_root
        ∙ root.in_use;
  }

  slot : (k < max_dir_entries) × (d_inumber s.fs_data block k ≡ minus_one)
  slot =
      let found = find_empty-some s.fs_data block max_dir_entries 0 {j = k} entry in
      (omega (arith, found.1), found.2)

  find_created : find_in_dir (pos 0) cs (opened h i entered) ≡ pos i
  find_created =
      find_in_dir-IsRoot block cs (opened h i entered) root'
      ∙ ap
          (λ m.
            find_in_block (fill_entry m (entry_at block k) (pos i) cs) block cs max_dir_entries 0)
          same_data
      ∙ find-filled s.fs_data block k (pos i) cs (omega (arith, node-free.0)) (λ e. cc e) slot.0
          slot.1 nn short
          (sym (find_in_dir-IsRoot block cs s root) ∙ sym (lookup-find cs s named) ∙ absent)

  find_other :
      (other : CString)
      → NoNul other
      → other ≢ cs
      → find_in_dir (pos 0) other (opened h i entered) ≡ find_in_dir (pos 0) other s
  find_other other nn' ne =
      find_in_dir-IsRoot block other (opened h i entered) root'
      ∙ ap
          (λ m.
            find_in_block (fill_entry m (entry_at block k) (pos i) cs) block other max_dir_entries
              0)
          same_data
      ∙ find-filled_other s.fs_data block k (pos i) cs (omega (arith, node-free.0)) (λ e. cc e)
          slot.0 slot.1 nn short other nn' ne
      ∙ sym (find_in_dir-IsRoot block other s root)

  created_entry : StandsAt h i 0 0 (opened h i entered)
  unfolding inode_get
  created_entry =
      let here =
        update-same made.open_file_table h
          (record { of_inumber = pos i; of_offset = 0; of_boffset = pos 0 }) in
      let valid : ltb i inode_table_size ≡ true = ground (arith, node-free.0) in
      record {
        node = ap (λ (f : OpenFileEntry). inode_get f.of_inumber) here ∙ rw valid refl;
        block = ap (λ (f : OpenFileEntry). f.of_boffset) here;
        offset = ap (λ (f : OpenFileEntry). f.of_offset) here;
      }

  no_pointers : (j : ℕ) → pointers i (opened h i entered) j ≡ minus_one
  no_pointers j = elim (direct_or_behind j) [
    | inl direct ↦ pointers-direct i j (opened h i entered) direct ∙ fresh_file-missing i s j direct
    | inr behind ↦
        pointers-behind i j (opened h i entered) behind
        ∙ ap (λ z. indirect (opened h i entered).fs_data z (j - direct_block_pointers))
            (fresh_file-block i s)
        ∙ indirect-none (opened h i entered).fs_data (j - direct_block_pointers)
  ]

  -- For a root directory in its block, a path of a slash and a C string of 1 to 39 characters
  -- that tfs_lookup does not find, with a free i-node, an empty entry of the directory, a free
  -- handle, and free blocks for w pointers, of 266 at most, and for the block of pointers when w
  -- is more than 10: tfs_open with TFS_O_CREAT returns the lowest free handle; tfs_lookup then
  -- finds the path, at the lowest free i-number; the handle stands at the start of this file,
  -- which has size 0, -1 for its block of pointers and for each of its pointers, direct
  -- and indirect, and room for w blocks; and the result of tfs_lookup for any
  -- other path of a slash and a C string that is not empty is as before.
  pub create-IsEmptyFile :
      (w : ℕ)
      → w ≤ file_blocks
      → w + missing_block w minus_one + count_taken s.free_blocks data_blocks ≤ data_blocks
      → (t : Fs) × (tfs_open (some (b'/' ∷ cs)) flags s ≡ (pos h, t))
        × (tfs_lookup (some (b'/' ∷ cs)) t ≡ pos i)
        × IsEmptyFile w i h t
        × ((other : CString)
            → NoNul other
            → 0 < length other
            → other ≢ cs
            → tfs_lookup (some (b'/' ∷ other)) t ≡ tfs_lookup (some (b'/' ∷ other)) s)
  create-IsEmptyFile w limit room =
      let t = opened h i entered in
      let same_blocks : made.free_blocks ≡ s.free_blocks =
        ap (λ (u : Fs). u.free_blocks) (fresh_file-only_nodes i s) in
      let count : count_taken made.free_blocks data_blocks ≡ count_taken s.free_blocks data_blocks =
        ap (λ f. count_taken f data_blocks) same_blocks in
      (
        t,
        create-opened,
        lookup-find cs t named ∙ find_created,
        record {
          stands = created_entry;
          size = fresh_file-size i s;
          no_pointers = no_pointers;
          no_pointer_block = fresh_file-block i s;
          owns =
              subst (λ z. Owned w z (pointers i t) t.free_blocks) (sym (fresh_file-block i s))
                (record {
                  valid = λ j lt there. absurd (there (no_pointers j));
                  allocated = λ j lt there. absurd (there (no_pointers j));
                  apart = λ j l p q there e. absurd (there (no_pointers j));
                  block_valid = λ there. absurd (there refl);
                  block_allocated = λ there. absurd (there refl);
                  block_apart = λ j lt there. absurd (there (no_pointers j));
                  room = omega (arith, room, count, missing-le (pointers i t) w);
                });
        },
        λ other nn' p ne.
            lookup-find other t p ∙ find_other other nn' ne ∙ sym (lookup-find other s p),
      )
