-- ===== src/P1/Files/Copying.antt =====
-- tfs_copy_to_external_fs of P1/fs/operations.c for a file within the blocks of its i-node.
use so_project.Base.{
  ℕ, ◌*◌, ◌≤◌, ◌<◌, ◌≡◌, pos, minus_one, Memory, CString, none, some, true, false, arith, refl, ◌∙◌,
  ap, first_free, first_free-some, free, taken, AllocationState, update, update-same, ltb, ◌==◌,
}
use native.Mathlib.Decide.{ℕ_discrete}
use so_project.Fs.State.{block_size, max_open_files}
use so_project.Fs.Operations.{valid_pathname}
use so_project.P1.State.{Fs, OpenFileEntry}
use so_project.P1.Inode.{inode_get}
use so_project.P1.OpenFile.{
  add_to_open_file_table, remove_from_open_file_table, get_open_file_entry,
}
use so_project.P1.Operations.{
  returned, tfs_lookup, open_existing, tfs_open, tfs_close, tfs_read, clamp_read,
}
use so_project.P1.Copy.{
  Stdio, copy_opened, store_copy, close_copy, after_read, tfs_copy_to_external_fs,
}
use so_project.P1.Files.Blocks.{OwnsBlocks, byte_of, pointers, file_blocks}
use so_project.P1.Files.Place.{StandsAt}
use so_project.P1.Files.ReadRound.{Readable}
use so_project.P1.Files.Read.{tfs_read-Copied}

-- The state when the file i has been opened as the handle h, at its start.
abbrev pub opened : ℕ → ℕ → Fs → Fs
opened h i s = record s {
  free_open_file_entries = update s.free_open_file_entries h taken;
  open_file_table =
      update s.open_file_table h (record { of_inumber = pos i; of_offset = 0; of_boffset = pos 0 });
}

-- Closing a handle that is open.
abbrev pub closed : ℕ → Fs → Fs
closed h t = record t { free_open_file_entries = update t.free_open_file_entries h free }

tfs_close-closed :
    (h : ℕ) (t : Fs)
    → h < max_open_files
    → t.free_open_file_entries h ≡ taken
    → tfs_close (pos h) t ≡ (pos 0, closed h t)
unfolding tfs_close remove_from_open_file_table
tfs_close-closed h t valid open_entry =
    let below : ltb h max_open_files ≡ true = ground arith in
    rw below (rw (open_entry, remove_from_open_file_table) refl)

module _ (i h : ℕ) (s : Fs) (path : CString) (valid : valid_pathname (some path) ≡ true)
    (found : tfs_lookup (some path) s ≡ pos i) (node : inode_get (pos i) ≡ some i)
    (handle : first_free s.free_open_file_entries max_open_files 0 ≡ some h) where
  pub add-opened : add_to_open_file_table (pos i) 0 s ≡ (pos h, opened h i s)
  unfolding add_to_open_file_table
  add-opened = rw (handle, add_to_open_file_table) refl

  pub tfs_open-opened : tfs_open (some path) 0 s ≡ (pos h, opened h i s)
  unfolding tfs_open open_existing
  tfs_open-opened = rw valid (rw found (rw (node, tfs_open) add-opened))

  pub opened-StandsAt : StandsAt h i 0 0 (opened h i s)
  opened-StandsAt =
      let here =
        update-same s.open_file_table h
          (record { of_inumber = pos i; of_offset = 0; of_boffset = pos 0 }) in
      record {
        node = ap (λ (f : OpenFileEntry). inode_get f.of_inumber) here ∙ node;
        block = ap (λ (f : OpenFileEntry). f.of_boffset) here;
        offset = ap (λ (f : OpenFileEntry). f.of_offset) here;
      }

  handle-lt : h < max_open_files
  handle-lt = (first_free-some s.free_open_file_entries max_open_files 0 {j = h} handle).1

  handle-entry : get_open_file_entry (pos h) ≡ some h
  unfolding get_open_file_entry
  handle-entry =
      let below : ltb h max_open_files ≡ true = ground (arith, handle-lt) in rw below refl

  module _ {F X : Type 0} (stdio : Stdio F X) (dest_path : CString) (buffer : Memory) (x : X)
      (w : ℕ) (limit : w ≤ file_blocks) (v : OwnsBlocks w i s) (size : ℕ)
      (its_size : (s.inode_table i).i_size ≡ size) (some_bytes : 0 < size)
      (in_file : size ≤ w * block_size) (readable : Readable i 0 size s) where
    copy-after_read :
        tfs_copy_to_external_fs stdio (some path) dest_path buffer s x
        ≡ after_read stdio (pos h) size dest_path x (tfs_read (pos h) buffer size (opened h i s))
    unfolding tfs_copy_to_external_fs copy_opened
    copy-after_read =
        let not_empty : (size == 0) ≡ false = ground arith in
        ap (copy_opened stdio dest_path buffer x) tfs_open-opened
        ∙ rw (handle-entry, copy_opened)
            (rw (opened-StandsAt.node, copy_opened) (rw its_size (rw not_empty refl)))

    copy-store_copy :
        (a : Memory) × (t : Fs) × (tfs_copy_to_external_fs stdio (some path) dest_path buffer s x
          ≡ store_copy stdio (pos h) a size t (stdio.fopen dest_path x))
        × ((k : ℕ) → k < size → a k ≡ byte_of s i k)
        × (t.free_open_file_entries ≡ update s.free_open_file_entries h taken)
    unfolding after_read pointers
    copy-store_copy =
        let amount : clamp_read ((opened h i s).inode_table i).i_size 0 size ≡ size =
          ground (arith, its_size) in
        let same : (size == size) ≡ true = ground arith in
        let (a, t, e, c, handles) =
          tfs_read-Copied w h i 0 0 size size buffer (opened h i s) handle-lt limit v
            opened-StandsAt (omega arith) amount (omega arith)
            (record { covered = readable.covered; far = readable.far }) in
        (
          a,
          t,
          copy-after_read ∙ ap (after_read stdio (pos h) size dest_path x) e ∙ rw same refl,
          λ k lt. ap a (omega arith) ∙ c.copied k lt ∙ ap (byte_of s i) (omega arith),
          handles,
        )

    -- For a valid path that tfs_lookup finds, at an i-number of the table, a free handle, and w
    -- of 266 at most: let the first w pointers of the file, direct and then indirect, and its
    -- block of pointers name different taken blocks or none, with a free block for each that
    -- names none, the block of pointers counting when w is more than 10; let the file have 1 to w
    -- * 1024 bytes by its i_size, all of them in blocks that it has, and from each byte on at
    -- least as many bytes of `fs_data` as are left to read. When fopen succeeds and fwrite writes
    -- as many bytes as it is asked for, tfs_copy_to_external_fs returns 0; the bytes given to
    -- fwrite are those of the file, the file outside is closed, and the same handles are free as
    -- before.
    pub copy-stored :
        (d : F) (x' : X)
        → stdio.fopen dest_path x ≡ (some d, x')
        → ((a : Memory) → (stdio.fwrite a size d x').0 ≡ size)
        → (a : Memory) × (t : Fs) × (tfs_copy_to_external_fs stdio (some path) dest_path buffer s x
            ≡ returned (pos 0) (t, stdio.fclose d (stdio.fwrite a size d x').1))
          × ((k : ℕ) → k < size → a k ≡ byte_of s i k)
          × ((k : ℕ) → t.free_open_file_entries k ≡ s.free_open_file_entries k)
    unfolding store_copy close_copy
    copy-stored d x' opens writes =
        let (a, t, e, bytes, handles) = copy-store_copy in
        let open_entry : t.free_open_file_entries h ≡ taken =
          ap (λ (f : ℕ → AllocationState). f h) handles
          ∙ update-same s.free_open_file_entries h taken in
        let all : (size == size) ≡ true = ground arith in
        let was_free =
          (first_free-some s.free_open_file_entries max_open_files 0 {j = h} handle).2 in
        (
          a,
          closed h t,
          e
              ∙ ap (store_copy stdio (pos h) a size t) opens
              ∙ rw (writes a) (rw all (rw (tfs_close-closed h t handle-lt open_entry) refl)),
          bytes,
          λ k. elim (ℕ_discrete h k) [
            | yes e' ↦ ground arith
            | no ne ↦ ground (arith, ap (λ (f : ℕ → AllocationState). f k) handles)
          ],
        )

    -- The bug of the handle, under the same conditions on the file: when fopen fails,
    -- tfs_copy_to_external_fs returns -1, and the handle that it took, which was free, stays
    -- taken.
    pub copy-leaks :
        (x' : X)
        → stdio.fopen dest_path x ≡ (none, x')
        → (t : Fs) × (tfs_copy_to_external_fs stdio (some path) dest_path buffer s x
            ≡ returned minus_one (t, x'))
          × (s.free_open_file_entries h ≡ free)
          × (t.free_open_file_entries h ≡ taken)
    unfolding store_copy
    copy-leaks x' fails =
        let (a, t, e, bytes, handles) = copy-store_copy in
        (
          t,
          e ∙ ap (store_copy stdio (pos h) a size t) fails,
          (first_free-some s.free_open_file_entries max_open_files 0 {j = h} handle).2,
          ap (λ (f : ℕ → AllocationState). f h) handles
              ∙ update-same s.free_open_file_entries h taken,
        )
