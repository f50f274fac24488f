-- ===== src/P1/Tests.antt =====
-- States of P1/fs with one file, and the theorems at them.
pub mod Volume
use so_project.Base.{
  CString, NoNul, length, count_taken, [], ◌∷◌, ℕ, ◌+◌, ◌-◌, ◌*◌, ◌/◌, ◌%◌, ◌^◌, ◌≤◌, ◌<◌, ◌≡◌, ◌≢◌,
  ◌⊎◌, inl, inr, ℤ, pos, minus_one, pos_part, Memory, Option, some, none, true, arith, refl, free,
  taken, first_free, strncmp_eq, ◌∙◌, sym, ap, subst,
}
use so_project.Fs.State.{block_size, max_open_files, max_dir_entries, inode_table_size, data_blocks}
use so_project.Fs.Dir.{find_in_block, find_empty}
use so_project.P1.State.{Fs, Inode, OpenFileEntry, fs_data_size, direct_block_pointers}
use so_project.P1.Block.{data_block_get}
use so_project.P1.Inode.{inode_get, inode_data_free}
use so_project.P1.Dir.{find_in_dir}
use so_project.P1.Operations.{Result, returned, tfs_lookup, tfs_open, tfs_write, tfs_read}
use so_project.P1.Copy.{tfs_copy_to_external_fs}
use so_project.P1.Files.Blocks.{OwnsBlocks, byte_of, pointers, file_blocks, missing_block}
use so_project.P1.Files.WriteRound.{Wrote}
use so_project.P1.Files.Write.{tfs_write-Wrote}
use so_project.P1.Files.ReadRound.{Readable, Copied}
use so_project.P1.Files.Read.{tfs_read-Copied}
use so_project.P1.Files.RoundTrip.{Far, tfs_read-tfs_write}
use so_project.P1.Files.PastEnd.{tfs_read_at_end}
use so_project.P1.Files.Copying.{copy-stored, copy-leaks}
use so_project.P1.Files.Isolation.{Foreign, Kept, tfs_write-Kept}
use so_project.P1.Naming.{IsRoot, IsEmptyFile, create-IsEmptyFile}
use so_project.P1.Release.{Released, inode_data_free-Released}
use so_project.P1.Bounds.Rounds.{InBlock, Ends, tfs_write-Ends}
use so_project.P1.Tests.Volume.{
  volume, volume-pointers, volume-OwnsBlocks, at_start, at_start', at_end, bytes, buffer, path_f,
  volume-Readable, volume-Far, Files, taking, refusing, with_pointers, with_pointers-Pointers,
}

-- 12000 bytes, over the direct blocks and into the indirect ones.
tfs_write-Wrote_example :
    (t : Fs) × (tfs_write (pos 0) bytes 12000 volume ≡ returned (pos 12000) t)
    × Wrote file_blocks 0 1 0 0 12000 bytes volume t
tfs_write-Wrote_example =
    tfs_write-Wrote file_blocks 0 1 0 0 12000 bytes volume (omega arith) (omega arith)
      volume-OwnsBlocks at_start (omega arith) (omega arith) (omega arith)

-- The whole file.
tfs_read-Copied_example :
    (a : Memory) × (t : Fs) × (tfs_read (pos 0) buffer 4000 volume ≡ returned (pos 2000) (a, t))
    × Copied 1 0 2000 0 buffer volume a
    × (t.free_open_file_entries ≡ volume.free_open_file_entries)
tfs_read-Copied_example =
    tfs_read-Copied file_blocks 0 1 0 0 2000 4000 buffer volume (omega arith) (omega arith)
      volume-OwnsBlocks at_start (omega arith) refl (omega arith) volume-Readable

-- The state behind the write of 1500 bytes through the handle 0.
abbrev rewritten :
    (t : Fs) × (tfs_write (pos 0) bytes 1500 volume ≡ returned (pos 1500) t)
    × Wrote file_blocks 0 1 0 0 1500 bytes volume t
rewritten =
    tfs_write-Wrote file_blocks 0 1 0 0 1500 bytes volume (omega arith) (omega arith)
      volume-OwnsBlocks at_start (omega arith) (omega arith) (omega arith)

tfs_read-tfs_write_example :
    (a : Memory) × (u : Fs) × (tfs_read (pos 2) buffer 1500 rewritten.0
      ≡ returned (pos 1500) (a, u))
    × ((k : ℕ) → k < 1500 → a k ≡ bytes k)
tfs_read-tfs_write_example =
    tfs_read-tfs_write file_blocks 0 2 1 0 0 1500 bytes buffer volume rewritten.0 (omega arith)
      (omega arith) (omega arith) (omega arith) volume-OwnsBlocks at_start at_start' (omega arith)
      (omega arith) (omega arith) (omega arith) rewritten.1
      (volume-Far (pointers 1 rewritten.0) rewritten.2.stores.kept)

-- The file ends at the byte 976 of its second block.
tfs_read_at_end_example :
    (a : Memory) × (t : Fs) × (tfs_read (pos 1) buffer 10 volume ≡ returned (pos 10) (a, t))
    × ((k : ℕ) → k < 10 → a k ≡ byte_of volume 1 (2000 + k))
tfs_read_at_end_example =
    tfs_read_at_end file_blocks 1 1 1 976 10 buffer volume (omega arith) (omega arith)
      volume-OwnsBlocks at_end (omega arith) (omega arith) refl
      (λ e. ground (arith, volume-pointers 1, e)) (omega arith) (omega arith)

found_f : tfs_lookup (some path_f) volume ≡ pos 1
unfolding tfs_lookup find_in_dir find_in_block strncmp_eq data_block_get
found_f = refl

node_1 : inode_get (pos 1) ≡ some 1
unfolding inode_get
node_1 = refl

handle_3 : first_free volume.free_open_file_entries max_open_files 0 ≡ some 3
unfolding first_free
handle_3 = refl

copy-stored_example :
    (a : Memory) × (t : Fs) × (tfs_copy_to_external_fs taking
        (some path_f)
        path_f
        buffer
        volume
        (record { written = 0; closed = 0 })
      ≡ returned (pos 0) (t, record { written = 2000; closed = 1 }))
    × ((k : ℕ) → k < 2000 → a k ≡ byte_of volume 1 k)
    × ((k : ℕ) → t.free_open_file_entries k ≡ volume.free_open_file_entries k)
copy-stored_example =
    copy-stored 1 3 volume path_f refl found_f node_1 handle_3 taking path_f buffer
      (record { written = 0; closed = 0 }) file_blocks (omega arith) volume-OwnsBlocks 2000 refl
      (omega arith) (omega arith) volume-Readable 3 (record { written = 0; closed = 0 }) refl
      (λ a. refl)

copy-leaks_example :
    (t : Fs) × (tfs_copy_to_external_fs refusing
        (some path_f)
        path_f
        buffer
        volume
        (record { written = 0; closed = 0 })
      ≡ returned minus_one (t, record { written = 0; closed = 0 }))
    × (volume.free_open_file_entries 3 ≡ free)
    × (t.free_open_file_entries 3 ≡ taken)
copy-leaks_example =
    copy-leaks 1 3 volume path_f refl found_f node_1 handle_3 refusing path_f buffer
      (record { written = 0; closed = 0 }) file_blocks (omega arith) volume-OwnsBlocks 2000 refl
      (omega arith) (omega arith) volume-Readable (record { written = 0; closed = 0 }) refl

inode_data_free-Released_example :
    (t : Fs) × (inode_data_free 2 with_pointers ≡ (pos 0, t)) × Released 2 with_pointers t
inode_data_free-Released_example =
    inode_data_free-Released 2 with_pointers (omega arith) with_pointers-Pointers

volume-InBlock : InBlock volume
volume-InBlock h = ground arith

tfs_write-Ends_example : Ends InBlock (tfs_write (pos 1) bytes 5000 volume)
tfs_write-Ends_example = tfs_write-Ends (pos 1) bytes 5000 volume (omega arith) volume-InBlock

-- The block of the root directory.
root_block-Foreign : Foreign file_blocks 1 0 volume
root_block-Foreign = record {
  below = omega arith;
  held = refl;
  unnamed = λ k lt e. ground (arith, volume-pointers k, e);
  no_pointers = λ e. cc e;
}

tfs_write-Kept_example :
    (t : Fs) × (tfs_write (pos 0) bytes 12000 volume ≡ returned (pos 12000) t)
    × Kept file_blocks 1 0 volume t
tfs_write-Kept_example =
    tfs_write-Kept file_blocks 0 1 0 0 12000 0 bytes volume (omega arith) (omega arith)
      volume-OwnsBlocks at_start (omega arith) (omega arith) (omega arith) root_block-Foreign

abbrev name_g : CString
name_g = b'g' ∷ []

volume-IsRoot : IsRoot 0 volume
unfolding data_block_get
volume-IsRoot = record { is_dir = refl; its_block = refl; in_use = refl }

node_2 : first_free volume.freeinode_ts inode_table_size 0 ≡ some 2
unfolding first_free
node_2 = refl

entry_1 : find_empty volume.fs_data 0 max_dir_entries 0 ≡ some 1
unfolding find_empty
entry_1 = refl

absent_g : tfs_lookup (some (b'/' ∷ name_g)) volume ≡ minus_one
unfolding tfs_lookup find_in_dir find_in_block strncmp_eq data_block_get
absent_g = refl

room_left :
    file_blocks + missing_block file_blocks minus_one + count_taken volume.free_blocks data_blocks
    ≤ data_blocks
unfolding count_taken
room_left = omega arith

create-IsEmptyFile_example :
    (t : Fs) × (tfs_open (some (b'/' ∷ name_g)) 1 volume ≡ (pos 3, t))
    × (tfs_lookup (some (b'/' ∷ name_g)) t ≡ pos 2)
    × IsEmptyFile file_blocks 2 3 t
    × ((other : CString)
        → NoNul other
        → 0 < length other
        → other ≢ name_g
        → tfs_lookup (some (b'/' ∷ other)) t ≡ tfs_lookup (some (b'/' ∷ other)) volume)
create-IsEmptyFile_example =
    create-IsEmptyFile 0 2 1 3 name_g 1 volume volume-IsRoot (omega arith) (omega arith)
      (omega arith, tt) node_2 entry_1 handle_3 refl absent_g file_blocks (omega arith) room_left
