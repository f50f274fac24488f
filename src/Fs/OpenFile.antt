-- ===== src/Fs/OpenFile.antt =====
-- The open file table of P2/fs/state.c.
use so_project.Base.{
  ℕ, ℤ, pos, minus_one, pos_part, succ_ℤ, pred_ℤ, Option, none, some, free, taken, first_free,
  update, if◌then◌else◌,
}
use so_project.Fs.State.{Fs, max_open_files, valid_file_handle}

unfoldable pub add_to_open_file_table : ℤ → ℕ → Fs → ℤ × Fs
add_to_open_file_table inumber offset s =
    elim (first_free s.free_open_file_entries max_open_files 0) [
      | none ↦ (minus_one, s)
      | some i ↦ (
        pos i,
        record s {
          free_open_file_entries = update s.free_open_file_entries i taken;
          open_file_table =
              update s.open_file_table i (record { of_inumber = inumber; of_offset = offset });
          open_file_count = succ_ℤ s.open_file_count;
        },
      )
    ]

unfoldable pub remove_from_open_file_table : ℤ → Fs → ℤ × Fs
remove_from_open_file_table fhandle s =
    if valid_file_handle fhandle
    then elim (s.free_open_file_entries (pos_part fhandle)) [
      | free ↦ (minus_one, s)
      | taken ↦ (
        pos 0,
        record s {
          free_open_file_entries = update s.free_open_file_entries (pos_part fhandle) free;
          open_file_count = pred_ℤ s.open_file_count;
        },
      )
    ]
    else (minus_one, s)

-- The index of the entry that the pointer refers to; `none` is NULL.
unfoldable pub get_open_file_entry : ℤ → Option ℕ
get_open_file_entry fhandle = if valid_file_handle fhandle then some (pos_part fhandle) else none
