-- ===== src/P1/OpenFile.antt =====
-- The open file table of P1/fs/state.c. An entry counts its position in blocks and bytes.
use so_project.Base.{
  ℕ, suc, ◌-◌, ◌/◌, ◌%◌, ◌^◌, ℤ, pos, negsuc, minus_one, pos_part, signed32, Option, none, some,
  free, taken, first_free, update, ◌==◌, if◌then◌else◌,
}
use so_project.Fs.State.{block_size, max_open_files, valid_file_handle}
use so_project.P1.State.{Fs}

-- `z / BLOCK_SIZE` of an `int`: towards zero.
abbrev pub div_block_size : ℤ → ℤ
div_block_size (pos n) = pos (n / block_size)
div_block_size (negsuc n) =
    if suc n / block_size == 0 then pos 0 else negsuc (suc n / block_size - 1)

-- pthread_mutex_init never returns -1, so that the entry is always returned.
unfoldable pub add_to_open_file_table : ℤ → ℕ → Fs → ℤ × Fs
add_to_open_file_table inumber offset s =
    elim (first_free s.free_open_file_entries max_open_files 0) [
      | none ↦ (minus_one, s)
      | some i ↦ (
        pos i,
        record s {
          free_open_file_entries = update s.free_open_file_entries i taken;
          open_file_table = update s.open_file_table i (record {
            of_inumber = inumber;
            of_offset = offset % block_size;
            of_boffset = div_block_size (signed32 (offset % 2 ^ 32));
          });
        },
      )
    ]

unfoldable pub remove_from_open_file_table : ℤ → Fs → ℤ × Fs
remove_from_open_file_table fhandle s =
    if valid_file_handle fhandle
    then elim (s.free_open_file_entries (pos_part fhandle)) [
      | free ↦ (minus_one, s)
      | taken ↦ (
        pos 0,
        record s {
          free_open_file_entries = update s.free_open_file_entries (pos_part fhandle) free;
        },
      )
    ]
    else (minus_one, s)

-- The index of the entry that the pointer refers to; `none` is NULL.
unfoldable pub get_open_file_entry : ℤ → Option ℕ
get_open_file_entry fhandle = if valid_file_handle fhandle then some (pos_part fhandle) else none
