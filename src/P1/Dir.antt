-- ===== src/P1/Dir.antt =====
-- The directory functions of P1/fs/state.c. The loops over the entries of a block are those of P2.
use so_project.Base.{
  ℤ, minus_one, pos, pos_part, CString, length, none, some, not, ◌&&◌, ◌==◌, if◌then◌else◌,
}
use so_project.Fs.State.{max_dir_entries, valid_inumber}
use so_project.Fs.Dir.{is_directory, find_empty, fill_entry, entry_at, find_in_block}
use so_project.P1.State.{Fs}
use so_project.P1.Block.{data_block_get}

unfoldable pub add_dir_entry : ℤ → ℤ → CString → Fs → ℤ × Fs
add_dir_entry inumber sub_inumber sub_name s =
    let node = s.inode_table (pos_part inumber) in
    if not (valid_inumber inumber && valid_inumber sub_inumber)
    then (minus_one, s)
    else if not (is_directory node.i_node_type)
    then (minus_one, s)
    else if length sub_name == 0
    then (minus_one, s)
    else elim (data_block_get node.i_data_block) [
      | none ↦ (minus_one, s)
      | some block ↦ elim (find_empty s.fs_data block max_dir_entries 0) [
        | none ↦ (minus_one, s)
        | some i ↦ (
          pos 0,
          record s { fs_data = fill_entry s.fs_data (entry_at block i) sub_inumber sub_name },
        )
      ]
    ]

unfoldable pub find_in_dir : ℤ → CString → Fs → ℤ
find_in_dir inumber sub_name s =
    let node = s.inode_table (pos_part inumber) in
    if valid_inumber inumber && is_directory node.i_node_type
    then elim (data_block_get node.i_data_block) [
      | none ↦ minus_one
      | some block ↦ find_in_block s.fs_data block sub_name max_dir_entries 0
    ]
    else minus_one
