-- ===== src/Fs/Dir.antt =====
-- The directory functions of P2/fs/state.c. A directory is an array of dir_entry_t in its block: 40
-- bytes of name, then the i-number.
pub mod Entries
pub mod Filled
pub mod Find
use so_project.Base.{
  ℕ, zero, suc, ◌+◌, ◌*◌, ℤ, pos, minus_one, pos_part, ◌==ℤ◌, Memory, CString, chars, length, put,
  blit, load_int, store_int, strncmp_eq, Option, none, some, Bool, true, false, not, ◌&&◌, ◌==◌,
  if◌then◌else◌,
}
use so_project.Fs.State.{
  Fs, Inode, InodeType, t_file, t_directory, dir_entry_size, max_dir_entries, max_file_name,
  valid_inumber,
}
use so_project.Fs.Block.{data_block_get}

-- `&dir_entry[i]`, and the fields of an entry.
abbrev pub entry_at : ℕ → ℕ → ℕ
entry_at block i = block + dir_entry_size * i

abbrev pub d_inumber : Memory → ℕ → ℕ → ℤ
d_inumber m block i = load_int m (entry_at block i + 40)

abbrev pub d_name : Memory → ℕ → ℕ → Memory
d_name m block i k = m (entry_at block i + k)

-- The first empty entry among n from the i-th on.
unfoldable pub find_empty : Memory → ℕ → ℕ → ℕ → Option ℕ
find_empty m block zero i = none
find_empty m block (suc n) i = elim (d_inumber m block i ==ℤ minus_one) [
  | true ↦ some i
  | false ↦ find_empty m block n (i + 1)
]

-- What add_dir_entry stores in the entry at the address e.
abbrev pub fill_entry : Memory → ℕ → ℤ → CString → Memory
fill_entry m e sub_inumber sub_name =
    put (blit (store_int m (e + 40) sub_inumber) e 39 (chars sub_name)) (e + 39) 0

-- The loop of add_dir_entry in the block.
unfoldable pub add_in_block : ℕ → ℤ → CString → Fs → ℤ × Fs
add_in_block block sub_inumber sub_name s = elim (find_empty s.fs_data block max_dir_entries 0) [
  | none ↦ (minus_one, s)
  | some i ↦
      (pos 0, record s { fs_data = fill_entry s.fs_data (entry_at block i) sub_inumber sub_name })
]

abbrev pub is_directory : InodeType → Bool
is_directory t_file = false
is_directory t_directory = true

unfoldable pub add_dir_entry : ℤ → ℤ → CString → Fs → ℤ × Fs
unfolding add_in_block
add_dir_entry inumber sub_inumber sub_name s =
    let node = s.inode_table (pos_part inumber) in
    if not (valid_inumber inumber && valid_inumber sub_inumber)
    then (minus_one, s)
    else if not (is_directory node.i_node_type)
    then (minus_one, s)
    else if length sub_name == 0
    then (minus_one, s)
    else elim (data_block_get node.i_data_block) [
      | none ↦ (minus_one, s)
      | some block ↦ add_in_block block sub_inumber sub_name s
    ]

-- The loop of find_in_dir over n entries from the i-th on.
unfoldable pub find_in_block : Memory → ℕ → CString → ℕ → ℕ → ℤ
find_in_block m block sub_name zero i = minus_one
find_in_block m block sub_name (suc n) i =
    elim (not (d_inumber m block i ==ℤ minus_one)
      && strncmp_eq (d_name m block i) (chars sub_name) max_file_name 0) [
        | true ↦ d_inumber m block i
        | false ↦ find_in_block m block sub_name n (i + 1)
      ]

unfoldable pub find_in_dir : ℤ → CString → Fs → ℤ
find_in_dir inumber sub_name s =
    let node = s.inode_table (pos_part inumber) in
    if valid_inumber inumber && is_directory node.i_node_type
    then elim (data_block_get node.i_data_block) [
      | none ↦ minus_one
      | some block ↦ find_in_block s.fs_data block sub_name max_dir_entries 0
    ]
    else minus_one
