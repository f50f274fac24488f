-- ===== src/Fs/Inode.antt =====
-- The i-node table of P2/fs/state.c.
use so_project.Base.{
  ℕ, zero, suc, ◌+◌, ◌*◌, ℤ, pos, minus_one, pos_part, ◌==ℤ◌, Memory, store_int, Option, none, some,
  AllocationState, free, taken, first_free, update, ltb, if◌then◌else◌,
}
use so_project.Fs.State.{
  Fs, Inode, InodeType, t_file, t_directory, block_size, inode_table_size, dir_entry_size,
  max_dir_entries, valid_inumber,
}
use so_project.Fs.Block.{data_block_alloc, data_block_free, data_block_get}

-- `inode_table[i] = node`
abbrev pub set_inode : ℕ → Inode → Fs → Fs
set_inode i node s = record s { inode_table = update s.inode_table i node }

abbrev pub set_freeinode : ℕ → AllocationState → Fs → Fs
set_freeinode i a s = record s { freeinode_ts = update s.freeinode_ts i a }

-- The loop that labels a directory's entries with i-number -1: n entries from the i-th on.
unfoldable pub clear_entries : Memory → ℕ → ℕ → ℕ → Memory
clear_entries m block zero i = m
clear_entries m block (suc n) i =
    clear_entries (store_int m (block + dir_entry_size * i + 40) minus_one) block n (i + 1)

-- The branch of inode_create for a directory, once the block's number b is there.
create_directory : ℕ → ℤ → Fs → ℤ × Fs
create_directory i b s =
    let sized =
      set_inode i (record (s.inode_table i) { i_size = block_size; i_data_block = b }) s in
    if b ==ℤ minus_one then (minus_one, set_freeinode i free s) else elim (data_block_get b) [
      | none ↦ (minus_one, set_freeinode i free sized)
      | some block ↦
          (pos i, record sized { fs_data = clear_entries s.fs_data block max_dir_entries 0 })
    ]

-- The body of the loop of inode_create at the first free entry i.
create_at : ℕ → InodeType → Fs → ℤ × Fs
unfolding create_directory
create_at i n_type s =
    let s' =
      set_inode i (record (s.inode_table i) { i_node_type = n_type }) (set_freeinode i taken s) in
    elim n_type [
      | t_directory ↦ (let (b, s'') = data_block_alloc s' in create_directory i b s'')
      | t_file ↦ (
        pos i,
        set_inode i (record { i_node_type = t_file; i_size = 0; i_data_block = minus_one }) s',
      )
    ]

unfoldable pub inode_create : InodeType → Fs → ℤ × Fs
unfolding create_at
inode_create n_type s = elim (first_free s.freeinode_ts inode_table_size 0) [
  | none ↦ (minus_one, s)
  | some i ↦ create_at i n_type s
]

-- The part of inode_delete below its guard.
delete_at : ℕ → Fs → ℤ × Fs
delete_at i s =
    let s' = set_freeinode i free s in
    let (r, s'') = data_block_free (s.inode_table i).i_data_block s' in
    if ltb 0 (s.inode_table i).i_size
    then (if r ==ℤ minus_one then (minus_one, s'') else (pos 0, s''))
    else (pos 0, s')

unfoldable pub inode_delete : ℤ → Fs → ℤ × Fs
unfolding delete_at
inode_delete inumber s =
    if valid_inumber inumber
    then elim (s.freeinode_ts (pos_part inumber)) [
      | free ↦ (minus_one, s)
      | taken ↦ delete_at (pos_part inumber) s
    ]
    else (minus_one, s)

-- The index of the i-node that the pointer refers to; `none` is NULL.
unfoldable pub inode_get : ℤ → Option ℕ
inode_get inumber = if valid_inumber inumber then some (pos_part inumber) else none
