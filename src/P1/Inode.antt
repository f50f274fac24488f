-- ===== src/P1/Inode.antt =====
-- The i-node table of P1/fs/state.c.
use so_project.Base.{
  ℕ, zero, suc, ◌+◌, ◌*◌, ℤ, pos, minus_one, pos_part, ◌==ℤ◌, load_int, Option, none, some,
  AllocationState, free, taken, first_free, update, Bool, true, false, ltb, if◌then◌else◌,
}
use so_project.Fs.State.{
  InodeType, t_file, t_directory, block_size, inode_table_size, max_dir_entries, valid_inumber,
}
use so_project.Fs.Inode.{clear_entries}
use so_project.P1.State.{Fs, Inode, direct_block_pointers, max_block_pointers}
use so_project.P1.Block.{data_block_alloc, data_block_free, data_block_get}

-- `inode_table[i] = node`
abbrev pub set_inode : ℕ → Inode → Fs → Fs
set_inode i node s = record s { inode_table = update s.inode_table i node }

abbrev pub set_freeinode : ℕ → AllocationState → Fs → Fs
set_freeinode i a s = record s { freeinode_ts = update s.freeinode_ts i a }

-- `inode->i_direct_blocks[k] = b`
abbrev pub set_direct : ℕ → ℕ → ℤ → Fs → Fs
set_direct i k b s =
    set_inode i
      (record (s.inode_table i) { i_direct_blocks = update (s.inode_table i).i_direct_blocks k b })
      s

-- The loop that stores -1 in the direct pointers: n of them, from the k-th on.
unfoldable pub clear_direct : ℕ → ℕ → ℕ → Fs → Fs
clear_direct i zero k s = s
clear_direct i (suc n) k s = clear_direct i n (k + 1) (set_direct i k minus_one s)

-- The branch of inode_create for a directory, once the block's number b is there.
unfoldable pub create_directory : ℕ → ℤ → Fs → ℤ × Fs
create_directory i b s =
    let sized =
      set_inode i (record (s.inode_table i) { i_size = block_size; i_data_block = b }) s in
    if b ==ℤ minus_one then (minus_one, set_freeinode i free s) else elim (data_block_get b) [
      | none ↦ (minus_one, set_freeinode i free sized)
      | some block ↦ (
        pos i,
        clear_direct i direct_block_pointers 0
            (record sized { fs_data = clear_entries s.fs_data block max_dir_entries 0 }),
      )
    ]

-- The body of the loop of inode_create at the first free entry i.
unfoldable pub create_at : ℕ → InodeType → Fs → ℤ × Fs
unfolding create_directory
create_at i n_type s =
    let s' =
      set_inode i (record (s.inode_table i) { i_node_type = n_type }) (set_freeinode i taken s) in
    elim n_type [
      | t_directory ↦ (let (b, s'') = data_block_alloc s' in create_directory i b s'')
      | t_file ↦ (
        pos i,
        clear_direct i direct_block_pointers 0
            (set_inode i (record (s'.inode_table i) { i_size = 0; i_data_block = minus_one }) s'),
      )
    ]

unfoldable pub inode_create : InodeType → Fs → ℤ × Fs
unfolding create_at
inode_create n_type s = elim (first_free s.freeinode_ts inode_table_size 0) [
  | none ↦ (minus_one, s)
  | some i ↦ create_at i n_type s
]

-- `if (b != -1) { if (data_block_free(b) == -1) return -1; }`: whether the call goes on.
abbrev pub free_block : ℤ → Fs → Bool × Fs
free_block b s =
    let (r, s') = data_block_free b s in
    if b ==ℤ minus_one then (true, s) else (if r ==ℤ minus_one then (false, s') else (true, s'))

-- The round behind such a call.
unfoldable pub unless_stopped : Bool × Fs → (Fs → Bool × Fs) → Bool × Fs
unless_stopped (true, s) next = next s
unless_stopped (false, s) next = (false, s)

-- The loop of inode_data_free over n direct pointers from the k-th on.
unfoldable pub free_direct : ℕ → ℕ → ℕ → Fs → Bool × Fs
free_direct i zero k s = (true, s)
free_direct i (suc n) k s =
    unless_stopped (free_block ((s.inode_table i).i_direct_blocks k) s)
      (λ s'. free_direct i n (k + 1) s')

-- Its loop over n pointers from the k-th on in the block of pointers.
unfoldable pub free_indirect : ℕ → ℕ → ℕ → Fs → Bool × Fs
free_indirect content zero k s = (true, s)
free_indirect content (suc n) k s =
    unless_stopped (free_block (load_int s.fs_data (content + 4 * k)) s)
      (λ s'. free_indirect content n (k + 1) s')

-- The end of inode_data_free: the block of pointers itself.
unfoldable pub free_last : ℤ → Bool × Fs → ℤ × Fs
free_last b (false, s) = (minus_one, s)
free_last b (true, s) =
    let (r, s') = data_block_free b s in if r ==ℤ minus_one then (minus_one, s') else (pos 0, s')

-- The part of inode_data_free for the block of pointers, whose number is b.
unfoldable pub free_pointer_block : ℤ → Fs → ℤ × Fs
free_pointer_block b s = if b ==ℤ minus_one then (pos 0, s) else elim (data_block_get b) [
  | none ↦ (minus_one, s)
  | some content ↦ free_last b (free_indirect content max_block_pointers 0 s)
]

-- What follows the loop over the direct pointers.
unfoldable pub free_pointers : ℕ → Bool × Fs → ℤ × Fs
free_pointers i (false, s) = (minus_one, s)
free_pointers i (true, s) = free_pointer_block (s.inode_table i).i_data_block s

unfoldable pub inode_data_free : ℕ → Fs → ℤ × Fs
inode_data_free i s =
    if ltb 0 (s.inode_table i).i_size
    then free_pointers i (free_direct i direct_block_pointers 0 s)
    else (pos 0, s)

unfoldable pub inode_metadata_reset : ℕ → Fs → Fs
inode_metadata_reset i s =
    let s' = clear_direct i direct_block_pointers 0 s in
    set_inode i (record (s'.inode_table i) { i_data_block = minus_one; i_size = 0 }) s'

unfoldable pub inode_delete : ℤ → Fs → ℤ × Fs
inode_delete inumber s =
    if valid_inumber inumber
    then elim (s.freeinode_ts (pos_part inumber)) [
      | free ↦ (minus_one, s)
      | taken ↦ inode_data_free (pos_part inumber) (set_freeinode (pos_part inumber) free s)
    ]
    else (minus_one, s)

-- The index of the i-node that the pointer refers to; `none` is NULL.
unfoldable pub inode_get : ℤ → Option ℕ
inode_get inumber = if valid_inumber inumber then some (pos_part inumber) else none
