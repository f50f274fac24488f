-- ===== src/P1/Update.antt =====
-- `inode_update` of P1/fs/state.c: the blocks up to the position of an open file entry are allocated,
-- and the address of the position is found.
use so_project.Base.{
  ℕ, zero, suc, ◌+◌, ◌-◌, ◌*◌, ℤ, pos, negsuc, minus_one, ◌==ℤ◌, load_int, store_int, none, some,
  ltb, leb, ◌==◌, if◌then◌else◌,
}
use so_project.P1.State.{Fs, direct_block_pointers, max_block_pointers, fs_data_size}
use so_project.P1.Block.{data_block_alloc, data_block_get, pointer_block_alloc}
use so_project.P1.Inode.{set_inode, set_direct, inode_get}

-- The `char *` that is returned: NULL, an address in `fs_data`, or no valid pointer.
pub data Position : Type 0 where
  null : Position
  at : ℕ → Position
  undefined : Position

-- The body of the loop over the direct pointers, at k.
unfoldable pub ensure_direct : ℕ → ℕ → Fs → Fs
ensure_direct i k s =
    let (b, s') = data_block_alloc s in
    if (s.inode_table i).i_direct_blocks k ==ℤ minus_one then set_direct i k b s' else s

unfoldable pub ensure_directs : ℕ → ℕ → ℕ → Fs → Fs
ensure_directs i zero k s = s
ensure_directs i (suc n) k s = ensure_directs i n (k + 1) (ensure_direct i k s)

-- How many rounds `for (i = 0; i <= blocks && i < limit; i++)` makes.
abbrev pub loop_rounds : ℤ → ℕ → ℕ
loop_rounds (pos b) limit = if ltb b limit then b + 1 else limit
loop_rounds (negsuc b) limit = 0

unfoldable pub ensure_pointer_block : ℕ → Fs → Fs
ensure_pointer_block i s =
    let (b, s') = pointer_block_alloc s in
    if (s.inode_table i).i_data_block ==ℤ minus_one
    then set_inode i (record (s'.inode_table i) { i_data_block = b }) s'
    else s

-- The body of the loop over the pointers in the block at `bpointer`.
unfoldable pub ensure_indirect : ℕ → ℕ → Fs → Fs
ensure_indirect bpointer k s =
    let (b, s') = data_block_alloc s in
    if load_int s.fs_data (bpointer + 4 * k) ==ℤ minus_one
    then record s' { fs_data = store_int s'.fs_data (bpointer + 4 * k) b }
    else s

unfoldable pub ensure_indirects : ℕ → ℕ → ℕ → Fs → Fs
ensure_indirects bpointer zero k s = s
ensure_indirects bpointer (suc n) k s =
    ensure_indirects bpointer n (k + 1) (ensure_indirect bpointer k s)

-- `position = data_block_get(b); position += file->of_offset;`
abbrev pub position_in : ℤ → ℕ → Position
position_in b offset = elim (data_block_get b) [
  | none ↦ if offset == 0 then null else undefined
  | some a ↦ at (a + offset)
]

-- The branch for a position behind the direct blocks: `blocks` is the index in the block of pointers.
unfoldable pub update_indirect : ℕ → ℕ → ℕ → Fs → Position × Fs
update_indirect i blocks offset s =
    let s' = ensure_pointer_block i s in
    elim (data_block_get (s'.inode_table i).i_data_block) [
      | none ↦ (undefined, s')
      | some bpointer ↦
          (let s'' = ensure_indirects bpointer (loop_rounds (pos blocks) max_block_pointers) 0 s' in
            if leb (bpointer + 4 * blocks + 4) fs_data_size
            then (position_in (load_int s''.fs_data (bpointer + 4 * blocks)) offset, s'')
            else (undefined, s''))
    ]

-- The rest of inode_update for the i-node i; a negative index is outside of the direct pointers.
unfoldable pub update_at : ℕ → ℤ → ℕ → Fs → Position × Fs
update_at i (negsuc b) offset s = (undefined, s)
update_at i (pos b) offset s =
    let s' = ensure_directs i (loop_rounds (pos b) direct_block_pointers) 0 s in
    if leb direct_block_pointers b
    then update_indirect i (b - direct_block_pointers) offset s'
    else (position_in ((s'.inode_table i).i_direct_blocks b) offset, s')

unfoldable pub inode_update : ℕ → Fs → Position × Fs
inode_update h s =
    let file = s.open_file_table h in
    elim (inode_get file.of_inumber) [
      | none ↦ (null, s)
      | some i ↦ update_at i file.of_boffset file.of_offset s
    ]
