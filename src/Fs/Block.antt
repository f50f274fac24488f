-- ===== src/Fs/Block.antt =====
-- The data blocks of P2/fs/state.c.
use so_project.Base.{
  ℕ, ◌*◌, ℤ, pos, minus_one, pos_part, Option, none, some, free, taken, first_free, update,
  if◌then◌else◌,
}
use so_project.Fs.State.{Fs, block_size, data_blocks, valid_block_number}

-- The index of the block that was taken, or -1.
unfoldable pub data_block_alloc : Fs → ℤ × Fs
data_block_alloc s = elim (first_free s.free_blocks data_blocks 0) [
  | none ↦ (minus_one, s)
  | some i ↦ (pos i, record s { free_blocks = update s.free_blocks i taken })
]

unfoldable pub data_block_free : ℤ → Fs → ℤ × Fs
data_block_free b s =
    if valid_block_number b
    then (pos 0, record s { free_blocks = update s.free_blocks (pos_part b) free })
    else (minus_one, s)

-- The address of the block's first byte in `fs_data`; `none` is NULL.
unfoldable pub data_block_get : ℤ → Option ℕ
data_block_get b = if valid_block_number b then some (pos_part b * block_size) else none
