-- ===== src/P1/Block.antt =====
-- The data blocks of P1/fs/state.c, and the blocks of pointers.
use so_project.Base.{
  ℕ, zero, suc, ◌+◌, ◌*◌, ℤ, pos, minus_one, pos_part, ◌==ℤ◌, Memory, store_int, Option, none, some,
  free, taken, first_free, update, if◌then◌else◌,
}
use so_project.Fs.State.{block_size, data_blocks, valid_block_number}
use so_project.P1.State.{Fs, max_block_pointers}

-- The index of the block that was taken, or -1.
unfoldable pub data_block_alloc : Fs → ℤ × Fs
data_block_alloc s = elim (first_free s.free_blocks data_blocks 0) [
  | none ↦ (minus_one, s)
  | some i ↦ (pos i, record s { free_blocks = update s.free_blocks i taken })
]

unfoldable pub data_block_free : ℤ → Fs → ℤ × Fs
data_block_free b s =
    if valid_block_number b
    then (pos 0, record s { free_blocks = update s.free_blocks (pos_part b) free })
    else (minus_one, s)

-- The address of the block's first byte in `fs_data`; `none` is NULL.
unfoldable pub data_block_get : ℤ → Option ℕ
data_block_get b = if valid_block_number b then some (pos_part b * block_size) else none

-- The loop of pointer_block_alloc: n pointers from the k-th on become EMPTY, which is -1.
unfoldable pub clear_pointers : Memory → ℕ → ℕ → ℕ → Memory
clear_pointers m content zero k = m
clear_pointers m content (suc n) k =
    clear_pointers (store_int m (content + 4 * k) minus_one) content n (k + 1)

unfoldable pub pointer_block_alloc : Fs → ℤ × Fs
pointer_block_alloc s =
    let (index, s') = data_block_alloc s in
    if index ==ℤ minus_one then (minus_one, s') else elim (data_block_get index) [
      | none ↦ (minus_one, s')
      | some content ↦
          (index, record s' { fs_data = clear_pointers s'.fs_data content max_block_pointers 0 })
    ]
