-- ===== src/Fs/Valid/Tables.antt =====
-- The open file table keeps the invariant.
use so_project.Base.{
  ℕ, ◌≤◌, inl, inr, ℤ, pos, negsuc, free, taken, first_free, first_free-some, count_taken-update,
  Option-cases, arith, Bool-cases, ltb,
}
use so_project.Fs.State.{Fs, block_size, max_open_files}
use so_project.Fs.OpenFile.{add_to_open_file_table, remove_from_open_file_table}
use so_project.Fs.Operations.{set_offset}
use so_project.Fs.Valid.{IsValid, IsFile}

-- Opening takes the lowest free handle, which was not open.
pub add_to_open_file_table-IsValid :
    (z : ℤ) (offset : ℕ) {s : Fs}
    → IsValid s
    → IsFile s z
    → offset ≤ block_size
    → IsValid (add_to_open_file_table z offset s).1
unfolding add_to_open_file_table
add_to_open_file_table-IsValid z offset {s} v f h =
    elim (Option-cases (first_free s.free_open_file_entries max_open_files 0)) [
      | inl e ↦ ground (arith, e)
      | inr (i, e) ↦
          (let found = first_free-some s.free_open_file_entries max_open_files 0 {j = i} e in
            grind (
              arith,
              count_taken-update s.free_open_file_entries max_open_files i taken (omega arith),
              v.offsets,
              v.handles,
            ))
    ]

-- Closing frees the handle, and a handle that is not open is refused.
pub remove_from_open_file_table-IsValid :
    (fhandle : ℤ) {s : Fs} → IsValid s → IsValid (remove_from_open_file_table fhandle s).1
unfolding remove_from_open_file_table
remove_from_open_file_table-IsValid (negsuc n) v = v
remove_from_open_file_table-IsValid (pos h) {s} v = elim (Bool-cases (ltb h max_open_files)) [
  | inr out ↦ ground (arith, out)
  | inl fits ↦ grind (
    arith,
    count_taken-update s.free_open_file_entries max_open_files h free (ground arith),
    v.offsets,
    v.handles,
  )
]

-- Moving the offset of an entry within a block.
pub set_offset-IsValid :
    (h offset : ℕ) {s : Fs} → IsValid s → offset ≤ block_size → IsValid (set_offset h offset s)
set_offset-IsValid h offset {s} v le = grind (arith, v.offsets, v.handles)
