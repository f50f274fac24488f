-- ===== src/Fs/Handles.antt =====
-- The open file table seen by the callers of tfs_open and tfs_close, and what the operations do with a
-- handle that is not open.
use so_project.Base.{
  ℕ, ◌+◌, ◌<◌, ◌≡◌, ◌⊎◌, inl, inr, ℤ, pos, negsuc, minus_one, pos_part, succ_ℤ, AllocationState,
  free, taken, count_taken, count_taken-update, Bool-cases, ltb, arith, refl,
}
use so_project.Fs.State.{Fs, max_open_files}
use so_project.Fs.OpenFile.{remove_from_open_file_table}
use so_project.Fs.Valid.{IsValid, IsOpen}

entry-cases : (a : AllocationState) → (a ≡ free) ⊎ (a ≡ taken)
entry-cases free = inl refl
entry-cases taken = inr refl

-- What opening an entry for the i-node z has done: the lowest free handle is open and stands for it,
-- and one more file is open; or no handle is free.
abbrev pub Opens : ℤ → ℕ → Fs → ℤ × Fs → Type 0
Opens z offset s (r, s') =
    ((h : ℕ) × (r ≡ pos h)
      × (s.free_open_file_entries h ≡ free)
      × ((k : ℕ) → k < h → s.free_open_file_entries k ≡ taken)
      × IsOpen h s'
      × (s'.open_file_count ≡ succ_ℤ s.open_file_count)
      × (s'.open_file_table h ≡ record { of_inumber = z; of_offset = offset }))
    ⊎ ((r ≡ minus_one) × ((k : ℕ) → k < max_open_files → s.free_open_file_entries k ≡ taken))

-- For well formed tables: closing an open handle returns 0, frees it and takes one off the count
-- of open files; any other argument is refused with -1, and nothing changes.
pub close_outcome :
    (fhandle : ℤ) {s : Fs}
    → IsValid s
    → let (r, s') = remove_from_open_file_table fhandle s in
      ((r ≡ pos 0)
        × (fhandle ≡ pos (pos_part fhandle))
        × IsOpen (pos_part fhandle) s
        × ¬ (IsOpen (pos_part fhandle) s')
        × (pos (count_taken s'.free_open_file_entries max_open_files + 1) ≡ s.open_file_count))
      ⊎ ((r ≡ minus_one)
          × (s' ≡ s)
          × ¬ ((fhandle ≡ pos (pos_part fhandle)) × IsOpen (pos_part fhandle) s))
unfolding remove_from_open_file_table
close_outcome (negsuc n) v = inr (refl, refl, λ x. cc (x.0))
close_outcome (pos h) {s} v = elim (Bool-cases (ltb h max_open_files)) [
  | inr out ↦ rw out (inr (refl, refl, λ x. cc (x.1.in_table, out)))
  | inl fits ↦ elim (entry-cases (s.free_open_file_entries h)) [
    | inl e ↦
        rw (fits, e, remove_from_open_file_table) (inr (refl, refl, λ x. cc (x.1.is_taken, e)))
    | inr e ↦
        rw (fits, e, remove_from_open_file_table)
          (inl (
            refl,
            refl,
            record { in_table = fits; is_taken = e },
            (λ x. ground (arith, x.is_taken)),
            ground (
              arith,
              v.counted,
              count_taken-update s.free_open_file_entries max_open_files h free (ground arith),
            ),
          ))
  ]
]

-- Closing the same handle a second time fails and changes nothing.
pub close-close :
    (fhandle : ℤ) (s : Fs)
    → remove_from_open_file_table fhandle (remove_from_open_file_table fhandle s).1
      ≡ (minus_one, (remove_from_open_file_table fhandle s).1)
unfolding remove_from_open_file_table
close-close (negsuc n) s = refl
close-close (pos h) s = ground arith
