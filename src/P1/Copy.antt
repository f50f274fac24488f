-- ===== src/P1/Copy.antt =====
-- tfs_copy_to_external_fs of P1/fs/operations.c. The files outside are the C library's: `fopen`,
-- `fwrite` and `fclose` are parameters, on a state of theirs.
use so_project.Base.{
  ℕ, ◌-◌, ℤ, pos, negsuc, minus_one, ◌==ℤ◌, size_mod, Memory, CString, Option, none, some, ◌==◌,
  if◌then◌else◌,
}
use so_project.P1.State.{Fs}
use so_project.P1.Inode.{inode_get}
use so_project.P1.OpenFile.{get_open_file_entry}
use so_project.P1.Operations.{
  Result, returned, undefined, out_of_fuel, tfs_open, tfs_close, tfs_read,
}

-- The calls on files outside: `fopen` for writing, `fwrite` of a number of bytes, which returns how
-- many were written, and `fclose`.
pub record Stdio (F X : Type 0) : Type 0 where
  pub fopen : CString → X → Option F × X
  pub fwrite : Memory → ℕ → F → X → ℕ × X
  pub fclose : F → X → X

-- `(size_t)` of an `ssize_t`.
abbrev pub unsigned64 : ℤ → ℕ
unsigned64 (pos n) = n
unsigned64 (negsuc n) = size_mod - 1 - n

module _ {F X : Type 0} (stdio : Stdio F X) where
  -- What follows fwrite, which says how many of the bytes it wrote.
  unfoldable pub close_copy : ℤ → ℕ → F → Fs → ℕ × X → Result (Fs × X)
  close_copy source size dest s (n, x) =
      let (r, s') = tfs_close source s in
      if n == size
      then returned (if r ==ℤ minus_one then minus_one else pos 0) (s', stdio.fclose dest x)
      else returned minus_one (s, x)

  -- What follows fopen.
  unfoldable pub store_copy : ℤ → Memory → ℕ → Fs → Option F × X → Result (Fs × X)
  store_copy source buffer size s (none, x) = returned minus_one (s, x)
  store_copy source buffer size s (some dest, x) =
      close_copy source size dest s (stdio.fwrite buffer size dest x)

  -- What follows tfs_read.
  unfoldable pub after_read : ℤ → ℕ → CString → X → Result (Memory × Fs) → Result (Fs × X)
  after_read source size dest_path x (returned r (buffer, s)) =
      if unsigned64 r == size
      then store_copy source buffer size s (stdio.fopen dest_path x)
      else returned minus_one (s, x)
  after_read source size dest_path x undefined = undefined
  after_read source size dest_path x out_of_fuel = out_of_fuel

  -- What follows tfs_open. `buffer` stands for what the array on the stack holds before; an array of
  -- no bytes is undefined.
  unfoldable pub copy_opened : CString → Memory → X → ℤ × Fs → Result (Fs × X)
  copy_opened dest_path buffer x (source, s) =
      if source ==ℤ minus_one
      then returned minus_one (s, x)
      else elim (get_open_file_entry source) [
        | none ↦ returned minus_one (s, x)
        | some h ↦ elim (inode_get (s.open_file_table h).of_inumber) [
          | none ↦ returned minus_one (s, x)
          | some i ↦
              (let size = (s.inode_table i).i_size in
                if size == 0
                then undefined
                else after_read source size dest_path x (tfs_read source buffer size s))
        ]
      ]

  unfoldable pub tfs_copy_to_external_fs :
      Option CString → CString → Memory → Fs → X → Result (Fs × X)
  tfs_copy_to_external_fs source_path dest_path buffer s x =
      copy_opened dest_path buffer x (tfs_open source_path 0 s)
