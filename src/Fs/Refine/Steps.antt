-- ===== src/Fs/Refine/Steps.antt =====
-- The calls on open handles of P2/fs/operations.c, one after another, do what the contract says.
use so_project.Base.{
  ℕ, ◌≤◌, ◌≡◌, ℤ, pos, Memory, List, Option, some, none, refl, ltb, if◌then◌else◌, AllocationState,
  free, taken, inl, inr, arith,
}
use so_project.Fs.State.{Fs, max_open_files}
use so_project.Fs.Operations.{
  works, tfs_write, tfs_read, tfs_close, write_unsynchronized, read_unsynchronized,
}
use so_project.Fs.OpenFile.{remove_from_open_file_table}
use so_project.Fs.Valid.{IsValid, IsOpen}
use so_project.Fs.Valid.Handle.{file_of, offset_of, size_of, byte_of}
use so_project.Fs.Valid.Write.{write-IsValid, read-IsValid}
use so_project.Fs.Valid.Tables.{remove_from_open_file_table-IsValid}
use so_project.Fs.Refine.{
  Contents, Represents, Allows, AllowsAll, Call, write_call, read_call, close_call, carry_out,
  IsLegal, Calls, none_made, made, and_then, Answered,
}
use so_project.Fs.Refine.Writing.{write-Allows}
use so_project.Fs.Refine.Reading.{read-Allows}
use so_project.Fs.Refine.Closing.{close-Allows, handle-cases}

tfs_write-works :
    (fhandle : ℤ) (buffer : Memory) (to_write : ℕ) (s : Fs)
    → tfs_write works fhandle buffer to_write s ≡ write_unsynchronized fhandle buffer to_write s
unfolding tfs_write
tfs_write-works fhandle buffer to_write s = refl

tfs_read-works :
    (fhandle : ℤ) (buffer : Memory) (len : ℕ) (s : Fs)
    → tfs_read works fhandle buffer len s ≡ read_unsynchronized fhandle buffer len s
unfolding tfs_read
tfs_read-works fhandle buffer len s = refl

pub tfs_close-works :
    (fhandle : ℤ) (s : Fs) → tfs_close works fhandle s ≡ remove_from_open_file_table fhandle s
unfolding tfs_close
tfs_close-works fhandle s = ground arith

carry_out-Allows :
    (call : Call) {s : Fs} {c : Contents}
    → IsValid s
    → Represents s c
    → IsLegal s call
    → let (a, b, s') = carry_out call s in
      IsValid s' × ((c' : Contents) × Allows c call a b c' × Represents s' c')
carry_out-Allows (write_call h buffer to_write) {s} {c} v r (o, w) =
    rw (tfs_write-works (pos h) buffer to_write s)
      (write-IsValid h buffer to_write v o w, write-Allows h buffer to_write v o w c r)
carry_out-Allows (read_call h buffer len) {s} {c} v r o =
    rw (tfs_read-works (pos h) buffer len s)
      (read-IsValid h buffer len v o (r.within h o), read-Allows h buffer len v o c r)
carry_out-Allows (close_call fhandle) {s} {c} v r l =
    rw (tfs_close-works fhandle s)
      (remove_from_open_file_table-IsValid fhandle v, close-Allows c r fhandle)

-- For well formed tables that a contents represents, and calls made one after another, each a call
-- of tfs_write, tfs_read or tfs_close whose mutex calls succeed, the writes and reads through handles that
-- are open then and the writes of less than 2 ^ 63 bytes: the contract allows all that they returned, and the
-- contents that it ends with represents the tables, which are well formed.
pub calls-AllowsAll :
    {s t : Fs} {c : Contents} {answers : List Answered}
    → IsValid s
    → Represents s c
    → Calls s answers t
    → IsValid t × ((c' : Contents) × AllowsAll c answers c' × Represents t c')
calls-AllowsAll {c} v r none_made = (v, (c, none_made, r))
calls-AllowsAll v r (made call l rest) =
    let (v', (c', a, r')) = carry_out-Allows call v r l in
    let (v'', (c'', all, r'')) = calls-AllowsAll v' r' rest in (v'', (c'', and_then a all, r''))

-- The contents of any tables.
abbrev pub contents_of : Fs → Contents
contents_of s = record {
  size = λ i. (s.inode_table i).i_size;
  byte = λ i p. byte_of s i p;
  cursor = λ h.
      if ltb h max_open_files
      then open_cursor (s.free_open_file_entries h) (file_of h s, offset_of h s)
      else none;
}
  where
    open_cursor : AllocationState → ℕ × ℕ → Option (ℕ × ℕ)
    open_cursor free x = none
    open_cursor taken x = some x

no_cursor : (h : ℕ) (s : Fs) → ¬ (IsOpen h s) → (contents_of s).cursor h ≡ none
no_cursor h s n = elim (handle-cases h s) [
  | inl o ↦ absurd (n o)
  | inr (inl out) ↦ rw out refl
  | inr (inr e) ↦ rw e (ground arith)
]

-- It represents them, when no handle stands behind the end of its file.
pub contents_of-Represents :
    (s : Fs) → ((h : ℕ) → IsOpen h s → offset_of h s ≤ size_of h s) → Represents s (contents_of s)
contents_of-Represents s within = record {
  sizes = λ i f. refl;
  bytes = λ i p f lt. refl;
  cursors = λ h o. rw (o.in_table, o.is_taken) refl;
  closed_handles = λ h n. no_cursor h s n;
  within = within;
}
