-- ===== src/Fs/Refine.antt =====
-- The contract of the calls on open handles of P2/fs/operations.c: a file is a sequence of bytes, and a
-- handle a position in a file.
pub mod Frame
pub mod Writing
pub mod Reading
pub mod Closing
pub mod Steps
mod Tests
use so_project.Base.{
  ℕ, ◌+◌, ◌-◌, ◌<◌, ◌≤◌, ◌≡◌, ◌^◌, ℤ, pos, minus_one, Memory, Option, none, some, Bool, true, false,
  ltb, leb, ◌&&◌, ◌==◌, if◌then◌else◌, update, List, [], ◌∷◌,
}
use Prim.Native.Nat.{min, max}
use so_project.Fs.State.{Fs, block_size}
use so_project.Fs.Operations.{works, tfs_write, tfs_read, tfs_close}
use so_project.Fs.Valid.{IsFile, IsOpen}
use so_project.Fs.Valid.Handle.{file_of, offset_of, size_of, byte_of}

-- The files by their i-numbers, and for each open handle the file and the position.
pub record Contents : Type 0 where
  pub size : ℕ → ℕ
  pub byte : ℕ → ℕ → ℕ
  pub cursor : ℕ → Option (ℕ × ℕ)

-- A call with its arguments.
pub data Call : Type 0 where
  write_call : (h : ℕ) (buffer : Memory) (to_write : ℕ) → Call
  read_call : (h : ℕ) (buffer : Memory) (len : ℕ) → Call
  close_call : (fhandle : ℤ) → Call

-- The bytes of a file when n bytes have been written at o.
abbrev pub overwritten : (ℕ → ℕ) → ℕ → ℕ → Memory → ℕ → ℕ
overwritten bytes o n buffer p = if leb o p && ltb p (o + n) then buffer (p - o) else bytes p

abbrev pub after_write : ℕ → ℕ → ℕ → ℕ → Memory → Contents → Contents
after_write h i o n buffer c = record {
  size = update c.size i (max (c.size i) (o + n));
  byte = update c.byte i (overwritten (c.byte i) o n buffer);
  cursor = update c.cursor h (some (i, o + n));
}

abbrev pub move_cursor : ℕ → Option (ℕ × ℕ) → Contents → Contents
move_cursor h x c = record c { cursor = update c.cursor h x }

-- What a call may return and leave: the value, the caller's buffer, and the contents. A write stores
-- what fits in the block, or fails on an empty file, when there is no room for its block.
pub data Allows (c : Contents) : Call → ℤ → Memory → Contents → Type 0 where
  wrote :
      {h i o : ℕ} (buffer : Memory) (to_write : ℕ)
      → c.cursor h ≡ some (i, o)
      → Allows c
          (write_call h buffer to_write)
          (pos (min to_write (block_size - o)))
          buffer
          (after_write h i o (min to_write (block_size - o)) buffer c)
  no_room :
      {h i o : ℕ} (buffer : Memory) (to_write : ℕ)
      → c.cursor h ≡ some (i, o)
      → c.size i ≡ 0
      → Allows c (write_call h buffer to_write) minus_one buffer c
  read :
      {h i o : ℕ} (buffer b : Memory) (len : ℕ)
      → c.cursor h ≡ some (i, o)
      → ((k : ℕ) → k < min len (c.size i - o) → b k ≡ c.byte i (o + k))
      → ((k : ℕ) → min len (c.size i - o) ≤ k → b k ≡ buffer k)
      → Allows c
          (read_call h buffer len)
          (pos (min len (c.size i - o)))
          b
          (move_cursor h (some (i, o + min len (c.size i - o))) c)
  closed :
      {h i o : ℕ} (buffer : Memory)
      → c.cursor h ≡ some (i, o)
      → Allows c (close_call (pos h)) (pos 0) buffer (move_cursor h none c)
  refused :
      {fhandle : ℤ} (buffer : Memory)
      → ((h : ℕ) → fhandle ≡ pos h → c.cursor h ≡ none)
      → Allows c (close_call fhandle) minus_one buffer c

-- What the code does in a call when its mutex calls succeed: the value, the caller's buffer, and the state.
abbrev pub buffer_of : Call → Memory
buffer_of (write_call h buffer to_write) = buffer
buffer_of (read_call h buffer len) = buffer
buffer_of (close_call fhandle) = λ k. 0

abbrev pub carry_out : Call → Fs → ℤ × Memory × Fs
carry_out (write_call h buffer to_write) s =
    let (r, s') = tfs_write works (pos h) buffer to_write s in (r, buffer, s')
carry_out (read_call h buffer len) s = tfs_read works (pos h) buffer len s
carry_out (close_call fhandle) s =
    let (r, s') = tfs_close works fhandle s in (r, buffer_of (close_call fhandle), s')

-- A write or a read goes through an open handle, and a write is of less than 2 ^ 63 bytes.
abbrev pub IsLegal : Fs → Call → Type 0
IsLegal s (write_call h buffer to_write) = IsOpen h s × (to_write < 2 ^ 63)
IsLegal s (read_call h buffer len) = IsOpen h s
IsLegal s (close_call fhandle) = Unit

-- A call with the value that it returned and the caller's buffer behind it.
pub record Answered : Type 0 where
  pub call : Call
  pub value : ℤ
  pub buffer : Memory

abbrev pub answered : Call → ℤ × Memory × Fs → Answered
answered call (r, b, s) = record { call = call; value = r; buffer = b }

-- Calls one after another, each by whatever thread.
pub data Calls : Fs → List Answered → Fs → Type 0 where
  none_made : {s : Fs} → Calls s [] s
  made :
      {s t : Fs} {rest : List Answered} (call : Call)
      → IsLegal s call
      → Calls (carry_out call s).2 rest t
      → Calls s (answered call (carry_out call s) ∷ rest) t

-- The same calls and answers, as the contract has them.
pub data AllowsAll : Contents → List Answered → Contents → Type 0 where
  none_made : {c : Contents} → AllowsAll c [] c
  and_then :
      {c c' c'' : Contents} {a : Answered} {rest : List Answered}
      → Allows c a.call a.value a.buffer c'
      → AllowsAll c' rest c''
      → AllowsAll c (a ∷ rest) c''

-- The contents of the tables: no handle stands behind the end of its file.
pub record Represents (s : Fs) (c : Contents) : Type 0 where
  pub sizes : (i : ℕ) → IsFile s (pos i) → c.size i ≡ (s.inode_table i).i_size
  pub bytes :
      (i p : ℕ) → IsFile s (pos i) → p < (s.inode_table i).i_size → c.byte i p ≡ byte_of s i p
  pub cursors : (h : ℕ) → IsOpen h s → c.cursor h ≡ some (file_of h s, offset_of h s)
  pub closed_handles : (h : ℕ) → ¬ (IsOpen h s) → c.cursor h ≡ none
  pub within : (h : ℕ) → IsOpen h s → offset_of h s ≤ size_of h s
