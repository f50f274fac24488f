-- ===== src/Fs/Operations.antt =====
-- P2/fs/operations.c. The functions of pthread are not part of the program: `Pthread` holds what its
-- calls return to the operation that is running, 0 for success.
use so_project.Base.{
  ℕ, ◌+◌, ◌/◌, ◌%◌, ℤ, pos, minus_one, ◌==ℤ◌, is_nonneg, add64, sub64, signed64, Memory, CString,
  length, blit, Option, none, some, [], ◌∷◌, Bool, true, false, not, ◌&&◌, ◌==◌, ltb, if◌then◌else◌,
  update,
}
use so_project.Fs.State.{
  Fs, Phase, opened, closing, t_file, t_directory, root_dir_inum, block_size, state_init,
  state_destroy,
}
use so_project.Fs.Block.{data_block_alloc, data_block_free, data_block_get}
use so_project.Fs.Inode.{set_inode, inode_create, inode_delete, inode_get}
use so_project.Fs.Dir.{add_dir_entry, find_in_dir}
use so_project.Fs.OpenFile.{
  add_to_open_file_table, remove_from_open_file_table, get_open_file_entry,
}

pub record Pthread : Type 0 where
  pub mutex_init : ℤ
  pub cond_init : ℤ
  pub mutex_lock : ℤ
  pub mutex_unlock : ℤ
  pub cond_signal : ℤ
  pub cond_wait : ℤ
  pub mutex_destroy : ℤ
  pub cond_destroy : ℤ

-- No call fails.
abbrev pub works : Pthread
works = record {
  mutex_init = pos 0;
  cond_init = pos 0;
  mutex_lock = pos 0;
  mutex_unlock = pos 0;
  cond_signal = pos 0;
  cond_wait = pos 0;
  mutex_destroy = pos 0;
  cond_destroy = pos 0;
}

-- `call != 0`
abbrev pub fails : ℤ → Bool
fails z = not (z ==ℤ pos 0)

-- The flags of common.h, and `flags & f` as a test.
abbrev pub tfs_o_creat : ℕ
tfs_o_creat = 1

abbrev pub tfs_o_trunc : ℕ
tfs_o_trunc = 2

abbrev pub tfs_o_append : ℕ
tfs_o_append = 4

abbrev pub has_flag : ℕ → ℕ → Bool
has_flag flags f = flags / f % 2 == 1

unfoldable pub tfs_init : Pthread → Fs → ℤ × Fs
tfs_init p s =
    let s' = state_init s in
    if fails p.mutex_init
    then (minus_one, s')
    else if fails p.cond_init
    then (minus_one, s')
    else (let (root, s'') = inode_create t_directory (record s' { state = opened }) in
        if root ==ℤ pos root_dir_inum then (pos 0, s'') else (minus_one, s''))

unfoldable pub tfs_destroy : Pthread → Fs → ℤ × Fs
tfs_destroy p s =
    let s' = state_destroy s in
    if fails p.mutex_destroy
    then (minus_one, s')
    else if fails p.cond_destroy
    then (minus_one, s')
    else (pos 0, s')

-- What tfs_destroy_after_all_closed does when no file is open: the result of tfs_destroy is dropped.
unfoldable pub finish_destroy : Pthread → Fs → ℤ × Fs
unfolding tfs_destroy
finish_destroy p s = if fails p.mutex_unlock then (minus_one, s) else (pos 0, (tfs_destroy p s).1)

-- `others` is what the other threads do while pthread_cond_wait has released the lock.
unfoldable pub tfs_destroy_after_all_closed : Pthread → (Fs → Fs) → Fs → ℤ × Fs
unfolding finish_destroy
tfs_destroy_after_all_closed p others s =
    let s' = record s { state = closing } in
    if fails p.mutex_lock
    then (minus_one, s')
    else if not (s'.open_file_count ==ℤ pos 0)
    then (if fails p.cond_wait then (minus_one, others s') else finish_destroy p (others s'))
    else finish_destroy p s'

-- A path name: `none` is the null pointer.
abbrev pub valid_pathname : Option CString → Bool
valid_pathname none = false
valid_pathname (some []) = false
valid_pathname (some (c ∷ cs)) = ltb 1 (length (c ∷ cs)) && c == b'/'

-- `name + 1` behind the test that the string is not empty.
abbrev pub skip_first : CString → CString
skip_first [] = []
skip_first (c ∷ cs) = cs

abbrev pub tail_of : Option CString → CString
tail_of none = []
tail_of (some name) = skip_first name

unfoldable pub lookup_unsynchronized : Option CString → Fs → ℤ
lookup_unsynchronized name s =
    if valid_pathname name then find_in_dir (pos root_dir_inum) (tail_of name) s else minus_one

-- `r = f(); unlock; return r` of an operation that holds the lock.
abbrev pub under_lock : Pthread → Fs → ℤ × Fs → ℤ × Fs
under_lock p s (r, s') =
    if fails p.mutex_lock
    then (minus_one, s)
    else if fails p.mutex_unlock
    then (minus_one, s')
    else (r, s')

unfoldable pub tfs_lookup : Pthread → Option CString → Fs → ℤ × Fs
tfs_lookup p name s = under_lock p s (lookup_unsynchronized name s, s)

-- The truncation of tfs_open: `none` when data_block_free fails.
unfoldable pub truncate : ℕ → Fs → Option Fs
truncate i s =
    let node = s.inode_table i in
    let (r, s') = data_block_free node.i_data_block s in
    if ltb 0 node.i_size
    then (if r ==ℤ minus_one then none else some (set_inode i (record node { i_size = 0 }) s'))
    else some s

-- The branch of tfs_open for a file that exists, with i-number i.
unfoldable pub open_existing : ℕ → ℕ → Fs → ℤ × Fs
open_existing i flags s =
    let truncated : Option Fs = if has_flag flags tfs_o_trunc then truncate i s else some s in
    elim truncated [
      | none ↦ (minus_one, s)
      | some s' ↦
          add_to_open_file_table (pos i)
            (if has_flag flags tfs_o_append then (s'.inode_table i).i_size else 0) s'
    ]

-- The branch of tfs_open that creates the file. Here `name + 1` is taken of any name: of the null
-- pointer or the empty string it is outside of every object, and the result is `none`.
unfoldable pub open_new : Option CString → Fs → Option (ℤ × Fs)
open_new none s =
    let (inum, s') = inode_create t_file s in
    if inum ==ℤ minus_one then some (minus_one, s') else none
open_new (some []) s =
    let (inum, s') = inode_create t_file s in
    if inum ==ℤ minus_one then some (minus_one, s') else none
open_new (some (c ∷ cs)) s =
    let (inum, s') = inode_create t_file s in
    if inum ==ℤ minus_one
    then some (minus_one, s')
    else (let (r, s'') = add_dir_entry (pos root_dir_inum) inum cs s' in
        some (
          if r ==ℤ minus_one
          then (minus_one, (inode_delete inum s'').1)
          else add_to_open_file_table inum 0 s''))

-- `none` is undefined behaviour.
unfoldable pub open_unsynchronized : Option CString → ℕ → Fs → Option (ℤ × Fs)
unfolding open_existing open_new
open_unsynchronized name flags s =
    let inum = lookup_unsynchronized name s in
    if is_nonneg inum
    then elim (inode_get inum) [
      | none ↦ some (minus_one, s)
      | some i ↦ some (open_existing i flags s)
    ]
    else if has_flag flags tfs_o_creat
    then open_new name s
    else some (minus_one, s)

abbrev pub is_closing : Phase → Bool
is_closing opened = false
is_closing closing = true

unfoldable pub tfs_open : Pthread → Option CString → ℕ → Fs → Option (ℤ × Fs)
tfs_open p name flags s =
    if is_closing s.state
    then some (minus_one, s)
    else if fails p.mutex_lock
    then some (minus_one, s)
    else elim (open_unsynchronized name flags s) [
      | none ↦ none
      | some (r, s') ↦ some (if fails p.mutex_unlock then (minus_one, s') else (r, s'))
    ]

unfoldable pub tfs_close : Pthread → ℤ → Fs → ℤ × Fs
tfs_close p fhandle s =
    if fails p.mutex_lock
    then (minus_one, s)
    else (let (r, s') = remove_from_open_file_table fhandle s in
        if s'.open_file_count ==ℤ pos 0 && fails p.cond_signal
        then (minus_one, s')
        else if fails p.mutex_unlock
        then (minus_one, s')
        else (r, s'))

-- `inode->i_data_block = data_block_alloc()` for an empty file.
unfoldable pub ensure_block : ℕ → Fs → Fs
ensure_block i s =
    let (b, s') = data_block_alloc s in
    if (s.inode_table i).i_size == 0
    then set_inode i (record (s.inode_table i) { i_data_block = b }) s'
    else s

-- `file->of_offset += n` and, in a write, `if (file->of_offset > inode->i_size) …`.
abbrev pub set_offset : ℕ → ℕ → Fs → Fs
set_offset h offset s = record s {
  open_file_table =
      update s.open_file_table h (record (s.open_file_table h) { of_offset = offset });
}

abbrev pub grow : ℕ → ℕ → Fs → Fs
grow i offset s =
    if ltb (s.inode_table i).i_size offset
    then set_inode i (record (s.inode_table i) { i_size = offset }) s
    else s

-- The write of n > 0 bytes to the i-node i through the entry h.
unfoldable pub write_block : ℕ → ℕ → Memory → ℕ → Fs → ℤ × Fs
write_block h i buffer n s =
    let s' = ensure_block i s in
    let offset = (s'.open_file_table h).of_offset in
    elim (data_block_get (s'.inode_table i).i_data_block) [
      | none ↦ (minus_one, s')
      | some block ↦ (
        signed64 n,
        grow i (add64 offset n) (
            set_offset h (add64 offset n)
              (record s' { fs_data = blit s'.fs_data (block + offset) n buffer })),
      )
    ]

-- How many bytes to write at an offset.
abbrev pub clamp_write : ℕ → ℕ → ℕ
clamp_write offset to_write =
    if ltb block_size (add64 to_write offset) then sub64 block_size offset else to_write

unfoldable pub write_unsynchronized : ℤ → Memory → ℕ → Fs → ℤ × Fs
write_unsynchronized fhandle buffer to_write s = elim (get_open_file_entry fhandle) [
  | none ↦ (minus_one, s)
  | some h ↦ elim (inode_get (s.open_file_table h).of_inumber) [
    | none ↦ (minus_one, s)
    | some i ↦
        (let n = clamp_write (s.open_file_table h).of_offset to_write in
          if ltb 0 n then write_block h i buffer n s else (signed64 n, s))
  ]
]

unfoldable pub tfs_write : Pthread → ℤ → Memory → ℕ → Fs → ℤ × Fs
tfs_write p fhandle buffer to_write s =
    under_lock p s (write_unsynchronized fhandle buffer to_write s)

-- How many bytes to read at an offset of a file of that size.
abbrev pub clamp_read : ℕ → ℕ → ℕ → ℕ
clamp_read size offset len =
    let to_read = sub64 size offset in if ltb len to_read then len else to_read

-- The result, the caller's buffer and the state. The model tells no end of `fs_data`: a copy past it,
-- which is undefined, is a copy of the bytes of the memory there.
unfoldable pub read_unsynchronized : ℤ → Memory → ℕ → Fs → ℤ × Memory × Fs
read_unsynchronized fhandle buffer len s = elim (get_open_file_entry fhandle) [
  | none ↦ (minus_one, buffer, s)
  | some h ↦ elim (inode_get (s.open_file_table h).of_inumber) [
    | none ↦ (minus_one, buffer, s)
    | some i ↦
        (let offset = (s.open_file_table h).of_offset in
          let n = clamp_read (s.inode_table i).i_size offset len in
          if ltb 0 n
          then elim (data_block_get (s.inode_table i).i_data_block) [
            | none ↦ (minus_one, buffer, s)
            | some block ↦ (
              signed64 n,
              blit buffer 0 n (λ k. s.fs_data (block + offset + k)),
              set_offset h (add64 offset n) s,
            )
          ]
          else (signed64 n, buffer, s))
  ]
]

unfoldable pub tfs_read : Pthread → ℤ → Memory → ℕ → Fs → ℤ × Memory × Fs
tfs_read p fhandle buffer len s =
    let (r, buffer', s') = read_unsynchronized fhandle buffer len s in
    if fails p.mutex_lock
    then (minus_one, buffer, s)
    else if fails p.mutex_unlock
    then (minus_one, buffer', s')
    else (r, buffer', s')
