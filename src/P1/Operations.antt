-- ===== src/P1/Operations.antt =====
-- P1/fs/operations.c. The loops of tfs_write and tfs_read take as fuel the number of bytes, since each
-- round handles at least one.
use so_project.Base.{
  ℕ, zero, suc, ◌+◌, ◌-◌, ℤ, pos, minus_one, ◌==ℤ◌, is_nonneg, succ_ℤ, add64, sub64, signed64,
  Memory, CString, blit, Option, none, some, Bool, true, false, ltb, leb, ◌==◌, if◌then◌else◌,
  update,
}
use so_project.Fs.State.{t_file, t_directory, root_dir_inum, block_size}
use so_project.Fs.Operations.{
  valid_pathname, tail_of, has_flag, tfs_o_creat, tfs_o_trunc, tfs_o_append,
}
use so_project.P1.State.{Fs, OpenFileEntry, fs_data_size, state_init, state_destroy}
use so_project.P1.Inode.{
  set_inode, inode_create, inode_delete, inode_get, inode_data_free, inode_metadata_reset,
}
use so_project.P1.Dir.{add_dir_entry, find_in_dir}
use so_project.P1.OpenFile.{
  add_to_open_file_table, remove_from_open_file_table, get_open_file_entry,
}
use so_project.P1.Update.{Position, null, at, inode_update}

unfoldable pub tfs_init : Fs → ℤ × Fs
tfs_init s =
    let (root, s') = inode_create t_directory (state_init s) in
    if root ==ℤ pos root_dir_inum then (pos 0, s') else (minus_one, s')

unfoldable pub tfs_destroy : Fs → ℤ × Fs
tfs_destroy s = (pos 0, state_destroy s)

unfoldable pub tfs_lookup : Option CString → Fs → ℤ
tfs_lookup name s =
    if valid_pathname name then find_in_dir (pos root_dir_inum) (tail_of name) s else minus_one

-- The truncation of tfs_open: whether the call goes on.
unfoldable pub truncate : ℕ → Fs → Bool × Fs
truncate i s =
    let (r, s') = inode_data_free i s in
    if r ==ℤ minus_one then (false, s') else (true, inode_metadata_reset i s')

-- The branch of tfs_open for a file that exists, with i-number i.
unfoldable pub open_existing : ℕ → ℕ → Fs → ℤ × Fs
open_existing i flags s =
    let (ok, s') = truncate i s in
    let opened : Fs → ℤ × Fs = λ t.
      add_to_open_file_table (pos i)
        (if has_flag flags tfs_o_append then (t.inode_table i).i_size else 0) t in
    if has_flag flags tfs_o_trunc then (if ok then opened s' else (minus_one, s')) else opened s

-- The branch of tfs_open that creates the file.
unfoldable pub open_new : CString → Fs → ℤ × Fs
open_new sub_name s =
    let (inum, s') = inode_create t_file s in
    let (r, s'') = add_dir_entry (pos root_dir_inum) inum sub_name s' in
    if inum ==ℤ minus_one
    then (minus_one, s')
    else if r ==ℤ minus_one
    then (minus_one, (inode_delete inum s'').1)
    else add_to_open_file_table inum 0 s''

unfoldable pub tfs_open : Option CString → ℕ → Fs → ℤ × Fs
unfolding open_existing open_new
tfs_open name flags s =
    let inum = tfs_lookup name s in
    if valid_pathname name
    then (if is_nonneg inum
        then elim (inode_get inum) [ none ↦ (minus_one, s) | some i ↦ open_existing i flags s ]
        else if has_flag flags tfs_o_creat
        then open_new (tail_of name) s
        else (minus_one, s))
    else (minus_one, s)

unfoldable pub tfs_close : ℤ → Fs → ℤ × Fs
tfs_close fhandle s = remove_from_open_file_table fhandle s

-- How a call ends: with a value and what it leaves, or in undefined behaviour.
pub data Result (A : Type 0) : Type 0 where
  returned : ℤ → A → Result A
  undefined out_of_fuel : Result A

-- `file->of_offset += n`, with the carry to of_boffset.
abbrev pub advanced : ℕ → OpenFileEntry → OpenFileEntry
advanced n file =
    let offset = add64 file.of_offset n in
    let carry = leb block_size offset in
    record file {
      of_offset = if carry then offset - block_size else offset;
      of_boffset = if carry then succ_ℤ file.of_boffset else file.of_boffset;
    }

abbrev pub advance : ℕ → ℕ → Fs → Fs
advance h n s = record s {
  open_file_table = update s.open_file_table h (advanced n (s.open_file_table h));
}

-- `inode->i_size += n`
abbrev pub grow : ℕ → ℕ → Fs → Fs
grow i n s = set_inode i (record (s.inode_table i) { i_size = add64 (s.inode_table i).i_size n }) s

-- to_write_aux, for the offset in the block.
abbrev pub write_chunk : ℕ → ℕ → ℕ
write_chunk offset to_write =
    if ltb block_size (add64 to_write offset) then sub64 block_size offset else to_write

-- `memcpy(position, buffer, n)`; a copy past the end of `fs_data` is undefined.
unfoldable pub copy_to : Memory → ℕ → Position × Fs → Result Fs
copy_to buffer n (null, s) = returned minus_one s
copy_to buffer n (Position.undefined, s) = undefined
copy_to buffer n (at a, s) =
    if leb (a + n) fs_data_size
    then returned (pos 0) (record s { fs_data = blit s.fs_data a n buffer })
    else undefined

-- The copy of n bytes to the position of the entry h.
unfoldable pub copy_in : ℕ → Memory → ℕ → Fs → Result Fs
copy_in h buffer n s = if n == 0 then returned (pos 0) s else copy_to buffer n (inode_update h s)

-- A round goes on unless the copy ends the call.
unfoldable pub unless_failed : {A : Type 0} → Result A → (A → Result A) → Result A
unless_failed (returned r a) next = if r ==ℤ minus_one then returned minus_one a else next a
unless_failed undefined next = undefined
unless_failed out_of_fuel next = out_of_fuel

-- The loop of tfs_write, whose caller asked for `count` bytes.
unfoldable pub write_loop : ℕ → ℕ → ℕ → Memory → ℕ → ℕ → Fs → Result Fs
write_loop zero h i buffer count to_write s =
    if to_write == 0 then returned (signed64 count) s else out_of_fuel
write_loop (suc fuel) h i buffer count to_write s =
    let n = write_chunk (s.open_file_table h).of_offset to_write in
    let round = unless_failed (copy_in h buffer n s) (λ s'.
      write_loop fuel h i (λ k. buffer (n + k)) count (sub64 to_write n)
        (grow i n (advance h n s'))) in
    if to_write == 0 then returned (signed64 count) s else round

unfoldable pub tfs_write : ℤ → Memory → ℕ → Fs → Result Fs
tfs_write fhandle buffer to_write s = elim (get_open_file_entry fhandle) [
  | none ↦ returned minus_one s
  | some h ↦ elim (inode_get (s.open_file_table h).of_inumber) [
    | none ↦ returned minus_one s
    | some i ↦ write_loop to_write h i buffer to_write to_write s
  ]
]

-- to_read_aux, for the offset in the block.
abbrev pub read_chunk : ℕ → ℕ → ℕ
read_chunk offset to_read =
    if leb block_size (add64 offset to_read) then sub64 block_size offset else to_read

-- `memcpy(buffer, position, to_read)`, at the place `done` of the caller's buffer; a read past the end
-- of `fs_data` is undefined.
unfoldable pub copy_from : Memory → ℕ → ℕ → Position × Fs → Result (Memory × Fs)
copy_from buffer done to_read (null, s) = returned minus_one (buffer, s)
copy_from buffer done to_read (Position.undefined, s) = undefined
copy_from buffer done to_read (at a, s) =
    if leb (a + to_read) fs_data_size
    then returned (pos 0) (blit buffer done to_read (λ k. s.fs_data (a + k)), s)
    else undefined

-- The copy for a round that handles n bytes: it copies all `to_read` bytes that are left.
unfoldable pub copy_out : ℕ → Memory → ℕ → ℕ → ℕ → Fs → Result (Memory × Fs)
copy_out h buffer done to_read n s =
    if n == 0
    then returned (pos 0) (buffer, s)
    else copy_from buffer done to_read (inode_update h s)

unfoldable pub read_loop : ℕ → ℕ → Memory → ℕ → ℕ → ℕ → Fs → Result (Memory × Fs)
read_loop zero h buffer done count to_read s =
    if to_read == 0 then returned (signed64 count) (buffer, s) else out_of_fuel
read_loop (suc fuel) h buffer done count to_read s =
    let n = read_chunk (s.open_file_table h).of_offset to_read in
    let round = unless_failed (copy_out h buffer done to_read n s) (λ (buffer', s').
      read_loop fuel h buffer' (done + n) count (sub64 to_read n) (advance h n s')) in
    if to_read == 0 then returned (signed64 count) (buffer, s) else round

-- How many bytes to read: the position's block does not count.
abbrev pub clamp_read : ℕ → ℕ → ℕ → ℕ
clamp_read size offset len =
    let to_read = sub64 size offset in if ltb len to_read then len else to_read

unfoldable pub tfs_read : ℤ → Memory → ℕ → Fs → Result (Memory × Fs)
tfs_read fhandle buffer len s = elim (get_open_file_entry fhandle) [
  | none ↦ returned minus_one (buffer, s)
  | some h ↦ elim (inode_get (s.open_file_table h).of_inumber) [
    | none ↦ returned minus_one (buffer, s)
    | some i ↦
        (let n = clamp_read (s.inode_table i).i_size (s.open_file_table h).of_offset len in
          read_loop n h buffer 0 n n s)
  ]
]
