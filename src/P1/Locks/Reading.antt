-- ===== src/P1/Locks/Reading.antt =====
-- tfs_read of P1/fs/operations.c in a thread that runs alone.
use so_project.Base.{
  ℕ, zero, suc, ◌<◌, ◌^◌, ◌+◌, inl, inr, ℤ, none, refl, sym, subst, Option-cases, Bool-cases, leb,
  Memory, arith, ◌==◌, blit, sub64,
}
use so_project.P1.State.{Fs, fs_data_size}
use so_project.P1.Inode.{inode_get}
use so_project.P1.OpenFile.{get_open_file_entry}
use so_project.P1.Update.{Position, null, at, inode_update}
use so_project.P1.Operations.{
  Result, undefined, advance, unless_failed, read_chunk, copy_from, copy_out, read_loop, clamp_read,
  tfs_read,
}
use so_project.P1.Bounds.Rounds.{InBlock, tfs_read-Ends}
use so_project.P1.Locks.{
  reading, Pc, at_size_lock, at_head, at_file_lock, at_advance, idle, entered, after_chunk,
  with_file, call_read, lock_size, see_size, leave, see_offset_locked, copy, copy_behind, move_on,
  unlocked,
}
use so_project.P1.Locks.Alone.{with_mutex, mutex-back, stay, go, Located, inode_update-Located}
use so_project.P1.Locks.Ended.{
  ReadInto, Ended, EndsAs, Ended-go, Ended-Alone, EndsAs-Ends, read_frame,
}

-- The same for a round of tfs_read.
copy_from-Ended :
    (me h i : ℕ) (buffer : Memory) (done count left n : ℕ) (s : Fs) (r : Position × Fs)
    (next : Memory × Fs → Result (Memory × Fs))
    → Located me
        (read_frame h i buffer done count left)
        n
        (unlocked s)
        (at_file_lock (read_frame h i buffer done count left) n)
        r
    → ((b : Memory) (t : Fs)
        → Ended ReadInto me
            (unlocked t)
            (at_advance (read_frame h i b done count left) n)
            (next (b, t)))
    → Ended ReadInto me
        (unlocked s)
        (at_file_lock (read_frame h i buffer done count left) n)
        (unless_failed (copy_from buffer done left r) next)
unfolding copy_from unless_failed
copy_from-Ended me h i buffer done count left n s (null, t) next path rest = (buffer, t, refl, path)
copy_from-Ended me h i buffer done count left n s (Position.undefined, t) next path rest = path
copy_from-Ended me h i buffer done count left n s (at a, t) next path rest =
    let b : Memory = blit buffer done left (λ k. t.fs_data (a + k)) in
    elim (Bool-cases (leb (a + left) fs_data_size)) [
      | inl e ↦ rw e (
          Ended-Alone ReadInto me (next (b, t)) path
            (Ended-go ReadInto me (next (b, t)) (copy e refl) (rest b t)))
      | inr e ↦ rw e (
          Ended-Alone ReadInto me undefined path
            (Ended-go ReadInto me undefined (copy_behind e) (_, stay)))
    ]

copy_out-Ended :
    (me h i : ℕ) (buffer : Memory) (done count left n : ℕ) (s : Fs)
    (next : Memory × Fs → Result (Memory × Fs))
    → ((b : Memory) (t : Fs)
        → Ended ReadInto me
            (unlocked t)
            (at_advance (read_frame h i b done count left) n)
            (next (b, t)))
    → Ended ReadInto me
        (unlocked s)
        (after_chunk (read_frame h i buffer done count left) n)
        (unless_failed (copy_out h buffer done left n s) next)
unfolding copy_out unless_failed
copy_out-Ended me h i buffer done count left n s next rest = elim (Bool-cases (n == 0)) [
  | inl e ↦ rw e (rest buffer s)
  | inr e ↦ rw e (
      copy_from-Ended me h i buffer done count left n s (inode_update h s) next
        (inode_update-Located me (read_frame h i buffer done count left) n s) rest)
]

read_loop-Ended :
    (me fuel h i : ℕ) (buffer : Memory) (done count left : ℕ) (s : Fs)
    → Ended ReadInto me
        (unlocked s)
        (at_head (read_frame h i buffer done count left))
        (read_loop fuel h buffer done count left s)
unfolding read_loop
read_loop-Ended me zero h i buffer done count left s = elim (Bool-cases (left == 0)) [
  | inl e ↦ rw e (buffer, s, refl, go (leave (ground arith)) stay)
  | inr e ↦ rw e tt
]
read_loop-Ended me (suc fuel) h i buffer done count left s = elim (Bool-cases (left == 0)) [
  | inl e ↦ rw e (buffer, s, refl, go (leave (ground arith)) stay)
  | inr e ↦
      (let n = read_chunk (s.open_file_table h).of_offset left in
        let next : Memory × Fs → Result (Memory × Fs) =
          λ (b, t). read_loop fuel h b (done + n) count (sub64 left n) (advance h n t) in
        let round = copy_out-Ended me h i buffer done count left n s next (λ b t.
          Ended-go ReadInto me (next (b, t)) (move_on refl)
            (read_loop-Ended me fuel h i b (done + n) count (sub64 left n) (advance h n t))) in
        rw e (
          Ended-go ReadInto me (unless_failed (copy_out h buffer done left n s) next)
            (see_offset_locked (ground arith) refl refl) round))
]

-- The place of a thread that has called tfs_read.
abbrev pub reads : ℤ → Memory → ℕ → Fs → Pc
reads fhandle buffer count s = entered at_size_lock reading fhandle buffer count s

read-Ended :
    (me : ℕ) (fhandle : ℤ) (buffer : Memory) (count : ℕ) (s : Fs)
    → Ended ReadInto me
        (unlocked s)
        (reads fhandle buffer count s)
        (tfs_read fhandle buffer count s)
unfolding tfs_read
read-Ended me fhandle buffer count s = elim (Option-cases (get_open_file_entry fhandle)) [
  | inl e ↦ rw (e, entered, tfs_read) (buffer, s, refl, stay)
  | inr (h, e) ↦ elim (Option-cases (inode_get (s.open_file_table h).of_inumber)) [
    | inl e' ↦ rw (e, entered, tfs_read) (rw (e', entered, tfs_read) (buffer, s, refl, stay))
    | inr (i, e') ↦
        (let n = clamp_read (s.inode_table i).i_size (s.open_file_table h).of_offset count in
          let r = read_loop n h buffer 0 n n s in
          let loop : Ended ReadInto me (with_file (with_mutex me h s) h none)
              (at_head (read_frame h i buffer 0 n n)) r =
            subst (λ m. Ended ReadInto me m (at_head (read_frame h i buffer 0 n n)) r)
              (sym (mutex-back me h s)) (read_loop-Ended me n h i buffer 0 n n s) in
          rw (e, entered, tfs_read)
            (rw (e', entered, tfs_read)
              (Ended-go ReadInto me r (lock_size refl)
                (Ended-go ReadInto me r (see_size refl) loop))))
  ]
]

-- From any state in which every entry's offset lies within a block, while every lock is free: the
-- steps of a thread that calls tfs_read of less than 2 ^ 63 bytes, with any
-- handle, while no other thread takes a step, lead to the value, the caller's buffer and the state
-- of the function tfs_read, with every lock free again; they lead into undefined behaviour when the
-- function does.
pub tfs_read-EndsAs :
    (me : ℕ) (fhandle : ℤ) (buffer : Memory) (count : ℕ) (s : Fs)
    → count < 2 ^ 63
    → InBlock s
    → EndsAs ReadInto me (unlocked s) idle (tfs_read fhandle buffer count s)
tfs_read-EndsAs me fhandle buffer count s small v =
    let r = tfs_read fhandle buffer count s in
    EndsAs-Ends ReadInto (λ a. InBlock a.1) me (unlocked s) idle r
      (Ended-go ReadInto me r (call_read fhandle buffer count small)
        (read-Ended me fhandle buffer count s))
      (tfs_read-Ends fhandle buffer count s small v)
