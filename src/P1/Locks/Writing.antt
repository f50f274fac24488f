-- ===== src/P1/Locks/Writing.antt =====
-- tfs_write of P1/fs/operations.c in a thread that runs alone.
use so_project.Base.{
  ℕ, zero, suc, ◌≡◌, ◌<◌, ◌^◌, ◌+◌, inl, inr, ℤ, refl, subst, ap, Option-cases, Bool-cases, leb,
  Memory, arith, ◌==◌, blit, ltb, add64, sub64,
}
use mathlib.Core.Path.{fun_ext}
use so_project.Fs.State.{block_size}
use so_project.P1.State.{Fs, fs_data_size}
use so_project.P1.Inode.{inode_get}
use so_project.P1.OpenFile.{get_open_file_entry}
use so_project.P1.Update.{Position, null, at, inode_update}
use so_project.P1.Operations.{
  Result, undefined, advance, grow, write_chunk, copy_to, copy_in, unless_failed, write_loop,
  tfs_write,
}
use so_project.P1.Bounds.Rounds.{InBlock, tfs_write-Ends}
use so_project.P1.Locks.{
  writing, Pc, at_head, at_file_lock, at_advance, idle, entered, after_chunk, call_write, leave,
  see_fits, see_over, see_offset, Frame, copy, copy_behind, move_on, enlarge, unlocked,
}
use so_project.P1.Locks.Alone.{stay, go, Located, inode_update-Located}
use so_project.P1.Locks.Ended.{
  Written, Ended, EndsAs, Ended-go, Ended-Alone, EndsAs-Ends, write_frame,
}

-- From the call of inode_update on, in a round of tfs_write: `next` is the rest of the loop.
copy_to-Ended :
    (me h i : ℕ) (buffer : Memory) (count left n : ℕ) (s : Fs) (r : Position × Fs)
    (next : Fs → Result Fs)
    → Located me
        (write_frame h i buffer count left)
        n
        (unlocked s)
        (at_file_lock (write_frame h i buffer count left) n)
        r
    → ((t : Fs)
        → Ended Written me
            (unlocked t)
            (at_advance (write_frame h i (λ k. buffer (n + k)) count left) n)
            (next t))
    → Ended Written me
        (unlocked s)
        (at_file_lock (write_frame h i buffer count left) n)
        (unless_failed (copy_to buffer n r) next)
unfolding copy_to unless_failed
copy_to-Ended me h i buffer count left n s (null, t) next path rest = (buffer, t, refl, path)
copy_to-Ended me h i buffer count left n s (Position.undefined, t) next path rest = path
copy_to-Ended me h i buffer count left n s (at a, t) next path rest =
    let written : Fs = record t { fs_data = blit t.fs_data a n buffer } in
    elim (Bool-cases (leb (a + n) fs_data_size)) [
      | inl e ↦ rw e (
          Ended-Alone Written me (next written) path
            (Ended-go Written me (next written) (copy e refl) (rest written)))
      | inr e ↦ rw e (
          Ended-Alone Written me undefined path
            (Ended-go Written me undefined (copy_behind e) (_, stay)))
    ]

copy_in-Ended :
    (me h i : ℕ) (buffer : Memory) (count left n : ℕ) (s : Fs) (next : Fs → Result Fs)
    → ((t : Fs)
        → Ended Written me
            (unlocked t)
            (at_advance (write_frame h i (λ k. buffer (n + k)) count left) n)
            (next t))
    → Ended Written me
        (unlocked s)
        (after_chunk (write_frame h i buffer count left) n)
        (unless_failed (copy_in h buffer n s) next)
unfolding copy_in unless_failed
copy_in-Ended me h i buffer count left n s next rest = elim (Bool-cases (n == 0)) [
  | inl e ↦
      (let nothing : n ≡ 0 = ground arith in
        let unmoved : (λ k. buffer (n + k)) ≡ buffer = fun_ext (λ k. ap buffer (omega arith)) in
        rw e (
          subst
            (λ b.
              Ended Written me (unlocked s) (at_advance (write_frame h i b count left) n) (next s))
            unmoved (rest s)))
  | inr e ↦ rw e (
      copy_to-Ended me h i buffer count left n s (inode_update h s) next
        (inode_update-Located me (write_frame h i buffer count left) n s) rest)
]

-- The two looks at the offset.
seen-Ended :
    (me : ℕ) (f : Frame) (s : Fs) (r : Result Fs)
    → 0 < f.left
    → f.kind ≡ writing
    → Ended Written me
        (unlocked s)
        (after_chunk f (write_chunk (s.open_file_table f.handle).of_offset f.left))
        r
    → Ended Written me (unlocked s) (at_head f) r
seen-Ended me f s r some_left kind rest =
    elim (Bool-cases (ltb block_size (add64 f.left (s.open_file_table f.handle).of_offset))) [
      | inl over ↦
          (let n : write_chunk (s.open_file_table f.handle).of_offset f.left
                ≡ sub64 block_size (s.open_file_table f.handle).of_offset =
              rw over refl in
            Ended-go Written me r (see_over some_left kind over) (
              Ended-go Written me r see_offset
                (subst (λ k. Ended Written me (unlocked s) (after_chunk f k) r) n rest)))
      | inr fits ↦
          (let n : write_chunk (s.open_file_table f.handle).of_offset f.left ≡ f.left =
              rw fits refl in
            Ended-go Written me r (see_fits some_left kind fits)
              (subst (λ k. Ended Written me (unlocked s) (after_chunk f k) r) n rest))
    ]

write_loop-Ended :
    (me fuel h i : ℕ) (buffer : Memory) (count left : ℕ) (s : Fs)
    → Ended Written me
        (unlocked s)
        (at_head (write_frame h i buffer count left))
        (write_loop fuel h i buffer count left s)
unfolding write_loop
write_loop-Ended me zero h i buffer count left s = elim (Bool-cases (left == 0)) [
  | inl e ↦ rw e (buffer, s, refl, go (leave (ground arith)) stay)
  | inr e ↦ rw e tt
]
write_loop-Ended me (suc fuel) h i buffer count left s = elim (Bool-cases (left == 0)) [
  | inl e ↦ rw e (buffer, s, refl, go (leave (ground arith)) stay)
  | inr e ↦
      (let n = write_chunk (s.open_file_table h).of_offset left in
        let next : Fs → Result Fs = λ t.
          write_loop fuel h i (λ k. buffer (n + k)) count (sub64 left n)
            (grow i n (advance h n t)) in
        let round = copy_in-Ended me h i buffer count left n s next (λ t.
          Ended-go Written me (next t) (move_on refl) (
            Ended-go Written me (next t) (enlarge refl) (
              write_loop-Ended me fuel h i (λ k. buffer (n + k)) count (sub64 left n)
                (grow i n (advance h n t))))) in
        rw e (
          seen-Ended me (write_frame h i buffer count left) s
            (unless_failed (copy_in h buffer n s) next) (ground arith) refl round))
]

-- The place of a thread that has called tfs_write.
abbrev pub writes : ℤ → Memory → ℕ → Fs → Pc
writes fhandle buffer count s = entered at_head writing fhandle buffer count s

pub write-Ended :
    (me : ℕ) (fhandle : ℤ) (buffer : Memory) (count : ℕ) (s : Fs)
    → Ended Written me
        (unlocked s)
        (writes fhandle buffer count s)
        (tfs_write fhandle buffer count s)
unfolding tfs_write
write-Ended me fhandle buffer count s = elim (Option-cases (get_open_file_entry fhandle)) [
  | inl e ↦ rw (e, entered, tfs_write) (buffer, s, refl, stay)
  | inr (h, e) ↦ elim (Option-cases (inode_get (s.open_file_table h).of_inumber)) [
    | inl e' ↦ rw (e, entered, tfs_write) (rw (e', entered, tfs_write) (buffer, s, refl, stay))
    | inr (i, e') ↦
        rw (e, entered, tfs_write)
          (rw (e', entered, tfs_write) (write_loop-Ended me count h i buffer count count s))
  ]
]

-- From any state in which every entry's offset lies within a block, while every lock is free: the
-- steps of a thread that calls tfs_write of less than 2 ^ 63 bytes, with any handle, while no other
-- thread takes a step, lead to the value and to the state of the function tfs_write, with every
-- lock free again; they lead into undefined behaviour when the function does.
pub tfs_write-EndsAs :
    (me : ℕ) (fhandle : ℤ) (buffer : Memory) (count : ℕ) (s : Fs)
    → count < 2 ^ 63
    → InBlock s
    → EndsAs Written me (unlocked s) idle (tfs_write fhandle buffer count s)
tfs_write-EndsAs me fhandle buffer count s small v =
    let r = tfs_write fhandle buffer count s in
    EndsAs-Ends Written InBlock me (unlocked s) idle r
      (Ended-go Written me r (call_write fhandle buffer count small)
        (write-Ended me fhandle buffer count s))
      (tfs_write-Ends fhandle buffer count s small v)
