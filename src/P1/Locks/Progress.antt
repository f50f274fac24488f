-- ===== src/P1/Locks/Progress.antt =====
-- The threads inside tfs_write and tfs_read of P1/fs/operations.c get on, and one at a time is at the
-- pointers of an i-node.
use so_project.Fs.State.{block_size}
use so_project.Base.{
  ltb, add64, ℕ, zero, suc, ◌≡◌, ◌<◌, inl, inr, ℤ, pos, negsuc, Option, none, some, Bool, true,
  false, arith, refl, Option-cases, Bool-cases, leb, ◌+◌,
}
use native.Mathlib.Decide.{dec_lt}
use so_project.P1.State.{Fs, direct_block_pointers, fs_data_size}
use so_project.P1.Inode.{inode_get}
use so_project.P1.Update.{Position, null, at, undefined}
use so_project.P1.Locks.{
  Shared, Kind, writing, reading, Frame, Pc, idle, crashed, finished, at_size_lock, at_size,
  at_head, at_file_lock, at_inode, at_inode_lock, at_directs, at_direct, at_pointer_block,
  at_indirects, at_indirect, at_copy, at_advance, at_grow, copy_size, Move, lock_size, see_size,
  leave, at_offset, see_fits, see_over, see_offset, see_offset_locked, lock_file, no_inode,
  see_inode, lock_inode, direct, no_block, unlock_direct, behind_directs, see_direct, pointer_block,
  indirect, unlock_indirect, see_indirect, no_position, bad_position, copy_behind, copy, move_on,
  enlarge, again, System, Reach,
}
use so_project.P1.Locks.Held.{file_of, inode_of, Inv, Reach-Inv}

-- The entry whose `of_mutex` the thread's next step needs.
abbrev awaited_file : Pc → Option ℕ
awaited_file (at_size_lock f) = some f.handle
awaited_file (at_head f) = some f.handle
awaited_file (at_file_lock f n) = some f.handle
awaited_file (at_advance f n) = some f.handle
awaited_file _ = none

-- The i-node whose `i_lock` the thread's next step needs.
abbrev awaited_inode : Pc → Option ℕ
awaited_inode (at_size f) = some f.inode
awaited_inode (at_inode_lock f n i) = some i
awaited_inode (at_copy f n position) = some f.inode
awaited_inode (at_grow f n) = some f.inode
awaited_inode _ = none

-- The thread is in a call.
abbrev pub working : Pc → Bool
working idle = false
working crashed = false
working _ = true

-- The thread has a next step.
abbrev pub CanMove : ℕ → Shared → Pc → Type 0
CanMove me m p = (m' : Shared) × (p' : Pc) × Move me m p m' p'

head-CanMove :
    (me : ℕ) (m : Shared) (f : Frame) → m.of_mutex f.handle ≡ none → CanMove me m (at_head f)
head-CanMove me m f free = elim (dec_lt 0 f.left) [
  | no none_left ↦ (_, _, leave (omega arith))
  | yes some_left ↦ by_kind f.kind refl some_left
]
  where
    by_kind : (k : Kind) → f.kind ≡ k → 0 < f.left → CanMove me m (at_head f)
    by_kind writing e some_left =
        elim (Bool-cases
          (ltb block_size (add64 f.left (m.fs.open_file_table f.handle).of_offset))) [
            | inl over ↦ (_, _, see_over some_left e over)
            | inr fits ↦ (_, _, see_fits some_left e fits)
          ]
    by_kind reading e some_left = (_, _, see_offset_locked some_left e free)

inode-CanMove : (me : ℕ) (m : Shared) (f : Frame) (n : ℕ) → CanMove me m (at_inode f n)
inode-CanMove me m f n =
    elim (Option-cases (inode_get (m.fs.open_file_table f.handle).of_inumber)) [
      | inl e ↦ (_, _, no_inode e)
      | inr (i, e) ↦ (_, _, see_inode e)
    ]

directs-CanMove :
    (me : ℕ) (m : Shared) (f : Frame) (n i : ℕ) (blocks : ℤ) (rounds k : ℕ)
    → CanMove me m (at_directs f n i blocks rounds k)
directs-CanMove me m f n i blocks (suc rounds) k = (_, _, direct)
directs-CanMove me m f n i (negsuc blocks) zero k = (_, _, no_block)
directs-CanMove me m f n i (pos blocks) zero k =
    elim (Bool-cases (leb direct_block_pointers blocks)) [
      | inl far ↦ (_, _, behind_directs far)
      | inr near ↦ (_, _, unlock_direct near)
    ]

copy-CanMove :
    (me : ℕ) (m : Shared) (f : Frame) (n : ℕ) (position : Position)
    → m.i_lock f.inode ≡ none
    → CanMove me m (at_copy f n position)
copy-CanMove me m f n null free = (_, _, no_position)
copy-CanMove me m f n undefined free = (_, _, bad_position)
copy-CanMove me m f n (at a) free = elim (Bool-cases (leb (a + copy_size f n) fs_data_size)) [
  | inl fits ↦ (_, _, copy fits free)
  | inr behind ↦ (_, _, copy_behind behind)
]

-- A thread in a call moves when the locks that it waits for are free.
next-CanMove :
    (me : ℕ) (m : Shared) (p : Pc)
    → working p ≡ true
    → ((h : ℕ) → awaited_file p ≡ some h → m.of_mutex h ≡ none)
    → ((i : ℕ) → awaited_inode p ≡ some i → m.i_lock i ≡ none)
    → CanMove me m p
next-CanMove me m idle w fl il = cc
next-CanMove me m crashed w fl il = cc
next-CanMove me m (finished z buffer) w fl il = (_, _, again)
next-CanMove me m (at_size_lock f) w fl il = (_, _, lock_size (fl f.handle refl))
next-CanMove me m (at_size f) w fl il = (_, _, see_size (il f.inode refl))
next-CanMove me m (at_head f) w fl il = head-CanMove me m f (fl f.handle refl)
next-CanMove me m (at_offset f) w fl il = (_, _, see_offset)
next-CanMove me m (at_file_lock f n) w fl il = (_, _, lock_file (fl f.handle refl))
next-CanMove me m (at_inode f n) w fl il = inode-CanMove me m f n
next-CanMove me m (at_inode_lock f n i) w fl il = (_, _, lock_inode (il i refl))
next-CanMove me m (at_directs f n i blocks rounds k) w fl il =
    directs-CanMove me m f n i blocks rounds k
next-CanMove me m (at_direct f n i blocks) w fl il = (_, _, see_direct)
next-CanMove me m (at_pointer_block f n i blocks) w fl il = (_, _, pointer_block)
next-CanMove me m (at_indirects f n i blocks a (suc rounds) k) w fl il = (_, _, indirect)
next-CanMove me m (at_indirects f n i blocks a zero k) w fl il = (_, _, unlock_indirect)
next-CanMove me m (at_indirect f n blocks a) w fl il = (_, _, see_indirect)
next-CanMove me m (at_copy f n position) w fl il = copy-CanMove me m f n position (il f.inode refl)
next-CanMove me m (at_advance f n) w fl il = (_, _, move_on (fl f.handle refl))
next-CanMove me m (at_grow f n) w fl il = (_, _, enlarge (il f.inode refl))

-- Who holds the lock of an i-node waits for nothing.
inode_holder_waits :
    (p : Pc) (i : ℕ)
    → inode_of p ≡ some i
    → (working p ≡ true) × (awaited_file p ≡ none) × (awaited_inode p ≡ none)
inode_holder_waits p i e = ground arith

-- Who holds the mutex of an entry waits for no other mutex.
file_holder_waits :
    (p : Pc) (h : ℕ) → file_of p ≡ some h → (working p ≡ true) × (awaited_file p ≡ none)
file_holder_waits p h e = ground arith

-- Some thread is in a call and has a next step.
abbrev pub Goes : System → Type 0
Goes t = (j : ℕ) × (working (t.pc j) ≡ true) × CanMove j t.shared (t.pc j)

module _ {t : System} (inv : Inv t.shared t.pc) (fine : (j : ℕ) → ¬ (t.pc j ≡ crashed)) where
  -- A thread that waits for no mutex goes on, or the holder of the i-node's lock does.
  without_file : (j : ℕ) → working (t.pc j) ≡ true → awaited_file (t.pc j) ≡ none → Goes t
  without_file j w q = elim (Option-cases (awaited_inode (t.pc j))) [
    | inl e ↦ (j, w, next-CanMove j t.shared (t.pc j) w (λ h r. cc) (λ i r. cc))
    | inr (i, e) ↦ elim (Option-cases (t.shared.i_lock i)) [
      | inl free ↦ (j, w, next-CanMove j t.shared (t.pc j) w (λ h r. cc) (λ i' r. ground arith))
      | inr (k, e') ↦
          (let inside : inode_of (t.pc k) ≡ some i = ground (arith, inv.inode_holder k i, fine k) in
            let (w', a, b) = inode_holder_waits (t.pc k) i inside in
            (k, w', next-CanMove k t.shared (t.pc k) w' (λ h r. cc) (λ i' r. cc)))
    ]
  ]

  go_on : (j : ℕ) → working (t.pc j) ≡ true → Goes t
  go_on j w = elim (Option-cases (awaited_file (t.pc j))) [
    | inl e ↦ without_file j w e
    | inr (h, e) ↦ elim (Option-cases (t.shared.of_mutex h)) [
      | inl free ↦ elim (Option-cases (awaited_inode (t.pc j))) [
        | inl e' ↦ (j, w, next-CanMove j t.shared (t.pc j) w (λ h' r. ground arith) (λ i r. cc))
        | inr (i, e') ↦ one_lock (t.pc j) h i e e'
      ]
      | inr (k, e') ↦
          (let inside : file_of (t.pc k) ≡ some h = ground (arith, inv.file_holder k h, fine k) in
            let (w', a) = file_holder_waits (t.pc k) h inside in without_file k w' a)
    ]
  ]
    where
      one_lock : (p : Pc) (h i : ℕ) → awaited_file p ≡ some h → awaited_inode p ≡ some i → Goes t
      one_lock p h i e e' = ground arith

-- However the steps of threads in tfs_write and tfs_read are ordered, from any state of the file
-- system with every lock free and no thread in a call: as long as no thread has run into undefined
-- behaviour, whenever some thread is in a call, a thread that is in a call has a next step. So the
-- mutexes of the open file entries and the locks of the i-nodes do not lead to a deadlock.
pub working-Goes :
    {s : Fs} {t : System}
    → Reach s t
    → ((j : ℕ) → ¬ (t.pc j ≡ crashed))
    → (i : ℕ) → working (t.pc i) ≡ true
    → Goes t
working-Goes r fine i w = go_on (Reach-Inv r) fine i w

-- In every such state, two different threads are never both between the two calls on `i_lock` of
-- inode_update for the same i-node.
pub update_alone :
    {s : Fs} {t : System}
    → Reach s t
    → (j k i : ℕ) → inode_of (t.pc j) ≡ some i
    → inode_of (t.pc k) ≡ some i
    → j ≡ k
update_alone {s} {t} r j k i p q =
    let e = (Reach-Inv r).inode j i p in let e' = (Reach-Inv r).inode k i q in ground arith
