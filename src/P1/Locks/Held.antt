-- ===== src/P1/Locks/Held.antt =====
-- Which locks a thread of P1/fs holds at each place of tfs_write and tfs_read.
use so_project.Base.{
  ℕ, ◌≡◌, inl, inr, ◌⊎◌, ℤ, Option, none, some, Memory, update, arith, refl, Option-cases,
  Bool-cases, leb, ◌==◌, ◌+◌, ◌*◌,
}
use so_project.P1.State.{Fs, fs_data_size}
use so_project.P1.Inode.{inode_get}
use so_project.P1.OpenFile.{get_open_file_entry}
use so_project.P1.Locks.{
  Shared, Kind, writing, reading, Frame, Pc, crashed, at_size_lock, at_size, at_head, at_inode,
  at_inode_lock, at_directs, at_direct, at_pointer_block, at_indirects, at_indirect, entered,
  after_chunk, after_advance, after_indirect, Move, call_write, call_read, lock_size, see_fits,
  see_offset, see_offset_locked, lock_file, lock_inode, see_indirect, move_on, System, Reach, start,
  later, pick,
}

-- The entry whose `of_mutex` the thread holds.
abbrev pub file_of : Pc → Option ℕ
file_of (at_size f) = some f.handle
file_of (at_inode f n) = some f.handle
file_of (at_inode_lock f n i) = some f.handle
file_of (at_directs f n i blocks rounds k) = some f.handle
file_of (at_direct f n i blocks) = some f.handle
file_of (at_pointer_block f n i blocks) = some f.handle
file_of (at_indirects f n i blocks bpointer rounds k) = some f.handle
file_of (at_indirect f n blocks bpointer) = some f.handle
file_of _ = none

-- The i-node whose `i_lock` the thread holds.
abbrev pub inode_of : Pc → Option ℕ
inode_of (at_directs f n i blocks rounds k) = some i
inode_of (at_pointer_block f n i blocks) = some i
inode_of (at_indirects f n i blocks bpointer rounds k) = some i
inode_of _ = none

-- The two holdings of a place.
abbrev held : Pc → Option ℕ × Option ℕ
held p = (file_of p, inode_of p)

entered-held :
    (next : Frame → Pc) (kind : Kind) (fhandle : ℤ) (buffer : Memory) (count : ℕ) (s : Fs)
    → ((f : Frame) → held (next f) ≡ (none, none))
    → held (entered next kind fhandle buffer count s) ≡ (none, none)
entered-held next kind fhandle buffer count s e =
    elim (Option-cases (get_open_file_entry fhandle)) [
      | inl q ↦ rw (q, entered) refl
      | inr (h, q) ↦ elim (Option-cases (inode_get (s.open_file_table h).of_inumber)) [
        | inl q' ↦ rw (q, entered) (rw (q', entered) refl)
        | inr (i, q') ↦ rw (q, entered) (rw (q', entered) (e _))
      ]
    ]

after_chunk-held : (f : Frame) (n : ℕ) → held (after_chunk f n) ≡ (none, none)
after_chunk-held f n = elim (Bool-cases (n == 0)) [ inl e ↦ rw e refl | inr e ↦ rw e refl ]

after_advance-held : (f : Frame) (n : ℕ) → held (after_advance f n) ≡ (none, none)
after_advance-held f n = by_kind f.kind refl
  where
    by_kind : (k : Kind) → f.kind ≡ k → held (after_advance f n) ≡ (none, none)
    by_kind writing e = rw (e, after_advance) refl
    by_kind reading e = rw (e, after_advance) refl

after_indirect-held :
    (f : Frame) (n blocks a : ℕ) (s : Fs) → held (after_indirect f n blocks a s) ≡ (none, none)
after_indirect-held f n blocks a s = elim (Bool-cases (leb (a + 4 * blocks + 4) fs_data_size)) [
  | inl e ↦ rw e refl
  | inr e ↦ rw e refl
]

-- The locks are as the places of the threads say; a thread that crashed keeps its locks.
pub record Inv (m : Shared) (pc : ℕ → Pc) : Type 0 where
  pub file : (j h : ℕ) → file_of (pc j) ≡ some h → m.of_mutex h ≡ some j
  pub inode : (j i : ℕ) → inode_of (pc j) ≡ some i → m.i_lock i ≡ some j
  pub file_holder : (j h : ℕ) → m.of_mutex h ≡ some j → (file_of (pc j) ≡ some h) ⊎ (pc j ≡ crashed)
  pub inode_holder : (j i : ℕ) → m.i_lock i ≡ some j → (inode_of (pc j) ≡ some i) ⊎ (pc j ≡ crashed)

-- The state of the locks, as the thread's move sees it: what it holds before and behind.
abbrev Guard : {me : ℕ} {m m' : Shared} {p p' : Pc} → Move me m p m' p' → Type 0
Guard {m = m} (lock_size {f} _) = m.of_mutex f.handle ≡ none
Guard {m = m} (lock_file {f} _) = m.of_mutex f.handle ≡ none
Guard {m = m} (lock_inode {i = i} _) = m.i_lock i ≡ none
Guard {p' = p'} (call_write fhandle buffer count _) = held p' ≡ (none, none)
Guard {p' = p'} (call_read fhandle buffer count _) = held p' ≡ (none, none)
Guard {p' = p'} (see_fits _ _ _) = held p' ≡ (none, none)
Guard {p' = p'} see_offset = held p' ≡ (none, none)
Guard {p' = p'} (see_offset_locked _ _ _) = held p' ≡ (none, none)
Guard {p' = p'} (see_indirect) = held p' ≡ (none, none)
Guard {p' = p'} (move_on _) = held p' ≡ (none, none)
Guard _ = Unit

guard : {me : ℕ} {m m' : Shared} {p p' : Pc} (mv : Move me m p m' p') → Guard mv
guard (lock_size e) = e
guard (lock_file e) = e
guard (lock_inode e) = e
guard {m = m} (call_write fhandle buffer count _) =
    entered-held at_head writing fhandle buffer count m.fs (λ f. refl)
guard {m = m} (call_read fhandle buffer count _) =
    entered-held at_size_lock reading fhandle buffer count m.fs (λ f. refl)
guard {m = m} (see_fits {f} _ _ _) = after_chunk-held f _
guard {m = m} (see_offset {f}) = after_chunk-held f _
guard {m = m} (see_offset_locked {f} _ _ _) = after_chunk-held f _
guard {m = m} (see_indirect {f} {n} {blocks} {bpointer}) =
    after_indirect-held f n blocks bpointer m.fs
guard (move_on {f} {n} _) = after_advance-held f n
guard _ = tt

module _ {m : Shared} {pc : ℕ → Pc} (inv : Inv m pc) (me : ℕ) where
  open inv use {file, inode, file_holder, inode_holder}

  Move-file :
      {p p' : Pc} {m' : Shared}
      → Move me m p m' p'
      → pc me ≡ p
      → (j h : ℕ) → file_of (update pc me p' j) ≡ some h
      → m'.of_mutex h ≡ some j
  Move-file (lock_size g) e j h q = ground (arith, file j h)
  Move-file mv e j h q = ground (arith, guard mv, file j h, file me h)

  Move-inode :
      {p p' : Pc} {m' : Shared}
      → Move me m p m' p'
      → pc me ≡ p
      → (j i : ℕ) → inode_of (update pc me p' j) ≡ some i
      → m'.i_lock i ≡ some j
  Move-inode (lock_size g) e j i q = ground (arith, inode j i)
  Move-inode mv e j i q = ground (arith, guard mv, inode j i, inode me i)

  Move-file_holder :
      {p p' : Pc} {m' : Shared}
      → Move me m p m' p'
      → pc me ≡ p
      → (j h : ℕ) → m'.of_mutex h ≡ some j
      → (file_of (update pc me p' j) ≡ some h) ⊎ (update pc me p' j ≡ crashed)
  Move-file_holder (lock_size g) e j h q = ground (arith, file_holder j h, file_holder me h)
  Move-file_holder mv e j h q = ground (arith, guard mv, file_holder j h, file_holder me h)

  Move-inode_holder :
      {p p' : Pc} {m' : Shared}
      → Move me m p m' p'
      → pc me ≡ p
      → (j i : ℕ) → m'.i_lock i ≡ some j
      → (inode_of (update pc me p' j) ≡ some i) ⊎ (update pc me p' j ≡ crashed)
  Move-inode_holder (lock_size g) e j i q = ground (arith, inode_holder j i, inode_holder me i)
  Move-inode_holder mv e j i q = ground (arith, guard mv, inode_holder j i, inode_holder me i)

  Move-Inv : {p' : Pc} {m' : Shared} → Move me m (pc me) m' p' → Inv m' (update pc me p')
  Move-Inv mv = record {
    file = Move-file mv refl;
    inode = Move-inode mv refl;
    file_holder = Move-file_holder mv refl;
    inode_holder = Move-inode_holder mv refl;
  }

pub Reach-Inv : {s : Fs} {t : System} → Reach s t → Inv t.shared t.pc
Reach-Inv start = record {
  file = λ j h q. cc;
  inode = λ j i q. cc;
  file_holder = λ j h q. cc;
  inode_holder = λ j i q. cc;
}
Reach-Inv (later r (pick me mv)) = Move-Inv (Reach-Inv r) me mv
