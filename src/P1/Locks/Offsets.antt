-- ===== src/P1/Locks/Offsets.antt =====
-- The positions of the handles of P1/fs while threads are in tfs_write and tfs_read.
use so_project.Base.{
  ℕ, ◌≡◌, ◌⊎◌, true, ◌<◌, ◌≤◌, ◌^◌, ◌+◌, ◌*◌, inl, inr, ℤ, Memory, arith, refl, Option-cases,
  Bool-cases, leb, ◌==◌,
}
use so_project.Fs.State.{block_size}
use so_project.P1.State.{Fs, fs_data_size}
use so_project.P1.Block.{data_block_get}
use so_project.P1.Inode.{inode_get}
use so_project.P1.OpenFile.{get_open_file_entry}
use so_project.P1.Update.{ensure_pointer_block}
use so_project.P1.Operations.{advance}
use so_project.P1.Bounds.Update.{
  SameEntries, ensure_direct-SameEntries, ensure_pointer_block-SameEntries,
  ensure_indirect-SameEntries,
}
use so_project.P1.Bounds.Rounds.{InBlock, InBlock-SameEntries}
use so_project.P1.Locks.{
  Shared, Kind, writing, reading, Frame, Pc, at_size_lock, at_size, at_head, at_file_lock, at_inode,
  at_inode_lock, at_directs, at_direct, at_pointer_block, at_indirects, at_indirect, at_copy,
  at_advance, at_grow, entered, after_chunk, copied, round_done, after_advance, after_pointer_block,
  after_indirect, Move, call_write, call_read, see_size, at_offset, copy_size, see_fits, see_over,
  see_offset, see_offset_locked, direct, pointer_block, indirect, see_indirect, copy, move_on,
  enlarge, System, Reach, start, later, pick,
}

-- What is left of a call. A write may count below zero, when the offset was moved on between its two
-- looks at it.
abbrev IsLeft : Frame → Type 0
IsLeft f = ((f.kind ≡ writing) × (f.left < 2 ^ 64)) ⊎ ((f.kind ≡ reading) × (f.left < 2 ^ 63))

-- What a round is to handle: of a write, a block at most, or more than the volume.
abbrev IsSmall : Frame → ℕ → Type 0
IsSmall f n =
    ((f.kind ≡ writing) × (f.left < 2 ^ 64) × ((n ≤ block_size) ⊎ (fs_data_size < n)))
    ⊎ ((f.kind ≡ reading) × (f.left < 2 ^ 63) × (n ≤ f.left) × (n ≤ block_size))

-- What a round has handled.
abbrev IsHandled : Frame → ℕ → Type 0
IsHandled f n =
    ((f.kind ≡ writing) × (f.left < 2 ^ 64) × (n ≤ block_size))
    ⊎ ((f.kind ≡ reading) × (f.left < 2 ^ 63) × (n ≤ f.left) × (n ≤ block_size))

IsHandled-le : (f : Frame) (n : ℕ) → IsHandled f n → n ≤ block_size
IsHandled-le f n (inl (k, left, le)) = le
IsHandled-le f n (inr (k, left, le', le)) = le

abbrev HasSmall : Pc → Type 0
HasSmall (at_size_lock f) = IsLeft f
HasSmall (at_size f) = IsLeft f
HasSmall (at_head f) = IsLeft f
HasSmall (at_offset f) = (f.kind ≡ writing) × (f.left < 2 ^ 64)
HasSmall (at_file_lock f n) = IsSmall f n
HasSmall (at_inode f n) = IsSmall f n
HasSmall (at_inode_lock f n i) = IsSmall f n
HasSmall (at_directs f n i blocks rounds k) = IsSmall f n
HasSmall (at_direct f n i blocks) = IsSmall f n
HasSmall (at_pointer_block f n i blocks) = IsSmall f n
HasSmall (at_indirects f n i blocks bpointer rounds k) = IsSmall f n
HasSmall (at_indirect f n blocks bpointer) = IsSmall f n
HasSmall (at_copy f n position) = IsSmall f n
HasSmall (at_advance f n) = IsHandled f n
HasSmall (at_grow f n) = IsHandled f n
HasSmall _ = Unit

start-IsLeft : (f : Frame) → f.left < 2 ^ 63 → IsLeft f
start-IsLeft f small = by_kind f.kind refl
  where
    by_kind : (k : Kind) → f.kind ≡ k → IsLeft f
    by_kind writing e = inl (e, omega (arith, small))
    by_kind reading e = inr (e, small)

entered-HasSmall :
    (next : Frame → Pc) (kind : Kind) (fhandle : ℤ) (buffer : Memory) (count : ℕ) (s : Fs)
    → count < 2 ^ 63
    → ((f : Frame) → f.left < 2 ^ 63 → HasSmall (next f))
    → HasSmall (entered next kind fhandle buffer count s)
entered-HasSmall next kind fhandle buffer count s small e =
    elim (Option-cases (get_open_file_entry fhandle)) [
      | inl q ↦ rw (q, entered) tt
      | inr (h, q) ↦ elim (Option-cases (inode_get (s.open_file_table h).of_inumber)) [
        | inl q' ↦ rw (q, entered) (rw (q', entered) tt)
        | inr (i, q') ↦ rw (q, entered) (rw (q', entered) (e _ small))
      ]
    ]

after_chunk-HasSmall : (f : Frame) (n : ℕ) → IsSmall f n → HasSmall (after_chunk f n)
after_chunk-HasSmall f n v = elim (Bool-cases (n == 0)) [
  | inl e ↦ rw e (ground arith)
  | inr e ↦ rw e v
]

round_done-HasSmall : (f : Frame) (n : ℕ) → IsHandled f n → IsLeft (round_done f n)
round_done-HasSmall f n v = by_kind f.kind refl
  where
    by_kind : (k : Kind) → f.kind ≡ k → IsLeft (round_done f n)
    by_kind writing e = rw (e, round_done) (ground arith)
    by_kind reading e = rw (e, round_done) (ground arith)

after_advance-HasSmall : (f : Frame) (n : ℕ) → IsHandled f n → HasSmall (after_advance f n)
after_advance-HasSmall f n v = by_kind f.kind refl
  where
    by_kind : (k : Kind) → f.kind ≡ k → HasSmall (after_advance f n)
    by_kind writing e = rw (e, after_advance) v
    by_kind reading e = rw (e, after_advance) (round_done-HasSmall f n v)

copied-HasSmall :
    (f : Frame) (n a : ℕ) (s : Fs)
    → leb (a + copy_size f n) fs_data_size ≡ true
    → IsSmall f n
    → IsHandled (copied f n s a).0 n
copied-HasSmall f n a s fits v = by_kind f.kind refl
  where
    by_kind : (k : Kind) → f.kind ≡ k → IsHandled (copied f n s a).0 n
    by_kind writing e =
        let inside : n ≤ fs_data_size = ground (arith, e, fits) in
        rw (e, copied) (ground (arith, inside, v))
    by_kind reading e = rw (e, copied) (ground (arith, v))

after_indirect-HasSmall :
    (f : Frame) (n blocks a : ℕ) (s : Fs) → IsSmall f n → HasSmall (after_indirect f n blocks a s)
after_indirect-HasSmall f n blocks a s v =
    elim (Bool-cases (leb (a + 4 * blocks + 4) fs_data_size)) [ inl e ↦ rw e v | inr e ↦ rw e tt ]

after_pointer_block-HasSmall :
    (f : Frame) (n i blocks : ℕ) (s : Fs)
    → IsSmall f n
    → HasSmall (after_pointer_block f n i blocks s)
after_pointer_block-HasSmall f n i blocks s v =
    elim (Option-cases (data_block_get (s.inode_table i).i_data_block)) [
      | inl e ↦ rw (e, after_pointer_block) tt
      | inr (a, e) ↦ rw (e, after_pointer_block) v
    ]

Move-HasSmall :
    {me : ℕ} {m m' : Shared} {p p' : Pc}
    → Move me m p m' p'
    → InBlock m.fs
    → HasSmall p
    → HasSmall p'
Move-HasSmall {m = m} (call_write fhandle buffer count small) v q =
    entered-HasSmall at_head writing fhandle buffer count m.fs small start-IsLeft
Move-HasSmall {m = m} (call_read fhandle buffer count small) v q =
    entered-HasSmall at_size_lock reading fhandle buffer count m.fs small start-IsLeft
Move-HasSmall (see_size e) v q = ground arith
Move-HasSmall (see_fits {f} some_left e fits) v q =
    after_chunk-HasSmall f f.left (inl (e, ground arith, ground (arith, v f.handle)))
Move-HasSmall (see_over {f} some_left e over) v q = (e, ground arith)
Move-HasSmall (see_offset {f}) v q =
    after_chunk-HasSmall f _ (inl (q.0, q.1, inl (ground (arith, v f.handle))))
Move-HasSmall (see_offset_locked {f} some_left e e') v q =
    after_chunk-HasSmall f _ (ground (arith, v f.handle))
Move-HasSmall {m = m} (pointer_block {f} {n} {i} {blocks}) v q =
    after_pointer_block-HasSmall f n i blocks (ensure_pointer_block i m.fs) q
Move-HasSmall {m = m} (see_indirect {f} {n} {blocks} {bpointer}) v q =
    after_indirect-HasSmall f n blocks bpointer m.fs q
Move-HasSmall {m = m} (copy {f} {n} {a} e e') v q = copied-HasSmall f n a m.fs e q
Move-HasSmall (move_on {f} {n} e) v q = after_advance-HasSmall f n q
Move-HasSmall (enlarge {f} {n} e) v q = round_done-HasSmall f n q
Move-HasSmall mv v q = ground arith

copied-SameEntries : (f : Frame) (n a : ℕ) (s : Fs) → SameEntries s (copied f n s a).1
copied-SameEntries f n a s = by_kind f.kind refl
  where
    by_kind : (k : Kind) → f.kind ≡ k → SameEntries s (copied f n s a).1
    by_kind writing e = rw (e, copied) refl
    by_kind reading e = rw (e, copied) refl

-- The offset may be another than the one that the round's bytes were computed from.
carried-InBlock : (h n : ℕ) (s : Fs) → n ≤ block_size → InBlock s → InBlock (advance h n s)
carried-InBlock h n s small v g = ground (arith, v g, v h)

Move-InBlock :
    {me : ℕ} {m m' : Shared} {p p' : Pc}
    → Move me m p m' p'
    → InBlock m.fs
    → HasSmall p
    → InBlock m'.fs
Move-InBlock {m = m} {m'} (direct {i = i} {k = k}) v q =
    InBlock-SameEntries m.fs m'.fs (ensure_direct-SameEntries i k m.fs) v
Move-InBlock {m = m} {m'} (pointer_block {i = i}) v q =
    InBlock-SameEntries m.fs m'.fs (ensure_pointer_block-SameEntries i m.fs) v
Move-InBlock {m = m} {m'} (indirect {bpointer = a} {k = k}) v q =
    InBlock-SameEntries m.fs m'.fs (ensure_indirect-SameEntries a k m.fs) v
Move-InBlock {m = m} {m'} (copy {f} {n} {a} e e') v q =
    InBlock-SameEntries m.fs m'.fs (copied-SameEntries f n a m.fs) v
Move-InBlock {m = m} (move_on {f} {n} e) v q =
    carried-InBlock f.handle n m.fs (IsHandled-le f n q) v
Move-InBlock mv v q = v

pub record Inv (t : System) : Type 0 where
  pub offsets : InBlock t.shared.fs
  pub small : (j : ℕ) → HasSmall (t.pc j)

Reach-Inv : {s : Fs} {t : System} → Reach s t → InBlock s → Inv t
Reach-Inv start v = record { offsets = v; small = λ j. tt }
Reach-Inv (later {t} r (pick me mv)) v =
    let inv = Reach-Inv r v in
    let moved = Move-HasSmall mv inv.offsets (inv.small me) in
    record {
      offsets = Move-InBlock mv inv.offsets (inv.small me);
      small = λ j. ground (arith, inv.small j);
    }

-- However the steps of threads in tfs_write and tfs_read are ordered, through the same handles or
-- through others, from any state in which every entry's offset lies within a block: every offset
-- lies within a block in every state that they reach. The
-- steps have the two looks of a write at the offset, without the entry's mutex, apart.
pub Reach-InBlock : {s : Fs} {t : System} → Reach s t → InBlock s → InBlock t.shared.fs
Reach-InBlock r v = (Reach-Inv r v).offsets
