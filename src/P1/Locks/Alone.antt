-- ===== src/P1/Locks/Alone.antt =====
-- A thread of P1/fs that runs alone: its steps through inode_update end where the function of P1.Update
-- does.
use so_project.Base.{
  ℕ, zero, suc, ◌≡◌, ◌-◌, ◌+◌, ◌*◌, inl, inr, ℤ, pos, negsuc, minus_one, Option, none, some, update,
  refl, sym, subst, ap, Option-cases, Bool-cases, leb, if◌then◌else◌, arith, load_int, ◌∙◌,
}
use mathlib.Core.Path.{fun_ext}
use so_project.P1.State.{Fs, OpenFileEntry, direct_block_pointers, max_block_pointers, fs_data_size}
use so_project.P1.Block.{data_block_get}
use so_project.P1.Inode.{inode_get}
use so_project.P1.Update.{
  Position, null, at, undefined, ensure_direct, ensure_directs, ensure_pointer_block,
  ensure_indirect, ensure_indirects, loop_rounds, position_in, update_indirect, update_at,
  inode_update,
}
use so_project.P1.Bounds.Update.{
  ensure_directs-SameEntries, ensure_pointer_block-SameEntries, ensure_indirects-SameEntries,
}
use so_project.P1.Locks.{
  Shared, Frame, Pc, crashed, finished, at_file_lock, at_directs, at_direct, at_pointer_block,
  at_indirects, at_indirect, at_copy, after_pointer_block, with_file, with_inode, Move, lock_file,
  no_inode, see_inode, lock_inode, direct, no_block, unlock_direct, behind_directs, see_direct,
  pointer_block, indirect, unlock_indirect, see_indirect, no_position, bad_position, unlocked,
}

-- Steps of one thread, with none of another between them.
pub data Alone (me : ℕ) : Shared → Pc → Shared → Pc → Type 0 where
  stay : {m : Shared} {p : Pc} → Alone me m p m p
  go :
      {m m' m'' : Shared} {p p' p'' : Pc}
      → Move me m p m' p'
      → Alone me m' p' m'' p''
      → Alone me m p m'' p''

-- Where a thread with the mutex of the entry h stands, without and with the lock of the i-node i.
abbrev pub with_mutex : ℕ → ℕ → Fs → Shared
with_mutex me h s = with_file (unlocked s) h (some me)

abbrev with_both : ℕ → ℕ → ℕ → Fs → Shared
with_both me h i s = with_inode (with_mutex me h s) i (some me)

update-back : (k : ℕ) (o : Option ℕ) → update (update (λ x. none) k o) k none ≡ (λ x. none)
update-back k o = fun_ext (λ x. ground arith)

pub mutex-back : (me h : ℕ) (s : Fs) → with_file (with_mutex me h s) h none ≡ unlocked s
mutex-back me h s =
    ap (λ (l : ℕ → Option ℕ). record { fs = s; of_mutex = l; i_lock = λ i. none })
      (update-back h (some me))

lock-back : (me h i : ℕ) (s : Fs) → with_inode (with_both me h i s) i none ≡ with_mutex me h s
lock-back me h i s =
    ap
      (λ (l : ℕ → Option ℕ). record {
        fs = s;
        of_mutex = update (λ x. none) h (some me);
        i_lock = l;
      })
      (update-back i (some me))

-- A thread at p comes to what inode_update gives: to the copy, or to the end of the call.
abbrev pub Located : ℕ → Frame → ℕ → Shared → Pc → Position × Fs → Type 0
Located me f n m p (null, s) = Alone me m p (unlocked s) (finished minus_one f.buffer)
Located me f n m p (Position.undefined, s) = (m' : Shared) × Alone me m p m' crashed
Located me f n m p (at a, s) = Alone me m p (unlocked s) (at_copy f n (at a))

module _ (me : ℕ) (f : Frame) (n : ℕ) where
  Located-go :
      {m m' : Shared} {p p' : Pc} (r : Position × Fs)
      → Move me m p m' p'
      → Located me f n m' p' r
      → Located me f n m p r
  Located-go (null, s) mv rest = go mv rest
  Located-go (Position.undefined, s) mv (m', rest) = (m', go mv rest)
  Located-go (at a, s) mv rest = go mv rest

  Located-copy : (x : Position) (s : Fs) → Located me f n (unlocked s) (at_copy f n x) (x, s)
  Located-copy null s = go no_position stay
  Located-copy undefined s = (_, go bad_position stay)
  Located-copy (at a) s = stay

  Located-back :
      (s : Fs) (p : Pc) (r : Position × Fs)
      → Located me f n (unlocked s) p r
      → Located me f n (with_file (with_mutex me f.handle s) f.handle none) p r
  Located-back s p r = subst (λ m. Located me f n m p r) (sym (mutex-back me f.handle s))

  Located-unlock :
      (i : ℕ) (s : Fs) (p : Pc) (r : Position × Fs)
      → Located me f n (with_mutex me f.handle s) p r
      → Located me f n (with_inode (with_both me f.handle i s) i none) p r
  Located-unlock i s p r = subst (λ m. Located me f n m p r) (sym (lock-back me f.handle i s))

  -- The offset of the entry, which inode_update reads at its end.
  abbrev offset_of : Fs → ℕ
  offset_of s = (s.open_file_table f.handle).of_offset

  direct-Located :
      (i b : ℕ) (s : Fs)
      → Located me f n
          (with_mutex me f.handle s)
          (at_direct f n i b)
          (position_in ((s.inode_table i).i_direct_blocks b) (offset_of s), s)
  direct-Located i b s =
      let x = position_in ((s.inode_table i).i_direct_blocks b) (offset_of s) in
      Located-go (x, s) see_direct (Located-back s _ (x, s) (Located-copy x s))

  directs-Located :
      (i rounds k : ℕ) (blocks : ℤ) (s : Fs) (r : Position × Fs)
      → ((k' : ℕ)
          → Located me f n
              (with_both me f.handle i (ensure_directs i rounds k s))
              (at_directs f n i blocks 0 k')
              r)
      → Located me f n (with_both me f.handle i s) (at_directs f n i blocks rounds k) r
  unfolding ensure_directs
  directs-Located i zero k blocks s r rest = rest k
  directs-Located i (suc rounds) k blocks s r rest =
      Located-go r direct (directs-Located i rounds (k + 1) blocks (ensure_direct i k s) r rest)

  indirects-Located :
      (i b a rounds k : ℕ) (s : Fs) (r : Position × Fs)
      → ((k' : ℕ)
          → Located me f n
              (with_both me f.handle i (ensure_indirects a rounds k s))
              (at_indirects f n i b a 0 k')
              r)
      → Located me f n (with_both me f.handle i s) (at_indirects f n i b a rounds k) r
  unfolding ensure_indirects
  indirects-Located i b a zero k s r rest = rest k
  indirects-Located i b a (suc rounds) k s r rest =
      Located-go r indirect (indirects-Located i b a rounds (k + 1) (ensure_indirect a k s) r rest)

  -- What the read of `bpointer[b]` gives.
  abbrev pointed : ℕ → ℕ → Fs → Position × Fs
  pointed a b s =
      if leb (a + 4 * b + 4) fs_data_size
      then (position_in (load_int s.fs_data (a + 4 * b)) (offset_of s), s)
      else (Position.undefined, s)

  indirect-Located :
      (a b : ℕ) (s : Fs)
      → Located me f n (with_mutex me f.handle s) (at_indirect f n b a) (pointed a b s)
  indirect-Located a b s = Located-go (pointed a b s) see_indirect (
      Located-back s _ (pointed a b s) (elim (Bool-cases (leb (a + 4 * b + 4) fs_data_size)) [
        | inl e ↦ rw e (Located-copy (position_in (load_int s.fs_data (a + 4 * b)) (offset_of s)) s)
        | inr e ↦ rw e (_, stay)
      ]))

  -- The loops leave the offset as it is.
  offset_kept : (s t : Fs) → t.open_file_table ≡ s.open_file_table → offset_of t ≡ offset_of s
  offset_kept s t e = ap (λ (table : ℕ → OpenFileEntry). (table f.handle).of_offset) e

  far-Located :
      (i b : ℕ) (s : Fs)
      → Located me f n
          (with_both me f.handle i s)
          (at_pointer_block f n i b)
          (update_indirect i b (offset_of s) s)
  unfolding update_indirect
  far-Located i b s =
      let s' = ensure_pointer_block i s in
      elim (Option-cases (data_block_get (s'.inode_table i).i_data_block)) [
        | inl e ↦
            rw (e, update_indirect)
              (with_both me f.handle i s', go pointer_block (rw (e, after_pointer_block) stay))
        | inr (a, e) ↦
            (let rounds = loop_rounds (pos b) max_block_pointers in
              let s'' = ensure_indirects a rounds 0 s' in
              let kept : offset_of s'' ≡ offset_of s = offset_kept s s'' (
                ensure_indirects-SameEntries a rounds 0 s'
                ∙ ensure_pointer_block-SameEntries i s) in
              let r = pointed a b s'' in
              let path : Located me f n (with_both me f.handle i s) (at_pointer_block f n i b) r =
                Located-go r pointer_block (
                  rw (e, after_pointer_block)
                    (indirects-Located i b a rounds 0 s' r (λ k'.
                      Located-go r unlock_indirect
                        (Located-unlock i s'' _ r (indirect-Located a b s''))))) in
              rw (e, update_indirect) (rw (← kept) path))
      ]

  update-Located :
      (i : ℕ) (blocks : ℤ) (s : Fs)
      → Located me f n
          (with_both me f.handle i s)
          (at_directs f n i blocks (loop_rounds blocks direct_block_pointers) 0)
          (update_at i blocks (offset_of s) s)
  unfolding update_at
  update-Located i (negsuc b) s = (_, go no_block stay)
  update-Located i (pos b) s =
      let rounds = loop_rounds (pos b) direct_block_pointers in
      let s' = ensure_directs i rounds 0 s in
      let kept : offset_of s' ≡ offset_of s =
        offset_kept s s' (ensure_directs-SameEntries i rounds 0 s) in
      directs-Located i rounds 0 (pos b) s _ (λ k'.
        elim (Bool-cases (leb direct_block_pointers b)) [
          | inl e ↦
              (let r = update_indirect i (b - direct_block_pointers) (offset_of s') s' in
                let path : Located me f n (with_both me f.handle i s')
                    (at_directs f n i (pos b) 0 k') r =
                  Located-go r (behind_directs e) (far-Located i (b - direct_block_pointers) s') in
                rw e (rw (← kept) path))
          | inr e ↦
              (let r : Position × Fs =
                  (position_in ((s'.inode_table i).i_direct_blocks b) (offset_of s'), s') in
                let path : Located me f n (with_both me f.handle i s')
                    (at_directs f n i (pos b) 0 k') r =
                  Located-go r (unlock_direct e)
                    (Located-unlock i s' _ r (direct-Located i b s')) in
                rw e (rw (← kept) path))
        ])

  -- The mutex and the lock are free when inode_update is called, and behind it.
  pub inode_update-Located :
      (s : Fs) → Located me f n (unlocked s) (at_file_lock f n) (inode_update f.handle s)
  unfolding inode_update
  inode_update-Located s = elim (Option-cases (inode_get (s.open_file_table f.handle).of_inumber)) [
    | inl e ↦
        rw (e, inode_update)
          (go (lock_file refl) (go (no_inode e) (Located-back s _ (null, s) stay)))
    | inr (i, e) ↦
        (let r = update_at i (s.open_file_table f.handle).of_boffset (offset_of s) s in
          rw (e, inode_update)
            (Located-go r (lock_file refl) (
              Located-go r (see_inode e) (
                Located-go r (lock_inode refl)
                  (update-Located i (s.open_file_table f.handle).of_boffset s)))))
  ]
