-- ===== src/P1/Locks/Apart.antt =====
-- Which blocks the i-nodes of P1/fs name while threads are in tfs_write and tfs_read.
use so_project.Base.{
  ℕ, ◌≡◌, ◌<◌, ◌≤◌, ◌+◌, ◌*◌, inl, inr, ◌⊎◌, ℤ, pos, minus_one, ◌==ℤ◌, ==ℤ_iff, update, arith, refl,
  free, taken, first_free, first_free-some, load_int, ltb, Option-cases, Bool-cases, if◌then◌else◌,
  ap, sym,
}
use so_project.Fs.State.{data_blocks}
use so_project.P1.State.{Fs, Inode, direct_block_pointers}
use so_project.P1.Block.{data_block_alloc, data_block_get, pointer_block_alloc}
use so_project.P1.Update.{ensure_direct, ensure_pointer_block, ensure_indirect}
use so_project.P1.Locks.{
  Shared, Kind, writing, reading, Frame, Pc, copied, Move, direct, pointer_block, indirect, copy,
  enlarge, System, Reach, start, later, pick,
}

-- The direct pointers, and behind them the block of pointers.
abbrev pub slot : Inode → ℕ → ℤ
slot node k = if ltb k direct_block_pointers then node.i_direct_blocks k else node.i_data_block

-- The i-nodes that are in use name blocks of the file system that are taken, and no block twice.
pub record IsApart (s : Fs) : Type 0 where
  pub marked :
      (i k b : ℕ)
      → s.freeinode_ts i ≡ taken
      → k ≤ direct_block_pointers
      → slot (s.inode_table i) k ≡ pos b
      → (b < data_blocks) × (s.free_blocks b ≡ taken)
  pub unique :
      (i j k l b : ℕ)
      → s.freeinode_ts i ≡ taken
      → s.freeinode_ts j ≡ taken
      → k ≤ direct_block_pointers
      → l ≤ direct_block_pointers
      → slot (s.inode_table i) k ≡ pos b
      → slot (s.inode_table j) l ≡ pos b
      → (i ≡ j) × (k ≡ l)

-- What a step does to the blocks: nothing, or it takes a free one, which may become the block of
-- one slot.
data Effect (s t : Fs) : Type 0 where
  same :
      s.freeinode_ts ≡ t.freeinode_ts
      → s.free_blocks ≡ t.free_blocks
      → ((j l : ℕ) → slot (t.inode_table j) l ≡ slot (s.inode_table j) l)
      → Effect s t
  took :
      (i k b : ℕ)
      → b < data_blocks
      → s.free_blocks b ≡ free
      → s.freeinode_ts ≡ t.freeinode_ts
      → update s.free_blocks b taken ≡ t.free_blocks
      → ((j l : ℕ)
          → l ≤ direct_block_pointers
          → (slot (t.inode_table j) l ≡ slot (s.inode_table j) l)
            ⊎ ((j ≡ i) × (l ≡ k) × (slot (t.inode_table j) l ≡ pos b)))
      → Effect s t

Effect-IsApart : {s t : Fs} → Effect s t → IsApart s → IsApart t
Effect-IsApart {s} {t} (same e e' q) v = record {
  marked = λ i k b u le p. ground (arith, v.marked i k b, q i k, e, e');
  unique = λ i j k l b u u' le le' p p'. ground (arith, v.unique i j k l b, q i k, q j l, e, e');
}
Effect-IsApart {s} {t} (took i k b below fresh e e' q) v = record {
  marked = λ j l c u le p. ground (arith, v.marked j l c, q j l le, ap (λ f. f c) e', e);
  unique = λ j j' l l' c u u' le le' p p'.
      ground
        (arith, v.unique j j' l l' c, v.marked j l c, v.marked j' l' c, q j l le, q j' l' le', e);
}

-- The block b has been taken.
abbrev with_block : ℕ → Fs → Fs
with_block b s = record s { free_blocks = update s.free_blocks b taken }

alloc-cases :
    (s : Fs)
    → (data_block_alloc s ≡ (minus_one, s))
      ⊎ ((b : ℕ) × (b < data_blocks)
          × (s.free_blocks b ≡ free)
          × (data_block_alloc s ≡ (pos b, with_block b s)))
unfolding data_block_alloc
alloc-cases s = elim (Option-cases (first_free s.free_blocks data_blocks 0)) [
  | inl e ↦ inl (rw (e, data_block_alloc) refl)
  | inr (b, e) ↦
      (let found = first_free-some s.free_blocks data_blocks 0 {j = b} e in
        inr (b, omega arith, found.2, rw (e, data_block_alloc) refl))
]

-- A slot is set when it has no block.
set_slot-same :
    (i k : ℕ) (s : Fs) (node : Inode)
    → ((l : ℕ) → slot node l ≡ slot (s.inode_table i) l)
    → Effect s (record s { inode_table = update s.inode_table i node })
set_slot-same i k s node q = same refl refl (λ j l. ground (arith, q l))

set_slot-took :
    (i k b : ℕ) (s t : Fs) (node : Inode)
    → b < data_blocks
    → s.free_blocks b ≡ free
    → t.freeinode_ts ≡ s.freeinode_ts
    → t.free_blocks ≡ update s.free_blocks b taken
    → t.inode_table ≡ update s.inode_table i node
    → ((l : ℕ)
        → l ≤ direct_block_pointers
        → (slot node l ≡ slot (s.inode_table i) l) ⊎ ((l ≡ k) × (slot node l ≡ pos b)))
    → Effect s t
set_slot-took i k b s t node below fresh e e' e'' q =
    took i k b below fresh (sym e) (sym e') (λ j l le. rw e'' (ground (arith, q l le)))

ensure_direct-Effect : (i k : ℕ) (s : Fs) → Effect s (ensure_direct i k s)
unfolding ensure_direct
ensure_direct-Effect i k s = elim (Bool-cases ((s.inode_table i).i_direct_blocks k ==ℤ minus_one)) [
  | inr e ↦ rw e (same refl refl (λ j l. refl))
  | inl e ↦
      (let absent = (==ℤ_iff ((s.inode_table i).i_direct_blocks k) minus_one).0 e in
        elim (alloc-cases s) [
          | inl q ↦ rw e (rw q (set_slot-same i k s _ (λ l. ground (arith, absent))))
          | inr (b, below, fresh, q) ↦
              rw e
                (rw q (set_slot-took i k b s _ _ below fresh refl refl refl (λ l le. ground arith)))
        ])
]

pointer_block_alloc-cases :
    (s : Fs)
    → (pointer_block_alloc s ≡ (minus_one, s))
      ⊎ ((b : ℕ) × (b < data_blocks)
          × (s.free_blocks b ≡ free)
          × ((pointer_block_alloc s).0 ≡ minus_one ⊎ (pointer_block_alloc s).0 ≡ pos b)
          × ((pointer_block_alloc s).1.inode_table ≡ s.inode_table)
          × ((pointer_block_alloc s).1.freeinode_ts ≡ s.freeinode_ts)
          × ((pointer_block_alloc s).1.free_blocks ≡ update s.free_blocks b taken))
unfolding pointer_block_alloc
pointer_block_alloc-cases s = elim (alloc-cases s) [
  | inl q ↦ inl (rw q refl)
  | inr (b, below, fresh, q) ↦
      (let index = ap (λ (r : ℤ × Fs). r.0) q in
        let nodes = ap (λ (r : ℤ × Fs). r.1.inode_table) q in
        let used = ap (λ (r : ℤ × Fs). r.1.freeinode_ts) q in
        let blocks = ap (λ (r : ℤ × Fs). r.1.free_blocks) q in
        elim (Option-cases (data_block_get (pos b))) [
          | inl e ↦
              rw q
                (rw (e, pointer_block_alloc) (inr (b, below, fresh, inl refl, nodes, used, blocks)))
          | inr (a, e) ↦
              rw q (
                rw (e, pointer_block_alloc) (inr (b, below, fresh, inr index, nodes, used, blocks)))
        ])
]

ensure_pointer_block-Effect : (i : ℕ) (s : Fs) → Effect s (ensure_pointer_block i s)
unfolding ensure_pointer_block
ensure_pointer_block-Effect i s = elim (Bool-cases ((s.inode_table i).i_data_block ==ℤ minus_one)) [
  | inr e ↦ rw e (same refl refl (λ j l. refl))
  | inl e ↦
      (let absent = (==ℤ_iff (s.inode_table i).i_data_block minus_one).0 e in
        elim (pointer_block_alloc-cases s) [
          | inl q ↦
              rw e (rw q (set_slot-same i direct_block_pointers s _ (λ l. ground (arith, absent))))
          | inr (b, below, fresh, z, q, q', q'') ↦
              (let (r, s') = pointer_block_alloc s in
                let node : Inode = record (s'.inode_table i) { i_data_block = r } in
                rw e (
                  set_slot-took i direct_block_pointers b s _ node below fresh q' q''
                    (ap (λ f. update f i node) q) (λ l le. ground (arith, z, absent, q))))
        ])
]

ensure_indirect-Effect : (a k : ℕ) (s : Fs) → Effect s (ensure_indirect a k s)
unfolding ensure_indirect
ensure_indirect-Effect a k s = elim (Bool-cases (load_int s.fs_data (a + 4 * k) ==ℤ minus_one)) [
  | inr e ↦ rw e (same refl refl (λ j l. refl))
  | inl e ↦ elim (alloc-cases s) [
    | inl q ↦ rw e (rw q (same refl refl (λ j l. refl)))
    | inr (b, below, fresh, q) ↦ rw e (rw q (took 0 0 b below fresh refl refl (λ j l le. inl refl)))
  ]
]

copied-Effect : (f : Frame) (n a : ℕ) (s : Fs) → Effect s (copied f n s a).1
copied-Effect f n a s = by_kind f.kind refl
  where
    by_kind : (k : Kind) → f.kind ≡ k → Effect s (copied f n s a).1
    by_kind writing e = rw (e, copied) (same refl refl (λ j l. refl))
    by_kind reading e = rw (e, copied) (same refl refl (λ j l. refl))

Move-Effect : {me : ℕ} {m m' : Shared} {p p' : Pc} → Move me m p m' p' → Effect m.fs m'.fs
Move-Effect {m = m} (direct {i = i} {k = k}) = ensure_direct-Effect i k m.fs
Move-Effect {m = m} (pointer_block {i = i}) = ensure_pointer_block-Effect i m.fs
Move-Effect {m = m} (indirect {bpointer = a} {k = k}) = ensure_indirect-Effect a k m.fs
Move-Effect {m = m} (copy {f} {n} {a} fits e) = copied-Effect f n a m.fs
Move-Effect {m = m} (enlarge {f} {n} e) = set_slot-same f.inode 0 m.fs _ (λ l. refl)
Move-Effect mv = same refl refl (λ j l. refl)

-- From any state in which the i-nodes in use name, as direct blocks or as block of pointers, blocks
-- of the file system that are taken, and none of them twice: this holds in every state that threads
-- in tfs_write and tfs_read reach, in any order of their steps, through any handles.
pub Reach-IsApart : {s : Fs} {t : System} → Reach s t → IsApart s → IsApart t.shared.fs
Reach-IsApart start v = v
Reach-IsApart (later r (pick me mv)) v = Effect-IsApart (Move-Effect mv) (Reach-IsApart r v)
