-- ===== src/P1/Bounds/Update.antt =====
-- inode_update of P1/fs/state.c leaves the open file table alone.
use so_project.Base.{
  ℕ, zero, suc, ◌+◌, ◌-◌, ◌*◌, ◌≡◌, inl, inr, ℤ, pos, negsuc, minus_one, ◌==ℤ◌, refl, ◌∙◌,
  Option-cases, Bool-cases, load_int, leb, first_free,
}
use so_project.Fs.State.{data_blocks}
use so_project.P1.State.{Fs, direct_block_pointers, max_block_pointers, fs_data_size}
use so_project.P1.Block.{data_block_alloc, data_block_get, pointer_block_alloc}
use so_project.P1.Inode.{inode_get}
use so_project.P1.Update.{
  ensure_direct, ensure_directs, ensure_pointer_block, ensure_indirect, ensure_indirects,
  loop_rounds, update_indirect, update_at, inode_update,
}

-- The two states have the same open file table.
abbrev pub SameEntries : Fs → Fs → Type 0
SameEntries s t = t.open_file_table ≡ s.open_file_table

alloc-SameEntries : (s : Fs) → SameEntries s (data_block_alloc s).1
unfolding data_block_alloc
alloc-SameEntries s = elim (Option-cases (first_free s.free_blocks data_blocks 0)) [
  | inl e ↦ rw (e, data_block_alloc) refl
  | inr (b, e) ↦ rw (e, data_block_alloc) refl
]

pointer_alloc-SameEntries : (s : Fs) → SameEntries s (pointer_block_alloc s).1
unfolding pointer_block_alloc
pointer_alloc-SameEntries s = elim (Bool-cases ((data_block_alloc s).0 ==ℤ minus_one)) [
  | inl e ↦ rw e (alloc-SameEntries s)
  | inr e ↦ elim (Option-cases (data_block_get (data_block_alloc s).0)) [
    | inl e' ↦ rw e (rw (e', pointer_block_alloc) (alloc-SameEntries s))
    | inr (a, e') ↦ rw e (rw (e', pointer_block_alloc) (alloc-SameEntries s))
  ]
]

pub ensure_direct-SameEntries : (i k : ℕ) (s : Fs) → SameEntries s (ensure_direct i k s)
unfolding ensure_direct
ensure_direct-SameEntries i k s =
    elim (Bool-cases ((s.inode_table i).i_direct_blocks k ==ℤ minus_one)) [
      | inl e ↦ rw e (alloc-SameEntries s)
      | inr e ↦ rw e refl
    ]

pub ensure_directs-SameEntries : (i n k : ℕ) (s : Fs) → SameEntries s (ensure_directs i n k s)
unfolding ensure_directs
ensure_directs-SameEntries i zero k s = refl
ensure_directs-SameEntries i (suc n) k s =
    ensure_directs-SameEntries i n (k + 1) (ensure_direct i k s) ∙ ensure_direct-SameEntries i k s

pub ensure_pointer_block-SameEntries : (i : ℕ) (s : Fs) → SameEntries s (ensure_pointer_block i s)
unfolding ensure_pointer_block
ensure_pointer_block-SameEntries i s =
    elim (Bool-cases ((s.inode_table i).i_data_block ==ℤ minus_one)) [
      | inl e ↦ rw e (pointer_alloc-SameEntries s)
      | inr e ↦ rw e refl
    ]

pub ensure_indirect-SameEntries : (a k : ℕ) (s : Fs) → SameEntries s (ensure_indirect a k s)
unfolding ensure_indirect
ensure_indirect-SameEntries a k s =
    elim (Bool-cases (load_int s.fs_data (a + 4 * k) ==ℤ minus_one)) [
      | inl e ↦ rw e (alloc-SameEntries s)
      | inr e ↦ rw e refl
    ]

pub ensure_indirects-SameEntries : (a n k : ℕ) (s : Fs) → SameEntries s (ensure_indirects a n k s)
unfolding ensure_indirects
ensure_indirects-SameEntries a zero k s = refl
ensure_indirects-SameEntries a (suc n) k s =
    ensure_indirects-SameEntries a n (k + 1) (ensure_indirect a k s)
    ∙ ensure_indirect-SameEntries a k s

update_indirect-SameEntries :
    (i blocks offset : ℕ) (s : Fs) → SameEntries s (update_indirect i blocks offset s).1
unfolding update_indirect
update_indirect-SameEntries i blocks offset s =
    let s' = ensure_pointer_block i s in
    elim (Option-cases (data_block_get (s'.inode_table i).i_data_block)) [
      | inl e ↦ rw (e, update_indirect) (ensure_pointer_block-SameEntries i s)
      | inr (a, e) ↦
          (let both =
              ensure_indirects-SameEntries a (loop_rounds (pos blocks) max_block_pointers) 0 s'
              ∙ ensure_pointer_block-SameEntries i s in
            elim (Bool-cases (leb (a + 4 * blocks + 4) fs_data_size)) [
              | inl e' ↦ rw (e, update_indirect) (rw e' both)
              | inr e' ↦ rw (e, update_indirect) (rw e' both)
            ])
    ]

update_at-SameEntries :
    (i : ℕ) (b : ℤ) (offset : ℕ) (s : Fs) → SameEntries s (update_at i b offset s).1
unfolding update_at
update_at-SameEntries i (negsuc b) offset s = refl
update_at-SameEntries i (pos b) offset s =
    let s' = ensure_directs i (loop_rounds (pos b) direct_block_pointers) 0 s in
    let directs = ensure_directs-SameEntries i (loop_rounds (pos b) direct_block_pointers) 0 s in
    elim (Bool-cases (leb direct_block_pointers b)) [
      | inl e ↦ rw e (update_indirect-SameEntries i (b - direct_block_pointers) offset s' ∙ directs)
      | inr e ↦ rw e directs
    ]

pub inode_update-SameEntries : (h : ℕ) (s : Fs) → SameEntries s (inode_update h s).1
unfolding inode_update
inode_update-SameEntries h s = elim (Option-cases (inode_get (s.open_file_table h).of_inumber)) [
  | inl e ↦ rw (e, inode_update) refl
  | inr (i, e) ↦
      rw (e, inode_update)
        (update_at-SameEntries i (s.open_file_table h).of_boffset (s.open_file_table h).of_offset s)
]
