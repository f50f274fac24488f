-- ===== src/Fs/Alloc.antt =====
-- What the allocators of P2/fs/state.c return.
use so_project.Base.{
  ℕ, ◌<◌, ◌≡◌, ◌⊎◌, inl, inr, pos, minus_one, Option-cases, free, taken, update, first_free,
  first_free-some, first_free-least, first_free-none, arith, refl,
}
use so_project.Fs.State.{Fs, InodeType, t_file, t_directory, data_blocks, inode_table_size}
use so_project.Fs.Block.{data_block_alloc, data_block_get}
use so_project.Fs.Inode.{inode_create}

-- data_block_alloc takes the lowest free block and no other, or returns -1, changes nothing, and
-- every block is taken.
pub data_block_alloc_outcome :
    (s : Fs)
    → let (r, s') = data_block_alloc s in
      ((b : ℕ) × (r ≡ pos b)
        × (b < data_blocks)
        × (s.free_blocks b ≡ free)
        × ((c : ℕ) → c < b → s.free_blocks c ≡ taken)
        × (s' ≡ record s { free_blocks = update s.free_blocks b taken }))
      ⊎ ((r ≡ minus_one) × (s' ≡ s) × ((c : ℕ) → c < data_blocks → s.free_blocks c ≡ taken))
unfolding data_block_alloc
data_block_alloc_outcome s = elim (Option-cases (first_free s.free_blocks data_blocks 0)) [
  | inl e ↦
      rw (e, data_block_alloc)
        (inr (
          refl,
          refl,
          λ c lt. first_free-none s.free_blocks data_blocks 0 e c (omega arith) (omega arith),
        ))
  | inr (b, e) ↦
      (let found = first_free-some s.free_blocks data_blocks 0 {j = b} e in
        rw (e, data_block_alloc)
          (inl (
            b,
            refl,
            omega arith,
            found.2,
            (λ c lt. first_free-least s.free_blocks data_blocks 0 {j = b} e c (omega arith) lt),
            refl,
          )))
]

-- A call of inode_create that fails, for want of an i-node or of a block, leaves the same i-nodes and
-- the same blocks allocated.
pub inode_create_failure :
    (n_type : InodeType) (s : Fs)
    → (inode_create n_type s).0 ≡ minus_one
    → ((i : ℕ) → (inode_create n_type s).1.freeinode_ts i ≡ s.freeinode_ts i)
      × ((inode_create n_type s).1.free_blocks ≡ s.free_blocks)
unfolding inode_create data_block_alloc data_block_get
inode_create_failure t_file s e =
    elim (Option-cases (first_free s.freeinode_ts inode_table_size 0)) [
      | inl full ↦ rw (full, inode_create) ((λ i. refl), refl)
      | inr (j, found) ↦ absurd (ground (arith, found))
    ]
inode_create_failure t_directory s e =
    elim (Option-cases (first_free s.freeinode_ts inode_table_size 0)) [
      | inl full ↦ rw (full, inode_create) ((λ i. refl), refl)
      | inr (j, found) ↦ elim (Option-cases (first_free s.free_blocks data_blocks 0)) [
        | inl none_free ↦
            rw (found, inode_create)
              (rw (none_free, inode_create, data_block_alloc)
                (
                  (λ i.
                      ground
                        (arith, first_free-some s.freeinode_ts inode_table_size 0 {j = j} found)),
                  refl,
                ))
        | inr (b, found') ↦ absurd (
            ground
              (arith, found, found', first_free-some s.free_blocks data_blocks 0 {j = b} found'))
      ]
    ]
