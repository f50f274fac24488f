-- ===== src/P1/Files/Place.antt =====
-- One round of tfs_write and tfs_read in P1/fs/operations.c, at a place within the blocks of a file.
use so_project.Base.{
  ℕ, ◌+◌, ◌-◌, ◌*◌, ◌≤◌, ◌<◌, ◌≡◌, ◌≢◌, pos, minus_one, pos_part, Memory, blit, some, true, false,
  arith, refl, ◌∙◌, update-same, ap, leb, ltb, if◌then◌else◌, ◌==◌, inl, inr, sym, subst, load_int,
}
use so_project.Fs.State.{block_size, valid_block_number, data_blocks}
use so_project.P1.State.{Fs, OpenFileEntry, direct_block_pointers, max_block_pointers, fs_data_size}
use so_project.P1.Block.{data_block_get}
use so_project.P1.Inode.{inode_get}
use so_project.P1.Update.{
  at, ensure_directs, ensure_pointer_block, ensure_indirects, update_at, update_indirect,
  inode_update, position_in,
}
use so_project.P1.Operations.{returned, copy_in, copy_out, copy_to, copy_from, advance, advanced}
use so_project.P1.Files.Blocks.{direct_or_behind, OwnsBlocks, pointers, indirect, file_blocks}
use so_project.P1.Files.Ensure.{block_of, Extends, Extends-trans}
use so_project.P1.Files.Directs.{EnsuredAll, pointers-direct, ensure_directs-EnsuredAll}
use so_project.P1.Files.PointerBlock.{
  BlockEnsured, ensure_pointer_block-Ensured, pointers-behind, indirect-block,
}
use so_project.P1.Files.Indirects.{ensure_indirects-EnsuredAll}

-- The entry stands in the i-node i at the byte o of the block b of the file.
pub record EntryAt (i b o : ℕ) (file : OpenFileEntry) : Type 0 where
  pub node : inode_get file.of_inumber ≡ some i
  pub block : file.of_boffset ≡ pos b
  pub offset : file.of_offset ≡ o

abbrev pub StandsAt : ℕ → ℕ → ℕ → ℕ → Fs → Type 0
StandsAt h i b o s = EntryAt i b o (s.open_file_table h)

-- The state when the loop over the direct pointers has ended, for a block behind them, and the one
-- with a block of pointers.
abbrev with_directs : ℕ → Fs → Fs
with_directs i s = ensure_directs i direct_block_pointers 0 s

abbrev with_block : ℕ → Fs → Fs
with_block i s = ensure_pointer_block i (with_directs i s)

-- The state when inode_update has allocated the blocks up to b.
unfoldable pub readied : ℕ → ℕ → Fs → Fs
readied i b s =
    if leb direct_block_pointers b
    then ensure_indirects (pos_part (block_of i (with_block i s)) * block_size)
        (b - direct_block_pointers + 1) 0 (with_block i s)
    else ensure_directs i (b + 1) 0 s

-- The address in `fs_data` of the byte o of the block b of the file.
abbrev pub address : ℕ → ℕ → ℕ → Fs → ℕ
address i b o s = pos_part (pointers i s b) * block_size + o

module _ (w i b : ℕ) (s : Fs) (v : OwnsBlocks w i s) (below : b < w) (limit : w ≤ file_blocks) where
  module _ (far : direct_block_pointers ≤ b) where
    directs : EnsuredAll w i direct_block_pointers 0 s (with_directs i s)
    directs =
        ensure_directs-EnsuredAll w i direct_block_pointers 0 s v (omega arith) limit (omega arith)

    blocked : BlockEnsured w i (with_directs i s) (with_block i s)
    blocked = ensure_pointer_block-Ensured w i (with_directs i s) directs.0 (omega arith) limit

    far-readied :
        readied i b s
        ≡ ensure_indirects
            (blocked.2.0 * block_size)
            (b - direct_block_pointers + 1)
            0
            (with_block i s)
    unfolding readied
    far-readied =
        let is_far : leb direct_block_pointers b ≡ true = ground arith in
        rw is_far (
          ap
            (λ z.
              ensure_indirects (pos_part z * block_size) (b - direct_block_pointers + 1) 0
                (with_block i s))
            blocked.2.1)

    indirects :
        EnsuredAll w i
          (b - direct_block_pointers + 1)
          direct_block_pointers
          (with_block i s)
          (readied i b s)
    indirects =
        subst
          (EnsuredAll w i (b - direct_block_pointers + 1) direct_block_pointers (with_block i s))
          (sym far-readied)
          (ensure_indirects-EnsuredAll w i blocked.2.0 (b - direct_block_pointers + 1) 0
            (with_block i s) blocked.0 blocked.2.1 (omega arith) limit)

    all_there : (k : ℕ) → k ≤ b → pointers i (readied i b s) k ≢ minus_one
    all_there k le = elim (direct_or_behind k) [
      | inl near ↦
          (let there = directs.2 k (omega arith) near in
            let to_block = blocked.1.kept k (omega arith) there in
            λ e. there (
              sym to_block
              ∙ sym (indirects.1.kept k (omega arith) (λ e'. there (sym to_block ∙ e')))
              ∙ e))
      | inr behind ↦ indirects.2 k behind (omega arith)
    ]

    far-All : EnsuredAll w i (b + 1) 0 s (readied i b s)
    far-All = (
      indirects.0,
      Extends-trans directs.1 (Extends-trans blocked.1 indirects.1),
      λ j a lt. all_there j (omega arith),
    )

  near-readied : b < direct_block_pointers → readied i b s ≡ ensure_directs i (b + 1) 0 s
  unfolding readied
  near-readied near = ground arith

  readied-All : EnsuredAll w i (b + 1) 0 s (readied i b s)
  readied-All = elim (direct_or_behind b) [
    | inl near ↦
        (let is_near : readied i b s ≡ ensure_directs i (b + 1) 0 s = near-readied near in
          subst (EnsuredAll w i (b + 1) 0 s) (sym is_near)
            (ensure_directs-EnsuredAll w i (b + 1) 0 s v (omega arith) limit (omega arith)))
    | inr far ↦ far-All far
  ]

  pub readied-Owned : OwnsBlocks w i (readied i b s)
  readied-Owned = readied-All.0

  pub readied-Extends : Extends i s (readied i b s)
  readied-Extends = readied-All.1

  pub readied-there : (k : ℕ) → k ≤ b → pointers i (readied i b s) k ≢ minus_one
  readied-there k le = readied-All.2 k (omega arith) (omega arith)

  pub readied-valid : valid_block_number (pointers i (readied i b s) b) ≡ true
  readied-valid = readied-Owned.valid b below (readied-there b (omega arith))

  module _ (o : ℕ) where
    position_in-valid :
        position_in (pointers i (readied i b s) b) o ≡ at (address i b o (readied i b s))
    unfolding data_block_get
    position_in-valid = rw (readied-valid, position_in) refl

    update_at-near :
        b < direct_block_pointers
        → update_at i (pos b) o s ≡ (at (address i b o (readied i b s)), readied i b s)
    unfolding update_at
    update_at-near near =
        let rounds : ltb b direct_block_pointers ≡ true = ground arith in
        let direct : leb direct_block_pointers b ≡ false = ground arith in
        let pointer : (((ensure_directs i (b + 1) 0 s).inode_table i).i_direct_blocks b)
            ≡ pointers i (readied i b s) b =
          sym (pointers-direct i b (ensure_directs i (b + 1) 0 s) near)
          ∙ ap (λ t. pointers i t b) (sym (near-readied near)) in
        rw rounds (rw direct (rw pointer (rw position_in-valid (rw (near-readied near) refl))))

    block-address :
        (far : direct_block_pointers ≤ b)
        → data_block_get (block_of i (with_block i s)) ≡ some ((blocked far).2.0 * block_size)
    unfolding data_block_get
    block-address far =
        let (c, is_c, c_below) = (blocked far).2 in
        let valid : ltb c data_blocks ≡ true = ground arith in rw is_c (rw valid refl)

    update_indirect-far :
        (far : direct_block_pointers ≤ b)
        → update_indirect i (b - direct_block_pointers) o (with_directs i s)
          ≡ (at (address i b o (readied i b s)), readied i b s)
    unfolding update_indirect
    update_indirect-far far =
        let (c, is_c, c_below) = (blocked far).2 in
        let rounds : ltb (b - direct_block_pointers) max_block_pointers ≡ true = ground arith in
        let in_data : leb (c * block_size + 4 * (b - direct_block_pointers) + 4) fs_data_size
            ≡ true =
          ground arith in
        let t =
          ensure_indirects (c * block_size) (b - direct_block_pointers + 1) 0 (with_block i s) in
        let same : readied i b s ≡ t = far-readied far in
        let still : block_of i (readied i b s) ≡ pos c =
          (indirects far).1.block_kept (λ e. cc (e, is_c)) ∙ is_c in
        let pointer : load_int t.fs_data (c * block_size + 4 * (b - direct_block_pointers))
            ≡ pointers i (readied i b s) b =
          ap (λ u. load_int u.fs_data (c * block_size + 4 * (b - direct_block_pointers))) (sym same)
          ∙ sym (indirect-block (readied i b s).fs_data c (b - direct_block_pointers))
          ∙ ap (λ z. indirect (readied i b s).fs_data z (b - direct_block_pointers)) (sym still)
          ∙ sym (pointers-behind i b (readied i b s) far) in
        rw (block-address far, update_indirect)
          (rw rounds (rw in_data (rw pointer (rw position_in-valid (rw same refl)))))

    update_at-readied :
        update_at i (pos b) o s ≡ (at (address i b o (readied i b s)), readied i b s)
    unfolding update_at
    update_at-readied = elim (direct_or_behind b) [
      | inl near ↦ update_at-near near
      | inr far ↦
          (let behind : leb direct_block_pointers b ≡ true = ground arith in
            let rounds : ltb b direct_block_pointers ≡ false = ground arith in
            rw behind (rw rounds (update_indirect-far far)))
    ]

    module _ (h : ℕ) (stands : StandsAt h i b o s) where
      pub inode_update-readied :
          inode_update h s ≡ (at (address i b o (readied i b s)), readied i b s)
      unfolding inode_update
      inode_update-readied =
          rw (stands.node, inode_update) (rw stands.block (rw stands.offset update_at-readied))

      -- The end of a range within the block lies in `fs_data`.
      pub inside : (n : ℕ) → o + n ≤ block_size → address i b o (readied i b s) + n ≤ fs_data_size
      inside n fits = let valid = readied-valid in ground arith

      pub copy_in-readied :
          (buffer : Memory) (n : ℕ)
          → 0 < n
          → o + n ≤ block_size
          → copy_in h buffer n s
            ≡ returned (pos 0) (record (readied i b s) {
              fs_data = blit (readied i b s).fs_data (address i b o (readied i b s)) n buffer;
            })
      unfolding copy_in copy_to
      copy_in-readied buffer n p fits =
          let some_bytes : (n == 0) ≡ false = ground arith in
          let in_data : leb (address i b o (readied i b s) + n) fs_data_size ≡ true =
            ground (arith, inside n fits) in
          rw some_bytes (ap (copy_to buffer n) inode_update-readied ∙ rw in_data refl)

      pub copy_out-readied :
          (buffer : Memory) (done to_read n : ℕ)
          → 0 < n
          → address i b o (readied i b s) + to_read ≤ fs_data_size
          → copy_out h buffer done to_read n s
            ≡ returned (pos 0) (
              blit buffer done to_read
                  (λ k. (readied i b s).fs_data (address i b o (readied i b s) + k)),
              readied i b s,
            )
      unfolding copy_out copy_from
      copy_out-readied buffer done to_read n p room =
          let some_bytes : (n == 0) ≡ false = ground arith in
          let in_data : leb (address i b o (readied i b s) + to_read) fs_data_size ≡ true =
            ground (arith, room) in
          rw some_bytes (ap (copy_from buffer done to_read) inode_update-readied ∙ rw in_data refl)

-- The place behind the byte o of the block b: a carry at the end of the block.
abbrev pub next_block : ℕ → ℕ → ℕ → ℕ
next_block b o n = if leb block_size (o + n) then b + 1 else b

abbrev pub next_offset : ℕ → ℕ → ℕ
next_offset o n = if leb block_size (o + n) then o + n - block_size else o + n

pub advance-StandsAt :
    (h i b o n : ℕ) (s : Fs)
    → StandsAt h i b o s
    → o + n ≤ block_size
    → StandsAt h i (next_block b o n) (next_offset o n) (advance h n s)
advance-StandsAt h i b o n s stands fits =
    let here = update-same s.open_file_table h (advanced n (s.open_file_table h)) in
    let offset = stands.offset in
    let block = stands.block in
    record {
      node = ap (λ (f : OpenFileEntry). inode_get f.of_inumber) here ∙ stands.node;
      block = ap (λ (f : OpenFileEntry). f.of_boffset) here ∙ ground arith;
      offset = ap (λ (f : OpenFileEntry). f.of_offset) here ∙ ground arith;
    }

pub next_place :
    (b o n : ℕ)
    → o + n ≤ block_size
    → next_block b o n * block_size + next_offset o n ≡ b * block_size + o + n
next_place b o n fits = ground arith

pub next_offset-lt : (o n : ℕ) → o + n ≤ block_size → next_offset o n < block_size
next_offset-lt o n fits = ground arith
