-- ===== src/P1/Files/Stored.antt =====
-- One round of tfs_write, seen as a change of the bytes of the file.
use so_project.Base.{
  ℕ, ◌+◌, ◌-◌, ◌*◌, ◌/◌, ◌%◌, ◌≤◌, ◌<◌, ◌≡◌, ◌≢◌, ◌⊎◌, inl, inr, ℤ, pos, negsuc, minus_one,
  pos_part, Memory, blit, add64, true, taken, arith, refl, ◌∙◌, update-same, sym, ap, subst,
  load_int-blit,
}
use native.Mathlib.Decide.{ℕ_discrete}
use so_project.Fs.State.{block_size, valid_block_number}
use so_project.P1.State.{Fs, Inode, OpenFileEntry, direct_block_pointers}
use so_project.P1.Operations.{advance, grow}
use so_project.P1.Files.Blocks.{
  direct_or_behind, OwnsBlocks, Owned, Owned-eq, pointers, indirect, file_blocks, byte_of,
}
use so_project.P1.Files.Ensure.{block_of, Extends}
use so_project.P1.Files.Directs.{pointers-direct}
use so_project.P1.Files.PointerBlock.{pointers-behind, indirect-block, indirect-none}
use so_project.P1.Files.Place.{
  EntryAt, StandsAt, readied, readied-valid, address, readied-Owned, readied-Extends, readied-there,
  advance-StandsAt, next_block, next_offset,
}

-- From s to t the n bytes of the buffer are stored in the file i at the place p, and the other bytes
-- of the blocks that the file had are kept.
pub record Stores (w i p n : ℕ) (buffer : Memory) (s t : Fs) : Type 0 where
  pub stored : (k : ℕ) → k < n → byte_of t i (p + k) ≡ buffer k
  pub others :
      (q : ℕ)
      → q < w * block_size
      → pointers i s (q / block_size) ≢ minus_one
      → (q < p) ⊎ (p + n ≤ q)
      → byte_of t i q ≡ byte_of s i q
  pub kept : (k : ℕ) → k < w → pointers i s k ≢ minus_one → pointers i t k ≡ pointers i s k

-- The state behind a round at the byte o of the block b.
abbrev pub written : ℕ → ℕ → ℕ → ℕ → ℕ → Memory → Fs → Fs
written h i b o n buffer s =
    let s₁ = readied i b s in
    grow i n (advance h n (record s₁ { fs_data = blit s₁.fs_data (address i b o s₁) n buffer }))

-- A copy into one block leaves the bytes of another block.
pub blit-apart :
    (m : Memory) (x y : ℤ) (o n r : ℕ) (buffer : Memory)
    → valid_block_number x ≡ true
    → valid_block_number y ≡ true
    → x ≢ y
    → o + n ≤ block_size
    → r < block_size
    → blit m (pos_part x * block_size + o) n buffer (pos_part y * block_size + r)
      ≡ m (pos_part y * block_size + r)
blit-apart m (pos a) (pos c) o n r buffer p q ne fits below = ground arith
blit-apart m (pos a) (ℤ.negsuc c) o n r buffer p q ne fits below = cc
blit-apart m (ℤ.negsuc a) y o n r buffer p q ne fits below = cc

-- A byte of the file as inode_update leaves it.
pub readied-byte :
    (w i b : ℕ) (s : Fs)
    → OwnsBlocks w i s
    → b < w
    → w ≤ file_blocks
    → (q : ℕ) → q < w * block_size
    → pointers i s (q / block_size) ≢ minus_one
    → (readied i b s).fs_data (address i (q / block_size) (q % block_size) (readied i b s))
      ≡ byte_of s i q
readied-byte w i b s v below limit q in_file there =
    let x = readied-Extends w i b s v below limit in
    let k_lt : q / block_size < w = omega arith in
    let same : address i (q / block_size) (q % block_size) (readied i b s)
        ≡ address i (q / block_size) (q % block_size) s =
      ap (λ z. pos_part z * block_size + q % block_size)
        (x.kept (q / block_size) (omega arith) there) in
    ap (readied i b s).fs_data same
    ∙ in_block (pointers i s (q / block_size)) refl (v.valid (q / block_size) k_lt there)
        (v.allocated (q / block_size) k_lt there) (v.block_apart (q / block_size) k_lt there)
  where
    in_block :
        (z : ℤ)
        → pointers i s (q / block_size) ≡ z
        → valid_block_number (pointers i s (q / block_size)) ≡ true
        → s.free_blocks (pos_part (pointers i s (q / block_size))) ≡ taken
        → pointers i s (q / block_size) ≢ block_of i s
        → (readied i b s).fs_data (address i (q / block_size) (q % block_size) s) ≡ byte_of s i q
    in_block (pos c) e valid held ne =
        let held' : s.free_blocks c ≡ taken = ap s.free_blocks (sym (ap pos_part e)) ∙ held in
        let bytes =
          (readied-Extends w i b s v below limit).same_bytes c (q % block_size) (omega arith) held'
            (λ e'. ne (e ∙ sym e')) in
        subst
          (λ z.
            (readied i b s).fs_data (pos_part z * block_size + q % block_size)
            ≡ s.fs_data (pos_part z * block_size + q % block_size))
          (sym e) bytes
    in_block (negsuc c) e valid held ne = absurd (ground (arith, e, valid))

module _ (w h i b o n : ℕ) (buffer : Memory) (s : Fs) where
  written-node :
      (written h i b o n buffer s).inode_table i ≡ record ((readied i b s).inode_table i) {
        i_size = add64 ((readied i b s).inode_table i).i_size n;
      }
  written-node = update-same (readied i b s).inode_table i _

  pub written-block : block_of i (written h i b o n buffer s) ≡ block_of i (readied i b s)
  written-block = ap (λ (m : Inode). m.i_data_block) written-node

  module _ (v : OwnsBlocks w i s) (below : b < w) (limit : w ≤ file_blocks) where
    abbrev own : OwnsBlocks w i (readied i b s)
    own = readied-Owned w i b s v below limit

    abbrev x : Extends i s (readied i b s)
    x = readied-Extends w i b s v below limit

    pub written-size :
        ((written h i b o n buffer s).inode_table i).i_size ≡ add64 (s.inode_table i).i_size n
    written-size = ap (λ (m : Inode). m.i_size) written-node ∙ ap (λ z. add64 z n) x.same_size

    module _ (fits : o + n ≤ block_size) where
      -- The copy leaves the block of pointers.
      indirect-kept :
          (z : ℤ) (k : ℕ)
          → block_of i (readied i b s) ≡ z
          → direct_block_pointers + k < file_blocks
          → indirect (written h i b o n buffer s).fs_data z k ≡ indirect (readied i b s).fs_data z k
      indirect-kept (pos c) k e lt =
          indirect-block (written h i b o n buffer s).fs_data c k
          ∙ load_int-blit (readied i b s).fs_data (address i b o (readied i b s)) n buffer
              (c * block_size + 4 * k)
              (apart-block (pointers i (readied i b s) b) (readied-valid w i b s v below limit)
                (λ e'.
                  own.block_apart b below (readied-there w i b s v below limit b (omega arith))
                    (e' ∙ sym e)))
          ∙ sym (indirect-block (readied i b s).fs_data c k)
        where
          apart-block :
              (y : ℤ)
              → valid_block_number y ≡ true
              → y ≢ pos c
              → (c * block_size + 4 * k + 4 ≤ pos_part y * block_size + o)
                ⊎ (pos_part y * block_size + o + n ≤ c * block_size + 4 * k)
          apart-block (pos a) e'' ne = (let ne' : a ≢ c = λ q. ne (ap pos q) in ground arith)
          apart-block (negsuc a) e'' ne = cc
      indirect-kept (negsuc c) k e lt = elim (ℕ_discrete c 0) [
        | yes e' ↦ rw e' (
            indirect-none (written h i b o n buffer s).fs_data k
            ∙ sym (indirect-none (readied i b s).fs_data k))
        | no ne ↦
            (let valid = own.block_valid (λ e'. ne (ground (arith, e, e'))) in
              absurd (ground (arith, e)))
      ]

      pub written-pointers :
          (k : ℕ) → k < w → pointers i (written h i b o n buffer s) k ≡ pointers i (readied i b s) k
      written-pointers k lt = elim (direct_or_behind k) [
        | inl direct ↦
            pointers-direct i k (written h i b o n buffer s) direct
            ∙ ap (λ (m : Inode). m.i_direct_blocks k) written-node
            ∙ sym (pointers-direct i k (readied i b s) direct)
        | inr behind ↦
            pointers-behind i k (written h i b o n buffer s) behind
            ∙ ap (λ z. indirect (written h i b o n buffer s).fs_data z (k - direct_block_pointers))
                written-block
            ∙ indirect-kept (block_of i (readied i b s)) (k - direct_block_pointers) refl
                (omega arith)
            ∙ sym (pointers-behind i k (readied i b s) behind)
      ]

      pub written-OwnsBlocks : OwnsBlocks w i (written h i b o n buffer s)
      written-OwnsBlocks =
          subst
            (λ z. Owned w z (pointers i (written h i b o n buffer s)) (readied i b s).free_blocks)
            (sym written-block)
            (Owned-eq w (block_of i (readied i b s)) (pointers i (readied i b s))
              (pointers i (written h i b o n buffer s)) (readied i b s).free_blocks own
              written-pointers)

      pub written-StandsAt :
          StandsAt h i b o s
          → StandsAt h i (next_block b o n) (next_offset o n) (written h i b o n buffer s)
      written-StandsAt stands =
          advance-StandsAt h i b o n (readied i b s)
            (subst (λ (f : ℕ → OpenFileEntry). EntryAt i b o (f h)) (sym x.same_entries) stands)
            fits

      pub written-there : (k : ℕ) → k ≤ b → pointers i (written h i b o n buffer s) k ≢ minus_one
      written-there k le e =
          readied-there w i b s v below limit k le (sym (written-pointers k (omega arith)) ∙ e)

      -- A byte of the file behind the round, in the pointers and the data before it.
      written-byte :
          (q : ℕ)
          → q < w * block_size
          → byte_of (written h i b o n buffer s) i q
            ≡ blit
                (readied i b s).fs_data
                (address i b o (readied i b s))
                n
                buffer
                (address i (q / block_size) (q % block_size) (readied i b s))
      written-byte q lt =
          ap
            (λ z.
              blit (readied i b s).fs_data (address i b o (readied i b s)) n buffer
                (pos_part z * block_size + q % block_size))
            (written-pointers (q / block_size) (omega arith))

      stored_byte :
          (k : ℕ)
          → k < n
          → blit (readied i b s).fs_data (address i b o (readied i b s)) n buffer (
              address i
                ((b * block_size + o + k) / block_size)
                ((b * block_size + o + k) % block_size)
                (readied i b s))
            ≡ buffer k
      stored_byte k lt =
          let block : (b * block_size + o + k) / block_size ≡ b = omega arith in
          let offset : (b * block_size + o + k) % block_size ≡ o + k = omega arith in
          rw block (rw offset (ground arith))

      other_byte :
          (q : ℕ)
          → q < w * block_size
          → pointers i s (q / block_size) ≢ minus_one
          → (q < b * block_size + o) ⊎ (b * block_size + o + n ≤ q)
          → blit
              (readied i b s).fs_data
              (address i b o (readied i b s))
              n
              buffer
              (address i (q / block_size) (q % block_size) (readied i b s))
            ≡ byte_of s i q
      other_byte q in_file there apart =
          let d = pointers i (readied i b s) in
          let here : q / block_size < w = omega arith in
          let kept = readied-byte w i b s v below limit q in_file there in
          let there' : d (q / block_size) ≢ minus_one =
            λ e. there (sym (x.kept (q / block_size) (omega arith) there) ∙ e) in
          elim (ℕ_discrete (q / block_size) b) [
            | yes e ↦ rw e (ground arith) ∙ kept
            | no ne ↦
                blit-apart (readied i b s).fs_data (d b) (d (q / block_size)) o n (q % block_size)
                  buffer (readied-valid w i b s v below limit)
                  (own.valid (q / block_size) here there')
                  (λ e. ne (
                    sym (
                      own.apart b (q / block_size) below here
                        (readied-there w i b s v below limit b (omega arith)) e)))
                  fits (omega arith)
                ∙ kept
          ]

      pub written-Stores : Stores w i (b * block_size + o) n buffer s (written h i b o n buffer s)
      written-Stores = record {
        stored = λ k lt. written-byte (b * block_size + o + k) (omega arith) ∙ stored_byte k lt;
        others = λ q in_file there apart. written-byte q in_file ∙ other_byte q in_file there apart;
        kept = λ k lt there. written-pointers k lt ∙ x.kept k (omega arith) there;
      }
