-- ===== src/P1/Files/Isolation.antt =====
-- What a tfs_write of P1/fs/operations.c leaves alone: the blocks of other files, of directories and of
-- pointers, and the other i-nodes.
use so_project.Base.{
  ℕ, zero, suc, ◌+◌, ◌-◌, ◌*◌, ◌^◌, ◌≤◌, ◌<◌, ◌≡◌, ◌≢◌, pos, Memory, taken, update-other, arith,
  refl, ◌∙◌, sym, subst,
}
use so_project.Fs.State.{block_size, max_open_files, data_blocks}
use so_project.P1.State.{Fs}
use so_project.P1.Operations.{returned, write_chunk, write_loop, tfs_write}
use so_project.P1.Bounds.Rounds.{Ends, Ends-map}
use so_project.P1.Files.Blocks.{OwnsBlocks, pointers, file_blocks}
use so_project.P1.Files.Ensure.{block_of}
use so_project.P1.Files.Place.{
  StandsAt, readied, readied-valid, readied-Extends, next_block, next_offset, next_place,
  next_offset-lt,
}
use so_project.P1.Files.Stored.{
  written, blit-apart, written-OwnsBlocks, written-StandsAt, written-pointers, written-block,
}
use so_project.P1.Files.WriteRound.{write_chunk_bounds, write_loop-round}
use so_project.P1.Files.Write.{write_loop-zero, tfs_write-loop, tfs_write-Wrote}

-- The block x is taken, and is none of the first w blocks of the i-node i nor its block of pointers.
pub record Foreign (w i x : ℕ) (s : Fs) : Type 0 where
  pub below : x < data_blocks
  pub held : s.free_blocks x ≡ taken
  pub unnamed : (k : ℕ) → k < w → pointers i s k ≢ pos x
  pub no_pointers : block_of i s ≢ pos x

-- From s to t the bytes of the block x and the i-nodes other than i are kept, and x is still foreign.
pub record Kept (w i x : ℕ) (s t : Fs) : Type 0 where
  pub foreign : Foreign w i x t
  pub same_bytes :
      (r : ℕ) → r < block_size → t.fs_data (x * block_size + r) ≡ s.fs_data (x * block_size + r)
  pub same_nodes : (j : ℕ) → j ≢ i → t.inode_table j ≡ s.inode_table j

Kept-refl : {w i x : ℕ} {s : Fs} → Foreign w i x s → Kept w i x s s
Kept-refl f = record { foreign = f; same_bytes = λ r lt. refl; same_nodes = λ j ne. refl }

Kept-trans : {w i x : ℕ} {s t u : Fs} → Kept w i x s t → Kept w i x t u → Kept w i x s u
Kept-trans a b = record {
  foreign = b.foreign;
  same_bytes = λ r lt. b.same_bytes r lt ∙ a.same_bytes r lt;
  same_nodes = λ j ne. b.same_nodes j ne ∙ a.same_nodes j ne;
}

written-Kept :
    (w h i b o n x : ℕ) (buffer : Memory) (s : Fs)
    → OwnsBlocks w i s
    → b < w
    → w ≤ file_blocks
    → o + n ≤ block_size
    → Foreign w i x s
    → Kept w i x s (written h i b o n buffer s)
written-Kept w h i b o n x buffer s v below limit fits f =
    let e = readied-Extends w i b s v below limit in
    let ready = readied i b s in
    let named = written-pointers w h i b o n buffer s v below limit fits in
    let unnamed : (k : ℕ) → k < w → pointers i ready k ≢ pos x =
      λ k lt. e.unnamed x k (omega arith) f.held (f.unnamed k lt) in
    record {
      foreign = record {
        below = f.below;
        held = e.still_taken x f.held;
        unnamed = λ k lt e'. unnamed k lt (sym (named k lt) ∙ e');
        no_pointers = λ e'.
            e.not_pointers x f.held f.no_pointers (sym (written-block w h i b o n buffer s) ∙ e');
      };
      same_bytes = λ r lt.
          blit-apart ready.fs_data (pointers i ready b) (pos x) o n r buffer
            (readied-valid w i b s v below limit) (let inside = f.below in ground arith)
            (unnamed b below) fits lt
          ∙ e.same_bytes x r lt f.held f.no_pointers;
      same_nodes = λ j ne. update-other ready.inode_table i j _ ne ∙ e.same_nodes j ne;
    }

write_loop-Kept :
    (w fuel h i b o m x : ℕ) (buffer : Memory) (count : ℕ) (s : Fs)
    → OwnsBlocks w i s
    → StandsAt h i b o s
    → o < block_size
    → b * block_size + o + m ≤ w * block_size
    → m ≤ fuel
    → w ≤ file_blocks
    → Foreign w i x s
    → Ends (Kept w i x s) (write_loop fuel h i buffer count m s)
write_loop-Kept w fuel h i b o zero x buffer count s v stands in_block in_file enough limit f =
    subst (Ends (Kept w i x s)) (sym (write_loop-zero fuel h i buffer count s)) (Kept-refl f)
write_loop-Kept w zero h i b o (suc m) x buffer count s v stands in_block in_file enough limit f =
    absurd (omega arith)
write_loop-Kept w (suc fuel) h i b o (suc m) x buffer count s v stands in_block in_file enough limit
      f =
    let n = write_chunk o (suc m) in
    let (p, q, fits) = write_chunk_bounds o (suc m) in_block (omega arith) (omega arith) in
    let round = written-Kept w h i b o n x buffer s v (omega arith) limit fits f in
    let rest =
      write_loop-Kept w fuel h i (next_block b o n) (next_offset o n) (suc m - n) x
        (λ k. buffer (n + k)) count (written h i b o n buffer s)
        (written-OwnsBlocks w h i b o n buffer s v (omega arith) limit fits)
        (written-StandsAt w h i b o n buffer s v (omega arith) limit fits stands)
        (next_offset-lt o n fits) (omega (arith, next_place b o n fits)) (omega arith) limit
        round.foreign in
    subst (Ends (Kept w i x s))
      (sym (
        write_loop-round w fuel h i b o n (suc m) buffer count s v stands p q fits (omega arith)
          refl in_file limit))
      (Ends-map
        (write_loop fuel h i (λ k. buffer (n + k)) count (suc m - n) (written h i b o n buffer s))
        (λ t kept. Kept-trans round kept) rest)

-- Let w be 266 at most, and let the first w pointers of the i-node i, direct and then indirect,
-- and its block of pointers name different taken blocks of the volume or none, with a free block
-- for each of them that names none, the block of pointers counting when w is more than 10. A
-- write through a valid handle that stands within the first w blocks of the file i, of n bytes
-- that end within them, with a size that does not overflow, returns n, leaves every i-node but i,
-- and leaves every byte of each taken block that is neither among the first w blocks of i nor its
-- block of pointers; that block stays taken and none of these.
pub tfs_write-Kept :
    (w h i b o n x : ℕ) (buffer : Memory) (s : Fs)
    → h < max_open_files
    → w ≤ file_blocks
    → OwnsBlocks w i s
    → StandsAt h i b o s
    → o < block_size
    → b * block_size + o + n ≤ w * block_size
    → (s.inode_table i).i_size + n < 2 ^ 64
    → Foreign w i x s
    → (t : Fs) × (tfs_write (pos h) buffer n s ≡ returned (pos n) t) × Kept w i x s t
tfs_write-Kept w h i b o n x buffer s valid limit v stands in_block in_file wide f =
    let (t, e, wrote) =
      tfs_write-Wrote w h i b o n buffer s valid limit v stands in_block in_file wide in
    let kept =
      write_loop-Kept w n h i b o n x buffer n s v stands in_block in_file (omega arith) limit f in
    (
      t,
      e,
      subst (Ends (Kept w i x s)) (sym (tfs_write-loop h i n buffer s valid stands.node) ∙ e) kept,
    )
