-- ===== src/P1/Files/Write.antt =====
-- tfs_write of P1/fs/operations.c for a range of bytes within the blocks of the file.
use so_project.Base.{
  ℕ, zero, suc, ◌+◌, ◌-◌, ◌*◌, ◌^◌, ◌≤◌, ◌<◌, ◌≡◌, pos, Memory, signed64, some, true, arith, refl,
  ◌∙◌, ap, ltb,
}
use so_project.Fs.State.{block_size, max_open_files}
use so_project.P1.State.{Fs}
use so_project.P1.Inode.{inode_get}
use so_project.P1.OpenFile.{get_open_file_entry}
use so_project.P1.Operations.{returned, write_loop, write_chunk, tfs_write}
use so_project.P1.Files.Blocks.{OwnsBlocks, file_blocks}
use so_project.P1.Files.Place.{StandsAt, next_block, next_offset, next_place, next_offset-lt}
use so_project.P1.Files.Stored.{written, written-OwnsBlocks, written-StandsAt}
use so_project.P1.Files.WriteRound.{
  write_chunk_bounds, Wrote, LoopWrote, LoopWrote-round, after-size,
}

Wrote-nothing :
    (w h i b o : ℕ) (buffer : Memory) (s : Fs)
    → OwnsBlocks w i s
    → StandsAt h i b o s
    → o < block_size
    → Wrote w h i b o 0 buffer s s
Wrote-nothing w h i b o buffer s v stands in_block = record {
  owns = v;
  stores = record {
    stored = λ k lt. absurd (omega arith);
    others = λ q in_file there apart. refl;
    kept = λ k lt there. refl;
  };
  covered = λ k lt. absurd (omega arith);
  size = omega arith;
  new_block = b;
  new_offset = o;
  stands = stands;
  place = omega arith;
  in_block = in_block;
  other_entries = λ g ne. refl;
}

pub write_loop-zero :
    (fuel h i : ℕ) (buffer : Memory) (count : ℕ) (s : Fs)
    → write_loop fuel h i buffer count 0 s ≡ returned (signed64 count) s
unfolding write_loop
write_loop-zero zero h i buffer count s = refl
write_loop-zero (suc fuel) h i buffer count s = refl

-- As many rounds as there are bytes are enough.
pub write_loop-Wrote :
    (w fuel h i b o m : ℕ) (buffer : Memory) (count : ℕ) (s : Fs)
    → OwnsBlocks w i s
    → StandsAt h i b o s
    → o < block_size
    → b * block_size + o + m ≤ w * block_size
    → (s.inode_table i).i_size + m < 2 ^ 64
    → m ≤ fuel
    → w ≤ file_blocks
    → LoopWrote w h i b o m buffer count s (write_loop fuel h i buffer count m s)
write_loop-Wrote w fuel h i b o zero buffer count s v stands in_block in_file wide enough limit =
    (s, write_loop-zero fuel h i buffer count s, Wrote-nothing w h i b o buffer s v stands in_block)
write_loop-Wrote w zero h i b o (suc m) buffer count s v stands in_block in_file wide enough limit =
    absurd (omega arith)
write_loop-Wrote w (suc fuel) h i b o (suc m) buffer count s v stands in_block in_file wide enough
      limit =
    let n = write_chunk o (suc m) in
    let (p, q, fits) = write_chunk_bounds o (suc m) in_block (omega arith) (omega arith) in
    let size =
      after-size w fuel h i b o n (suc m) buffer count s v stands p q fits (omega arith) refl
        in_file limit wide in
    LoopWrote-round w fuel h i b o n (suc m) buffer count s v stands p q fits (omega arith) refl
      in_file limit wide
      (write_loop-Wrote w fuel h i (next_block b o n) (next_offset o n) (suc m - n)
        (λ k. buffer (n + k)) count (written h i b o n buffer s)
        (written-OwnsBlocks w h i b o n buffer s v (omega arith) limit fits)
        (written-StandsAt w h i b o n buffer s v (omega arith) limit fits stands)
        (next_offset-lt o n fits) (omega (arith, next_place b o n fits)) (omega (arith, size))
        (omega arith) limit)

-- A call through a valid handle goes to the loop.
pub tfs_write-loop :
    (h i n : ℕ) (buffer : Memory) (s : Fs)
    → h < max_open_files
    → inode_get (s.open_file_table h).of_inumber ≡ some i
    → tfs_write (pos h) buffer n s ≡ write_loop n h i buffer n n s
unfolding tfs_write get_open_file_entry
tfs_write-loop h i n buffer s valid node =
    let handle : ltb h max_open_files ≡ true = ground arith in
    rw (handle, tfs_write) (rw (node, tfs_write) refl)

-- Let w be 266 at most, and let the first w pointers of the i-node i, direct and then indirect,
-- and its block of pointers name different taken blocks of the volume or none, with a free block
-- for each of them that names none, the block of pointers counting when w is more than 10. A
-- write through a valid handle whose entry stands at the byte o of the block b of the file, of n
-- bytes that end within its first w blocks, with a size that does not overflow, returns n; the
-- bytes are stored in the file from that place on, the other bytes of the blocks that it had are
-- kept, the entry stands behind the bytes, i_size is larger by n, and no other entry has changed.
pub tfs_write-Wrote :
    (w h i b o n : ℕ) (buffer : Memory) (s : Fs)
    → h < max_open_files
    → w ≤ file_blocks
    → OwnsBlocks w i s
    → StandsAt h i b o s
    → o < block_size
    → b * block_size + o + n ≤ w * block_size
    → (s.inode_table i).i_size + n < 2 ^ 64
    → (t : Fs) × (tfs_write (pos h) buffer n s ≡ returned (pos n) t) × Wrote w h i b o n buffer s t
tfs_write-Wrote w h i b o n buffer s valid limit v stands in_block in_file wide =
    let (t, e, wrote) =
      write_loop-Wrote w n h i b o n buffer n s v stands in_block in_file wide (omega arith)
        limit in
    let value : signed64 n ≡ pos n = ground arith in
    (t, tfs_write-loop h i n buffer s valid stands.node ∙ e ∙ ap (λ z. returned z t) value, wrote)
