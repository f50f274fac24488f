-- ===== src/P1/Files/Read.antt =====
-- tfs_read of P1/fs/operations.c for a range of bytes within the blocks of the file.
use so_project.Base.{
  ℕ, zero, suc, ◌+◌, ◌-◌, ◌*◌, ◌≤◌, ◌<◌, ◌≡◌, pos, Memory, signed64, some, true, arith, refl, ◌∙◌,
  sym, ap, subst, ltb,
}
use so_project.Fs.State.{block_size, max_open_files}
use so_project.P1.State.{Fs, OpenFileEntry}
use so_project.P1.Inode.{inode_get}
use so_project.P1.OpenFile.{get_open_file_entry}
use so_project.P1.Operations.{returned, read_loop, read_chunk, advance, clamp_read, tfs_read}
use so_project.P1.Files.Blocks.{OwnsBlocks, file_blocks, pointers}
use so_project.P1.Files.Place.{
  EntryAt, StandsAt, readied, readied-Owned, readied-Extends, advance-StandsAt, next_block,
  next_offset, next_place, next_offset-lt,
}
use so_project.P1.Files.ReadRound.{
  read_chunk_bounds, Readable, Copied, LoopRead, LoopRead-round, later, filled,
}

read_loop-zero :
    (fuel h : ℕ) (buffer : Memory) (done count : ℕ) (s : Fs)
    → read_loop fuel h buffer done count 0 s ≡ returned (signed64 count) (buffer, s)
unfolding read_loop
read_loop-zero zero h buffer done count s = refl
read_loop-zero (suc fuel) h buffer done count s = refl

Copied-nothing : (i p done : ℕ) (buffer : Memory) (s : Fs) → Copied i p 0 done buffer s buffer
Copied-nothing i p done buffer s = record {
  copied = λ k lt. absurd (omega arith);
  before = λ k lt. refl;
  behind = λ k le. refl;
}

advance-Owned : (w h n i : ℕ) (s : Fs) → OwnsBlocks w i s → OwnsBlocks w i (advance h n s)
unfolding pointers
advance-Owned w h n i s v = v

-- As many rounds as there are bytes are enough, and the surplus that a round copies is overwritten.
pub read_loop-Copied :
    (w fuel h i b o m done : ℕ) (buffer : Memory) (count : ℕ) (s : Fs)
    → OwnsBlocks w i s
    → StandsAt h i b o s
    → o < block_size
    → b * block_size + o + m ≤ w * block_size
    → w ≤ file_blocks
    → Readable i (b * block_size + o) m s
    → m ≤ fuel
    → LoopRead i b o m done buffer count s (read_loop fuel h buffer done count m s)
read_loop-Copied w fuel h i b o zero done buffer count s v stands in_block in_file limit readable
      enough =
    (
      buffer,
      s,
      read_loop-zero fuel h buffer done count s,
      Copied-nothing i (b * block_size + o) done buffer s,
      refl,
    )
read_loop-Copied w zero h i b o (suc m) done buffer count s v stands in_block in_file limit readable
      enough =
    absurd (omega arith)
read_loop-Copied w (suc fuel) h i b o (suc m) done buffer count s v stands in_block in_file limit
      readable enough =
    let n = read_chunk o (suc m) in
    let (p, q, fits) = read_chunk_bounds o (suc m) in_block (omega arith) (omega arith) in
    let owned = readied-Owned w i b s v (omega arith) limit in
    let entry : StandsAt h i b o (readied i b s) =
      subst (λ (f : ℕ → OpenFileEntry). EntryAt i b o (f h))
        (sym (readied-Extends w i b s v (omega arith) limit).same_entries) stands in
    let go =
      LoopRead-round w fuel h i b o n (suc m) done buffer count s v stands p q fits (omega arith)
        refl in_file limit readable in
    go (
      read_loop-Copied w fuel h i (next_block b o n) (next_offset o n) (suc m - n) (done + n)
        (filled w fuel h i b o n (suc m) done buffer count s v stands p q fits (omega arith) refl
          in_file limit readable)
        count (advance h n (readied i b s)) (advance-Owned w h n i (readied i b s) owned)
        (advance-StandsAt h i b o n (readied i b s) entry fits) (next_offset-lt o n fits)
        (omega (arith, next_place b o n fits)) limit
        (later w fuel h i b o n (suc m) done buffer count s v stands p q fits (omega arith) refl
          in_file limit readable)
        (omega arith))

-- A call through a valid handle goes to the loop.
pub tfs_read-loop :
    (h i len : ℕ) (buffer : Memory) (s : Fs)
    → h < max_open_files
    → inode_get (s.open_file_table h).of_inumber ≡ some i
    → tfs_read (pos h) buffer len s ≡ (
        let n = clamp_read (s.inode_table i).i_size (s.open_file_table h).of_offset len in
        read_loop n h buffer 0 n n s)
unfolding tfs_read get_open_file_entry
tfs_read-loop h i len buffer s valid node =
    let handle : ltb h max_open_files ≡ true = ground arith in
    rw (handle, tfs_read) (rw (node, tfs_read) refl)

-- Let w be 266 at most, and let the first w pointers of the i-node i, direct and then indirect,
-- and its block of pointers name different taken blocks of the volume or none, with a free block
-- for each of them that names none, the block of pointers counting when w is more than 10. A read
-- through a valid handle whose entry stands at the byte o of the block b, of m bytes, returns m,
-- copies these bytes of the file to the start of the buffer and changes no other byte of it, and
-- keeps the table of handles. Here m is what the code computes, `len` or, if that is less, i_size
-- - o with wrap-around; the bytes lie within the first w blocks, all in blocks that the file has,
-- and from each of them on at least as many bytes of `fs_data` stand as are left to read.
pub tfs_read-Copied :
    (w h i b o m len : ℕ) (buffer : Memory) (s : Fs)
    → h < max_open_files
    → w ≤ file_blocks
    → OwnsBlocks w i s
    → StandsAt h i b o s
    → o < block_size
    → clamp_read (s.inode_table i).i_size o len ≡ m
    → b * block_size + o + m ≤ w * block_size
    → Readable i (b * block_size + o) m s
    → (a : Memory) × (t : Fs) × (tfs_read (pos h) buffer len s ≡ returned (pos m) (a, t))
      × Copied i (b * block_size + o) m 0 buffer s a
      × (t.free_open_file_entries ≡ s.free_open_file_entries)
tfs_read-Copied w h i b o m len buffer s valid limit v stands in_block amount in_file readable =
    let (a, t, e, c, same) =
      read_loop-Copied w m h i b o m 0 buffer m s v stands in_block in_file limit readable
        (omega arith) in
    let value : signed64 m ≡ pos m = ground arith in
    let asked : clamp_read (s.inode_table i).i_size (s.open_file_table h).of_offset len ≡ m =
      ap (λ z. clamp_read (s.inode_table i).i_size z len) stands.offset ∙ amount in
    (
      a,
      t,
      tfs_read-loop h i len buffer s valid stands.node
          ∙ ap (λ n. read_loop n h buffer 0 n n s) asked
          ∙ e
          ∙ ap (λ z. returned z (a, t)) value,
      c,
      same,
    )
