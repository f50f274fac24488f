-- ===== src/P1/Files/PastEnd.antt =====
-- How tfs_read of P1/fs/operations.c counts the bytes that are left: from the byte of the block, not
-- from the position in the file.
use so_project.Base.{
  ℕ, ◌+◌, ◌*◌, ◌/◌, ◌%◌, ◌≤◌, ◌<◌, ◌≡◌, ◌≢◌, pos, minus_one, Memory, arith, ◌∙◌, sym, ap,
}
use so_project.Fs.State.{block_size, max_open_files}
use so_project.P1.State.{Fs}
use so_project.P1.Operations.{returned, tfs_read, clamp_read}
use so_project.P1.Files.Blocks.{OwnsBlocks, byte_of, pointers, file_blocks}
use so_project.P1.Files.Place.{StandsAt}
use so_project.P1.Files.ReadRound.{Readable}
use so_project.P1.Files.Read.{tfs_read-Copied}

-- Bytes of one block of the file can be read.
one_block-Readable :
    (w i b o m : ℕ) (s : Fs)
    → OwnsBlocks w i s
    → b < w
    → pointers i s b ≢ minus_one
    → o + m ≤ block_size
    → Readable i (b * block_size + o) m s
one_block-Readable w i b o m s v below there fits = record {
  covered = λ k lt.
      let block : (b * block_size + o + k) / block_size ≡ b = omega arith in
      λ e. there (ap (pointers i s) (sym block) ∙ e);
  far = λ k lt.
      let block : (b * block_size + o + k) / block_size ≡ b = omega arith in
      let offset : (b * block_size + o + k) % block_size ≡ o + k = omega arith in
      let valid = v.valid b below there in rw block (rw offset (ground arith));
}

-- The bug of the end of the file. Let w be 266 at most, and let the first w pointers of the
-- i-node i, direct and then indirect, and its block of pointers name different taken blocks of
-- the volume or none, with a free block for each of them that names none, the block of pointers
-- counting when w is more than 10. When a handle stands at the end of the file, in one of these
-- blocks that the file has and that is not its first, a read of `len` > 0 bytes up to the end of
-- the block at most does not return 0 but `len`, and copies the bytes behind the end.
pub tfs_read_at_end :
    (w h i b o len : ℕ) (buffer : Memory) (s : Fs)
    → h < max_open_files
    → w ≤ file_blocks
    → OwnsBlocks w i s
    → StandsAt h i b o s
    → 0 < b
    → b < w
    → (s.inode_table i).i_size ≡ b * block_size + o
    → pointers i s b ≢ minus_one
    → 0 < len
    → o + len ≤ block_size
    → (a : Memory) × (t : Fs) × (tfs_read (pos h) buffer len s ≡ returned (pos len) (a, t))
      × ((k : ℕ) → k < len → a k ≡ byte_of s i ((s.inode_table i).i_size + k))
tfs_read_at_end w h i b o len buffer s valid limit v stands later below at_end there some_bytes
      fits =
    let amount : clamp_read (s.inode_table i).i_size o len ≡ len = ground arith in
    let (a, t, e, c, same) =
      tfs_read-Copied w h i b o len len buffer s valid limit v stands (omega arith) amount
        (omega arith) (one_block-Readable w i b o len s v below there fits) in
    (
      a,
      t,
      e,
      λ k lt. ap a (omega arith) ∙ c.copied k lt ∙ ap (λ p. byte_of s i (p + k)) (sym at_end),
    )
