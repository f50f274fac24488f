-- ===== src/P1/Files/RoundTrip.antt =====
-- A tfs_write and then a tfs_read of P1/fs/operations.c, through two handles of a file.
use so_project.Base.{
  ℕ, ◌+◌, ◌-◌, ◌*◌, ◌/◌, ◌%◌, ◌^◌, ◌≤◌, ◌<◌, ◌≡◌, ◌≢◌, pos, pos_part, Memory, arith, ◌∙◌, sym, ap,
  subst,
}
use so_project.Fs.State.{block_size, max_open_files}
use so_project.P1.State.{Fs, fs_data_size}
use so_project.P1.Operations.{
  Result, returned, undefined, out_of_fuel, tfs_write, tfs_read, clamp_read,
}
use so_project.P1.Files.Blocks.{OwnsBlocks, pointers, file_blocks}
use so_project.P1.Files.Place.{EntryAt, StandsAt}
use so_project.P1.Files.WriteRound.{Wrote}
use so_project.P1.Files.Write.{tfs_write-Wrote}
use so_project.P1.Files.Read.{tfs_read-Copied}

-- The state that a result leaves.
left_by : Result Fs → Fs → Fs
left_by (returned z t) s = t
left_by undefined s = s
left_by out_of_fuel s = s

-- The bytes that stand in `fs_data` from each byte of the range on are as many as are left to read.
abbrev pub Far : ℕ → ℕ → ℕ → Fs → Type 0
Far i p m s =
    (k : ℕ)
    → k < m
    → pos_part (pointers i s ((p + k) / block_size)) * block_size + (p + k) % block_size + (m - k)
      ≤ fs_data_size

-- Let w be 266 at most, and let the first w pointers of the i-node i, direct and then indirect,
-- and its block of pointers name different taken blocks of the volume or none, with a free block
-- for each of them that names none, the block of pointers counting when w is more than 10. When a
-- write of n bytes through a handle h has returned n, a read of n bytes through another handle g
-- that stood at the same place returns n and copies the bytes that were written to the start of
-- the buffer. The place is at the byte o of a block, o is at most i_size, the bytes end within
-- the first w blocks of the file, the size does not overflow, and behind the write at least as
-- many bytes of `fs_data` stand from each byte on as are left to read.
pub tfs_read-tfs_write :
    (w h g i b o n : ℕ) (bytes buffer : Memory) (s t : Fs)
    → h < max_open_files
    → g < max_open_files
    → w ≤ file_blocks
    → g ≢ h
    → OwnsBlocks w i s
    → StandsAt h i b o s
    → StandsAt g i b o s
    → o < block_size
    → o ≤ (s.inode_table i).i_size
    → b * block_size + o + n ≤ w * block_size
    → (s.inode_table i).i_size + n < 2 ^ 64
    → tfs_write (pos h) bytes n s ≡ returned (pos n) t
    → Far i (b * block_size + o) n t
    → (a : Memory) × (u : Fs) × (tfs_read (pos g) buffer n t ≡ returned (pos n) (a, u))
      × ((k : ℕ) → k < n → a k ≡ bytes k)
unfolding left_by
tfs_read-tfs_write w h g i b o n bytes buffer s t valid valid' limit ne v stands stands' in_block
      there in_file wide wrote far =
    let (t', e, w') =
      tfs_write-Wrote w h i b o n bytes s valid limit v stands in_block in_file wide in
    let wrote' : Wrote w h i b o n bytes s t =
      subst (Wrote w h i b o n bytes s) (ap (λ r. left_by r s) (sym e ∙ wrote)) w' in
    let entry : StandsAt g i b o t =
      subst (EntryAt i b o) (sym (wrote'.other_entries g ne)) stands' in
    let amount : clamp_read (t.inode_table i).i_size o n ≡ n = ground (arith, wrote'.size) in
    let (a, u, r, c, same) =
      tfs_read-Copied w g i b o n n buffer t valid' limit wrote'.owns entry in_block amount in_file
        (record { covered = wrote'.covered; far = far }) in
    (a, u, r, λ k lt. ap a (omega arith) ∙ c.copied k lt ∙ wrote'.stores.stored k lt)
