-- ===== src/Fs/Io/Read.antt =====
-- The outcome of a read through an open handle.
use so_project.Base.{
  ℕ, ◌+◌, ◌-◌, ◌*◌, ◌≤◌, ◌<◌, ◌≡◌, ℤ, pos, pos_part, Memory, blit, signed64, true, false, ltb,
  arith, refl, add64,
}
use so_project.Fs.State.{Fs, block_size, data_blocks, valid_block_number}
use so_project.Fs.Block.{data_block_get}
use so_project.Fs.Operations.{read_unsynchronized, set_offset}
use so_project.Fs.Valid.{IsValid, IsOpen}
use so_project.Fs.Valid.Handle.{
  file_of, offset_of, size_of, byte_of, amount_read, read_unsynchronized-open,
}
use Prim.Native.Nat.{min}
use native.Mathlib.Decide.{ℕ_discrete}
use native.Mathlib.Nat.{add_assoc}

-- c bytes of the file behind the offset are in the buffer, and the offset has moved past them.
abbrev pub Copied : ℕ → Memory → ℕ → Fs → Memory → Fs → Type 0
Copied h buffer c s b s' =
    ((k : ℕ) → k < c → b k ≡ byte_of s (file_of h s) (offset_of h s + k))
    × ((k : ℕ) → c ≤ k → b k ≡ buffer k)
    × (offset_of h s' ≡ offset_of h s + c)
    × (s'.inode_table ≡ s.inode_table)
    × (s'.fs_data ≡ s.fs_data)

module _ (h : ℕ) (buffer : Memory) (len : ℕ) {s : Fs} (v : IsValid s) (o : IsOpen h s) where
  abbrev n : ℕ
  n = amount_read h len s

  abbrev result : ℤ × Memory × Fs
  result = read_unsynchronized (pos h) buffer len s

  pub read-nothing : n ≡ 0 → result ≡ (pos 0, buffer, s)
  read-nothing z =
      rw (read_unsynchronized-open h buffer len v o)
        (let e : ltb 0 n ≡ false = ground arith in rw (e, z))

  pub read-copied :
      0 < n
      → valid_block_number (s.inode_table (file_of h s)).i_data_block ≡ true
      → result ≡ (
        signed64 n,
        blit buffer 0 n (λ k.
            s.fs_data (
              pos_part (s.inode_table (file_of h s)).i_data_block * block_size
              + offset_of h s
              + k)),
        set_offset h (add64 (offset_of h s) n) s,
      )
  unfolding data_block_get
  read-copied p good =
      rw (read_unsynchronized-open h buffer len v o)
        (let e : ltb 0 n ≡ true = ground arith in rw (e, good))

  size-le : size_of h s ≤ block_size
  size-le = v.sizes (file_of h s) (v.handles h o.is_taken).is_taken

  block_valid :
      0 < size_of h s → valid_block_number (s.inode_table (file_of h s)).i_data_block ≡ true
  block_valid p = v.block_valid (file_of h s) (v.handles h o.is_taken).is_taken p

  pub amount_read-min : offset_of h s ≤ size_of h s → n ≡ min len (size_of h s - offset_of h s)
  amount_read-min le = ground (arith, size-le)

  copied :
      offset_of h s ≤ size_of h s
      → 0 < n
      → Copied h buffer n s
          (blit buffer 0 n (λ k.
            s.fs_data (
              pos_part (s.inode_table (file_of h s)).i_data_block * block_size
              + offset_of h s
              + k)))
          (set_offset h (add64 (offset_of h s) n) s)
  copied le p = (
    λ k lt. ground (
      arith,
      add_assoc (pos_part (s.inode_table (file_of h s)).i_data_block * block_size) (offset_of h s)
          k,
    ),
    λ k ge. ground arith,
    ground (arith, size-le),
    refl,
    refl,
  )

  -- For well formed tables: a read through an open handle that stands within the file returns the
  -- number of bytes up to the end of the file, or `len` if that is less; it copies those bytes to
  -- the buffer, moves the offset past them, and changes no i-node and no data.
  pub read_outcome :
      offset_of h s ≤ size_of h s
      → (result.0 ≡ pos (min len (size_of h s - offset_of h s)))
        × Copied h buffer (min len (size_of h s - offset_of h s)) s result.1 result.2
  read_outcome le = rw (← amount_read-min le) (elim (ℕ_discrete n 0) [
    | yes z ↦
        rw (read-nothing z)
          (rw z (refl, ((λ k lt. absurd (omega arith)), (λ k ge. refl), omega arith, refl, refl)))
    | no p ↦
        rw (read-copied (omega arith) (block_valid (ground arith)))
          (ground (arith, size-le), copied le (omega arith))
  ])

  -- The bug of a truncation behind an open handle, for well formed tables: a read of `len` bytes,
  -- one or more, through an open handle that stands behind the end of its file, whose i-node still
  -- names a block, when the bytes from the offset on in this block and what follows it are in
  -- `fs_data`, returns `len` and copies these bytes, however short the file is.
  pub read_behind_end :
      size_of h s < offset_of h s
      → valid_block_number (s.inode_table (file_of h s)).i_data_block ≡ true
      → 0 < len
      → pos_part (s.inode_table (file_of h s)).i_data_block * block_size + offset_of h s + len
        ≤ data_blocks * block_size
      → (result.0 ≡ pos len)
        × ((k : ℕ) → k < len → result.1 k ≡ byte_of s (file_of h s) (offset_of h s + k))
  read_behind_end behind good p inside =
      let all : n ≡ len = ground (arith, v.offsets h o.is_taken) in
      rw (read-copied (omega arith) good) (
        ground arith,
        λ k lt. ground (
          arith,
          add_assoc (pos_part (s.inode_table (file_of h s)).i_data_block * block_size)
              (offset_of h s) k,
        ),
      )
