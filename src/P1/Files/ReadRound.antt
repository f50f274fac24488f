-- ===== src/P1/Files/ReadRound.antt =====
-- One round of the loop of tfs_read in P1/fs/operations.c, within the blocks of the file.
use so_project.Base.{
  ℕ, suc, ◌+◌, ◌-◌, ◌*◌, ◌/◌, ◌%◌, ◌^◌, ◌≤◌, ◌<◌, ◌≡◌, ◌≢◌, minus_one, pos_part, Memory, blit,
  sub64, signed64, false, arith, refl, ℤ, ◌∙◌, sym, ap, subst, ◌==◌,
}
use native.Mathlib.Decide.{dec_lt}
use so_project.Fs.State.{block_size}
use so_project.P1.State.{Fs, fs_data_size}
use so_project.P1.Operations.{
  Result, returned, unless_failed, read_loop, read_chunk, copy_out, advance,
}
use so_project.P1.Files.Blocks.{OwnsBlocks, byte_of, pointers, file_blocks}
use so_project.P1.Files.Ensure.{Extends}
use so_project.P1.Files.Stored.{readied-byte}
use so_project.P1.Files.Place.{
  StandsAt, readied, address, readied-Extends, copy_out-readied, next_block, next_offset,
  next_place,
}

pub read_chunk_bounds :
    (o m : ℕ)
    → o < block_size
    → 0 < m
    → m < 2 ^ 63
    → (0 < read_chunk o m) × (read_chunk o m ≤ m) × (o + read_chunk o m ≤ block_size)
read_chunk_bounds o m p q w = ground arith

-- The m bytes from the place p on lie in blocks that the file has, and as many bytes of `fs_data`
-- stand from each of them on as are left to read, since a round copies that many.
pub record Readable (i p m : ℕ) (s : Fs) : Type 0 where
  pub covered : (k : ℕ) → k < m → pointers i s ((p + k) / block_size) ≢ minus_one
  pub far :
      (k : ℕ)
      → k < m
      → pos_part (pointers i s ((p + k) / block_size)) * block_size + (p + k) % block_size + (m - k)
        ≤ fs_data_size

-- A read of m bytes at the place p to the place `done` of the buffer has made it the buffer a.
pub record Copied (i p m done : ℕ) (buffer : Memory) (s : Fs) (a : Memory) : Type 0 where
  pub copied : (k : ℕ) → k < m → a (done + k) ≡ byte_of s i (p + k)
  pub before : (k : ℕ) → k < done → a k ≡ buffer k
  pub behind : (k : ℕ) → done + m ≤ k → a k ≡ buffer k

abbrev pub LoopRead : ℕ → ℕ → ℕ → ℕ → ℕ → Memory → ℕ → Fs → Result (Memory × Fs) → Type 0
LoopRead i b o m done buffer count s r =
    (a : Memory) × (t : Fs) × (r ≡ returned (signed64 count) (a, t))
    × Copied i (b * block_size + o) m done buffer s a
    × (t.free_open_file_entries ≡ s.free_open_file_entries)

module _ (w fuel h i b o n m done : ℕ) (buffer : Memory) (count : ℕ) (s : Fs) (v : OwnsBlocks w i s)
    (stands : StandsAt h i b o s) (some_bytes : 0 < n) (within : n ≤ m) (fits : o + n ≤ block_size)
    (small : m < 2 ^ 63) (chunk : read_chunk o m ≡ n)
    (in_file : b * block_size + o + m ≤ w * block_size) (limit : w ≤ file_blocks)
    (readable : Readable i (b * block_size + o) m s) where
  below : b < w
  below = omega arith

  abbrev ready : Fs
  ready = readied i b s

  abbrev after : Fs
  after = advance h n ready

  abbrev pub filled : Memory
  filled = blit buffer done m (λ k. ready.fs_data (address i b o ready + k))

  extends : Extends i s ready
  extends = readied-Extends w i b s v below limit

  -- A pointer of the range has not changed.
  pointer_kept :
      (k : ℕ)
      → k < m
      → pointers i ready ((b * block_size + o + k) / block_size)
        ≡ pointers i s ((b * block_size + o + k) / block_size)
  pointer_kept k lt =
      extends.kept ((b * block_size + o + k) / block_size) (omega arith) (readable.covered k lt)

  pub after-pointers : pointers i after ≡ pointers i ready
  unfolding pointers
  after-pointers = refl

  same_byte :
      (q : ℕ)
      → byte_of after i q ≡ ready.fs_data (address i (q / block_size) (q % block_size) ready)
  same_byte q =
      ap
        (λ (d : ℕ → ℤ). ready.fs_data (pos_part (d (q / block_size)) * block_size + q % block_size))
        after-pointers

  byte_kept :
      (k : ℕ)
      → k < m
      → byte_of after i (b * block_size + o + k) ≡ byte_of s i (b * block_size + o + k)
  byte_kept k lt =
      same_byte (b * block_size + o + k)
      ∙ readied-byte w i b s v below limit (b * block_size + o + k) (omega arith)
          (readable.covered k lt)

  first_block : (b * block_size + o + 0) / block_size ≡ b
  first_block = omega arith

  room : address i b o ready + m ≤ fs_data_size
  room =
      let kept = pointer_kept 0 (omega arith) in
      let far = readable.far 0 (omega arith) in
      let same : pointers i ready b ≡ pointers i s b =
        subst (λ x. pointers i ready x ≡ pointers i s x) first_block kept in
      let far' : pos_part (pointers i s b) * block_size
            + (b * block_size + o + 0) % block_size
            + (m - 0)
          ≤ fs_data_size =
        subst
          (λ x.
            pos_part (pointers i s x) * block_size + (b * block_size + o + 0) % block_size + (m - 0)
            ≤ fs_data_size)
          first_block far in
      rw same (omega arith)

  abbrev next : ℕ → Memory × Fs → Result (Memory × Fs)
  next n' (buffer', s') = read_loop fuel h buffer' (done + n') count (sub64 m n') (advance h n' s')

  read_loop-round :
      read_loop (suc fuel) h buffer done count m s
      ≡ read_loop fuel h filled (done + n) count (m - n) after
  unfolding read_loop unless_failed
  read_loop-round =
      let more : (m == 0) ≡ false = ground arith in
      let rest : sub64 m n ≡ m - n = omega arith in
      rw more (
        ap (λ n'. unless_failed (copy_out h buffer done m n' s) (next n'))
          (ap (λ x. read_chunk x m) stands.offset ∙ chunk)
        ∙ ap (λ r. unless_failed r (next n))
            (copy_out-readied w i b s v below limit o h stands buffer done m n some_bytes room)
        ∙ ap (λ r. read_loop fuel h filled (done + n) count r after) rest)

  filled-byte : (k : ℕ) → k < n → filled (done + k) ≡ byte_of s i (b * block_size + o + k)
  filled-byte k first =
      let block : (b * block_size + o + k) / block_size ≡ b = omega arith in
      let offset : (b * block_size + o + k) % block_size ≡ o + k = omega arith in
      let direct = pointers i ready in
      let same : pos_part (direct b) * block_size + (o + k) ≡ address i b o ready + k =
        omega arith in
      let copy : filled (done + k) ≡ ready.fs_data (address i b o ready + k) = ground arith in
      let here : byte_of after i (b * block_size + o + k)
          ≡ ready.fs_data (address i b o ready + k) =
        same_byte (b * block_size + o + k)
        ∙ ap
            (λ x.
              ready.fs_data
                (pos_part (direct x) * block_size + (b * block_size + o + k) % block_size))
            block
        ∙ ap (λ r. ready.fs_data (pos_part (direct b) * block_size + r)) offset
        ∙ ap ready.fs_data same in
      copy ∙ sym here ∙ byte_kept k (omega arith)

  pub later : Readable i (next_block b o n * block_size + next_offset o n) (m - n) after
  later = rw (next_place b o n fits) (record {
    covered = λ k lt e.
        let same : b * block_size + o + n + k ≡ b * block_size + o + (n + k) = omega arith in
        readable.covered (n + k) (omega arith) (
          sym (pointer_kept (n + k) (omega arith))
          ∙ ap (λ p. pointers i ready (p / block_size)) (sym same)
          ∙ ap (λ (d : ℕ → ℤ). d ((b * block_size + o + n + k) / block_size)) (sym after-pointers)
          ∙ e);
    far = λ k lt.
        let same : b * block_size + o + n + k ≡ b * block_size + o + (n + k) = omega arith in
        let left : m - n - k ≡ m - (n + k) = omega arith in
        rw same (
          rw after-pointers (
            rw left
              (rw (pointer_kept (n + k) (omega arith)) (readable.far (n + k) (omega arith)))));
  })

  Copied-round :
      (a : Memory)
      → Copied i (next_block b o n * block_size + next_offset o n) (m - n) (done + n) filled after a
      → Copied i (b * block_size + o) m done buffer s a
  Copied-round a c = record {
    copied = λ k lt. elim (dec_lt k n) [
      | yes first ↦ c.before (done + k) (omega arith) ∙ filled-byte k first
      | no behind ↦
          (let index : done + k ≡ done + n + (k - n) = omega arith in
            let place : next_block b o n * block_size + next_offset o n + (k - n)
                ≡ b * block_size + o + k =
              omega (arith, next_place b o n fits) in
            ap a index
            ∙ c.copied (k - n) (omega arith)
            ∙ ap (byte_of after i) place
            ∙ byte_kept k lt)
    ];
    before = λ k lt. c.before k (omega arith) ∙ ground arith;
    behind = λ k le. c.behind k (omega arith) ∙ ground arith;
  }

  pub LoopRead-round :
      LoopRead i
        (next_block b o n)
        (next_offset o n)
        (m - n)
        (done + n)
        filled
        count
        after
        (read_loop fuel h filled (done + n) count (m - n) after)
      → LoopRead i b o m done buffer count s (read_loop (suc fuel) h buffer done count m s)
  LoopRead-round (a, t, e, c, same) =
      (a, t, read_loop-round ∙ e, Copied-round a c, same ∙ extends.same_handles)
