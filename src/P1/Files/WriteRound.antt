-- ===== src/P1/Files/WriteRound.antt =====
-- One round of the loop of tfs_write in P1/fs/operations.c, within the blocks of the file.
use so_project.Base.{
  ℕ, suc, ◌+◌, ◌-◌, ◌*◌, ◌/◌, ◌^◌, ◌≤◌, ◌<◌, ◌≡◌, ◌≢◌, inl, inr, minus_one, Memory, sub64, signed64,
  false, arith, ◌∙◌, sym, ap, subst, ◌==◌, update-other,
}
use native.Mathlib.Decide.{dec_lt}
use so_project.Fs.State.{block_size}
use so_project.P1.State.{Fs, OpenFileEntry}
use so_project.P1.Operations.{
  Result, returned, unless_failed, write_loop, write_chunk, copy_in, advance, grow,
}
use so_project.P1.Files.Blocks.{OwnsBlocks, byte_of, pointers, file_blocks}
use so_project.P1.Files.Place.{
  StandsAt, readied, readied-Extends, copy_in-readied, next_block, next_offset, next_place,
}
use so_project.P1.Files.Stored.{Stores, written, written-size, written-there, written-Stores}

pub write_chunk_bounds :
    (o m : ℕ)
    → o < block_size
    → 0 < m
    → m < 2 ^ 63
    → (0 < write_chunk o m) × (write_chunk o m ≤ m) × (o + write_chunk o m ≤ block_size)
write_chunk_bounds o m p q w = ground arith

Stores-trans :
    {w i p n m : ℕ} {buffer : Memory} {s t u : Fs}
    → Stores w i p n buffer s t
    → Stores w i (p + n) m (λ k. buffer (n + k)) t u
    → p + n ≤ w * block_size
    → ((k : ℕ) → k < n → pointers i t ((p + k) / block_size) ≢ minus_one)
    → Stores w i p (n + m) buffer s u
Stores-trans {w} {i} {p} {n} {m} {buffer} {s} {t} {u} a b le covered = record {
  stored = λ k lt. elim (dec_lt k n) [
    | yes first ↦
        b.others (p + k) (omega arith) (covered k first) (inl (omega arith)) ∙ a.stored k first
    | no later ↦
        (let place : p + k ≡ p + n + (k - n) = omega arith in
          let index : n + (k - n) ≡ k = omega arith in
          ap (byte_of u i) place ∙ b.stored (k - n) (omega arith) ∙ ap buffer index)
  ];
  others = λ q in_file there apart.
      b.others q in_file (λ e. there (sym (a.kept (q / block_size) (omega arith) there) ∙ e))
        (elim apart [ inl before ↦ inl (omega arith) | inr behind ↦ inr (omega arith) ])
      ∙ a.others q in_file there
          (elim apart [ inl before ↦ inl before | inr behind ↦ inr (omega arith) ]);
  kept = λ k k_lt there.
      b.kept k k_lt (λ e. there (sym (a.kept k k_lt there) ∙ e)) ∙ a.kept k k_lt there;
}

-- What a write of m bytes at the byte o of the block b has done.
pub record Wrote (w h i b o m : ℕ) (buffer : Memory) (s t : Fs) : Type 0 where
  pub owns : OwnsBlocks w i t
  pub stores : Stores w i (b * block_size + o) m buffer s t
  pub covered : (k : ℕ) → k < m → pointers i t ((b * block_size + o + k) / block_size) ≢ minus_one
  pub size : (t.inode_table i).i_size ≡ (s.inode_table i).i_size + m
  pub new_block : ℕ
  pub new_offset : ℕ
  pub stands : StandsAt h i new_block new_offset t
  pub place : new_block * block_size + new_offset ≡ b * block_size + o + m
  pub in_block : new_offset < block_size
  pub other_entries : (g : ℕ) → g ≢ h → t.open_file_table g ≡ s.open_file_table g

-- The result of the loop: it returns what the caller asked for.
abbrev pub LoopWrote : ℕ → ℕ → ℕ → ℕ → ℕ → ℕ → Memory → ℕ → Fs → Result Fs → Type 0
LoopWrote w h i b o m buffer count s r =
    (t : Fs) × (r ≡ returned (signed64 count) t) × Wrote w h i b o m buffer s t

-- One round with n bytes, then the rest of the loop.
module _ (w fuel h i b o n m : ℕ) (buffer : Memory) (count : ℕ) (s : Fs) (v : OwnsBlocks w i s)
    (stands : StandsAt h i b o s) (some_bytes : 0 < n) (within : n ≤ m) (fits : o + n ≤ block_size)
    (small : m < 2 ^ 63) (chunk : write_chunk o m ≡ n)
    (in_file : b * block_size + o + m ≤ w * block_size) (limit : w ≤ file_blocks) where
  abbrev after : Fs
  after = written h i b o n buffer s

  below : b < w
  below = omega arith

  -- What a round with n' bytes goes on with.
  abbrev next : ℕ → Fs → Result Fs
  next n' s' =
      write_loop fuel h i (λ k. buffer (n' + k)) count (sub64 m n') (grow i n' (advance h n' s'))

  pub write_loop-round :
      write_loop (suc fuel) h i buffer count m s
      ≡ write_loop fuel h i (λ k. buffer (n + k)) count (m - n) after
  unfolding write_loop unless_failed
  write_loop-round =
      let more : (m == 0) ≡ false = ground arith in
      let rest : sub64 m n ≡ m - n = omega arith in
      rw more (
        ap (λ n'. unless_failed (copy_in h buffer n' s) (next n'))
          (ap (λ x. write_chunk x m) stands.offset ∙ chunk)
        ∙ ap (λ r. unless_failed r (next n))
            (copy_in-readied w i b s v below limit o h stands buffer n some_bytes fits)
        ∙ ap (λ r. write_loop fuel h i (λ k. buffer (n + k)) count r after) rest)

  module _ (wide : (s.inode_table i).i_size + m < 2 ^ 64) where
    pub after-size : (after.inode_table i).i_size ≡ (s.inode_table i).i_size + n
    after-size = written-size w h i b o n buffer s v below limit ∙ omega arith

    after-covered :
        (k : ℕ) → k < n → pointers i after ((b * block_size + o + k) / block_size) ≢ minus_one
    after-covered k first =
        let block : (b * block_size + o + k) / block_size ≡ b = omega arith in
        rw block (written-there w h i b o n buffer s v below limit fits b (omega arith))

    Wrote-round :
        {t : Fs}
        → Wrote w h i (next_block b o n) (next_offset o n) (m - n) (λ k. buffer (n + k)) after t
        → Wrote w h i b o m buffer s t
    Wrote-round {t} w' =
        let place = next_place b o n fits in
        let whole : n + (m - n) ≡ m = omega arith in
        let size = after-size in
        let behind : Stores w i (b * block_size + o + n) (m - n) (λ k. buffer (n + k)) after t =
          subst (λ p. Stores w i p (m - n) (λ k. buffer (n + k)) after t) place w'.stores in
        record {
          owns = w'.owns;
          stores =
              subst (λ l. Stores w i (b * block_size + o) l buffer s t) whole
                (Stores-trans (written-Stores w h i b o n buffer s v below limit fits) behind
                  (omega arith) after-covered);
          covered = λ k lt. elim (dec_lt k n) [
            | yes first ↦ λ e. after-covered k first (
                sym (
                  w'.stores.kept ((b * block_size + o + k) / block_size) (omega arith)
                    (after-covered k first))
                ∙ e)
            | no later ↦
                (let there : next_block b o n * block_size + next_offset o n + (k - n)
                      ≡ b * block_size + o + k =
                    omega (arith, place) in
                  subst (λ q. pointers i t (q / block_size) ≢ minus_one) there
                    (w'.covered (k - n) (omega arith)))
          ];
          size = omega (arith, w'.size);
          new_block = w'.new_block;
          new_offset = w'.new_offset;
          stands = w'.stands;
          place = omega (arith, w'.place);
          in_block = w'.in_block;
          other_entries = λ g ne.
              w'.other_entries g ne
              ∙ update-other (readied i b s).open_file_table h g _ ne
              ∙ ap (λ (f : ℕ → OpenFileEntry). f g)
                  (readied-Extends w i b s v below limit).same_entries;
        }

    pub LoopWrote-round :
        LoopWrote w h i
          (next_block b o n)
          (next_offset o n)
          (m - n)
          (λ k. buffer (n + k))
          count
          after
          (write_loop fuel h i (λ k. buffer (n + k)) count (m - n) after)
        → LoopWrote w h i b o m buffer count s (write_loop (suc fuel) h i buffer count m s)
    LoopWrote-round (t, e, wrote) = (t, write_loop-round ∙ e, Wrote-round wrote)
