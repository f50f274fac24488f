-- ===== src/P1/Files/Blocks.antt =====
-- The blocks of an i-node of P1/fs/state.h, and the room that is left for them.
use so_project.Base.{
  ℕ, zero, suc, ◌+◌, ◌*◌, ◌/◌, ◌%◌, ◌≤◌, ◌<◌, ◌≡◌, ◌≢◌, ◌⊎◌, ℤ, pos, minus_one, pos_part, ◌==ℤ◌,
  AllocationState, free, taken, first_free, first_free-none, count_taken, count_taken-update,
  update, none, true, arith, if◌then◌else◌, refl, Memory, load_int, ltb, leb, ◌-◌,
}
use so_project.Fs.State.{data_blocks, valid_block_number, block_size}
use so_project.P1.State.{Fs, direct_block_pointers, max_block_pointers}
use native.Mathlib.Decide.{ℕ_discrete}

abbrev pub is_missing : ℤ → ℕ
is_missing z = if z ==ℤ minus_one then 1 else 0

-- How many of the first n pointers name no block.
unfoldable pub missing : (ℕ → ℤ) → ℕ → ℕ
missing d zero = 0
missing d (suc n) = is_missing (d n) + missing d n

pub missing-le : (d : ℕ → ℤ) (n : ℕ) → missing d n ≤ n
unfolding missing
missing-le d zero = omega arith
missing-le d (suc n) = ground (arith, missing-le d n)

missing-update_of_le :
    (d : ℕ → ℤ) (n k : ℕ) (z : ℤ) → n ≤ k → missing (update d k z) n ≡ missing d n
unfolding missing
missing-update_of_le d zero k z le = refl
missing-update_of_le d (suc n) k z le = ground (arith, missing-update_of_le d n k z (omega arith))

pub missing-update :
    (d : ℕ → ℤ) (n k : ℕ) (z : ℤ)
    → k < n
    → missing (update d k z) n + is_missing (d k) ≡ missing d n + is_missing z
unfolding missing
missing-update d zero k z lt = absurd (omega arith)
missing-update d (suc n) k z lt = elim (ℕ_discrete k n) [
  | yes e ↦ ground (arith, missing-update_of_le d n k z (omega arith), e)
  | no ne ↦ ground (arith, missing-update d n k z (omega arith), ne)
]

pub missing-pos : (d : ℕ → ℤ) (n k : ℕ) → k < n → d k ≡ minus_one → 0 < missing d n
unfolding missing
missing-pos d zero k lt e = absurd (omega arith)
missing-pos d (suc n) k lt e = elim (ℕ_discrete k n) [
  | yes last ↦ ground (arith, e, last)
  | no ne ↦ ground (arith, missing-pos d n k (omega arith) e)
]

pub missing-eq :
    (d d' : ℕ → ℤ) (n : ℕ) → ((k : ℕ) → k < n → d' k ≡ d k) → missing d' n ≡ missing d n
unfolding missing
missing-eq d d' zero e = refl
missing-eq d d' (suc n) e =
    ground (arith, e n (omega arith), missing-eq d d' n (λ k lt. e k (omega arith)))

count_taken-full :
    (t : ℕ → AllocationState) (n : ℕ) → ((k : ℕ) → k < n → t k ≡ taken) → count_taken t n ≡ n
unfolding count_taken
count_taken-full t zero h = refl
count_taken-full t (suc n) h = ground (arith, h n, count_taken-full t n (λ k lt. h k (omega arith)))

-- When the search fails, every entry is taken.
pub first_free-full :
    (t : ℕ → AllocationState) (n : ℕ) → first_free t n 0 ≡ none → count_taken t n ≡ n
first_free-full t n e =
    count_taken-full t n (λ k lt. first_free-none t n 0 e k (omega arith) (omega arith))

-- How many pointers an i-node has, with those in the block of pointers.
abbrev pub file_blocks : ℕ
file_blocks = direct_block_pointers + max_block_pointers

pub direct_or_behind : (k : ℕ) → (k < direct_block_pointers) ⊎ (direct_block_pointers ≤ k)
direct_or_behind k = omega arith

-- What stands in the block of pointers, which is the block z.
unfoldable pub indirect : Memory → ℤ → ℕ → ℤ
indirect m z k = if z ==ℤ minus_one then minus_one else load_int m (pos_part z * block_size + 4 * k)

-- The pointers of the i-node i: the direct ones, and behind them those in the block of pointers.
unfoldable pub pointers : ℕ → Fs → ℕ → ℤ
pointers i s k =
    let node = s.inode_table i in
    if ltb k direct_block_pointers
    then node.i_direct_blocks k
    else indirect s.fs_data node.i_data_block (k - direct_block_pointers)

-- Whether the block of pointers has to be allocated, for w pointers.
abbrev pub missing_block : ℕ → ℤ → ℕ
missing_block w z = if leb w direct_block_pointers then 0 else is_missing z

-- The first w pointers d and the block of pointers z name different blocks that are taken in t, and
-- for each that names none there is a free block.
pub record Owned (w : ℕ) (z : ℤ) (d : ℕ → ℤ) (t : ℕ → AllocationState) : Type 0 where
  pub valid : (k : ℕ) → k < w → d k ≢ minus_one → valid_block_number (d k) ≡ true
  pub allocated : (k : ℕ) → k < w → d k ≢ minus_one → t (pos_part (d k)) ≡ taken
  pub apart : (j k : ℕ) → j < w → k < w → d j ≢ minus_one → d j ≡ d k → j ≡ k
  pub block_valid : z ≢ minus_one → valid_block_number z ≡ true
  pub block_allocated : z ≢ minus_one → t (pos_part z) ≡ taken
  pub block_apart : (k : ℕ) → k < w → d k ≢ minus_one → d k ≢ z
  pub room : missing d w + missing_block w z + count_taken t data_blocks ≤ data_blocks

abbrev pub OwnsBlocks : ℕ → ℕ → Fs → Type 0
OwnsBlocks w i s = Owned w (s.inode_table i).i_data_block (pointers i s) s.free_blocks

pub Owned-eq :
    (w : ℕ) (z : ℤ) (d d' : ℕ → ℤ) (t : ℕ → AllocationState)
    → Owned w z d t
    → ((k : ℕ) → k < w → d' k ≡ d k)
    → Owned w z d' t
Owned-eq w z d d' t v e = record {
  valid = λ k lt there. ground (arith, e k lt, v.valid k lt);
  allocated = λ k lt there. ground (arith, e k lt, v.allocated k lt);
  apart = λ j k lt lt' there same. ground (arith, e j lt, e k lt', v.apart j k lt lt');
  block_valid = v.block_valid;
  block_allocated = v.block_allocated;
  block_apart = λ k lt there. ground (arith, e k lt, v.block_apart k lt);
  room = omega (arith, v.room, missing-eq d d' w e);
}

-- A free block for a pointer that names none.
pub update-Owned :
    (w : ℕ) (z : ℤ) (d : ℕ → ℤ) (t : ℕ → AllocationState) (k b : ℕ)
    → Owned w z d t
    → k < w
    → b < data_blocks
    → t b ≡ free
    → d k ≡ minus_one
    → Owned w z (update d k (pos b)) (update t b taken)
update-Owned w z d t k b v lt below f absent = record {
  valid = λ j l ne. grind (arith, v.valid);
  allocated = λ j l ne. grind (arith, v.allocated);
  apart = λ j l p q ne e. grind (arith, v.apart, v.allocated);
  block_valid = v.block_valid;
  block_allocated = λ there. ground (arith, v.block_allocated there, f);
  block_apart = λ j l there e. grind (arith, v.block_apart, v.block_allocated);
  room = ground (
    arith,
    v.room,
    missing-update d w k (pos b) lt,
    count_taken-update t data_blocks b taken below,
    absent,
    f,
  );
}

-- A free block for the pointers.
pub block-Owned :
    (w : ℕ) (d : ℕ → ℤ) (t : ℕ → AllocationState) (b : ℕ)
    → Owned w minus_one d t
    → direct_block_pointers < w
    → b < data_blocks
    → t b ≡ free
    → Owned w (pos b) d (update t b taken)
block-Owned w d t b v lt below f = record {
  valid = v.valid;
  allocated = λ k l there. ground (arith, v.allocated k l there, f);
  apart = v.apart;
  block_valid = λ there. ground arith;
  block_allocated = λ there. ground arith;
  block_apart = λ k l there e. ground (arith, v.allocated k l there, f);
  room = ground (arith, v.room, count_taken-update t data_blocks b taken below, f);
}

-- The byte p of the file.
abbrev pub byte_of : Fs → ℕ → ℕ → ℕ
byte_of s i p = s.fs_data (pos_part (pointers i s (p / block_size)) * block_size + p % block_size)
