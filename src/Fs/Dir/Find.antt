-- ===== src/Fs/Dir/Find.antt =====
-- The search for a name in a directory, before and after an entry has been filled.
use so_project.Base.{
  ℕ, zero, suc, ◌+◌, ◌≤◌, ◌<◌, ◌≡◌, ◌⊎◌, inl, inr, ℤ, minus_one, ◌==ℤ◌, ==ℤ_iff, Memory, CString,
  chars, arith, Bool, true, false, Bool-cases, strncmp_eq, not, ◌&&◌, refl,
}
use native.Mathlib.Decide.{ℕ_discrete}
use so_project.Fs.State.{max_file_name}
use so_project.Fs.Dir.{d_inumber, d_name, find_in_block}

-- The test of the loop of find_in_dir at the entry i.
abbrev pub matches : Memory → ℕ → CString → ℕ → Bool
matches m block name i =
    not (d_inumber m block i ==ℤ minus_one)
    && strncmp_eq (d_name m block i) (chars name) max_file_name 0

module _ (m : Memory) (block : ℕ) (name : CString) where
  -- A search that fails has passed over every entry.
  pub find_in_block-none :
      (n i : ℕ)
      → find_in_block m block name n i ≡ minus_one
      → (k : ℕ) → i ≤ k
      → k < i + n
      → matches m block name k ≡ false
  unfolding find_in_block
  find_in_block-none zero i e k a b = absurd (omega arith)
  find_in_block-none (suc n) i e k a b = elim (Bool-cases (matches m block name i)) [
    | inl hit ↦ absurd (ground (arith, ==ℤ_iff (d_inumber m block i) minus_one))
    | inr miss ↦ elim (ℕ_discrete i k) [
      | yes q ↦ rw (← q) miss
      | no q ↦ find_in_block-none n (i + 1) (ground arith) k (omega arith) (omega arith)
    ]
  ]

  pub find_in_block-first :
      (n i k : ℕ)
      → i ≤ k
      → k < i + n
      → matches m block name k ≡ true
      → ((j : ℕ) → i ≤ j → j < k → matches m block name j ≡ false)
      → find_in_block m block name n i ≡ d_inumber m block k
  unfolding find_in_block
  find_in_block-first zero i k a b hit before = absurd (omega arith)
  find_in_block-first (suc n) i k a b hit before = elim (ℕ_discrete i k) [
    | yes q ↦ rw q (rw (hit, find_in_block))
    | no q ↦
        rw (before i (omega arith) (omega arith), find_in_block)
          (find_in_block-first n (i + 1) k (omega arith) (omega arith) hit
            (λ j c d. before j (omega arith) d))
  ]

  pub find_in_block-all :
      (n i : ℕ)
      → ((k : ℕ) → i ≤ k → k < i + n → matches m block name k ≡ false)
      → find_in_block m block name n i ≡ minus_one
  unfolding find_in_block
  find_in_block-all zero i h = refl
  find_in_block-all (suc n) i h =
      rw (h i (omega arith) (omega arith), find_in_block)
        (find_in_block-all n (i + 1) (λ k a b. h k (omega arith) (omega arith)))

  -- Two memories in which the same entries match, with the same i-numbers.
  pub find_in_block-congr :
      (m' : Memory) (n i : ℕ)
      → ((k : ℕ) → i ≤ k → k < i + n → matches m' block name k ≡ matches m block name k)
      → ((k : ℕ)
          → i ≤ k
          → k < i + n
          → matches m block name k ≡ true
          → d_inumber m' block k ≡ d_inumber m block k)
      → find_in_block m' block name n i ≡ find_in_block m block name n i
  unfolding find_in_block
  find_in_block-congr m' zero i h g = refl
  find_in_block-congr m' (suc n) i h g = elim (Bool-cases (matches m block name i)) [
    | inl hit ↦
        rw (h i (omega arith) (omega arith), hit, find_in_block)
          (g i (omega arith) (omega arith) hit)
    | inr miss ↦
        rw (h i (omega arith) (omega arith), miss, find_in_block)
          (find_in_block-congr m' n (i + 1) (λ k a b. h k (omega arith) (omega arith))
            (λ k a b. g k (omega arith) (omega arith)))
  ]

-- A search ends without a result, or at an entry that is not empty.
pub find_in_block-cases :
    (P : ℤ → Type 0) (m : Memory) (block : ℕ) (name : CString) (n i : ℕ)
    → ((k : ℕ) → i ≤ k → k < i + n → (d_inumber m block k ≡ minus_one) ⊎ P (d_inumber m block k))
    → (find_in_block m block name n i ≡ minus_one) ⊎ P (find_in_block m block name n i)
unfolding find_in_block
find_in_block-cases P m block name zero i h = inl refl
find_in_block-cases P m block name (suc n) i h = elim (Bool-cases (matches m block name i)) [
  | inl hit ↦ rw (hit, find_in_block) (h i (omega arith) (omega arith))
  | inr miss ↦
      rw (miss, find_in_block)
        (find_in_block-cases P m block name n (i + 1) (λ k a b. h k (omega arith) (omega arith)))
]
