-- ===== src/Base/Table.antt =====
-- Tables as functions of the index, and the search for the first free entry of a table.
use Prim.Native.Nat.{ℕ, zero, suc, ◌+◌, ◌≤◌, ◌<◌}
use mathlib.Core.Path.{◌≡◌, refl, ap}
use mathlib.Core.Logic.{◌≢◌, ◌⊎◌, inl, inr}
use mathlib.Core.Bool.{true, false}
use mathlib.Core.Option.{Option, none, some}
use native.Mathlib.Omega.{arith}
use native.Mathlib.Decide.{ℕ_discrete}
use so_project.Base.Tests.{◌==◌, if◌then◌else◌}

-- `f[i] = v`
abbrev pub update {ℓ} : {A : Type ℓ} → (ℕ → A) → ℕ → A → ℕ → A
update f i v j = if i == j then v else f j

-- allocation_state_t
pub data AllocationState : Type 0 where
  free taken : AllocationState

-- The least index from i on, among n, whose entry is free.
unfoldable pub first_free : (ℕ → AllocationState) → ℕ → ℕ → Option ℕ
first_free t zero i = none
first_free t (suc n) i = elim (t i) [ free ↦ some i | taken ↦ first_free t n (i + 1) ]

abbrev pub is_taken : AllocationState → ℕ
is_taken free = 0
is_taken taken = 1

-- How many of the first n entries are taken.
unfoldable pub count_taken : (ℕ → AllocationState) → ℕ → ℕ
count_taken t zero = 0
count_taken t (suc n) = is_taken (t n) + count_taken t n

state-cases : (a : AllocationState) → (a ≡ free) ⊎ (a ≡ taken)
state-cases free = inl refl
state-cases taken = inr refl

compare_cases : (i n : ℕ) → (i ≡ n) ⊎ (i ≢ n)
compare_cases i n = elim (ℕ_discrete i n) [ yes e ↦ inl e | no e ↦ inr e ]

-- `first_free` returns a free entry, and every entry before it is taken.
pub first_free-some :
    (t : ℕ → AllocationState) (n i : ℕ) {j : ℕ}
    → first_free t n i ≡ some j
    → (i ≤ j) × (j < i + n) × (t j ≡ free)
unfolding first_free
first_free-some t zero i h = ground arith
first_free-some t (suc n) i {j} h = elim (state-cases (t i)) [
  | inl e ↦ ground arith
  | inr e ↦
      (let ih = first_free-some t n (i + 1) {j = j} (ground arith) in
        (omega arith, omega arith, ih.2))
]

pub first_free-least :
    (t : ℕ → AllocationState) (n i : ℕ) {j : ℕ}
    → first_free t n i ≡ some j
    → (k : ℕ) → i ≤ k
    → k < j
    → t k ≡ taken
unfolding first_free
first_free-least t zero i h k a b = ground arith
first_free-least t (suc n) i {j} h k a b = elim (state-cases (t i)) [
  | inl e ↦ ground arith
  | inr e ↦ ground (arith, first_free-least t n (i + 1) {j = j} (ground arith) k)
]

-- It fails only when every entry is taken.
pub first_free-none :
    (t : ℕ → AllocationState) (n i : ℕ)
    → first_free t n i ≡ none
    → (k : ℕ) → i ≤ k
    → k < i + n
    → t k ≡ taken
unfolding first_free
first_free-none t zero i h k a b = absurd (omega arith)
first_free-none t (suc n) i h k a b = elim (state-cases (t i)) [
  | inl e ↦ ground arith
  | inr e ↦ ground (arith, first_free-none t n (i + 1) (ground arith) k)
]

pub count_taken-le : (t : ℕ → AllocationState) (n : ℕ) → count_taken t n ≤ n
unfolding count_taken
count_taken-le t zero = omega arith
count_taken-le t (suc n) = ground (arith, count_taken-le t n)

pub count_taken-outside :
    (t : ℕ → AllocationState) (n i : ℕ) (v : AllocationState)
    → n ≤ i
    → count_taken (update t i v) n ≡ count_taken t n
unfolding count_taken
count_taken-outside t zero i v h = refl
count_taken-outside t (suc n) i v h = ground (arith, count_taken-outside t n i v (omega arith))

-- Writing one entry changes the count by that entry.
pub count_taken-update :
    (t : ℕ → AllocationState) (n i : ℕ) (v : AllocationState)
    → i < n
    → count_taken (update t i v) n + is_taken (t i) ≡ count_taken t n + is_taken v
unfolding count_taken
count_taken-update t zero i v h = absurd (omega arith)
count_taken-update t (suc n) i v h = elim (compare_cases i n) [
  | inl e ↦ ground (arith, count_taken-outside t n i v (omega arith))
  | inr e ↦ ground (arith, count_taken-update t n i v (omega arith))
]

pub update-same {ℓ} : {A : Type ℓ} (f : ℕ → A) (i : ℕ) (v : A) → update f i v i ≡ v
update-same f i v = ap (λ b. if b then v else f i) (same i)
  where
    same : (n : ℕ) → (n == n) ≡ true
    same n = ground arith

pub update-other {ℓ} : {A : Type ℓ} (f : ℕ → A) (i k : ℕ) (v : A) → k ≢ i → update f i v k ≡ f k
update-other f i k v ne = ap (λ b. if b then v else f k) (apart i k ne)
  where
    apart : (m n : ℕ) → n ≢ m → (m == n) ≡ false
    apart m n ne' = ground arith
