-- ===== src/Base/Strings.antt =====
-- Laws of strncmp over C strings.
use so_project.Base.ByteMemory.{Memory, CString, NoNul, chars, length, strncmp_eq}
use Prim.Native.Nat.{ℕ, zero, suc, ◌+◌, ◌≤◌, ◌<◌}
use mathlib.Core.Path.{◌≡◌, refl, ap₂}
use mathlib.Core.Bool.{true}
use mathlib.Core.List.{[], ◌∷◌}
use native.Mathlib.Omega.{arith}
use native.Mathlib.Decide.{ℕ_discrete}

pub strncmp_eq-true :
    (f g : Memory) (n i : ℕ) → ((x : ℕ) → i ≤ x → x < i + n → f x ≡ g x) → strncmp_eq f g n i ≡ true
unfolding strncmp_eq
strncmp_eq-true f g zero i h = refl
strncmp_eq-true f g (suc n) i h = ground (
  arith,
  h i (omega arith) (omega arith),
  strncmp_eq-true f g n (i + 1) (λ x a b. h x (omega arith) (omega arith)),
)

pub strncmp_eq-congr :
    (f f' g : Memory) (n i : ℕ)
    → ((x : ℕ) → i ≤ x → x < i + n → f' x ≡ f x)
    → strncmp_eq f' g n i ≡ strncmp_eq f g n i
unfolding strncmp_eq
strncmp_eq-congr f f' g zero i h = refl
strncmp_eq-congr f f' g (suc n) i h = ground (
  arith,
  h i (omega arith) (omega arith),
  strncmp_eq-congr f f' g n (i + 1) (λ x a b. h x (omega arith) (omega arith)),
)

-- Where the comparison succeeds, the strings agree up to the terminator.
pub strncmp_eq-agree :
    (f g : Memory) (n i p : ℕ)
    → strncmp_eq f g n i ≡ true
    → i ≤ p
    → p < i + n
    → ((x : ℕ) → i ≤ x → x < p → 0 < g x)
    → f p ≡ g p
unfolding strncmp_eq
strncmp_eq-agree f g zero i p e a b h = absurd (omega arith)
strncmp_eq-agree f g (suc n) i p e a b h = elim (ℕ_discrete i p) [
  | yes q ↦ ground arith
  | no q ↦ ground (
    arith,
    h i (omega arith) (omega arith),
    strncmp_eq-agree f g n (i + 1) p (ground (arith, h i (omega arith) (omega arith))) (omega arith)
        (omega arith) (λ x c d. h x (omega arith) d),
  )
]

pub chars-pos : (s : CString) (x : ℕ) → NoNul s → x < length s → 0 < chars s x
chars-pos [] x h lt = absurd (omega arith)
chars-pos (c ∷ cs) zero h lt = h.0
chars-pos (c ∷ cs) (suc x) h lt = chars-pos cs x h.1 (omega arith)

pub chars-end : (s : CString) (x : ℕ) → length s ≤ x → chars s x ≡ 0
chars-end [] x le = refl
chars-end (c ∷ cs) zero le = absurd (omega arith)
chars-end (c ∷ cs) (suc x) le = chars-end cs x (omega arith)

-- Strings that agree up to the end of one of them are equal.
pub chars-injective :
    (s t : CString) → NoNul s → NoNul t → ((x : ℕ) → x ≤ length t → chars s x ≡ chars t x) → s ≡ t
chars-injective [] [] a b h = refl
chars-injective [] (c ∷ cs) a b h = absurd (omega (arith, h 0 (omega arith)))
chars-injective (c ∷ cs) [] a b h = absurd (omega (arith, h 0 (omega arith)))
chars-injective (c ∷ cs) (d ∷ ds) a b h =
    ap₂ ◌∷◌ (h 0 (omega arith)) (chars-injective cs ds a.1 b.1 (λ x le. h (suc x) (omega arith)))
