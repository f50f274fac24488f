-- ===== src/Base/ByteMemory.antt =====
-- Byte memory as a function of the address, and the C library's functions on it that the program
-- uses: memcpy, strncpy, strncmp. An `int` is stored in four bytes, the lowest first.
use Prim.Native.Nat.{ℕ, zero, suc, ◌+◌, ◌-◌, ◌*◌, ◌/◌, ◌%◌, ◌^◌, ◌<◌}
use mathlib.Core.Bool.{Bool, true, false, ◌&&◌}
use mathlib.Core.List.{List, [], ◌∷◌}
use so_project.Base.Tests.{ltb, leb, ◌==◌, if◌then◌else◌}
use so_project.Base.Int.{ℤ, signed32, pattern32}

abbrev pub Memory : Type 0
Memory = ℕ → ℕ

-- The characters of a C string before its terminator.
abbrev pub CString : Type 0
CString = List ℕ

abbrev pub length {ℓ} : {A : Type ℓ} → List A → ℕ
length [] = 0
length (x ∷ xs) = suc (length xs)

-- The memory that a string points to; past its end it is read as the terminator.
abbrev pub chars : CString → Memory
chars [] i = 0
chars (c ∷ cs) zero = c
chars (c ∷ cs) (suc i) = chars cs i

-- No character of a C string is the terminator.
abbrev pub NoNul : CString → Type 0
NoNul [] = Unit {0}
NoNul (c ∷ cs) = (0 < c) × NoNul cs

-- `*a = v`
abbrev pub put : Memory → ℕ → ℕ → Memory
put m a v x = if a == x then v else m x

-- `memcpy(m + a, src, n)`; with `chars name` for src it is also `strncpy(m + a, name, n)`.
abbrev pub blit : Memory → ℕ → ℕ → Memory → Memory
blit m a n src x = if leb a x && ltb x (a + n) then src (x - a) else m x

abbrev pub load_int : Memory → ℕ → ℤ
load_int m a = signed32 (m a + 2 ^ 8 * m (a + 1) + 2 ^ 16 * m (a + 2) + 2 ^ 24 * m (a + 3))

abbrev pub store_word : Memory → ℕ → ℕ → Memory
store_word m a w =
    put (put (put (put m a (w % 2 ^ 8)) (a + 1) (w / 2 ^ 8 % 2 ^ 8)) (a + 2) (w / 2 ^ 16 % 2 ^ 8))
      (a + 3) (w / 2 ^ 24 % 2 ^ 8)

abbrev pub store_int : Memory → ℕ → ℤ → Memory
store_int m a z = store_word m a (pattern32 z)

-- `strncmp(f + i, g + i, n) == 0`
unfoldable pub strncmp_eq : Memory → Memory → ℕ → ℕ → Bool
strncmp_eq f g zero i = true
strncmp_eq f g (suc n) i = elim (f i == g i) [
  | true ↦ elim (f i == 0) [ true ↦ true | false ↦ strncmp_eq f g n (i + 1) ]
  | false ↦ false
]
