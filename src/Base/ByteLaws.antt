-- ===== src/Base/ByteLaws.antt =====
-- Laws of byte memory: what a store or a copy leaves in the bytes that are read later.
use so_project.Base.Int.{ℤ, pos, negsuc, IsInt, pattern32, signed32-pattern32}
use so_project.Base.ByteMemory.{Memory, put, blit, load_int, store_int, store_word}
use Prim.Native.Nat.{ℕ, ◌+◌, ◌*◌, ◌/◌, ◌%◌, ◌^◌, ◌≤◌, ◌<◌}
use mathlib.Core.Path.{◌≡◌}
use mathlib.Core.Logic.{◌⊎◌}
use native.Mathlib.Omega.{arith}

word_bytes :
    (w : ℕ)
    → w < 2 ^ 32
    → w % 2 ^ 8
        + 2 ^ 8 * (w / 2 ^ 8 % 2 ^ 8)
        + 2 ^ 16 * (w / 2 ^ 16 % 2 ^ 8)
        + 2 ^ 24 * (w / 2 ^ 24 % 2 ^ 8)
      ≡ w
word_bytes w h = omega arith

pattern32-lt : (z : ℤ) → pattern32 z < 2 ^ 32
pattern32-lt (pos n) = omega arith
pattern32-lt (negsuc n) = omega arith

module _ (m : Memory) (a w : ℕ) where
  byte_0 : store_word m a w a ≡ w % 2 ^ 8
  byte_0 = ground arith

  byte_1 : store_word m a w (a + 1) ≡ w / 2 ^ 8 % 2 ^ 8
  byte_1 = ground arith

  byte_2 : store_word m a w (a + 2) ≡ w / 2 ^ 16 % 2 ^ 8
  byte_2 = ground arith

  byte_3 : store_word m a w (a + 3) ≡ w / 2 ^ 24 % 2 ^ 8
  byte_3 = ground arith

-- An `int` is read back as it was stored.
pub load_int-store_int : (m : Memory) (a : ℕ) (z : ℤ) → IsInt z → load_int (store_int m a z) a ≡ z
load_int-store_int m a z h =
    rw
      (
        byte_0 m a (pattern32 z),
        byte_1 m a (pattern32 z),
        byte_2 m a (pattern32 z),
        byte_3 m a (pattern32 z),
        word_bytes (pattern32 z) (pattern32-lt z),
      )
      (signed32-pattern32 z h)

-- An `int` is read from its four bytes.
pub load_int-eq :
    (m m' : Memory) (x : ℕ)
    → m' x ≡ m x
    → m' (x + 1) ≡ m (x + 1)
    → m' (x + 2) ≡ m (x + 2)
    → m' (x + 3) ≡ m (x + 3)
    → load_int m' x ≡ load_int m x
load_int-eq m m' x p q r t = rw (p, q, r, t)

module _ (m : Memory) (a : ℕ) where
  pub load_int-blit :
      (n : ℕ) (src : Memory) (x : ℕ)
      → (x + 4 ≤ a) ⊎ (a + n ≤ x)
      → load_int (blit m a n src) x ≡ load_int m x
  load_int-blit n src x h =
      load_int-eq m (blit m a n src) x (ground arith) (ground arith) (ground arith) (ground arith)

  pub load_int-store_apart :
      (z : ℤ) (x : ℕ) → (x + 4 ≤ a) ⊎ (a + 4 ≤ x) → load_int (store_int m a z) x ≡ load_int m x
  load_int-store_apart z x h =
      load_int-eq m (store_int m a z) x (ground arith) (ground arith) (ground arith) (ground arith)

  pub load_int-put :
      (v : ℕ) (x : ℕ) → (x + 4 ≤ a) ⊎ (a + 1 ≤ x) → load_int (put m a v) x ≡ load_int m x
  load_int-put v x h =
      load_int-eq m (put m a v) x (ground arith) (ground arith) (ground arith) (ground arith)
