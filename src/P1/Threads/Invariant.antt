-- ===== src/P1/Threads/Invariant.antt =====
-- What holds in every reachable state of the threads of P1/fs/state.c that allocate and free blocks.
use so_project.Base.{ℕ, Bool, false, ◌<◌, ◌≡◌, none, some, true, free, taken, update, arith, refl}
use so_project.P1.Threads.{
  Shared, Pc, at_test, at_take, Move, call_alloc, lock, see_free, lock_free, System, pick, Reach,
  start, later, in_section, block_of, given, IsOwned,
}

-- What the place of a thread says about the table.
abbrev IsFresh : ℕ → Shared → Pc → Type 0
IsFresh n m (at_test i) = i < n
IsFresh n m (at_take i) = (i < n) × (m.entries i ≡ free)
IsFresh n m _ = Unit

pub record Inv (n : ℕ) (m : Shared) (pc : ℕ → Pc) (pool : ℕ → Bool) : Type 0 where
  pub inside : (i : ℕ) → in_section (pc i) ≡ true → m.owner ≡ some i
  pub owned : (i : ℕ) → m.owner ≡ some i → in_section (pc i) ≡ true
  pub fresh : (i : ℕ) → IsFresh n m (pc i)
  pub marked : (i b : ℕ) → block_of (pc i) ≡ some b → (b < n) × (m.entries b ≡ taken)
  pub unique : (i j b : ℕ) → block_of (pc i) ≡ some b → block_of (pc j) ≡ some b → i ≡ j
  pub pooled : (b : ℕ) → pool b ≡ true → (b < n) × (m.entries b ≡ taken)
  pub apart : (i b : ℕ) → block_of (pc i) ≡ some b → pool b ≡ false

-- The premise of a move.
abbrev Guard : {n me : ℕ} {m m' : Shared} {p p' : Pc} → Move n me m p m' p' → Type 0
Guard {n} {m} (lock {i} _ _) = (i < n) × (m.owner ≡ none)
Guard {m} (see_free {i} _) = m.entries i ≡ free
Guard {m} (lock_free _) = m.owner ≡ none
Guard _ = Unit

guard : {n me : ℕ} {m m' : Shared} {p p' : Pc} (mv : Move n me m p m' p') → Guard mv
guard (lock below e) = (below, e)
guard (see_free e) = e
guard (lock_free e) = e
guard _ = tt

module _ {n : ℕ} {m : Shared} {pc : ℕ → Pc} {pool : ℕ → Bool} (inv : Inv n m pc pool) (i : ℕ) where
  open inv use {inside, owned, fresh, marked, unique, pooled, apart}

  Move-inside :
      {p p' : Pc} {m' : Shared}
      → Move n i m p m' p'
      → pc i ≡ p
      → (j : ℕ) → in_section (update pc i p' j) ≡ true
      → m'.owner ≡ some j
  Move-inside call_alloc e j q = ground (arith, inside j)
  Move-inside mv e j q = ground (arith, guard mv, inside j, inside i)

  Move-owned :
      {p p' : Pc} {m' : Shared}
      → Move n i m p m' p'
      → pc i ≡ p
      → (j : ℕ) → m'.owner ≡ some j
      → in_section (update pc i p' j) ≡ true
  Move-owned call_alloc e j q = ground (arith, owned j, owned i)
  Move-owned mv e j q = ground (arith, guard mv, owned j, owned i)

  Move-fresh :
      {p p' : Pc} {m' : Shared}
      → Move n i m p m' p'
      → pc i ≡ p
      → (j : ℕ) → IsFresh n m' (update pc i p' j)
  Move-fresh call_alloc e j = ground (arith, fresh j)
  Move-fresh mv e j = ground (arith, guard mv, fresh j, fresh i, inside i, inside j)

  Move-marked :
      {p p' : Pc} {m' : Shared}
      → Move n i m p m' p'
      → IsOwned pool p p'
      → pc i ≡ p
      → (j b : ℕ) → block_of (update pc i p' j) ≡ some b
      → (b < n) × (m'.entries b ≡ taken)
  Move-marked call_alloc o e j b q = ground (arith, marked j b)
  Move-marked mv o e j b q =
      ground
        (arith, guard mv, fresh i, marked j b, marked i b, unique i j b, o, pooled b, apart j b)

  Move-unique :
      {p p' : Pc} {m' : Shared}
      → Move n i m p m' p'
      → IsOwned pool p p'
      → pc i ≡ p
      → (j k b : ℕ) → block_of (update pc i p' j) ≡ some b
      → block_of (update pc i p' k) ≡ some b
      → j ≡ k
  Move-unique call_alloc o e j k b q r = ground (arith, unique j k b)
  Move-unique mv o e j k b q r = ground (
    arith,
    guard mv,
    fresh i,
    marked j b,
    marked k b,
    unique j k b,
    unique i j b,
    unique i k b,
    o,
    apart j b,
    apart k b,
  )

  Move-pooled :
      {p p' : Pc} {m' : Shared}
      → Move n i m p m' p'
      → pc i ≡ p
      → (b : ℕ) → given pool p p' b ≡ true
      → (b < n) × (m'.entries b ≡ taken)
  Move-pooled call_alloc e b q = ground (arith, pooled b)
  Move-pooled mv e b q = ground (arith, guard mv, pooled b, marked i b, apart i b)

  Move-apart :
      {p p' : Pc} {m' : Shared}
      → Move n i m p m' p'
      → IsOwned pool p p'
      → pc i ≡ p
      → (j b : ℕ) → block_of (update pc i p' j) ≡ some b
      → given pool p p' b ≡ false
  Move-apart call_alloc o e j b q = ground (arith, apart j b)
  Move-apart mv o e j b q =
      ground (arith, guard mv, fresh i, pooled b, apart j b, apart i b, unique i j b)

  Move-Inv :
      {p' : Pc} {m' : Shared}
      → Move n i m (pc i) m' p'
      → IsOwned pool (pc i) p'
      → Inv n m' (update pc i p') (given pool (pc i) p')
  Move-Inv mv o = record {
    inside = Move-inside mv refl;
    owned = Move-owned mv refl;
    fresh = Move-fresh mv refl;
    marked = Move-marked mv o refl;
    unique = Move-unique mv o refl;
    pooled = Move-pooled mv refl;
    apart = Move-apart mv o refl;
  }

pub Reach-Inv : {n : ℕ} {s : System} → Reach n s → Inv n s.shared s.pc s.pool
Reach-Inv start = record {
  inside = λ i q. cc;
  owned = λ i q. cc;
  fresh = λ i. tt;
  marked = λ i b q. cc;
  unique = λ i j b q r. cc;
  pooled = λ b q. cc;
  apart = λ i b q. cc;
}
Reach-Inv (later r (pick i mv o)) = Move-Inv (Reach-Inv r) i mv o
