-- ===== src/P1/Threads/Progress.antt =====
-- What the mutex of P1/fs/state.c is for, and that the threads get on.
use so_project.Base.{
  ℕ, suc, ◌+◌, ◌-◌, ◌*◌, ◌<◌, ◌≤◌, ◌≡◌, ◌⊎◌, inl, inr, none, some, Bool, true, false, free, taken,
  AllocationState, arith, refl, Option-cases,
}
use native.Mathlib.Decide.{dec_lt}
use so_project.P1.Threads.{
  Shared, Pc, idle, at_lock, at_test, at_take, at_return, at_next, returned, free_lock, at_free,
  free_unlock, Move, call_alloc, lock, exhausted, see_free, see_taken, take, unlock_return,
  unlock_next, lock_free, release, unlock_free, System, Reach, in_section, block_of,
}
use so_project.P1.Threads.Invariant.{Reach-Inv}

-- In every state that the threads reach from a table without taken blocks, in any order of their
-- steps, when a block is given to data_block_free only after data_block_alloc has returned it to some
-- thread and not again before the next such return: the block that one thread has, from the store of
-- TAKEN in data_block_alloc until the thread goes on behind the call, or from its call of
-- data_block_free to the store of FREE, no other thread has, and it is not among the blocks that were
-- returned before and not freed since.
pub blocks_apart :
    {n : ℕ} {s : System}
    → Reach n s
    → (i j b : ℕ) → block_of (s.pc i) ≡ some b
    → block_of (s.pc j) ≡ some b
    → (i ≡ j) × (s.pool b ≡ false)
blocks_apart r i j b p q = ((Reach-Inv r).unique i j b p q, (Reach-Inv r).apart i b p)

-- The thread is in one of the calls.
abbrev pub working : Pc → Bool
working idle = false
working (returned b) = false
working _ = true

-- A thread in a call has a next step, unless it waits for the mutex.
next-Move :
    (n i : ℕ) (m : Shared) (p : Pc)
    → working p ≡ true
    → (in_section p ≡ true) ⊎ (m.owner ≡ none)
    → (m' : Shared) × (p' : Pc) × Move n i m p m' p'
next-Move n i m (at_lock k) w c = elim (dec_lt k n) [
  | yes below ↦ (_, _, lock below (ground arith))
  | no above ↦ (_, _, exhausted (omega arith))
]
next-Move n i m (at_test k) w c = test_move (m.entries k) refl
  where
    test_move :
        (a : AllocationState)
        → m.entries k ≡ a
        → (m' : Shared) × (p' : Pc) × Move n i m (at_test k) m' p'
    test_move free e = (_, _, see_free e)
    test_move taken e = (_, _, see_taken e)
next-Move n i m (at_take k) w c = (_, _, take)
next-Move n i m (at_return k) w c = (_, _, unlock_return)
next-Move n i m (at_next k) w c = (_, _, unlock_next)
next-Move n i m (free_lock b) w c = (_, _, lock_free (ground arith))
next-Move n i m (at_free b) w c = (_, _, release)
next-Move n i m free_unlock w c = (_, _, unlock_free)
next-Move n i m idle w c = cc
next-Move n i m (returned b) w c = cc

section_works : (p : Pc) → in_section p ≡ true → working p ≡ true
section_works p e = ground arith

-- In every state that the threads reach from a table without taken blocks: while a thread is in a
-- call of data_block_alloc or data_block_free, some thread that is in such a call has a next
-- step.
pub no_deadlock :
    {n : ℕ} {s : System}
    → Reach n s
    → (i : ℕ) → working (s.pc i) ≡ true
    → (j : ℕ) × (working (s.pc j) ≡ true) × (m : Shared) × (p : Pc) × Move n j s.shared (s.pc j) m p
no_deadlock {n} {s} r i w = elim (Option-cases s.shared.owner) [
  | inl unlocked ↦
      (let (m, p, mv) = next-Move n i s.shared (s.pc i) w (inr unlocked) in (i, w, m, p, mv))
  | inr (j, e) ↦
      (let inside = (Reach-Inv r).owned j e in
        let busy = section_works (s.pc j) inside in
        let (m, p, mv) = next-Move n j s.shared (s.pc j) busy (inl inside) in (j, busy, m, p, mv))
]

-- A bound on the steps that a thread has left in its call.
abbrev rank : ℕ → Pc → ℕ
rank n (at_lock i) = 3 * (n - i) + 1
rank n (at_test i) = 3 * (n - (i + 1)) + 3
rank n (at_next i) = 3 * (n - (i + 1)) + 2
rank n (at_take i) = 2
rank n (at_return i) = 1
rank n (free_lock b) = 3
rank n (at_free b) = 2
rank n free_unlock = 1
rank n idle = 0
rank n (returned b) = 0

Move-rank :
    {n me : ℕ} {m m' : Shared} {p p' : Pc}
    → Move n me m p m' p'
    → working p ≡ true
    → rank n p' < rank n p
Move-rank call_alloc w = cc
Move-rank (lock below e) w = omega arith
Move-rank mv w = ground arith

-- k steps of one thread within a call, each in whatever state the other threads have made.
pub data Turns (n me : ℕ) : ℕ → Pc → Pc → Type 0 where
  ended : {p : Pc} → Turns n me 0 p p
  turn :
      {k : ℕ} {m m' : Shared} {p p' q : Pc}
      → working p ≡ true
      → Move n me m p m' p'
      → Turns n me k p' q
      → Turns n me (suc k) p q

Turns-rank : {n me k : ℕ} {p q : Pc} → Turns n me k p q → k ≤ rank n p
Turns-rank ended = omega arith
Turns-rank (turn w mv rest) = omega (arith, Move-rank mv w, Turns-rank rest)

-- For a table of n entries: however the other threads change what is shared between its steps, a
-- thread takes at most 3 n + 1 steps from the head of the loop of data_block_alloc to the end of
-- the call.
pub alloc_ends : {n me k : ℕ} {q : Pc} → Turns n me k (at_lock 0) q → k ≤ 3 * n + 1
alloc_ends {n} t = omega (arith, Turns-rank t)
