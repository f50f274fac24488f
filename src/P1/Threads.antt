-- ===== src/P1/Threads.antt =====
-- data_block_alloc and data_block_free of P1/fs/state.c called by several threads, one access to what
-- the threads share at a time: the mutex `db_mutex` and the table `free_blocks`, of n entries. A thread
-- may allocate any number of blocks, and free blocks that other threads have allocated.
-- `insert_delay` is a loop without effect, and has no step.
pub mod Invariant
pub mod Progress
pub mod Alone
mod Tests
use so_project.Base.{
  ℕ, ◌+◌, ◌<◌, ◌≤◌, ◌≡◌, Option, none, some, Bool, true, false, AllocationState, free, taken,
  update,
}

-- `db_mutex`, as the thread that holds it, and `free_blocks`.
pub record Shared : Type 0 where
  pub owner : Option ℕ
  pub entries : ℕ → AllocationState

-- Where a thread stands, with the index or the block that it works on.
pub data Pc : Type 0 where
  idle : Pc  -- in no call
  at_lock : (i : ℕ) → Pc  -- in data_block_alloc, at the head of the loop
  at_test : (i : ℕ) → Pc
  at_take : (i : ℕ) → Pc
  at_return : (i : ℕ) → Pc  -- before the unlock and the return of i
  at_next : (i : ℕ) → Pc  -- before the unlock at the end of the round
  returned : (b : ℕ) → Pc  -- data_block_alloc has returned b
  free_lock : (b : ℕ) → Pc  -- in data_block_free
  at_free : (b : ℕ) → Pc
  free_unlock : Pc

-- One step of the thread `me`.
pub data Move (n me : ℕ) (m : Shared) : Pc → Shared → Pc → Type 0 where
  call_alloc : Move n me m idle m (at_lock 0)
  lock :
      {i : ℕ}
      → i < n
      → m.owner ≡ none
      → Move n me m (at_lock i) (record m { owner = some me }) (at_test i)
  exhausted : {i : ℕ} → n ≤ i → Move n me m (at_lock i) m idle
  see_free : {i : ℕ} → m.entries i ≡ free → Move n me m (at_test i) m (at_take i)
  see_taken : {i : ℕ} → m.entries i ≡ taken → Move n me m (at_test i) m (at_next i)
  take :
      {i : ℕ}
      → Move n me m (at_take i) (record m { entries = update m.entries i taken }) (at_return i)
  unlock_return : {i : ℕ} → Move n me m (at_return i) (record m { owner = none }) (returned i)
  unlock_next : {i : ℕ} → Move n me m (at_next i) (record m { owner = none }) (at_lock (i + 1))
  keep : {b : ℕ} → Move n me m (returned b) m idle
  call_free : {b : ℕ} → b < n → Move n me m idle m (free_lock b)
  lock_free :
      {b : ℕ}
      → m.owner ≡ none
      → Move n me m (free_lock b) (record m { owner = some me }) (at_free b)
  release :
      {b : ℕ} → Move n me m (at_free b) (record m { entries = update m.entries b free }) free_unlock
  unlock_free : Move n me m free_unlock (record m { owner = none }) idle

-- Any number of threads, of which only finitely many have left `idle`.
pub record System : Type 0 where
  pub shared : Shared
  pub pc : ℕ → Pc
  pub pool : ℕ → Bool  -- the blocks that the callers have, no part of the program

-- data_block_alloc gives its block to the callers, of which any gives it to data_block_free.
abbrev pub given : (ℕ → Bool) → Pc → Pc → ℕ → Bool
given pool (returned b) _ = update pool b true
given pool _ (free_lock b) = update pool b false
given pool _ _ = pool

-- A block is given to data_block_free only when the callers have it.
abbrev pub IsOwned : (ℕ → Bool) → Pc → Pc → Type 0
IsOwned pool idle (free_lock b) = pool b ≡ true
IsOwned pool _ _ = Unit

pub data Step (n : ℕ) (s : System) : System → Type 0 where
  pick :
      (i : ℕ) {m : Shared} {p : Pc}
      → Move n i s.shared (s.pc i) m p
      → IsOwned s.pool (s.pc i) p
      → Step n s (record { shared = m; pc = update s.pc i p; pool = given s.pool (s.pc i) p })

-- The state behind state_init: the mutex and every entry are free.
abbrev pub init : System
init = record {
  shared = record { owner = none; entries = λ b. free };
  pc = λ i. idle;
  pool = λ b. false;
}

pub data Reach (n : ℕ) : System → Type 0 where
  start : Reach n init
  later : {s t : System} → Reach n s → Step n s t → Reach n t

-- Between a lock and the unlock behind it.
abbrev pub in_section : Pc → Bool
in_section (at_test i) = true
in_section (at_take i) = true
in_section (at_return i) = true
in_section (at_next i) = true
in_section (at_free b) = true
in_section free_unlock = true
in_section _ = false

-- The block that a thread is about to return or has returned, or has got to free.
abbrev pub block_of : Pc → Option ℕ
block_of (at_return i) = some i
block_of (returned b) = some b
block_of (free_lock b) = some b
block_of (at_free b) = some b
block_of _ = none
