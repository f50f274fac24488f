-- ===== src/P1/Threads/Tests.antt =====
-- Two threads that allocate blocks of a table of two.
use so_project.Base.{ℕ, ◌≡◌, true, false, arith, refl}
use so_project.Fs.State.{data_blocks}
use so_project.P1.State.{zeroed}
use so_project.P1.Block.{data_block_alloc}
use so_project.P1.Threads.{
  Shared, Pc, at_lock, Move, call_alloc, lock, see_free, take, unlock_return, System, pick, Reach,
  start, later,
}
use so_project.P1.Threads.Progress.{working, blocks_apart, no_deadlock}
use so_project.P1.Threads.Alone.{Alone, unlocked, returned_to, Alone-data_block_alloc}

-- Both have called data_block_alloc, and the thread 0 has the mutex.
record Trace : Type 0 where
  last : System
  reach : Reach 2 last

abbrev contended : Trace
contended = record {
  last = _;
  reach =
      later (later (later start (pick 0 call_alloc tt)) (pick 1 call_alloc tt))
        (pick 0 (lock (omega arith) refl) tt);
}

-- The thread 0 has got the block 0.
abbrev allocated : Trace
allocated = record {
  last = _;
  reach =
      later (later (later contended.reach (pick 0 (see_free refl) tt)) (pick 0 take tt))
        (pick 0 unlock_return tt);
}

blocks_apart_example : (◌≡◌ {A = ℕ} 0 0) × (allocated.last.pool 0 ≡ false)
blocks_apart_example = blocks_apart allocated.reach 0 0 0 refl refl

no_deadlock_example :
    (j : ℕ) × (working (contended.last.pc j) ≡ true)
    × (m : Shared) × (p : Pc) × Move 2 j contended.last.shared (contended.last.pc j) m p
no_deadlock_example = no_deadlock contended.reach 1 refl

Alone-data_block_alloc_example :
    Alone data_blocks 3
      (unlocked zeroed.free_blocks)
      (at_lock 0)
      (unlocked (data_block_alloc zeroed).1.free_blocks)
      (returned_to (data_block_alloc zeroed).0)
Alone-data_block_alloc_example = Alone-data_block_alloc 3 zeroed
