-- ===== src/P1/Threads/Alone.antt =====
-- A thread that runs alone does what data_block_alloc and data_block_free of P1.Block say.
use so_project.Base.{
  ℕ, zero, suc, ◌+◌, ◌<◌, ◌≡◌, inl, inr, ℤ, pos, negsuc, Option, none, some, true, free, taken,
  AllocationState, update, first_free, arith, refl, Option-cases, ltb, subst,
}
use so_project.Fs.State.{data_blocks}
use so_project.P1.State.{Fs}
use so_project.P1.Block.{data_block_alloc, data_block_free}
use so_project.P1.Threads.{
  Shared, Pc, idle, at_lock, returned, free_lock, Move, lock, exhausted, see_free, see_taken, take,
  unlock_return, unlock_next, lock_free, release, unlock_free,
}

-- Steps of one thread, with none of another between them.
pub data Alone (n me : ℕ) : Shared → Pc → Shared → Pc → Type 0 where
  stay : {m : Shared} {p : Pc} → Alone n me m p m p
  go :
      {m m' m'' : Shared} {p p' p'' : Pc}
      → Move n me m p m' p'
      → Alone n me m' p' m'' p''
      → Alone n me m p m'' p''

-- The mutex is free, and the table is t.
abbrev pub unlocked : (ℕ → AllocationState) → Shared
unlocked t = record { owner = none; entries = t }

-- How the call ends, from the result of the search.
abbrev entries_after : (ℕ → AllocationState) → Option ℕ → ℕ → AllocationState
entries_after t none = t
entries_after t (some b) = update t b taken

abbrev ends_at : Option ℕ → Pc
ends_at none = idle
ends_at (some b) = returned b

-- What is left of the loop from its round i on, with k entries to look at.
abbrev Scans : ℕ → ℕ → (ℕ → AllocationState) → ℕ → ℕ → Type 0
Scans n me t k i =
    Alone n me (unlocked t) (at_lock i) (unlocked (entries_after t (first_free t k i)))
      (ends_at (first_free t k i))

Scans-round :
    (n me : ℕ) (t : ℕ → AllocationState) (k i : ℕ) (a : AllocationState)
    → i < n
    → t i ≡ a
    → Scans n me t k (i + 1)
    → Scans n me t (suc k) i
unfolding first_free
Scans-round n me t k i free below f rest =
    rw (f, first_free) (go (lock below refl) (go (see_free f) (go take (go unlock_return stay))))
Scans-round n me t k i taken below f rest =
    rw (f, first_free) (go (lock below refl) (go (see_taken f) (go unlock_next rest)))

Scans-loop : (n me : ℕ) (t : ℕ → AllocationState) (k i : ℕ) → i + k ≡ n → Scans n me t k i
unfolding first_free
Scans-loop n me t zero i e = go (exhausted (omega arith)) stay
Scans-loop n me t (suc k) i e =
    Scans-round n me t k i (t i) (omega arith) refl (Scans-loop n me t k (i + 1) (omega arith))

-- The place of a thread that data_block_alloc has returned the value to.
abbrev pub returned_to : ℤ → Pc
returned_to (pos b) = returned b
returned_to (negsuc k) = idle

-- From any table, while the mutex is free: the steps of a thread that runs data_block_alloc alone
-- lead to the table and to the value that the function data_block_alloc gives, with the mutex
-- free.
pub Alone-data_block_alloc :
    (me : ℕ) (s : Fs)
    → Alone data_blocks me
        (unlocked s.free_blocks)
        (at_lock 0)
        (unlocked (data_block_alloc s).1.free_blocks)
        (returned_to (data_block_alloc s).0)
unfolding data_block_alloc
Alone-data_block_alloc me s =
    let t = s.free_blocks in
    let loop = Scans-loop data_blocks me t data_blocks 0 refl in
    elim (Option-cases (first_free t data_blocks 0)) [
      | inl e ↦
          (let ends : Alone data_blocks me (unlocked t) (at_lock 0) (unlocked t) idle =
              subst
                (λ o.
                  Alone data_blocks me (unlocked t) (at_lock 0) (unlocked (entries_after t o))
                    (ends_at o))
                e loop in
            rw (e, data_block_alloc) ends)
      | inr (b, e) ↦
          (let ends : Alone data_blocks me (unlocked t) (at_lock 0) (unlocked (update t b taken))
                (returned b) =
              subst
                (λ o.
                  Alone data_blocks me (unlocked t) (at_lock 0) (unlocked (entries_after t o))
                    (ends_at o))
                e loop in
            rw (e, data_block_alloc) ends)
    ]

-- A thread that runs data_block_free alone on a block of the table leaves the table of the function
-- data_block_free, which returns 0.
pub Alone-data_block_free :
    (me b : ℕ) (s : Fs)
    → b < data_blocks
    → Alone data_blocks me
        (unlocked s.free_blocks)
        (free_lock b)
        (unlocked (data_block_free (pos b) s).1.free_blocks)
        idle
      × ((data_block_free (pos b) s).0 ≡ pos 0)
unfolding data_block_free
Alone-data_block_free me b s below =
    let valid : ltb b data_blocks ≡ true = ground arith in
    (rw valid (go (lock_free refl) (go release (go unlock_free stay))), rw valid refl)
