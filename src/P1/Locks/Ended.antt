-- ===== src/P1/Locks/Ended.antt =====
-- What it means that a thread of P1/fs alone does what a function says.
use so_project.Base.{ℕ, ◌≡◌, Memory}
use so_project.P1.State.{Fs}
use so_project.P1.Operations.{Result, returned, undefined, out_of_fuel}
use so_project.P1.Bounds.Rounds.{Ends}
use so_project.P1.Locks.{Shared, writing, reading, Frame, Pc, crashed, finished, Move, unlocked}
use so_project.P1.Locks.Alone.{Alone, stay, go}

-- What a call leaves, for a result of the function: the file system, and for a read the buffer.
abbrev pub Written : Fs → Memory → Fs → Type 0
Written a b t = a ≡ t

abbrev pub ReadInto : Memory × Fs → Memory → Fs → Type 0
ReadInto a b t = a ≡ (b, t)

-- The thread `me` alone comes from the place p to the end of its call, with the value and the state
-- of the function's result and every lock free, or into undefined behaviour when the function does.
abbrev pub Ended : {A : Type 0} → (A → Memory → Fs → Type 0) → ℕ → Shared → Pc → Result A → Type 0
Ended Left me m p (returned z a) =
    (b : Memory) × (t : Fs) × Left a b t × Alone me m p (unlocked t) (finished z b)
Ended Left me m p undefined = (m' : Shared) × Alone me m p m' crashed
Ended Left me m p out_of_fuel = Unit

module _ {A : Type 0} (Left : A → Memory → Fs → Type 0) (me : ℕ) where
  pub Ended-go :
      {m m' : Shared} {p p' : Pc} (r : Result A)
      → Move me m p m' p'
      → Ended Left me m' p' r
      → Ended Left me m p r
  Ended-go (returned z a) mv (b, t, left, rest) = (b, t, left, go mv rest)
  Ended-go undefined mv (m', rest) = (m', go mv rest)
  Ended-go out_of_fuel mv rest = tt

  pub Ended-Alone :
      {m m' : Shared} {p p' : Pc} (r : Result A)
      → Alone me m p m' p'
      → Ended Left me m' p' r
      → Ended Left me m p r
  Ended-Alone r stay rest = rest
  Ended-Alone r (go mv more) rest = Ended-go r mv (Ended-Alone r more rest)

  -- When the loops have the fuel that they need, the thread comes to its end.
  abbrev pub EndsAs : Shared → Pc → Result A → Type 0
  EndsAs m p (returned z a) = Ended Left me m p (returned z a)
  EndsAs m p undefined = Ended Left me m p undefined
  EndsAs m p out_of_fuel = ⊥

-- The local variables of a write and of a read.
abbrev pub write_frame : ℕ → ℕ → Memory → ℕ → ℕ → Frame
write_frame h i buffer count left = record {
  kind = writing;
  handle = h;
  inode = i;
  buffer = buffer;
  done = 0;
  receiver = count;
  left = left;
}

abbrev pub read_frame : ℕ → ℕ → Memory → ℕ → ℕ → ℕ → Frame
read_frame h i buffer done count left = record {
  kind = reading;
  handle = h;
  inode = i;
  buffer = buffer;
  done = done;
  receiver = count;
  left = left;
}

pub EndsAs-Ends :
    {A : Type 0} (Left : A → Memory → Fs → Type 0) (P : A → Type 0) (me : ℕ) (m : Shared) (p : Pc)
    (r : Result A)
    → Ended Left me m p r
    → Ends P r
    → EndsAs Left me m p r
EndsAs-Ends Left P me m p (returned z a) path ends = path
EndsAs-Ends Left P me m p undefined path ends = path
EndsAs-Ends Left P me m p out_of_fuel path ends = ends
