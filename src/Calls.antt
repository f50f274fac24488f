-- ===== src/Calls.antt =====
-- The system calls of P2/fs/tfs_server.c and P2/client/tecnicofs_client_api.c. The operating system is not part of the program: a thread
-- runs on the list of the results that its calls of open, read, write and close will return, in their
-- order.
use so_project.Base.{
  ◌+◌, ◌*◌, ◌/◌, ◌%◌, ◌^◌, ℤ, Memory, chars, length, load_int, store_int, ltb, ◌&&◌, ℕ, List, [],
  ◌∷◌, Bool, true, false, if◌then◌else◌,
}

-- -1 with errno EINTR, with EPIPE, with ENOENT, with another errno; or a value, with the bytes that a read stored.
pub data Call : Type 0 where
  interrupted broken missing failed : Call
  ok : ℕ → List ℕ → Call

-- Where a piece of a thread ends: with a value, before the calls that are left; in a call that has not
-- returned; in exit(EXIT_FAILURE); in undefined behaviour.
pub data Outcome {ℓ} (A : Type ℓ) : Type ℓ where
  finished : A → List Call → Outcome A
  waiting exited undefined : Outcome A

-- `f` goes on with the value and the calls that are left.
abbrev pub and_then {ℓ} : {A B : Type ℓ} → Outcome A → (A → List Call → Outcome B) → Outcome B
and_then (finished a cs) f = f a cs
and_then waiting f = waiting
and_then exited f = exited
and_then undefined f = undefined

-- The value of the call, or that the pipe is broken.
pub data Attempt : Type 0 where
  lost : Attempt
  success : ℕ → List ℕ → Attempt

-- `do vs = call(); while (vs == -1 && errno == EINTR);`, then exit for any errno but EPIPE.
unfoldable pub attempt : List Call → Outcome Attempt
attempt [] = waiting
attempt (interrupted ∷ cs) = attempt cs
attempt (broken ∷ cs) = finished lost cs
attempt (missing ∷ cs) = exited
attempt (failed ∷ cs) = exited
attempt (ok n bytes ∷ cs) = finished (success n bytes) cs

-- The same loop, then exit for any errno: the value and the bytes read.
unfoldable pub must : List Call → Outcome (ℕ × List ℕ)
must [] = waiting
must (interrupted ∷ cs) = must cs
must (broken ∷ cs) = exited
must (missing ∷ cs) = exited
must (failed ∷ cs) = exited
must (ok n bytes ∷ cs) = finished (n, bytes) cs

-- One call whose result is dropped.
unfoldable pub one_call {ℓ} : {A : Type ℓ} → A → List Call → Outcome A
one_call a [] = waiting
one_call a (c ∷ cs) = finished a cs

-- What a read of at most n bytes makes of the memory it is given.
abbrev pub received : ℕ → Memory → List ℕ → Memory
received n old bytes k = if ltb k n && ltb k (length bytes) then chars bytes k else old k

-- A read of `sizeof(int)` bytes to an `int`; a short read leaves the other bytes.
abbrev pub received_int : ℤ → List ℕ → ℤ
received_int old bytes = load_int (received 4 (store_int (λ k. 0) 0 old) bytes) 0

-- A size_t in memory, the lowest byte first.
abbrev pub size_bytes : ℕ → Memory
size_bytes n k = n / 2 ^ (8 * k) % 2 ^ 8

abbrev pub load_size : Memory → ℕ
load_size m =
    m 0
    + 2 ^ 8 * m 1
    + 2 ^ 16 * m 2
    + 2 ^ 24 * m 3
    + 2 ^ 32 * m 4
    + 2 ^ 40 * m 5
    + 2 ^ 48 * m 6
    + 2 ^ 56 * m 7

abbrev pub received_size : ℕ → List ℕ → ℕ
received_size old bytes = load_size (received 8 (size_bytes old) bytes)

abbrev pub received_char : ℕ → List ℕ → ℕ
received_char old [] = old
received_char old (b ∷ bytes) = b

-- The property holds of the value, if there is one.
abbrev pub Ends {ℓ} : {A : Type ℓ} → (A → Type 0) → Outcome A → Type 0
Ends P (finished a cs) = P a
Ends P waiting = Unit {0}
Ends P exited = Unit {0}
Ends P undefined = Unit {0}

pub Ends-and_then {ℓ} :
    {A B : Type ℓ} (P : A → Type 0) (Q : B → Type 0) (o : Outcome A) (f : A → List Call → Outcome B)
    → Ends P o
    → ((a : A) (cs : List Call) → P a → Ends Q (f a cs))
    → Ends Q (and_then o f)
Ends-and_then P Q (finished a cs) f p q = q a cs p
Ends-and_then P Q waiting f p q = p
Ends-and_then P Q exited f p q = p
Ends-and_then P Q undefined f p q = p

-- The same with nothing asked of the first value.
pub Ends-after {ℓ} :
    {A B : Type ℓ} (Q : B → Type 0) (o : Outcome A) (f : A → List Call → Outcome B)
    → ((a : A) (cs : List Call) → Ends Q (f a cs))
    → Ends Q (and_then o f)
Ends-after Q (finished a cs) f q = q a cs
Ends-after Q waiting f q = tt
Ends-after Q exited f q = tt
Ends-after Q undefined f q = tt

pub Ends-one_call {ℓ} :
    {A : Type ℓ} (Q : A → Type 0) (a : A) (calls : List Call) → Q a → Ends Q (one_call a calls)
unfolding one_call
Ends-one_call Q a [] q = tt
Ends-one_call Q a (c ∷ cs) q = q

-- After a call that may find the pipe broken: both cases.
pub Ends-attempt :
    {B : Type 0} (Q : B → Type 0) (calls : List Call) (f : Attempt → List Call → Outcome B)
    → ((cs : List Call) → Ends Q (f lost cs))
    → ((n : ℕ) (bytes : List ℕ) (cs : List Call) → Ends Q (f (success n bytes) cs))
    → Ends Q (and_then (attempt calls) f)
unfolding attempt
Ends-attempt Q [] f l h = tt
Ends-attempt Q (interrupted ∷ cs) f l h = Ends-attempt Q cs f l h
Ends-attempt Q (broken ∷ cs) f l h = l cs
Ends-attempt Q (missing ∷ cs) f l h = tt
Ends-attempt Q (failed ∷ cs) f l h = tt
Ends-attempt Q (ok n bytes ∷ cs) f l h = h n bytes cs

-- One of two outcomes, by a test.
pub if-Ends {ℓ} :
    {A : Type ℓ} (P : A → Type 0) (b : Bool) (o o' : Outcome A)
    → Ends P o
    → Ends P o'
    → Ends P (if b then o else o')
if-Ends P true o o' h h' = h
if-Ends P false o o' h h' = h'
