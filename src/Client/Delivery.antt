-- ===== src/Client/Delivery.antt =====
-- The messages of the client at the server. A read of the pipe gives as many bytes as it asks for, in
-- the order in which they were written.
use so_project.Base.{
  ℕ, zero, suc, ◌+◌, ◌≤◌, ◌<◌, ◌≡◌, ℤ, pos, pos_part, in_range, Memory, load_int, chars, length,
  true, if◌then◌else◌, arith, refl, ap, ◌∙◌, List, [], ◌∷◌,
}
use so_project.Calls.{
  Call, Outcome, finished, undefined, ok, and_then, must, received, received_int,
}
use so_project.Server.State.{on, Server, sessions}
use so_project.Server.Producer.{
  set_command, post, close_request, with_session, read_fnum, dispatch, produce, rounds,
}

abbrev pub slice : Memory → ℕ → ℕ → List ℕ
slice m a zero = []
slice m a (suc n) = m a ∷ slice m (a + 1) n

-- The results of reads of these sizes from the address a of the message on.
abbrev pub pieces : Memory → ℕ → List ℕ → List Call → List Call
pieces m a [] rest = rest
pieces m a (n ∷ sizes) rest = ok n (slice m a n) ∷ pieces m (a + n) sizes rest

-- The sizes of the reads of a request, then n op codes.
abbrev pub with_op_codes : List ℕ → ℕ → List ℕ
with_op_codes [] zero = []
with_op_codes [] (suc n) = 1 ∷ with_op_codes [] n
with_op_codes (k ∷ sizes) n = k ∷ with_op_codes sizes n

-- The server when the producer has read an op code 0, which is no request.
abbrev pub idle : Server → Server
idle s = record s { cbuf = record s.cbuf { op_code = 0 } }

rounds-on :
    (n : ℕ) (heap : Memory) (s : Server) (calls : List Call)
    → s.status ≡ on
    → rounds (suc n) heap s calls ≡ and_then (produce heap s calls) (rounds n heap)
unfolding rounds
rounds-on n heap s calls e = rw e refl

produce-zero :
    (heap : Memory) (s : Server) (calls : List Call)
    → produce heap s (ok 1 (0 ∷ []) ∷ calls) ≡ finished (idle s) calls
unfolding produce dispatch must
produce-zero heap s calls = refl

first_padding :
    (n a : ℕ) (heap m : Memory) (s : Server) (rest : List Call)
    → s.status ≡ on
    → m a ≡ 0
    → rounds (suc n) heap s (pieces m a (with_op_codes [] (suc n)) rest)
      ≡ rounds n heap (idle s) (pieces m (a + 1) (with_op_codes [] n) rest)
first_padding n a heap m s rest e z =
    rounds-on n heap s _ e
    ∙ ap
        (λ b.
          and_then (produce heap s (ok 1 (b ∷ []) ∷ pieces m (a + 1) (with_op_codes [] n) rest))
            (rounds n heap))
        z
    ∙ ap (λ o. and_then o (rounds n heap)) (produce-zero heap s _)

idle_padding :
    (n a : ℕ) (heap m : Memory) (s : Server) (rest : List Call)
    → s.status ≡ on
    → ((k : ℕ) → a ≤ k → m k ≡ 0)
    → rounds n heap (idle s) (pieces m a (with_op_codes [] n) rest) ≡ finished (idle s) rest
unfolding rounds
idle_padding zero a heap m s rest e z = refl
idle_padding (suc n) a heap m s rest e z =
    first_padding n a heap m (idle s) rest e (z a (omega arith))
    ∙ idle_padding n (a + 1) heap m s rest e (λ k le. z k (omega arith))

-- A request that takes one round, then the zero bytes behind it, which are read as op codes and
-- change nothing else.
pub rounds-message :
    (n a : ℕ) (heap m : Memory) (s t : Server) (calls rest : List Call)
    → s.status ≡ on
    → produce heap s calls ≡ finished t (pieces m a (with_op_codes [] (suc n)) rest)
    → t.status ≡ on
    → ((k : ℕ) → a ≤ k → m k ≡ 0)
    → rounds (suc (suc n)) heap s calls ≡ finished (idle t) rest
rounds-message n a heap m s t calls rest e p e' z =
    rounds-on (suc n) heap s calls e
    ∙ ap (λ o. and_then o (rounds (suc n) heap)) p
    ∙ first_padding n a heap m t rest e' (z a (omega arith))
    ∙ idle_padding n (a + 1) heap m t rest e' (λ k le. z k (omega arith))

pub with_session-read :
    (request : ℕ → Server → List Call → Outcome Server) (m : Memory) (i : ℕ) (s : Server)
    (cs : List Call)
    → i < sessions
    → load_int m 1 ≡ pos i
    → with_session request s (ok 4 (slice m 1 4) ∷ cs)
      ≡ request i (record s { cbuf = record s.cbuf { session_id = pos i } }) cs
unfolding with_session must
with_session-read request m i s cs lt e =
    let in_table : in_range sessions (pos i) ≡ true = ground arith in
    ap
      (λ z.
        if in_range sessions z
        then request (pos_part z) (record s { cbuf = record s.cbuf { session_id = z } }) cs
        else undefined)
      e
    ∙ ap
        (λ b.
          if b
          then request i (record s { cbuf = record s.cbuf { session_id = pos i } }) cs
          else undefined)
        in_table

pub read_fnum-read :
    (m : Memory) (a : ℕ) (z : ℤ) (i : ℕ) (s : Server) (cs : List Call)
    → received_int (s.buffer i).fnum (slice m a 4) ≡ z
    → read_fnum i s (ok 4 (slice m a 4) ∷ cs)
      ≡ finished (set_command i (record (s.buffer i) { fnum = z }) s) cs
unfolding read_fnum must
read_fnum-read m a z i s cs e =
    ap (λ z'. finished (set_command i (record (s.buffer i) { fnum = z' }) s) cs) e

-- The server when the op code and the session id of a request have been read.
abbrev pub addressed : ℕ → ℕ → Server → Server
addressed op i s = record s { cbuf = record s.cbuf { op_code = op; session_id = pos i } }

module _ (heap : Memory) (i : ℕ) (s : Server) (lt : i < sessions) where
  pub close_produced :
      (m : Memory) (z : ℤ) (calls : List Call)
      → m 0 ≡ b'4'
      → load_int m 1 ≡ pos i
      → load_int m 5 ≡ z
      → produce heap s (pieces m 0 (1 ∷ 4 ∷ 4 ∷ []) calls)
        ≡ finished
            (post i b'4' (set_command i (record (s.buffer i) { fnum = z }) (addressed b'4' i s)))
            calls
  unfolding produce dispatch must
  close_produced m z calls op id fnum =
      let rest = ok 4 (slice m 5 4) ∷ calls in
      ap (λ b. produce heap s (ok 1 (b ∷ []) ∷ ok 4 (slice m 1 4) ∷ rest)) op
      ∙ with_session-read close_request m i (record s { cbuf = record s.cbuf { op_code = b'4' } })
          rest lt id
      ∙ ap (λ o. and_then o (λ s' cs. finished (post i b'4' s') cs))
          (read_fnum-read m 5 z i (addressed b'4' i s) calls fnum)

-- What a read has stored.
length-slice : (m : Memory) (a n : ℕ) → length (slice m a n) ≡ n
length-slice m a zero = refl
length-slice m a (suc n) = ap (λ k. suc k) (length-slice m (a + 1) n)

chars-slice : (m : Memory) (a n k : ℕ) → k < n → chars (slice m a n) k ≡ m (a + k)
chars-slice m a zero k lt = absurd (omega arith)
chars-slice m a (suc n) zero lt = ground arith
chars-slice m a (suc n) (suc k) lt = ground (arith, chars-slice m (a + 1) n k (omega arith))

pub received-slice :
    (old m : Memory) (a n k : ℕ) → k < n → received n old (slice m a n) k ≡ m (a + k)
received-slice old m a n k lt = ground (arith, length-slice m a n, chars-slice m a n k lt)
