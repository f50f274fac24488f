-- ===== src/Server/Sessions.antt =====
-- The invariant of the sessions in P2/fs/tfs_server.c, and that the rounds of `producer` keep it.
use so_project.Base.{
  ℕ, zero, suc, ◌+◌, ◌<◌, ◌≡◌, inl, inr, ℤ, pos, negsuc, minus_one, pred_ℤ, ◌==ℤ◌, in_range, Memory,
  Bool-cases, update, arith, refl, ◌==◌, List,
}
use so_project.Calls.{
  Call, Outcome, and_then, must, Ends, Ends-and_then, Ends-after, if-Ends, received_int,
}
use so_project.Server.State.{Command, Server, sessions}
use so_project.Server.Producer.{
  post, at_least_sessions, mount_session, mount_sessions, refuse, mount, with_session, read_name,
  read_fnum, read_len, read_content, unmount_request, open_request, close_request, write_request,
  read_request, shutdown_request, dispatch, produce,
}

-- `session_count` is at most 0.
abbrev pub NonPositive : ℤ → Type 0
NonPositive (pos n) = n ≡ 0
NonPositive (negsuc n) = Unit

-- Every session's buffer has the session's number.
abbrev pub Numbered : (ℕ → Command) → Type 0
Numbered b = (i : ℕ) → i < sessions → (b i).session_id ≡ pos i

abbrev pub IsRunning : Server → Type 0
IsRunning s = Numbered s.buffer × NonPositive s.session_count

pub pred-NonPositive : (z : ℤ) → NonPositive z → NonPositive (pred_ℤ z)
pred-NonPositive (pos zero) h = tt
pred-NonPositive (pos (suc n)) h = absurd (omega arith)
pred-NonPositive (negsuc n) h = tt

pub update-Numbered :
    (b : ℕ → Command) (i : ℕ) (c : Command)
    → Numbered b
    → c.session_id ≡ (b i).session_id
    → Numbered (update b i c)
update-Numbered b i c n e k lt = ground (arith, n k lt)

mount_session-IsRunning : (i : ℕ) (s : Server) → IsRunning s → IsRunning (mount_session i s)
unfolding mount_session
mount_session-IsRunning i s (n, c) = elim (Bool-cases (s.session_status i ==ℤ minus_one)) [
  | inl e ↦ rw e (update-Numbered s.buffer i _ n refl, c)
  | inr e ↦ rw e (n, c)
]

mount_sessions-IsRunning : (n i : ℕ) (s : Server) → IsRunning s → IsRunning (mount_sessions n i s)
unfolding mount_sessions
mount_sessions-IsRunning zero i s r = r
mount_sessions-IsRunning (suc n) i s r =
    mount_sessions-IsRunning n (i + 1) (mount_session i s) (mount_session-IsRunning i s r)

refuse-IsRunning : (s : Server) (calls : List Call) → IsRunning s → Ends IsRunning (refuse s calls)
unfolding refuse
refuse-IsRunning s calls r = Ends-after IsRunning (must calls) _ (λ opened cs.
    Ends-after IsRunning (must cs) _
      (λ written cs'. Ends-after IsRunning (must cs') _ (λ closed cs''. r)))

mount-IsRunning : (s : Server) (calls : List Call) → IsRunning s → Ends IsRunning (mount s calls)
unfolding mount
mount-IsRunning s calls r = Ends-after IsRunning (must calls) _ (λ name cs.
    elim (Bool-cases (at_least_sessions s.session_count)) [
      | inl e ↦ rw e (refuse-IsRunning _ cs r)
      | inr e ↦ rw e (mount_sessions-IsRunning sessions 0 _ r)
    ])

-- A request keeps the invariant.
abbrev Keeps : (ℕ → Server → List Call → Outcome Server) → Type 0
Keeps request =
    (i : ℕ) (s : Server) (calls : List Call) → IsRunning s → Ends IsRunning (request i s calls)

with_session-IsRunning :
    (request : ℕ → Server → List Call → Outcome Server)
    → Keeps request
    → (s : Server) (calls : List Call) → IsRunning s
    → Ends IsRunning (with_session request s calls)
unfolding with_session
with_session-IsRunning request keeps s calls r = Ends-after IsRunning (must calls) _ (λ id cs.
    elim (Bool-cases (in_range sessions (received_int s.cbuf.session_id id.1))) [
      | inl e ↦ rw e (keeps _ _ cs r)
      | inr e ↦ rw e tt
    ])

read_name-IsRunning : Keeps read_name
unfolding read_name
read_name-IsRunning i s calls (n, c) =
    Ends-after IsRunning (must calls) _ (λ r cs. (update-Numbered s.buffer i _ n refl, c))

read_fnum-IsRunning : Keeps read_fnum
unfolding read_fnum
read_fnum-IsRunning i s calls (n, c) =
    Ends-after IsRunning (must calls) _ (λ r cs. (update-Numbered s.buffer i _ n refl, c))

read_len-IsRunning : Keeps read_len
unfolding read_len
read_len-IsRunning i s calls (n, c) =
    Ends-after IsRunning (must calls) _ (λ r cs. (update-Numbered s.buffer i _ n refl, c))

read_content-IsRunning : (heap : Memory) → Keeps (read_content heap)
unfolding read_content
read_content-IsRunning heap i s calls (n, c) =
    Ends-after IsRunning (must calls) _ (λ r cs. (update-Numbered s.buffer i _ n refl, c))

post-IsRunning : (i op : ℕ) (s : Server) → IsRunning s → IsRunning (post i op s)
post-IsRunning i op s (n, c) = (update-Numbered s.buffer i _ n refl, c)

open_request-IsRunning : Keeps open_request
open_request-IsRunning i s calls r =
    Ends-and_then IsRunning IsRunning (read_name i s calls) _ (read_name-IsRunning i s calls r)
      (λ s' cs r'.
        Ends-and_then IsRunning IsRunning (read_fnum i s' cs) _ (read_fnum-IsRunning i s' cs r')
          (λ s'' cs' r''. post-IsRunning i b'3' s'' r''))

close_request-IsRunning : Keeps close_request
close_request-IsRunning i s calls r =
    Ends-and_then IsRunning IsRunning (read_fnum i s calls) _ (read_fnum-IsRunning i s calls r)
      (λ s' cs r'. post-IsRunning i b'4' s' r')

-- The reads of fnum and len, and what follows them.
fnum_len-IsRunning :
    (f : Server → List Call → Outcome Server) (i : ℕ) (s : Server) (calls : List Call)
    → IsRunning s
    → ((t : Server) (cs : List Call) → IsRunning t → Ends IsRunning (f t cs))
    → Ends IsRunning (and_then (read_fnum i s calls) (λ s' cs. and_then (read_len i s' cs) f))
fnum_len-IsRunning f i s calls r h =
    Ends-and_then IsRunning IsRunning (read_fnum i s calls) _ (read_fnum-IsRunning i s calls r)
      (λ s' cs r'.
        Ends-and_then IsRunning IsRunning (read_len i s' cs) f (read_len-IsRunning i s' cs r') h)

write_request-IsRunning : (heap : Memory) → Keeps (write_request heap)
write_request-IsRunning heap i s calls r = fnum_len-IsRunning _ i s calls r (λ s' cs r'.
    Ends-and_then IsRunning IsRunning (read_content heap i s' cs) _
      (read_content-IsRunning heap i s' cs r') (λ s'' cs' r''. post-IsRunning i b'5' s'' r''))

read_request-IsRunning : Keeps read_request
read_request-IsRunning i s calls r =
    fnum_len-IsRunning _ i s calls r (λ s' cs r'. post-IsRunning i b'6' s' r')

dispatch-IsRunning :
    (heap : Memory) (s : Server) (calls : List Call)
    → IsRunning s
    → Ends IsRunning (dispatch heap s calls)
unfolding dispatch
dispatch-IsRunning heap s calls r =
    let requested : (request : ℕ → Server → List Call → Outcome Server)
        → Keeps request
        → Ends IsRunning (with_session request s calls) =
      λ request keeps. with_session-IsRunning request keeps s calls r in
    if-Ends IsRunning (s.cbuf.op_code == b'1') _ _ (mount-IsRunning s calls r) (
      if-Ends IsRunning (s.cbuf.op_code == b'2') _ _
        (requested unmount_request (λ i t cs r'. post-IsRunning i b'2' t r'))
        (if-Ends IsRunning (s.cbuf.op_code == b'3') _ _
          (requested open_request open_request-IsRunning)
          (if-Ends IsRunning (s.cbuf.op_code == b'4') _ _
            (requested close_request close_request-IsRunning)
            (if-Ends IsRunning (s.cbuf.op_code == b'5') _ _
              (requested (write_request heap) (write_request-IsRunning heap))
              (if-Ends IsRunning (s.cbuf.op_code == b'6') _ _
                (requested read_request read_request-IsRunning)
                (if-Ends IsRunning (s.cbuf.op_code == b'7') _ _
                  (requested shutdown_request (λ i t cs r'. post-IsRunning i b'7' t r')) r))))))

pub produce-IsRunning :
    (heap : Memory) (s : Server) (calls : List Call)
    → IsRunning s
    → Ends IsRunning (produce heap s calls)
unfolding produce
produce-IsRunning heap s calls r =
    Ends-after IsRunning (must calls) _ (λ op cs. dispatch-IsRunning heap _ cs r)
