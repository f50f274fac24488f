-- ===== src/Server/Mounting.antt =====
-- The loop of MOUNT in `producer` of P2/fs/tfs_server.c over the table of sessions.
use so_project.Base.{
  ℕ, zero, suc, ◌+◌, ◌≤◌, ◌<◌, ◌≡◌, ◌≢◌, inl, inr, ℤ, pos, negsuc, minus_one, ◌==ℤ◌, Memory,
  ==ℤ_iff, Bool-cases, false, if◌then◌else◌, arith, refl, ap, ◌∙◌, List, ◌∷◌,
}
use so_project.Calls.{Call, finished, ok, must, received}
use so_project.Server.State.{Command, Server, sessions, max_pipe_name, start}
use so_project.Server.Producer.{mount_session, mount_sessions, mount, at_least_sessions}
use so_project.Server.Sessions.{IsRunning, NonPositive}
use so_project.Server.Turns.{Run, start-Run-IsRunning}
use native.Mathlib.Decide.{ℕ_discrete}

-- A free session becomes taken and gets the request and the client's pipe; others stay.
abbrev pub taken_status : ℤ → ℤ
taken_status z = if z ==ℤ minus_one then pos 0 else z

abbrev pub taken_command : Memory → ℤ → Command → Command
taken_command pipe z c = if z ==ℤ minus_one then record c { op_code = b'1'; pipename = pipe } else c

-- The session k of t, when the loop has been at it, and when it has not.
abbrev Visited : Server → ℕ → Server → Type 0
Visited s k t =
    (t.session_status k ≡ taken_status (s.session_status k))
    × (t.buffer k ≡ taken_command s.cbuf.pipename (s.session_status k) (s.buffer k))

abbrev Untouched : Server → ℕ → Server → Type 0
Untouched s k t = (t.session_status k ≡ s.session_status k) × (t.buffer k ≡ s.buffer k)

mount_session-Visited : (i : ℕ) (s : Server) → Visited s i (mount_session i s)
unfolding mount_session
mount_session-Visited i s = ground arith

mount_session-Untouched : (i k : ℕ) (s : Server) → k ≢ i → Untouched s k (mount_session i s)
unfolding mount_session
mount_session-Untouched i k s ne = ground arith

mount_session-cbuf : (i : ℕ) (s : Server) → (mount_session i s).cbuf ≡ s.cbuf
unfolding mount_session
mount_session-cbuf i s = ground arith

mount_sessions-Untouched : (n i k : ℕ) (s : Server) → k < i → Untouched s k (mount_sessions n i s)
unfolding mount_sessions
mount_sessions-Untouched zero i k s lt = (refl, refl)
mount_sessions-Untouched (suc n) i k s lt =
    let (a, b) = mount_sessions-Untouched n (i + 1) k (mount_session i s) (omega arith) in
    let (c, d) = mount_session-Untouched i k s (λ e. omega arith) in (a ∙ c, b ∙ d)

mount_sessions-Visited :
    (n i k : ℕ) (s : Server) → i ≤ k → k < i + n → Visited s k (mount_sessions n i s)
unfolding mount_sessions
mount_sessions-Visited zero i k s le lt = absurd (omega arith)
mount_sessions-Visited (suc n) i k s le lt = elim (ℕ_discrete k i) [
  | yes e ↦
      (let (a, b) = mount_sessions-Untouched n (i + 1) k (mount_session i s) (omega arith) in
        rw e (
          let (c, d) = mount_session-Visited i s in
          let (a', b') = mount_sessions-Untouched n (i + 1) i (mount_session i s) (omega arith) in
          (a' ∙ c, b' ∙ d)))
  | no ne ↦
      (let (a, b) =
          mount_sessions-Visited n (i + 1) k (mount_session i s) (omega arith) (omega arith) in
        let (c, d) = mount_session-Untouched i k s ne in
        let pipe = mount_session-cbuf i s in (a ∙ ap taken_status c, b ∙ cc (c, d, pipe)))
]

-- `cbuf` after the read of the pipe's name.
abbrev named : List ℕ → Server → Server
named name s = record s {
  cbuf = record s.cbuf { pipename = received max_pipe_name s.cbuf.pipename name };
}

not_full : (z : ℤ) → NonPositive z → at_least_sessions z ≡ false
not_full (pos n) h = ground arith
not_full (negsuc n) h = refl

mount-accepted :
    (s : Server) (n : ℕ) (name : List ℕ) (cs : List Call)
    → IsRunning s
    → mount s (ok n name ∷ cs) ≡ finished (mount_sessions sessions 0 (named name s)) cs
unfolding mount must
mount-accepted s n name cs (numbered, count) = rw (not_full s.session_count count) refl

mount_session-replies : (i : ℕ) (s : Server) → (mount_session i s).replies ≡ s.replies
unfolding mount_session
mount_session-replies i s = ground arith

mount_sessions-replies : (n i : ℕ) (s : Server) → (mount_sessions n i s).replies ≡ s.replies
unfolding mount_sessions
mount_sessions-replies zero i s = refl
mount_sessions-replies (suc n) i s =
    mount_sessions-replies n (i + 1) (mount_session i s) ∙ mount_session-replies i s

mount_session-taken : (i : ℕ) (s : Server) → s.session_status i ≢ minus_one → mount_session i s ≡ s
unfolding mount_session
mount_session-taken i s ne = elim (Bool-cases (s.session_status i ==ℤ minus_one)) [
  | inl e ↦ absurd (ne ((==ℤ_iff (s.session_status i) minus_one).0 e))
  | inr e ↦ rw e refl
]

mount_sessions-taken :
    (n i : ℕ) (s : Server)
    → ((k : ℕ) → i ≤ k → k < i + n → s.session_status k ≢ minus_one)
    → mount_sessions n i s ≡ s
unfolding mount_sessions
mount_sessions-taken zero i s h = refl
mount_sessions-taken (suc n) i s h =
    ap (mount_sessions n (i + 1)) (mount_session-taken i s (h i (omega arith) (omega arith)))
    ∙ mount_sessions-taken n (i + 1) s (λ k le lt. h k (omega arith) (omega arith))

-- The bug of the missing break: in a running server, one request to mount takes every session that
-- is free, gives each of them the request and the client's pipe, and leaves the sessions that are
-- taken as they were; the producer itself replies nothing.
pub mount_takes_all :
    (s : Server) (n : ℕ) (name : List ℕ) (cs : List Call)
    → IsRunning s
    → (t : Server) × (mount s (ok n name ∷ cs) ≡ finished t cs)
      × (t.replies ≡ s.replies)
      × ((k : ℕ)
          → k < sessions
          → (t.session_status k ≡ taken_status (s.session_status k))
            × (t.buffer k
                ≡ taken_command
                    (received max_pipe_name s.cbuf.pipename name)
                    (s.session_status k)
                    (s.buffer k)))
mount_takes_all s n name cs r = (
  mount_sessions sessions 0 (named name s),
  mount-accepted s n name cs r,
  mount_sessions-replies sessions 0 (named name s),
  λ k lt. mount_sessions-Visited sessions 0 k (named name s) (omega arith) (omega arith),
)

-- The bug of the count: in any state that a started server reaches in which no session is free, a
-- request to mount is not refused; the producer takes in the name of the pipe and does nothing else,
-- so that the client gets no answer.
pub mount-full :
    (s : Server) {t : Server} (n : ℕ) (name : List ℕ) (cs : List Call)
    → Run (start s) t
    → ((k : ℕ) → k < sessions → t.session_status k ≢ minus_one)
    → mount t (ok n name ∷ cs)
      ≡ finished
          (record t {
            cbuf = record t.cbuf { pipename = received max_pipe_name t.cbuf.pipename name };
          })
          cs
mount-full s {t} n name cs run taken_all =
    mount-accepted t n name cs (start-Run-IsRunning s run)
    ∙ ap (λ u. finished u cs)
        (mount_sessions-taken sessions 0 (named name t) (λ k le lt. taken_all k (omega arith)))
