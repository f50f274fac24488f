-- ===== src/Server/Turns.antt =====
-- The threads of P2/fs/tfs_server.c as turns: a round of `producer`, or what a `consumer` does when it
-- is woken. The turns of a run follow each other in any order.
use so_project.Base.{ℕ, zero, suc, ◌+◌, ◌<◌, ◌≡◌, ℤ, pos, Memory, arith, refl, sym, subst, List}
use so_project.Fs.State.{Fs}
use so_project.Fs.Operations.{Pthread}
use so_project.Calls.{Call, finished, Ends}
use so_project.Server.State.{on, Server, sessions, init_sessions, start}
use so_project.Server.Producer.{produce}
use so_project.Server.Consumer.{consume}
use so_project.Server.Changes.{Stable, Leaves, consume-Stable}
use so_project.Server.Sessions.{
  NonPositive, IsRunning, pred-NonPositive, update-Numbered, produce-IsRunning,
}

IsRunning-Stable : Stable IsRunning
IsRunning-Stable = record {
  dropped = λ sid s (n, c). (n, pred-NonPositive s.session_count c);
  replied = λ r s h. h;
  stored = λ fs s h. h;
  ended = λ s h. h;
  filled = λ i bytes s (n, c).
      (update-Numbered s.buffer i (record (s.buffer i) { buf = bytes }) n refl, c);
}

pub data Turn (s : Server) : Server → Type 0 where
  produced :
      (heap : Memory) (calls rest : List Call) {t : Server}
      → produce heap s calls ≡ finished t rest
      → Turn s t
  consumed :
      (heap : Memory) (p : Pthread) (others : Fs → Fs) (i : ℕ) (cpipe cpipe' : ℤ)
      (calls rest : List Call) {t : Server}
      → consume heap p others i cpipe s calls ≡ finished (cpipe', t) rest
      → Turn s t

pub data Run (s : Server) : Server → Type 0 where
  no_turn : Run s s
  turn : {t u : Server} → Run s t → Turn t u → Run s u

Turn-IsRunning : {s t : Server} → IsRunning s → Turn s t → IsRunning t
Turn-IsRunning {s} {t} r (produced heap calls rest e) =
    subst (Ends IsRunning) e (produce-IsRunning heap s calls r)
Turn-IsRunning {s} {t} r (consumed heap p others i cpipe cpipe' calls rest e) =
    subst (Ends (Leaves IsRunning)) e
      (consume-Stable IsRunning IsRunning-Stable heap p others i cpipe s calls r)

init_sessions-Numbered :
    (n i : ℕ) (s : Server)
    → ((k : ℕ) → k < i → (s.buffer k).session_id ≡ pos k)
    → (k : ℕ) → k < i + n
    → ((init_sessions n i s).buffer k).session_id ≡ pos k
unfolding init_sessions
init_sessions-Numbered zero i s h k lt = h k (omega arith)
init_sessions-Numbered (suc n) i s h k lt =
    init_sessions-Numbered n (i + 1) _ (λ j lt'. ground (arith, h j)) k (omega arith)

init_sessions-count : (n i : ℕ) (s : Server) → (init_sessions n i s).session_count ≡ s.session_count
unfolding init_sessions
init_sessions-count zero i s = refl
init_sessions-count (suc n) i s = init_sessions-count n (i + 1) _

start-IsRunning : (s : Server) → IsRunning (start s)
unfolding start
start-IsRunning s =
    let begun = record s { status = on; session_count = pos 0 } in
    (
      init_sessions-Numbered sessions 0 begun (λ k lt. absurd (omega arith)),
      subst NonPositive (sym (init_sessions-count sessions 0 begun)) refl,
    )

Run-IsRunning : {s t : Server} → IsRunning s → Run s t → IsRunning t
Run-IsRunning r no_turn = r
Run-IsRunning r (turn run last) = Turn-IsRunning (Run-IsRunning r run) last

-- Whatever rounds of the producer and of the consumers follow the start of the server, with any
-- results of the system calls: the buffer of each session of the table keeps the session's own
-- number, and `session_count` is never above 0.
pub start-Run-IsRunning : (s : Server) {t : Server} → Run (start s) t → IsRunning t
start-Run-IsRunning s run = Run-IsRunning (start-IsRunning s) run
