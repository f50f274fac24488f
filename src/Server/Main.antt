-- ===== src/Server/Main.antt =====
-- main of P2/fs/tfs_server.c up to the threads, and the beginning and the end of the threads around
-- their loops.
use so_project.Base.{
  ℕ, zero, suc, ◌+◌, ◌≡◌, ℤ, pos, minus_one, Memory, Bool, true, false, ltb, if◌then◌else◌, update,
  Option, none, some, List, [], ◌∷◌, refl, sym, subst, inl, inr, Bool-cases, Option-cases,
}
use so_project.Fs.Operations.{Pthread, fails, tfs_init}
use so_project.Calls.{
  Call, Outcome, finished, waiting, exited, interrupted, broken, missing, failed, ok, and_then,
  must, Ends, if-Ends,
}
use so_project.Server.State.{on, off, Server, sessions, init_sessions, start}
use so_project.Server.Producer.{rounds}
use so_project.Server.Sessions.{IsRunning}
use so_project.Server.Turns.{Run, start-Run-IsRunning}

-- What pthread_mutex_init, pthread_cond_init and pthread_create return for each session, and
-- pthread_create for the producer.
pub record Startup : Type 0 where
  pub mutex_init : ℕ → ℤ
  pub cond_init : ℕ → ℤ
  pub consumer_create : ℕ → ℤ
  pub producer_create : ℤ

-- The threads run, or main returns.
pub data Begun : Type 0 where
  threads : Server → Begun
  returns : ℤ → Begun

-- `unlink`, where ENOENT is no error.
unfoldable pub unlink_pipe : List Call → (List Call → Outcome Begun) → Outcome Begun
unlink_pipe [] next = waiting
unlink_pipe (interrupted ∷ cs) next = exited
unlink_pipe (broken ∷ cs) next = exited
unlink_pipe (missing ∷ cs) next = next cs
unlink_pipe (failed ∷ cs) next = exited
unlink_pipe (ok n bytes ∷ cs) next = next cs

unfoldable pub make_server_pipe : List Call → (List Call → Outcome Begun) → Outcome Begun
make_server_pipe [] next = waiting
make_server_pipe (interrupted ∷ cs) next = exited
make_server_pipe (broken ∷ cs) next = exited
make_server_pipe (missing ∷ cs) next = exited
make_server_pipe (failed ∷ cs) next = exited
make_server_pipe (ok n bytes ∷ cs) next = next cs

-- The loop over the sessions, with its returns: n of them, from the i-th on.
unfoldable pub begin_sessions : Startup → ℕ → ℕ → Server → Option Server
begin_sessions u zero i s = some s
begin_sessions u (suc n) i s =
    let rest = begin_sessions u n (i + 1) (record s {
      session_status = update s.session_status i minus_one;
      buffer = update s.buffer i (record (s.buffer i) { session_id = pos i });
    }) in
    if fails (u.mutex_init i)
    then none
    else if fails (u.cond_init i)
    then none
    else if fails (u.consumer_create i)
    then none
    else rest

-- From tfs_init on.
unfoldable pub begin_threads : Pthread → Startup → Server → Begun
begin_threads p u s =
    let (r, fs) = tfs_init p s.fs in
    if fails r
    then returns (pos 1)
    else elim (begin_sessions u sessions 0
        (record s { fs = fs; status = on; session_count = pos 0 })) [
          | none ↦ returns (pos 1)
          | some s' ↦ if fails u.producer_create then returns (pos 1) else threads s'
        ]

unfoldable pub main : ℕ → Pthread → Startup → Server → List Call → Outcome Begun
main argc p u s calls =
    if ltb argc 2
    then finished (returns (pos 1)) calls
    else unlink_pipe calls (λ cs. make_server_pipe cs (λ cs'. finished (begin_threads p u s) cs'))

-- The close at the end of the producer, behind its loop.
unfoldable pub end_producer : Server → List Call → Outcome Server
end_producer s calls = elim s.status [
  | on ↦ waiting
  | off ↦ and_then (must calls) (λ closed cs. finished s cs)
]

-- The thread `producer` with at most n rounds; it has not returned if the server is on behind them.
unfoldable pub producer : ℕ → Memory → Server → List Call → Outcome Server
producer n heap s calls =
    and_then (must calls) (λ spipe cs. and_then (rounds n heap s cs) end_producer)

-- The end of a `consumer`: the close of its pipe.
unfoldable pub end_consumer : Server → List Call → Outcome Server
end_consumer s calls = and_then (must calls) (λ closed cs. finished s cs)

passed :
    {A : Type 0} {a : A} (b : Bool) (o : Option A) → (if b then none else o) ≡ some a → o ≡ some a
passed true o e = cc
passed false o e = e

-- When no call of pthread fails, the loop over the sessions is that of the state `start`.
begin_sessions-init_sessions :
    (u : Startup) (n i : ℕ) (s t : Server)
    → begin_sessions u n i s ≡ some t
    → init_sessions n i s ≡ t
unfolding begin_sessions init_sessions
begin_sessions-init_sessions u zero i s t e = cc
begin_sessions-init_sessions u (suc n) i s t e = begin_sessions-init_sessions u n (i + 1) _ t (
    passed (fails (u.consumer_create i)) _
      (passed (fails (u.cond_init i)) _ (passed (fails (u.mutex_init i)) _ e)))

-- The sessions are there unless main returns.
Begins : Server → Begun → Type 0
Begins s (threads t) = start s ≡ t
Begins s (returns r) = r ≡ pos 1

begin_threads-Begins :
    (p : Pthread) (u : Startup) (s : Server)
    → Begins (record s { fs = (tfs_init p s.fs).1 }) (begin_threads p u s)
unfolding begin_threads start Begins
begin_threads-Begins p u s = elim (Bool-cases (fails (tfs_init p s.fs).0)) [
  | inl e ↦ rw e refl
  | inr e ↦
      (let initial = record s { fs = (tfs_init p s.fs).1; status = on; session_count = pos 0 } in
        elim (Option-cases (begin_sessions u sessions 0 initial)) [
          | inl e' ↦ rw e (rw (e', begin_threads) refl)
          | inr (t, e') ↦ elim (Bool-cases (fails u.producer_create)) [
            | inl e'' ↦ rw e (rw (e', begin_threads) (rw e'' refl))
            | inr e'' ↦ rw e (
                rw (e', begin_threads)
                  (rw e'' (begin_sessions-init_sessions u sessions 0 initial t e')))
          ]
        ])
]

unlink_pipe-Ends :
    (P : Begun → Type 0) (calls : List Call) (next : List Call → Outcome Begun)
    → ((cs : List Call) → Ends P (next cs))
    → Ends P (unlink_pipe calls next)
unfolding unlink_pipe
unlink_pipe-Ends P [] next h = tt
unlink_pipe-Ends P (interrupted ∷ cs) next h = tt
unlink_pipe-Ends P (broken ∷ cs) next h = tt
unlink_pipe-Ends P (missing ∷ cs) next h = h cs
unlink_pipe-Ends P (failed ∷ cs) next h = tt
unlink_pipe-Ends P (ok n bytes ∷ cs) next h = h cs

make_server_pipe-Ends :
    (P : Begun → Type 0) (calls : List Call) (next : List Call → Outcome Begun)
    → ((cs : List Call) → Ends P (next cs))
    → Ends P (make_server_pipe calls next)
unfolding make_server_pipe
make_server_pipe-Ends P [] next h = tt
make_server_pipe-Ends P (interrupted ∷ cs) next h = tt
make_server_pipe-Ends P (broken ∷ cs) next h = tt
make_server_pipe-Ends P (missing ∷ cs) next h = tt
make_server_pipe-Ends P (failed ∷ cs) next h = tt
make_server_pipe-Ends P (ok n bytes ∷ cs) next h = h cs

main-Begins :
    (argc : ℕ) (p : Pthread) (u : Startup) (s : Server) (calls : List Call)
    → Ends (Begins (record s { fs = (tfs_init p s.fs).1 })) (main argc p u s calls)
unfolding main Begins
main-Begins argc p u s calls =
    let P = Begins (record s { fs = (tfs_init p s.fs).1 }) in
    if-Ends P (ltb argc 2) _ _ refl (
      unlink_pipe-Ends P calls _
        (λ cs. make_server_pipe-Ends P cs _ (λ cs'. begin_threads-Begins p u s)))

-- From main, with any arguments and any results of its calls: when it starts the threads, then
-- whatever rounds of the producer and of the consumers follow, with any results of the system calls,
-- the buffer of each session of the table keeps the session's own number, and `session_count` is never
-- above 0.
pub main-Run-IsRunning :
    (argc : ℕ) (p : Pthread) (u : Startup) (s t r : Server) (calls rest : List Call)
    → main argc p u s calls ≡ finished (threads t) rest
    → Run t r
    → IsRunning r
unfolding Begins
main-Run-IsRunning argc p u s t r calls rest e run =
    let begins : start (record s { fs = (tfs_init p s.fs).1 }) ≡ t =
      subst (Ends (Begins (record s { fs = (tfs_init p s.fs).1 }))) e
        (main-Begins argc p u s calls) in
    start-Run-IsRunning (record s { fs = (tfs_init p s.fs).1 })
      (subst (λ x. Run x r) (sym begins) run)
