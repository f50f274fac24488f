-- ===== src/Server/Shutdown.antt =====
-- The threads of P2/fs/tfs_server.c with the condition variables that the consumers wait on, up to the
-- joins of main.
use so_project.Base.{ℕ, ◌<◌, ◌≡◌, ◌≢◌, ℤ, Memory, update, List, [], ◌∷◌}
use so_project.Fs.State.{Fs}
use so_project.Fs.Operations.{Pthread}
use so_project.Calls.{Call, finished}
use so_project.Server.State.{on, off, Server, sessions}
use so_project.Server.Producer.{produce}
use so_project.Server.Consumer.{consume}

-- Where a consumer stands.
pub data Place : Type 0 where
  at_head : Place  -- before the test of the loop
  waits : Place  -- in pthread_cond_wait
  woken : Place  -- behind it
  ended : Place  -- behind the loop

-- Where the producer stands: before the test of its loop, in a round, which begins with a read that
-- waits for a request, or behind the loop.
pub data Producing : Type 0 where
  testing reading stopped : Producing

-- `pthread_cond_signal`: it wakes the consumer if it waits, and is lost otherwise.
abbrev pub signalled : Place → Place
signalled waits = woken
signalled at_head = at_head
signalled woken = woken
signalled ended = ended

unfoldable pub wake : List ℕ → (ℕ → Place) → ℕ → Place
wake [] f = f
wake (k ∷ ks) f = let g = wake ks f in update g k (signalled (g k))

-- The globals, the producer's place, and each consumer's place and `cpipe`.
pub record Threads : Type 0 where
  pub server : Server
  pub producing : Producing
  pub places : ℕ → Place
  pub pipes : ℕ → ℤ

pub data Step (s : Threads) : Threads → Type 0 where
  begins : s.producing ≡ testing → s.server.status ≡ on → Step s (record s { producing = reading })
  produced :
      (heap : Memory) (calls rest : List Call) {t : Server}
      → s.producing ≡ reading
      → produce heap (record s.server { signals = [] }) calls ≡ finished t rest
      → Step s (record s { server = t; producing = testing; places = wake t.signals s.places })
  stops : s.producing ≡ testing → s.server.status ≡ off → Step s (record s { producing = stopped })
  enters :
      (i : ℕ)
      → s.places i ≡ at_head
      → s.server.status ≡ on
      → Step s (record s { places = update s.places i waits })
  leaves :
      (i : ℕ)
      → s.places i ≡ at_head
      → s.server.status ≡ off
      → Step s (record s { places = update s.places i ended })
  -- pthread_cond_wait may return without a signal, and its loop tests only the status
  wakes_early :
      (i : ℕ) → s.places i ≡ waits → Step s (record s { places = update s.places i woken })
  consumed :
      (heap : Memory) (p : Pthread) (others : Fs → Fs) (i : ℕ) (cpipe : ℤ) (calls rest : List Call)
      {t : Server}
      → s.places i ≡ woken
      → consume heap p others i (s.pipes i) s.server calls ≡ finished (cpipe, t) rest
      → Step s (record s {
        server = t;
        places = update s.places i at_head;
        pipes = update s.pipes i cpipe;
      })

pub data Steps (s : Threads) : Threads → Type 0 where
  no_step : Steps s s
  then_step : {t u : Threads} → Steps s t → Step t u → Steps s u

-- No wait of these steps returned without a signal.
abbrev pub IsSignalled : {s t : Threads} → Step s t → Type 0
IsSignalled (wakes_early i w) = ⊥
IsSignalled _ = Unit

abbrev pub AllSignalled : {s t : Threads} → Steps s t → Type 0
AllSignalled no_step = Unit
AllSignalled (then_step run last) = AllSignalled run × IsSignalled last

-- Every join of main has returned.
pub record Joined (s : Threads) : Type 0 where
  pub producer_ended : s.producing ≡ stopped
  pub consumers_ended : (i : ℕ) → i < sessions → s.places i ≡ ended

IsOff : Server → Type 0
IsOff s = s.status ≡ off

-- The server is off, the producer is in no round, and the consumer i waits.
abbrev Stuck : ℕ → Threads → Type 0
Stuck i s = IsOff s.server × (s.producing ≢ reading) × (s.places i ≡ waits)
