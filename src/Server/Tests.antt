-- ===== src/Server/Tests.antt =====
-- Concrete runs of the server of P2/fs/tfs_server.c.
use so_project.Base.{
  ℕ, ◌<◌, ◌≡◌, ◌≢◌, minus_one, Memory, arith, refl, pos, update, first_free, List, [], ◌∷◌,
}
use so_project.Calls.{
  Call, ok, interrupted, missing, Outcome, finished, waiting, exited, undefined, must, received,
}
use so_project.Server.State.{off, Server, process, sessions, max_pipe_name, start, init_sessions}
use so_project.Server.Producer.{produce, dispatch, mount, mount_sessions, mount_session}
use so_project.Server.Sessions.{IsRunning}
use so_project.Server.Turns.{Run, no_turn, turn, produced, start-Run-IsRunning}
use so_project.Fs.State.{state_init}
use so_project.Fs.Block.{data_block_alloc, data_block_get}
use so_project.Fs.Inode.{inode_create, clear_entries}
use so_project.Fs.Operations.{works, tfs_init}
use so_project.Server.Main.{
  Startup, threads, unlink_pipe, make_server_pipe, begin_sessions, begin_threads, main,
  main-Run-IsRunning,
}
use so_project.Server.Shutdown.{Threads, testing, at_head, waits}
use so_project.Server.Mounting.{mount_takes_all, mount-full, taken_status, taken_command}

abbrev heap : Memory
heap k = 0

-- A client mounts with the pipe "p", after a read that was interrupted.
abbrev pipe_p : List ℕ
pipe_p = b'p' ∷ 0 ∷ []

abbrev mount_calls : List Call
mount_calls = interrupted ∷ ok 1 (b'1' ∷ []) ∷ ok 40 pipe_p ∷ []

state_or : Server → Outcome Server → Server
state_or s (finished t cs) = t
state_or s waiting = s
state_or s exited = s
state_or s undefined = s

all_mounted : Server
unfolding state_or
all_mounted = state_or process (produce heap (start process) mount_calls)

all_mounted-produced : produce heap (start process) mount_calls ≡ finished all_mounted []
unfolding all_mounted state_or produce dispatch mount must start init_sessions
all_mounted-produced = refl

mounted-Run : Run (start process) all_mounted
mounted-Run = turn no_turn (produced heap mount_calls [] all_mounted-produced)

-- Every call of pthread succeeds.
abbrev all_start : Startup
all_start = record {
  mutex_init = λ i. pos 0;
  cond_init = λ i. pos 0;
  consumer_create = λ i. pos 0;
  producer_create = pos 0;
}

-- There is no old pipe, and the new one can be made.
abbrev main_calls : List Call
main_calls = missing ∷ ok 0 [] ∷ []

-- The memory of the process, with the file system ready.
abbrev prepared : Server
prepared = record process { fs = (tfs_init works process.fs).1 }

main-started : main 2 works all_start process main_calls ≡ finished (threads (start prepared)) []
unfolding main unlink_pipe make_server_pipe begin_threads begin_sessions start init_sessions
    tfs_init state_init inode_create data_block_alloc data_block_get clear_entries first_free
main-started = refl

prepared_mount : Server
unfolding state_or
prepared_mount = state_or process (produce heap (start prepared) mount_calls)

prepared_mount-produced : produce heap (start prepared) mount_calls ≡ finished prepared_mount []
unfolding prepared_mount state_or produce dispatch mount must start init_sessions
prepared_mount-produced = refl

main-Run-IsRunning_example : IsRunning prepared_mount
main-Run-IsRunning_example =
    main-Run-IsRunning 2 works all_start process (start prepared) prepared_mount main_calls []
      main-started (turn no_turn (produced heap mount_calls [] prepared_mount-produced))

started : IsRunning (start process)
started = start-Run-IsRunning process no_turn

mount_takes_all_example :
    (t : Server) × (mount (start process) (ok 40 pipe_p ∷ []) ≡ finished t [])
    × (t.replies ≡ (start process).replies)
    × ((k : ℕ)
        → k < sessions
        → (t.session_status k ≡ taken_status ((start process).session_status k))
          × (t.buffer k
              ≡ taken_command
                  (received max_pipe_name (start process).cbuf.pipename pipe_p)
                  ((start process).session_status k)
                  ((start process).buffer k)))
mount_takes_all_example = mount_takes_all (start process) 40 pipe_p [] started

-- No session is left for a second client.
none_left : (k : ℕ) → k < sessions → all_mounted.session_status k ≢ minus_one
unfolding all_mounted state_or produce dispatch mount must start init_sessions mount_sessions
    mount_session
none_left k lt = ground arith

mount-full_example :
    mount all_mounted (ok 40 (b'q' ∷ 0 ∷ []) ∷ [])
    ≡ finished
        (record all_mounted {
          cbuf = record all_mounted.cbuf {
            pipename = received max_pipe_name all_mounted.cbuf.pipename (b'q' ∷ 0 ∷ []);
          };
        })
        []
mount-full_example = mount-full process 40 (b'q' ∷ 0 ∷ []) [] mounted-Run none_left

-- The session 0 has shut the server down while the session 1 waits.
abbrev shut : Threads
shut = record {
  server = record all_mounted { status = off };
  producing = testing;
  places = update (λ i. waits) 0 at_head;
  pipes = λ i. pos 5;
}
