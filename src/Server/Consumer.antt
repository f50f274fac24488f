-- ===== src/Server/Consumer.antt =====
-- The threads `consumer` of P2/fs/tfs_server.c. main stores i in `buffer[i].session_id`, which is the
-- `command->session_id` of its thread; `cpipe` is the thread's local variable.
use so_project.Base.{
  ℕ, ℤ, pos, minus_one, pos_part, pred_ℤ, ◌==ℤ◌, pattern32, Memory, if◌then◌else◌, update, none,
  some, List, ◌∷◌, ◌==◌,
}
use so_project.Fs.Operations.{
  Pthread, tfs_open, tfs_close, tfs_write, tfs_read, tfs_destroy_after_all_closed,
}
use so_project.Fs.State.{Fs}
use so_project.Calls.{
  Call, Outcome, finished, undefined, and_then, must, attempt, one_call, lost, success,
}
use so_project.Server.State.{off, Command, Server, Reply, int_reply, size_reply, content, c_string}
use so_project.Server.Producer.{set_command}

-- `session_status[command->session_id] = -1; session_count--;`
abbrev pub drop_session : ℤ → Server → Server
drop_session sid s = record s {
  session_status = update s.session_status (pos_part sid) minus_one;
  session_count = pred_ℤ s.session_count;
}

-- `write(cpipe, …)`: when the pipe is broken the session is dropped, after a call of close.
unfoldable pub send : ℤ → ℤ → Reply → Server → List Call → Outcome Server
send sid cpipe reply s calls = and_then (attempt calls) (λ a cs. elim a [
  | lost ↦ one_call (drop_session sid s) cs
  | success n bytes ↦ finished (record s { replies = (cpipe, reply) ∷ s.replies }) cs
])

-- The cases of the switch, with the file descriptor afterwards where it is set.
unfoldable pub mounted : ℤ → ℤ → Server → List Call → Outcome (ℤ × Server)
mounted sid cpipe s calls = and_then (attempt calls) (λ a cs.
    let opened : ℤ × Server = elim a [
      | lost ↦ (minus_one, drop_session sid s)
      | success n bytes ↦ (pos n, s)
    ] in
    and_then (send sid opened.0 (int_reply sid) opened.1 cs)
      (λ s' cs'. finished (opened.0, s') cs'))

unfoldable pub unmounted : ℤ → ℤ → Server → List Call → Outcome Server
unmounted sid cpipe s calls =
    let s' = drop_session sid s in
    and_then (must calls) (λ written cs.
      let s'' = record s' { replies = (cpipe, int_reply (pos 0)) ∷ s'.replies } in
      and_then (attempt cs) (λ a cs'. elim a [
        | lost ↦ one_call (drop_session sid s'') cs'
        | success n bytes ↦ finished s'' cs'
      ]))

-- `command->name` is a string if it has a terminator; its length is not checked.
unfoldable pub opened_file : Pthread → Command → ℤ → Server → List Call → Outcome Server
opened_file p command cpipe s calls = elim (c_string 40 0 command.name) [
  | none ↦ undefined
  | some name ↦ elim (tfs_open p (some name) (pattern32 command.fnum) s.fs) [
    | none ↦ undefined
    | some (r, fs') ↦ send command.session_id cpipe (int_reply r) (record s { fs = fs' }) calls
  ]
]

unfoldable pub closed_file : Pthread → Command → ℤ → Server → List Call → Outcome Server
closed_file p command cpipe s calls =
    let (r, fs') = tfs_close p command.fnum s.fs in
    send command.session_id cpipe (int_reply r) (record s { fs = fs' }) calls

unfoldable pub written_file : Pthread → Command → ℤ → Server → List Call → Outcome Server
written_file p command cpipe s calls =
    let (rt, fs') = tfs_write p command.fnum command.buf command.len s.fs in
    send command.session_id cpipe (size_reply rt) (record s { fs = fs' }) calls

-- `heap` is what the block from malloc contains.
unfoldable pub read_file : Memory → Pthread → ℕ → Command → ℤ → Server → List Call → Outcome Server
read_file heap p i command cpipe s calls =
    let (rt, bytes, fs') = tfs_read p command.fnum heap command.len s.fs in
    let s' = set_command i (record command { buf = bytes }) (record s { fs = fs' }) in
    and_then (send command.session_id cpipe (size_reply rt) s' calls) (λ s'' cs.
      if rt ==ℤ minus_one
      then finished s'' cs
      else send command.session_id cpipe (content command.len bytes) s'' cs)

-- `others` is what the other threads do to the file system while the call waits.
unfoldable pub shut_down : Pthread → (Fs → Fs) → Command → ℤ → Server → List Call → Outcome Server
shut_down p others command cpipe s calls =
    let (r, fs') = tfs_destroy_after_all_closed p others s.fs in
    and_then
      (send command.session_id cpipe (int_reply r) (record s { fs = fs'; status = off }) calls)
      (λ s' cs. and_then (attempt cs) (λ a cs'. elim a [
        | lost ↦ finished (drop_session command.session_id s') cs'
        | success n bytes ↦ finished s' cs'
      ]))

abbrev pub with_pipe : ℤ → Outcome Server → Outcome (ℤ × Server)
with_pipe cpipe o = and_then o (λ s cs. finished (cpipe, s) cs)

-- What the thread of `buffer[i]` does when it is woken.
unfoldable pub consume :
    Memory → Pthread → (Fs → Fs) → ℕ → ℤ → Server → List Call → Outcome (ℤ × Server)
consume heap p others i cpipe s calls =
    let command = s.buffer i in
    if command.op_code == b'1'
    then mounted command.session_id cpipe s calls
    else if command.op_code == b'2'
    then with_pipe cpipe (unmounted command.session_id cpipe s calls)
    else if command.op_code == b'3'
    then with_pipe cpipe (opened_file p command cpipe s calls)
    else if command.op_code == b'4'
    then with_pipe cpipe (closed_file p command cpipe s calls)
    else if command.op_code == b'5'
    then with_pipe cpipe (written_file p command cpipe s calls)
    else if command.op_code == b'6'
    then with_pipe cpipe (read_file heap p i command cpipe s calls)
    else if command.op_code == b'7'
    then with_pipe cpipe (shut_down p others command cpipe s calls)
    else finished (cpipe, s) calls
