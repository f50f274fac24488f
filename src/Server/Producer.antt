-- ===== src/Server/Producer.antt =====
-- The thread `producer` of P2/fs/tfs_server.c. A session id from the pipe is an index that is not
-- checked; outside of the table it is undefined behaviour.
use so_project.Base.{
  ℕ, zero, suc, ◌+◌, ℤ, pos, negsuc, minus_one, pos_part, ◌==ℤ◌, in_range, leb, Memory, Bool, false,
  if◌then◌else◌, update, List, ◌∷◌, ◌==◌,
}
use so_project.Calls.{
  Call, Outcome, finished, undefined, and_then, must, received, received_int, received_size,
  received_char,
}
use so_project.Server.State.{on, off, Command, Server, int_reply, sessions, max_pipe_name}

abbrev pub set_command : ℕ → Command → Server → Server
set_command i c s = record s { buffer = update s.buffer i c }

-- `buffer[i].op_code = op` and the call of the consumer thread.
abbrev pub post : ℕ → ℕ → Server → Server
post i op s = record s {
  buffer = update s.buffer i (record (s.buffer i) { op_code = op });
  signals = i ∷ s.signals;
}

-- `z >= S`
abbrev pub at_least_sessions : ℤ → Bool
at_least_sessions (pos n) = leb sessions n
at_least_sessions (negsuc n) = false

-- The body of the loop of MOUNT for the session i.
unfoldable pub mount_session : ℕ → Server → Server
mount_session i s =
    if s.session_status i ==ℤ minus_one
    then record s {
      session_status = update s.session_status i (pos 0);
      buffer =
          update s.buffer i (record (s.buffer i) { op_code = b'1'; pipename = s.cbuf.pipename });
      signals = i ∷ s.signals;
    }
    else s

unfoldable pub mount_sessions : ℕ → ℕ → Server → Server
mount_sessions zero i s = s
mount_sessions (suc n) i s = mount_sessions n (i + 1) (mount_session i s)

-- -1 to the client's pipe: open, write, close.
unfoldable pub refuse : Server → List Call → Outcome Server
refuse s calls = and_then (must calls) (λ opened cs. and_then (must cs) (λ written cs'.
    and_then (must cs') (λ closed cs''.
      finished (record s { replies = (pos opened.0, int_reply minus_one) ∷ s.replies }) cs'')))

unfoldable pub mount : Server → List Call → Outcome Server
mount s calls = and_then (must calls) (λ r cs.
    let s' = record s {
      cbuf = record s.cbuf { pipename = received max_pipe_name s.cbuf.pipename r.1 };
    } in
    if at_least_sessions s'.session_count
    then refuse s' cs
    else finished (mount_sessions sessions 0 s') cs)

-- The read of the session id, then the rest of the request for that session.
unfoldable pub with_session :
    (ℕ → Server → List Call → Outcome Server) → Server → List Call → Outcome Server
with_session request s calls = and_then (must calls) (λ r cs.
    let id = received_int s.cbuf.session_id r.1 in
    let s' = record s { cbuf = record s.cbuf { session_id = id } } in
    if in_range sessions id then request (pos_part id) s' cs else undefined)

-- The reads of the fields of `buffer[i]`, as the requests use them.
unfoldable pub read_name : ℕ → Server → List Call → Outcome Server
read_name i s calls = and_then (must calls) (λ r cs.
    finished
      (set_command i (record (s.buffer i) { name = received max_pipe_name (s.buffer i).name r.1 })
        s)
      cs)

unfoldable pub read_fnum : ℕ → Server → List Call → Outcome Server
read_fnum i s calls = and_then (must calls) (λ r cs.
    finished (set_command i (record (s.buffer i) { fnum = received_int (s.buffer i).fnum r.1 }) s)
      cs)

unfoldable pub read_len : ℕ → Server → List Call → Outcome Server
read_len i s calls = and_then (must calls) (λ r cs.
    finished (set_command i (record (s.buffer i) { len = received_size (s.buffer i).len r.1 }) s)
      cs)

-- `heap` is what the block from malloc contains.
unfoldable pub read_content : Memory → ℕ → Server → List Call → Outcome Server
read_content heap i s calls = and_then (must calls) (λ r cs.
    finished (set_command i (record (s.buffer i) { buf = received (s.buffer i).len heap r.1 }) s)
      cs)

-- The cases of the switch.
abbrev pub unmount_request : ℕ → Server → List Call → Outcome Server
unmount_request i s cs = finished (post i b'2' s) cs

abbrev pub open_request : ℕ → Server → List Call → Outcome Server
open_request i s calls =
    and_then (read_name i s calls)
      (λ s' cs. and_then (read_fnum i s' cs) (λ s'' cs'. finished (post i b'3' s'') cs'))

abbrev pub close_request : ℕ → Server → List Call → Outcome Server
close_request i s calls = and_then (read_fnum i s calls) (λ s' cs. finished (post i b'4' s') cs)

abbrev pub write_request : Memory → ℕ → Server → List Call → Outcome Server
write_request heap i s calls = and_then (read_fnum i s calls) (λ s' cs.
    and_then (read_len i s' cs) (λ s'' cs'.
      and_then (read_content heap i s'' cs') (λ s''' cs''. finished (post i b'5' s''') cs'')))

abbrev pub read_request : ℕ → Server → List Call → Outcome Server
read_request i s calls =
    and_then (read_fnum i s calls)
      (λ s' cs. and_then (read_len i s' cs) (λ s'' cs'. finished (post i b'6' s'') cs'))

abbrev pub shutdown_request : ℕ → Server → List Call → Outcome Server
shutdown_request i s cs = finished (post i b'7' s) cs

unfoldable pub dispatch : Memory → Server → List Call → Outcome Server
dispatch heap s calls =
    if s.cbuf.op_code == b'1'
    then mount s calls
    else if s.cbuf.op_code == b'2'
    then with_session unmount_request s calls
    else if s.cbuf.op_code == b'3'
    then with_session open_request s calls
    else if s.cbuf.op_code == b'4'
    then with_session close_request s calls
    else if s.cbuf.op_code == b'5'
    then with_session (write_request heap) s calls
    else if s.cbuf.op_code == b'6'
    then with_session read_request s calls
    else if s.cbuf.op_code == b'7'
    then with_session shutdown_request s calls
    else finished s calls

-- One round of the loop `while (status == ON)`.
unfoldable pub produce : Memory → Server → List Call → Outcome Server
produce heap s calls = and_then (must calls) (λ r cs.
    dispatch heap (record s { cbuf = record s.cbuf { op_code = received_char s.cbuf.op_code r.1 } })
      cs)

-- At most n rounds.
unfoldable pub rounds : ℕ → Memory → Server → List Call → Outcome Server
rounds zero heap s calls = finished s calls
rounds (suc n) heap s calls = elim s.status [
  | on ↦ and_then (produce heap s calls) (rounds n heap)
  | off ↦ finished s calls
]
