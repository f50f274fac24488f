-- ===== src/Server/State.antt =====
-- The constants, types and globals of P2/fs/tfs_server.c, and main's initialisation of them.
use so_project.Base.{
  ℕ, zero, suc, ◌+◌, ℤ, pos, minus_one, Memory, CString, if◌then◌else◌, update, Option, none, some,
  List, [], ◌∷◌, ◌==◌,
}
use so_project.Fs.State.{Fs, zeroed}

-- `S`
abbrev pub sessions : ℕ
sessions = 10

abbrev pub max_pipe_name : ℕ
max_pipe_name = 40

pub data Status : Type 0 where
  on off : Status

pub record Command : Type 0 where
  pub session_id : ℤ
  pub pipename : Memory
  pub op_code : ℕ
  pub name : Memory
  pub fnum : ℤ
  pub len : ℕ
  pub buf : Memory

-- What the server writes to a client's pipe: an `int`, a `ssize_t`, or n bytes.
pub data Reply : Type 0 where
  int_reply size_reply : ℤ → Reply
  content : ℕ → Memory → Reply

-- The globals with the file system, the producer's `cbuf`, the sessions whose consumers were
-- signalled and the replies with their file descriptors, the last one first.
pub record Server : Type 0 where
  pub status : Status
  pub session_status : ℕ → ℤ
  pub buffer : ℕ → Command
  pub session_count : ℤ
  pub cbuf : Command
  pub signals : List ℕ
  pub replies : List (ℤ × Reply)
  pub fs : Fs

-- The static memory before main: all zero.
abbrev no_command : Command
no_command = record {
  session_id = pos 0;
  pipename = (λ k. 0);
  op_code = 0;
  name = (λ k. 0);
  fnum = pos 0;
  len = 0;
  buf = (λ k. 0);
}

abbrev pub process : Server
process = record {
  status = on;
  session_status = λ k. pos 0;
  buffer = λ k. no_command;
  session_count = pos 0;
  cbuf = no_command;
  signals = [];
  replies = [];
  fs = zeroed;
}

-- The loop of main over the sessions: n of them, from the i-th on.
unfoldable pub init_sessions : ℕ → ℕ → Server → Server
init_sessions zero i s = s
init_sessions (suc n) i s = init_sessions n (i + 1) (record s {
  session_status = update s.session_status i minus_one;
  buffer = update s.buffer i (record (s.buffer i) { session_id = pos i });
})

-- main up to the start of the threads, once tfs_init has succeeded.
unfoldable pub start : Server → Server
start s = init_sessions sessions 0 (record s { status = on; session_count = pos 0 })

-- The C string at the start of n bytes of memory from the k-th on; `none` if it does not end there.
unfoldable pub c_string : ℕ → ℕ → Memory → Option CString
c_string zero k m = none
c_string (suc n) k m =
    let rest = c_string n (k + 1) m in
    if m k == 0 then some [] else elim rest [ none ↦ none | some cs ↦ some (m k ∷ cs) ]
