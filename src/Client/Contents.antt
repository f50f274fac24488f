-- ===== src/Client/Contents.antt =====
-- The requests to read and to write: the number of bytes, and the bytes.
use so_project.Base.{
  ℕ, ◌^◌, ◌≤◌, ◌<◌, ◌≡◌, inl, ℤ, pos, IsInt, Memory, load_int, load_int-store_int,
  load_int-store_apart, store_int, put, arith, refl, ap, ◌∙◌, List, [], ◌∷◌, update-same,
}
use so_project.Calls.{Call, finished, ok, and_then, must, received_size, load_size, size_bytes}
use so_project.Server.State.{on, Command, Server, sessions}
use so_project.Server.Producer.{
  set_command, post, produce, rounds, dispatch, read_len, read_request,
}
use so_project.Client.Messages.{read_message}
use so_project.Client.Delivery.{
  pieces, slice, with_op_codes, idle, rounds-message, addressed, with_session-read, read_fnum-read,
}

-- The buffer of a session after the reads of fnum and of len.
abbrev pub sized : ℤ → ℕ → Command → Command
sized fnum len c = record c { fnum = fnum; len = len }

-- The same for the server, as the producer stores them.
abbrev pub with_fnum : ℕ → ℤ → Server → Server
with_fnum i fnum s = set_command i (record (s.buffer i) { fnum = fnum }) s

abbrev pub with_len : ℕ → ℕ → Server → Server
with_len i len s = set_command i (record (s.buffer i) { len = len }) s

pub with_len-buffer :
    (i : ℕ) (fnum : ℤ) (len : ℕ) (s : Server)
    → (with_len i len (with_fnum i fnum s)).buffer i ≡ sized fnum len (s.buffer i)
with_len-buffer i fnum len s =
    update-same (with_fnum i fnum s).buffer i _
    ∙ ap {A = Command} {B = Command} (λ b. record b { len = len }) (update-same s.buffer i _)

pub read_len-read :
    (m : Memory) (len i : ℕ) (s : Server) (cs : List Call)
    → received_size (s.buffer i).len (slice m 9 8) ≡ len
    → read_len i s (ok 8 (slice m 9 8) ∷ cs) ≡ finished (with_len i len s) cs
unfolding read_len must
read_len-read m len i s cs e =
    ap (λ n. finished (set_command i (record (s.buffer i) { len = n }) s) cs) e

pub load_size-bytes : (n : ℕ) → n < 2 ^ 64 → load_size (size_bytes n) ≡ n
load_size-bytes n h = omega arith

module _ (i : ℕ) (fhandle : ℤ) (lt : i < sessions) (h : IsInt fhandle) where
  abbrev pub head : ℕ → Memory
  head op = store_int (put (λ k. 0) 0 op) 1 (pos i)

  abbrev pub headed : ℕ → Memory
  headed op = store_int (head op) 5 fhandle

  pub headed-session : (op : ℕ) → load_int (headed op) 1 ≡ pos i
  headed-session op =
      load_int-store_apart (head op) 5 fhandle 1 (inl (omega arith))
      ∙ load_int-store_int (put (λ k. 0) 0 op) 1 (pos i) (omega arith)

  pub headed-fhandle : (op : ℕ) → load_int (headed op) 5 ≡ fhandle
  headed-fhandle op = load_int-store_int (head op) 5 fhandle h

  pub headed-padding : (op k : ℕ) → 9 ≤ k → headed op k ≡ 0
  headed-padding op k le = ground arith

  module _ (heap : Memory) (s : Server) (rest : List Call) (e : s.status ≡ on) where
    abbrev asked : Server
    asked = post i b'6' (with_len i 0 (with_fnum i fhandle (addressed b'6' i s)))

    read_produced :
        (calls : List Call)
        → produce heap s (pieces (headed b'6') 0 (1 ∷ 4 ∷ 4 ∷ 8 ∷ []) calls) ≡ finished asked calls
    unfolding produce dispatch must
    read_produced calls =
        with_session-read read_request (headed b'6') i
          (record s { cbuf = record s.cbuf { op_code = b'6' } })
          (ok 4 (slice (headed b'6') 5 4) ∷ ok 8 (slice (headed b'6') 9 8) ∷ calls) lt
          (headed-session b'6')
        ∙ ap
            (λ o.
              and_then o
                (λ s' cs. and_then (read_len i s' cs) (λ s'' cs'. finished (post i b'6' s'') cs')))
            (read_fnum-read (headed b'6') 5 fhandle i (addressed b'6' i s)
              (ok 8 (slice (headed b'6') 9 8) ∷ calls) (headed-fhandle b'6'))
        ∙ ap (λ o. and_then o (λ s'' cs'. finished (post i b'6' s'') cs'))
            (read_len-read (headed b'6') 0 i (with_fnum i fhandle (addressed b'6' i s)) calls refl)

    read-rounds :
        rounds 84 heap s
          (pieces (read_message (pos i) fhandle) 0 (with_op_codes (1 ∷ 4 ∷ 4 ∷ 8 ∷ []) 83) rest)
        ≡ finished (idle asked) rest
    read-rounds =
        rounds-message 82 17 heap (headed b'6') s asked
          (pieces (headed b'6') 0 (1 ∷ 4 ∷ 4 ∷ 8 ∷ [])
            (pieces (headed b'6') 17 (with_op_codes [] 83) rest))
          rest e (read_produced _) e (λ k le. headed-padding b'6' k (omega arith))

    asked-buffer : asked.buffer i ≡ record (s.buffer i) { op_code = b'6'; fnum = fhandle; len = 0 }
    asked-buffer =
        update-same (with_len i 0 (with_fnum i fhandle (addressed b'6' i s))).buffer i _
        ∙ ap {A = Command} {B = Command} (λ b. record b { op_code = b'6' })
            (with_len-buffer i fhandle 0 (addressed b'6' i s))

-- The bug of the missing length, for a server that is on, a session of its table, and a handle
-- that is an `int`: when each read of the pipe gets as many bytes as it asks for, the buffer of
-- the session asks for 0 bytes of the handle once the server has read a request to read, however
-- many bytes the caller in the client wants.
pub read-empty :
    (heap : Memory) (i : ℕ) (fhandle : ℤ) (s : Server) (rest : List Call)
    → i < sessions
    → IsInt fhandle
    → s.status ≡ on
    → (t : Server) × (rounds 84 heap s
          (pieces (read_message (pos i) fhandle) 0 (with_op_codes (1 ∷ 4 ∷ 4 ∷ 8 ∷ []) 83) rest)
        ≡ finished t rest)
      × (t.buffer i ≡ record (s.buffer i) { op_code = b'6'; fnum = fhandle; len = 0 })
read-empty heap i fhandle s rest lt h e = (
  idle (asked i fhandle lt h heap s rest e),
  read-rounds i fhandle lt h heap s rest e,
  asked-buffer i fhandle lt h heap s rest e,
)
