-- ===== src/Client/Fields.antt =====
-- The fields of the requests to open, to read and to write, as the server reads them.
use so_project.Base.{
  ℕ, ◌+◌, ◌≤◌, ◌<◌, ◌≡◌, inl, ℤ, pos, IsInt, Memory, load_int, load_int-store_int,
  load_int-store_apart, load_int-blit, load_int-eq, store_int, blit, put, arith, refl, ap, ◌∙◌,
  List, [], ◌∷◌, update, update-same,
}
use so_project.Calls.{Call, finished, ok, and_then, must, received}
use so_project.Server.State.{on, Command, Server, sessions}
use so_project.Server.Producer.{
  set_command, post, produce, rounds, dispatch, read_name, open_request,
}
use so_project.Client.Messages.{max_pipe_name, open_message}
use so_project.Client.Delivery.{
  pieces, slice, with_op_codes, idle, rounds-message, addressed, with_session-read, read_fnum-read,
  received-slice,
}

module _ (i : ℕ) (name : Memory) (flags : ℤ) (lt : i < sessions) (h : IsInt flags) where
  abbrev head : Memory
  head = store_int (put (λ k. 0) 0 b'3') 1 (pos i)

  abbrev with_name : Memory
  with_name = blit head 5 max_pipe_name name

  abbrev message : Memory
  message = open_message (pos i) name flags

  open-session : load_int message 1 ≡ pos i
  open-session =
      load_int-store_apart with_name 6 flags 1 (inl (omega arith))
      ∙ load_int-blit head 5 max_pipe_name name 1 (inl (omega arith))
      ∙ load_int-store_int (put (λ k. 0) 0 b'3') 1 (pos i) (omega arith)

  open-fnum : load_int message 45 ≡ pos 0
  open-fnum = refl

  open-padding : (k : ℕ) → 49 ≤ k → message k ≡ 0
  open-padding k le = ground arith

  module _ (heap : Memory) (s : Server) (rest : List Call) (e : s.status ≡ on) where
    -- The name that the server has read.
    abbrev name_read : Memory
    name_read = received max_pipe_name (s.buffer i).name (slice message 5 40)

    abbrev named : Server
    named = set_command i (record (s.buffer i) { name = name_read }) (addressed b'3' i s)

    abbrev opened : Server
    opened = post i b'3' (set_command i (record (named.buffer i) { fnum = pos 0 }) named)

    open_produced :
        (calls : List Call)
        → produce heap s (pieces message 0 (1 ∷ 4 ∷ 40 ∷ 4 ∷ []) calls) ≡ finished opened calls
    unfolding produce dispatch must read_name
    open_produced calls =
        with_session-read open_request message i
          (record s { cbuf = record s.cbuf { op_code = b'3' } })
          (ok 40 (slice message 5 40) ∷ ok 4 (slice message 45 4) ∷ calls) lt open-session
        ∙ ap (λ o. and_then o (λ s' cs. finished (post i b'3' s') cs))
            (read_fnum-read message 45 (pos 0) i named calls open-fnum)

    open-rounds :
        rounds 52 heap s (pieces message 0 (with_op_codes (1 ∷ 4 ∷ 40 ∷ 4 ∷ []) 51) rest)
        ≡ finished (idle opened) rest
    open-rounds =
        rounds-message 50 49 heap message s opened
          (pieces message 0 (1 ∷ 4 ∷ 40 ∷ 4 ∷ []) (pieces message 49 (with_op_codes [] 51) rest))
          rest e (open_produced _) e open-padding

    opened-buffer :
        opened.buffer i ≡ record (s.buffer i) { op_code = b'3'; fnum = pos 0; name = name_read }
    opened-buffer =
        let inner = update-same s.buffer i (record (s.buffer i) { name = name_read }) in
        let filled = update named.buffer i (record (named.buffer i) { fnum = pos 0 }) in
        update-same filled i _
        ∙ ap {A = Command} {B = Command} (λ b. record b { op_code = b'3' })
            (update-same named.buffer i _)
        ∙ ap {A = Command} {B = Command} (λ b. record b { op_code = b'3'; fnum = pos 0 }) inner

    name_read-byte : (k : ℕ) → k < 40 → name_read k ≡ message (5 + k)
    name_read-byte k below = received-slice (s.buffer i).name message 5 40 k below

    message-byte : (k : ℕ) → 5 ≤ k → k < 40 → message (5 + k) ≡ name k
    message-byte k from below = ground arith

-- The bug of the place of the flags, for a server that is on, a session of its table, and flags
-- that are an `int`: when each read of the pipe gets as many bytes as it asks for, the server
-- that has read a request to open has the flags 0, whichever were asked for; the flags stand in
-- the second to fifth byte of the name, whose other bytes are those of the client's name.
pub open-misread :
    (heap : Memory) (i : ℕ) (name : Memory) (flags : ℤ) (s : Server) (rest : List Call)
    → i < sessions
    → IsInt flags
    → s.status ≡ on
    → (t : Server) × (rounds 52 heap s
          (pieces (open_message (pos i) name flags) 0 (with_op_codes (1 ∷ 4 ∷ 40 ∷ 4 ∷ []) 51) rest)
        ≡ finished t rest)
      × ((t.buffer i).op_code ≡ b'3')
      × ((t.buffer i).fnum ≡ pos 0)
      × ((t.buffer i).name 0 ≡ name 0)
      × (load_int (t.buffer i).name 1 ≡ flags)
      × ((k : ℕ) → 5 ≤ k → k < 40 → (t.buffer i).name k ≡ name k)
open-misread heap i name flags s rest lt h e =
    let message = open_message (pos i) name flags in
    let whole = opened-buffer i name flags lt h heap s rest e in
    let stored : (k : ℕ)
        → ((opened i name flags lt h heap s rest e).buffer i).name k
          ≡ name_read i name flags lt h heap s rest e k =
      λ k. ap (λ c. c.name k) whole in
    let byte : (k : ℕ)
        → k < 40
        → ((opened i name flags lt h heap s rest e).buffer i).name k ≡ message (5 + k) =
      λ k below. stored k ∙ name_read-byte i name flags lt h heap s rest e k below in
    (
      idle (opened i name flags lt h heap s rest e),
      open-rounds i name flags lt h heap s rest e,
      ap (λ c. c.op_code) whole,
      ap (λ c. c.fnum) whole,
      byte 0 (omega arith),
      load_int-eq (λ k. message (5 + k))
            (λ k. ((opened i name flags lt h heap s rest e).buffer i).name k) 1
            (byte 1 (omega arith)) (byte 2 (omega arith)) (byte 3 (omega arith))
            (byte 4 (omega arith))
          ∙ load_int-store_int (with_name i name flags lt h) 6 flags h,
      λ k from below. byte k below ∙ message-byte i name flags lt h heap s rest e k from below,
    )
