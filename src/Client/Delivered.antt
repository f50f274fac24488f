-- ===== src/Client/Delivered.antt =====
-- The request to write, whose bytes follow the fields in the message.
use so_project.Base.{
  refl, ℕ, suc, ◌+◌, ◌≤◌, ◌<◌, ◌≡◌, inl, ℤ, pos, IsInt, Memory, load_int, load_int-blit, blit,
  arith, ap, ◌∙◌, List, [], ◌∷◌, update, update-same, some,
}
use so_project.Calls.{Call, Outcome, finished, ok, and_then, must, received, load_size, size_bytes}
use so_project.Calls.{attempt}
use so_project.Server.State.{size_reply, on, Command, Server, sessions}
use so_project.Server.Producer.{
  set_command, post, produce, rounds, dispatch, read_len, read_content, write_request,
}
use so_project.Fs.State.{Fs}
use so_project.Fs.Operations.{Pthread, tfs_write}
use so_project.Server.Consumer.{consume, written_file, send}
use so_project.Client.Messages.{write_message}
use so_project.Client.Delivery.{
  pieces, slice, with_op_codes, idle, rounds-message, addressed, with_session-read, read_fnum-read,
  received-slice,
}
use so_project.Client.Contents.{
  sized, with_fnum, with_len, with_len-buffer, read_len-read, load_size-bytes, headed,
  headed-session, headed-fhandle, headed-padding,
}

module _ (i : ℕ) (fhandle : ℤ) (lt : i < sessions) (h : IsInt fhandle) (buffer : Memory) (len n : ℕ)
    (fits : len + n ≡ 82) where
  abbrev head : Memory
  head = headed i fhandle lt h b'5'

  abbrev with_size : Memory
  with_size = blit head 9 8 (size_bytes len)

  abbrev message : Memory
  message = blit with_size 17 len buffer

  write_message-fits : write_message (pos i) fhandle buffer len ≡ some message
  write_message-fits = ground arith

  write-session : load_int message 1 ≡ pos i
  write-session =
      load_int-blit with_size 17 len buffer 1 (inl (omega arith))
      ∙ load_int-blit head 9 8 (size_bytes len) 1 (inl (omega arith))
      ∙ headed-session i fhandle lt h b'5'

  write-fhandle : load_int message 5 ≡ fhandle
  write-fhandle =
      load_int-blit with_size 17 len buffer 5 (inl (omega arith))
      ∙ load_int-blit head 9 8 (size_bytes len) 5 (inl (omega arith))
      ∙ headed-fhandle i fhandle lt h b'5'

  size-byte : (k : ℕ) → k < 8 → message (9 + k) ≡ size_bytes len k
  size-byte k below = ground arith

  write-len : load_size (λ k. message (9 + k)) ≡ len
  write-len = load_size-bytes len (omega arith)

  write-padding : (k : ℕ) → 17 + len ≤ k → message k ≡ 0
  write-padding k le = ground (arith, headed-padding i fhandle lt h b'5' k (omega arith))

  write-byte : (k : ℕ) → k < len → message (17 + k) ≡ buffer k
  write-byte k below = ground arith

  module _ (heap : Memory) (s : Server) (rest : List Call) (e : s.status ≡ on) where
    abbrev filled : Server
    filled = with_len i len (with_fnum i fhandle (addressed b'5' i s))

    abbrev contents : Memory
    contents = received (filled.buffer i).len heap (slice message 17 len)

    abbrev handed : Server
    handed = post i b'5' (set_command i (record (filled.buffer i) { buf = contents }) filled)

    write_produced :
        (calls : List Call)
        → produce heap s (pieces message 0 (1 ∷ 4 ∷ 4 ∷ 8 ∷ len ∷ []) calls) ≡ finished handed calls
    unfolding produce dispatch must read_content
    write_produced calls =
        let bytes = ok len (slice message 17 len) ∷ calls in
        let last : Server → List Call → Outcome Server =
          λ t cs. and_then (read_content heap i t cs) (λ u cs'. finished (post i b'5' u) cs') in
        with_session-read (write_request heap) message i
          (record s { cbuf = record s.cbuf { op_code = b'5' } })
          (ok 4 (slice message 5 4) ∷ ok 8 (slice message 9 8) ∷ bytes) lt write-session
        ∙ ap (λ o. and_then o (λ t cs. and_then (read_len i t cs) last))
            (read_fnum-read message 5 fhandle i (addressed b'5' i s)
              (ok 8 (slice message 9 8) ∷ bytes) write-fhandle)
        ∙ ap (λ o. and_then o last)
            (read_len-read message len i (with_fnum i fhandle (addressed b'5' i s)) bytes write-len)

    write-rounds :
        rounds
          (suc (suc n))
          heap
          s
          (pieces message 0 (with_op_codes (1 ∷ 4 ∷ 4 ∷ 8 ∷ len ∷ []) (suc n)) rest)
        ≡ finished (idle handed) rest
    write-rounds =
        rounds-message n (17 + len) heap message s handed
          (pieces message 0 (1 ∷ 4 ∷ 4 ∷ 8 ∷ len ∷ [])
            (pieces message (17 + len) (with_op_codes [] (suc n)) rest))
          rest e (write_produced _) e write-padding

    handed-buffer :
        handed.buffer i ≡ record (sized fhandle len (s.buffer i)) { op_code = b'5'; buf = contents }
    handed-buffer =
        let given = update filled.buffer i (record (filled.buffer i) { buf = contents }) in
        update-same given i _
        ∙ ap {A = Command} {B = Command} (λ b. record b { op_code = b'5' })
            (update-same filled.buffer i _)
        ∙ ap {A = Command} {B = Command} (λ b. record b { op_code = b'5'; buf = contents })
            (with_len-buffer i fhandle len (addressed b'5' i s))

    contents-byte : (k : ℕ) → k < len → contents k ≡ buffer k
    contents-byte k below =
        ap (λ c. received c.len heap (slice message 17 len) k)
          (with_len-buffer i fhandle len (addressed b'5' i s))
        ∙ received-slice heap message 17 len k below
        ∙ write-byte k below

-- A consumer whose buffer holds a request to write, when its reply is written.
write-consumed :
    (heap : Memory) (p : Pthread) (others : Fs → Fs) (i : ℕ) (cpipe : ℤ) (t : Server) (n : ℕ)
    (bytes : List ℕ) (cs : List Call)
    → (t.buffer i).op_code ≡ b'5'
    → let c = t.buffer i in
      consume heap p others i cpipe t (ok n bytes ∷ cs)
      ≡ finished
          (
            cpipe,
            record t {
              fs = (tfs_write p c.fnum c.buf c.len t.fs).1;
              replies = (cpipe, size_reply (tfs_write p c.fnum c.buf c.len t.fs).0) ∷ t.replies;
            },
          )
          cs
unfolding consume written_file send attempt
write-consumed heap p others i cpipe t n bytes cs e = rw e refl

-- For a server that is on, a session of its table and a handle that is an `int`, when each read of
-- the pipe gets as many bytes as it asks for: a request to write at most 82 bytes that a client
-- writes, with the zero bytes behind it, leaves the pipe at the next message; the consumer of the
-- session then writes as many bytes as the client was given, the same ones, through the handle that
-- the client named, and its write sends the result of tfs_write to the client.
pub write-served :
    (heap : Memory) (p : Pthread) (others : Fs → Fs) (i : ℕ) (fhandle cpipe : ℤ) (buffer : Memory)
    (len n : ℕ) (s : Server) (done : ℕ) (bytes : List ℕ) (rest cs : List Call)
    → i < sessions
    → IsInt fhandle
    → len + n ≡ 82
    → s.status ≡ on
    → (message : Memory) × (contents : Memory) × (t : Server) × (u : Server) × (write_message
          (pos i)
          fhandle
          buffer
          len
        ≡ some message)
      × (rounds
            (suc (suc n))
            heap
            s
            (pieces message 0 (with_op_codes (1 ∷ 4 ∷ 4 ∷ 8 ∷ len ∷ []) (suc n)) rest)
          ≡ finished t rest)
      × (consume heap p others i cpipe t (ok done bytes ∷ cs) ≡ finished (cpipe, u) cs)
      × (u.fs ≡ (tfs_write p fhandle contents len s.fs).1)
      × (u.replies ≡ (cpipe, size_reply (tfs_write p fhandle contents len s.fs).0) ∷ s.replies)
      × ((k : ℕ) → k < len → contents k ≡ buffer k)
write-served heap p others i fhandle cpipe buffer len n s done bytes rest cs lt h fits e =
    let t = idle (handed i fhandle lt h buffer len n fits heap s rest e) in
    let c = t.buffer i in
    let given = contents i fhandle lt h buffer len n fits heap s rest e in
    let whole = handed-buffer i fhandle lt h buffer len n fits heap s rest e in
    (
      message i fhandle lt h buffer len n fits,
      given,
      t,
      record t {
        fs = (tfs_write p c.fnum c.buf c.len t.fs).1;
        replies = (cpipe, size_reply (tfs_write p c.fnum c.buf c.len t.fs).0) ∷ t.replies;
      },
      write_message-fits i fhandle lt h buffer len n fits,
      write-rounds i fhandle lt h buffer len n fits heap s rest e,
      write-consumed heap p others i cpipe t done bytes cs (ap (λ d. d.op_code) whole),
      ap (λ d. (tfs_write p d.fnum d.buf d.len s.fs).1) whole,
      ap (λ d. (cpipe, size_reply (tfs_write p d.fnum d.buf d.len s.fs).0) ∷ s.replies) whole,
      λ k below. contents-byte i fhandle lt h buffer len n fits heap s rest e k below,
    )
