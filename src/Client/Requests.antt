-- ===== src/Client/Requests.antt =====
-- Each request of the client, from its message to what the server does for it.
use so_project.Base.{
  ℕ, ◌≤◌, ◌<◌, ◌≡◌, ◌≢◌, inl, ℤ, pos, IsInt, Memory, load_int, load_int-store_int,
  load_int-store_apart, store_int, put, arith, refl, ap, ◌∙◌, List, [], ◌∷◌, update,
}
use so_project.Base.{update-same, update-other}
use so_project.Fs.State.{Fs}
use so_project.Fs.Operations.{Pthread, tfs_close}
use so_project.Calls.{Call, finished, ok, attempt}
use so_project.Server.State.{on, Command, Server, sessions, int_reply}
use so_project.Server.Producer.{set_command, post, rounds}
use so_project.Server.Consumer.{consume, closed_file, send}
use so_project.Client.Messages.{close_message}
use so_project.Client.Delivery.{
  pieces, with_op_codes, idle, rounds-message, addressed, close_produced,
}

-- The server t after a request for the session i, whose buffer has become c.
abbrev pub Requested : ℕ → Command → Server → Server → Type 0
Requested i c s t =
    (t.buffer i ≡ c)
    × ((k : ℕ) → k ≢ i → t.buffer k ≡ s.buffer k)
    × (t.signals ≡ i ∷ s.signals)
    × (t.session_status ≡ s.session_status)
    × (t.cbuf.op_code ≡ 0)

-- The server when the fields of a request are in the buffer c and the consumer has been called.
abbrev pub posted : ℕ → ℕ → Command → Server → Server
posted i op c s = post i op (set_command i c (addressed op i s))

pub posted-Requested :
    (i op : ℕ) (c : Command) (s : Server)
    → Requested i (record c { op_code = op }) s (idle (posted i op c s))
posted-Requested i op c s =
    let filled = update s.buffer i c in
    (
      update-same filled i _
          ∙ ap {A = Command} {B = Command} (λ b. record b { op_code = op })
              (update-same s.buffer i c),
      λ k ne. update-other filled i k _ ne ∙ update-other s.buffer i k c ne,
      refl,
      refl,
      refl,
    )

module _ (i : ℕ) (fhandle : ℤ) (lt : i < sessions) (h : IsInt fhandle) where
  abbrev message : Memory
  message = close_message (pos i) fhandle

  close-session : load_int message 1 ≡ pos i
  close-session =
      load_int-store_apart (store_int (put (λ k. 0) 0 b'4') 1 (pos i)) 5 fhandle 1
        (inl (omega arith))
      ∙ load_int-store_int (put (λ k. 0) 0 b'4') 1 (pos i) (omega arith)

  close-fhandle : load_int message 5 ≡ fhandle
  close-fhandle = load_int-store_int (store_int (put (λ k. 0) 0 b'4') 1 (pos i)) 5 fhandle h

  close-padding : (k : ℕ) → 9 ≤ k → message k ≡ 0
  close-padding k le = ground arith

  module _ (heap : Memory) (s : Server) (rest : List Call) (e : s.status ≡ on) where
    close-rounds :
        rounds 92 heap s (pieces message 0 (with_op_codes (1 ∷ 4 ∷ 4 ∷ []) 91) rest)
        ≡ finished (idle (posted i b'4' (record (s.buffer i) { fnum = fhandle }) s)) rest
    close-rounds =
        rounds-message 90 9 heap message s
          (posted i b'4' (record (s.buffer i) { fnum = fhandle }) s)
          (pieces message 0 (1 ∷ 4 ∷ 4 ∷ []) (pieces message 9 (with_op_codes [] 91) rest)) rest e
          (close_produced heap i s lt message fhandle _ refl close-session close-fhandle) e
          close-padding

-- A consumer whose buffer holds a request to close, when its reply is written.
close-consumed :
    (heap : Memory) (p : Pthread) (others : Fs → Fs) (i : ℕ) (cpipe : ℤ) (t : Server) (n : ℕ)
    (bytes : List ℕ) (cs : List Call)
    → (t.buffer i).op_code ≡ b'4'
    → consume heap p others i cpipe t (ok n bytes ∷ cs)
      ≡ finished
          (
            cpipe,
            record t {
              fs = (tfs_close p (t.buffer i).fnum t.fs).1;
              replies = (cpipe, int_reply (tfs_close p (t.buffer i).fnum t.fs).0) ∷ t.replies;
            },
          )
          cs
unfolding consume closed_file send attempt
close-consumed heap p others i cpipe t n bytes cs e = rw e refl

-- For a server that is on, a session of its table and a handle that is an `int`, when each read of
-- the pipe gets as many bytes as it asks for: a request to close that a client writes, with the zero
-- bytes behind it, takes 92 rounds of the producer and leaves the pipe at the next message; the
-- consumer of the session then closes the handle that the client named, and its write sends the
-- result of tfs_close to the client.
pub close-served :
    (heap : Memory) (p : Pthread) (others : Fs → Fs) (i : ℕ) (fhandle cpipe : ℤ) (s : Server)
    (n : ℕ) (bytes : List ℕ) (rest cs : List Call)
    → i < sessions
    → IsInt fhandle
    → s.status ≡ on
    → (t : Server) × (u : Server) × (rounds 92 heap s
          (pieces (close_message (pos i) fhandle) 0 (with_op_codes (1 ∷ 4 ∷ 4 ∷ []) 91) rest)
        ≡ finished t rest)
      × Requested i (record (s.buffer i) { op_code = b'4'; fnum = fhandle }) s t
      × (consume heap p others i cpipe t (ok n bytes ∷ cs) ≡ finished (cpipe, u) cs)
      × (u.fs ≡ (tfs_close p fhandle s.fs).1)
      × (u.replies ≡ (cpipe, int_reply (tfs_close p fhandle s.fs).0) ∷ s.replies)
close-served heap p others i fhandle cpipe s n bytes rest cs lt h e =
    let t = idle (posted i b'4' (record (s.buffer i) { fnum = fhandle }) s) in
    let requested = posted-Requested i b'4' (record (s.buffer i) { fnum = fhandle }) s in
    let fnum : (t.buffer i).fnum ≡ fhandle = ap (λ c. c.fnum) requested.0 in
    (
      t,
      record t {
        fs = (tfs_close p (t.buffer i).fnum t.fs).1;
        replies = (cpipe, int_reply (tfs_close p (t.buffer i).fnum t.fs).0) ∷ t.replies;
      },
      close-rounds i fhandle lt h heap s rest e,
      requested,
      close-consumed heap p others i cpipe t n bytes cs (ap (λ c. c.op_code) requested.0),
      ap (λ z. (tfs_close p z s.fs).1) fnum,
      ap (λ z. (cpipe, int_reply (tfs_close p z s.fs).0) ∷ s.replies) fnum,
    )
