-- ===== src/Server/Changes.antt =====
-- What the rounds of `consumer` in P2/fs/tfs_server.c can do to the globals of the server.
use so_project.Base.{
  ℕ, inl, inr, ℤ, pos, minus_one, ◌==ℤ◌, Memory, ◌==◌, some, Option-cases, List, ◌∷◌, pattern32,
}
use so_project.Fs.State.{Fs}
use so_project.Fs.Operations.{Pthread, tfs_open, tfs_read}
use so_project.Calls.{
  Call, Outcome, finished, must, Ends, Ends-and_then, Ends-after, Ends-attempt, Ends-one_call,
  if-Ends,
}
use so_project.Server.State.{off, Command, Server, Reply, int_reply, size_reply, content, c_string}
use so_project.Server.Producer.{set_command}
use so_project.Server.Consumer.{
  drop_session, send, mounted, unmounted, opened_file, closed_file, written_file, read_file,
  shut_down, with_pipe, consume,
}

-- Each change that a consumer makes keeps the property.
pub record Stable (P : Server → Type 0) : Type 0 where
  pub dropped : (sid : ℤ) (s : Server) → P s → P (drop_session sid s)
  pub replied : (r : ℤ × Reply) (s : Server) → P s → P (record s { replies = r ∷ s.replies })
  pub stored : (fs : Fs) (s : Server) → P s → P (record s { fs = fs })
  pub ended : (s : Server) → P s → P (record s { status = off })
  pub filled :
      (i : ℕ) (bytes : Memory) (s : Server)
      → P s
      → P (set_command i (record (s.buffer i) { buf = bytes }) s)

-- The property of the state in the pair that `consume` ends with.
abbrev pub Leaves : (Server → Type 0) → ℤ × Server → Type 0
Leaves P (cpipe, s) = P s

module _ (P : Server → Type 0) (stable : Stable P) where
  send-Stable :
      (sid cpipe : ℤ) (reply : Reply) (s : Server) (calls : List Call)
      → P s
      → Ends P (send sid cpipe reply s calls)
  unfolding send
  send-Stable sid cpipe reply s calls r =
      Ends-attempt P calls _ (λ cs. Ends-one_call P _ cs (stable.dropped sid s r))
        (λ n bytes cs. stable.replied (cpipe, reply) s r)

  mounted-Stable :
      (sid cpipe : ℤ) (s : Server) (calls : List Call)
      → P s
      → Ends (Leaves P) (mounted sid cpipe s calls)
  unfolding mounted
  mounted-Stable sid cpipe s calls r =
      Ends-attempt (Leaves P) calls _
        (λ cs.
          Ends-and_then P (Leaves P) (send sid minus_one (int_reply sid) (drop_session sid s) cs) _
            (send-Stable sid minus_one (int_reply sid) (drop_session sid s) cs
              (stable.dropped sid s r))
            (λ s' cs' r'. r'))
        (λ n bytes cs.
          Ends-and_then P (Leaves P) (send sid (pos n) (int_reply sid) s cs) _
            (send-Stable sid (pos n) (int_reply sid) s cs r) (λ s' cs' r'. r'))

  unmounted-Stable :
      (sid cpipe : ℤ) (s : Server) (calls : List Call) → P s → Ends P (unmounted sid cpipe s calls)
  unfolding unmounted
  unmounted-Stable sid cpipe s calls r =
      let r' = stable.replied (cpipe, int_reply (pos 0)) _ (stable.dropped sid s r) in
      Ends-after P (must calls) _ (λ written cs.
        Ends-attempt P cs _ (λ cs'. Ends-one_call P _ cs' (stable.dropped sid _ r'))
          (λ n bytes cs'. r'))

  opened_file-Stable :
      (p : Pthread) (command : Command) (cpipe : ℤ) (s : Server) (calls : List Call)
      → P s
      → Ends P (opened_file p command cpipe s calls)
  unfolding opened_file
  opened_file-Stable p command cpipe s calls r = elim (Option-cases (c_string 40 0 command.name)) [
    | inl e ↦ rw (e, opened_file) tt
    | inr (name, e) ↦
        rw (e, opened_file)
          (elim (Option-cases (tfs_open p (some name) (pattern32 command.fnum) s.fs)) [
            | inl e' ↦ rw e' tt
            | inr (done, e') ↦ rw e' (
                send-Stable command.session_id cpipe (int_reply done.0) (record s { fs = done.1 })
                  calls (stable.stored done.1 s r))
          ])
  ]

  read_file-Stable :
      (heap : Memory) (p : Pthread) (i : ℕ) (cpipe : ℤ) (s : Server) (calls : List Call)
      → P s
      → Ends P (read_file heap p i (s.buffer i) cpipe s calls)
  unfolding read_file
  read_file-Stable heap p i cpipe s calls r =
      let command = s.buffer i in
      let (rt, bytes, fs') = tfs_read p command.fnum heap command.len s.fs in
      let s' = set_command i (record command { buf = bytes }) (record s { fs = fs' }) in
      let r' : P s' = stable.filled i bytes (record s { fs = fs' }) (stable.stored fs' s r) in
      Ends-and_then P P (send command.session_id cpipe (size_reply rt) s' calls) _
        (send-Stable command.session_id cpipe (size_reply rt) s' calls r')
        (λ s'' cs r''.
          if-Ends P (rt ==ℤ minus_one) _ _ r''
            (send-Stable command.session_id cpipe (content command.len bytes) s'' cs r''))

  shut_down-Stable :
      (p : Pthread) (others : Fs → Fs) (command : Command) (cpipe : ℤ) (s : Server)
      (calls : List Call)
      → P s
      → Ends P (shut_down p others command cpipe s calls)
  unfolding shut_down
  shut_down-Stable p others command cpipe s calls r =
      Ends-and_then P P (send command.session_id cpipe _ _ calls) _
        (send-Stable command.session_id cpipe _ _ calls
          (stable.ended (record s { fs = _ }) (stable.stored _ s r)))
        (λ s' cs r'.
          Ends-attempt P cs _ (λ cs'. stable.dropped command.session_id s' r') (λ n bytes cs'. r'))

  with_pipe-Stable :
      (cpipe : ℤ) (o : Outcome Server) → Ends P o → Ends (Leaves P) (with_pipe cpipe o)
  with_pipe-Stable cpipe o h =
      Ends-and_then P (Leaves P) o (λ s cs. finished (cpipe, s) cs) h (λ s cs r. r)

  -- Then what a consumer does when it is woken keeps it.
  pub consume-Stable :
      (heap : Memory) (p : Pthread) (others : Fs → Fs) (i : ℕ) (cpipe : ℤ) (s : Server)
      (calls : List Call)
      → P s
      → Ends (Leaves P) (consume heap p others i cpipe s calls)
  unfolding consume closed_file written_file
  consume-Stable heap p others i cpipe s calls r =
      let command = s.buffer i in
      let done : (o : Outcome Server) → Ends P o → Ends (Leaves P) (with_pipe cpipe o) =
        with_pipe-Stable cpipe in
      if-Ends (Leaves P) (command.op_code == b'1') _ _
        (mounted-Stable command.session_id cpipe s calls r)
        (if-Ends (Leaves P) (command.op_code == b'2') _ _
          (done _ (unmounted-Stable command.session_id cpipe s calls r))
          (if-Ends (Leaves P) (command.op_code == b'3') _ _
            (done _ (opened_file-Stable p command cpipe s calls r))
            (if-Ends (Leaves P) (command.op_code == b'4') _ _
              (done _ (send-Stable command.session_id cpipe _ _ calls (stable.stored _ s r)))
              (if-Ends (Leaves P) (command.op_code == b'5') _ _
                (done _ (send-Stable command.session_id cpipe _ _ calls (stable.stored _ s r)))
                (if-Ends (Leaves P) (command.op_code == b'6') _ _
                  (done _ (read_file-Stable heap p i cpipe s calls r))
                  (if-Ends (Leaves P) (command.op_code == b'7') _ _
                    (done _ (shut_down-Stable p others command cpipe s calls r)) r))))))
