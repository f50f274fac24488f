-- ===== src/Client/Api.antt =====
-- The functions of P2/client/tecnicofs_client_api.c. `junk` is what an uninitialised variable holds.
use so_project.Base.{
  ℕ, ◌+◌, ◌-◌, ◌^◌, ℤ, pos, negsuc, minus_one, Memory, CString, chars, length, blit, signed64, leb,
  Option, none, some, if◌then◌else◌, List, [], ◌∷◌,
}
use so_project.Calls.{
  Call, Outcome, finished, waiting, exited, undefined, interrupted, broken, missing, failed, ok,
  and_then, must, received, received_int, received_size, load_size,
}
use so_project.Client.Messages.{
  max_size_message, max_pipe_name, mount_message, unmount_message, open_message, close_message,
  write_message, read_message, shutdown_message,
}

-- The globals, and the messages written, the last one first.
pub record Client : Type 0 where
  pub session_id : ℤ
  pub pipe_buffer : Memory
  pub messages : List Memory

-- The write of a message, and the read of the reply: the bytes of the reply.
unfoldable pub exchange : Memory → Client → List Call → Outcome (List ℕ × Client)
exchange message c calls = and_then (must calls) (λ written cs.
    and_then (must cs)
      (λ reply cs'. finished (reply.1, record c { messages = message ∷ c.messages }) cs'))

-- The same for a reply that is an `int`.
unfoldable pub int_exchange : ℤ → Memory → Client → List Call → Outcome (ℤ × Client)
int_exchange junk message c calls =
    and_then (exchange message c calls) (λ r cs. finished (received_int junk r.0, r.1) cs)

-- `if (call() < 0) return -1;`
unfoldable pub unless_fails :
    Client → List Call → (List Call → Outcome (ℤ × Client)) → Outcome (ℤ × Client)
unless_fails c [] next = waiting
unless_fails c (interrupted ∷ cs) next = finished (minus_one, c) cs
unless_fails c (broken ∷ cs) next = finished (minus_one, c) cs
unless_fails c (missing ∷ cs) next = finished (minus_one, c) cs
unless_fails c (failed ∷ cs) next = finished (minus_one, c) cs
unless_fails c (ok n bytes ∷ cs) next = next cs

-- `unlink` of the client's pipe: a file that does not exist is no error.
unfoldable pub unlink_old :
    Client → List Call → (List Call → Outcome (ℤ × Client)) → Outcome (ℤ × Client)
unlink_old c [] next = waiting
unlink_old c (interrupted ∷ cs) next = exited
unlink_old c (broken ∷ cs) next = exited
unlink_old c (missing ∷ cs) next = next cs
unlink_old c (failed ∷ cs) next = exited
unlink_old c (ok n bytes ∷ cs) next = next cs

-- A call of mkfifo.
unfoldable pub make_pipe : List Call → (List Call → Outcome (ℤ × Client)) → Outcome (ℤ × Client)
make_pipe [] next = waiting
make_pipe (interrupted ∷ cs) next = exited
make_pipe (broken ∷ cs) next = exited
make_pipe (missing ∷ cs) next = exited
make_pipe (failed ∷ cs) next = exited
make_pipe (ok n bytes ∷ cs) next = next cs

-- The loop that opens the server's pipe, also while it does not exist.
unfoldable pub open_server : List Call → (List Call → Outcome (ℤ × Client)) → Outcome (ℤ × Client)
open_server [] next = waiting
open_server (interrupted ∷ cs) next = open_server cs next
open_server (broken ∷ cs) next = exited
open_server (missing ∷ cs) next = open_server cs next
open_server (failed ∷ cs) next = exited
open_server (ok n bytes ∷ cs) next = next cs

-- A path that does not fit in pipe_buffer runs over its end.
unfoldable pub tfs_mount : CString → Client → List Call → Outcome (ℤ × Client)
tfs_mount client_pipe_path c calls = unlink_old c calls (λ cs₁. make_pipe cs₁ (λ cs₂.
    if leb max_pipe_name (length client_pipe_path)
    then undefined
    else open_server cs₂ (λ cs₃. and_then (must cs₃) (λ written cs₄.
      and_then (must cs₄) (λ opened cs₅. and_then (must cs₅) (λ reply cs₆.
        finished
          (
            pos 0,
            record c {
              session_id = received_int c.session_id reply.1;
              pipe_buffer = chars client_pipe_path;
              messages = mount_message (chars client_pipe_path) ∷ c.messages;
            },
          )
          cs₆))))))

unfoldable pub tfs_unmount : Client → List Call → Outcome (ℤ × Client)
tfs_unmount c calls = and_then (must calls) (λ written cs₁.
    let c' = record c { messages = unmount_message c.session_id ∷ c.messages } in
    unless_fails c' cs₁
      (λ cs₂. unless_fails c' cs₂ (λ cs₃. unless_fails c' cs₃ (λ cs₄. finished (pos 0, c') cs₄))))

unfoldable pub client_open : ℤ → Memory → ℤ → Client → List Call → Outcome (ℤ × Client)
client_open junk name flags c = int_exchange junk (open_message c.session_id name flags) c

unfoldable pub client_close : ℤ → ℤ → Client → List Call → Outcome (ℤ × Client)
client_close junk fhandle c = int_exchange junk (close_message c.session_id fhandle) c

unfoldable pub client_write : ℕ → ℤ → Memory → ℕ → Client → List Call → Outcome (ℤ × Client)
client_write junk fhandle buffer len c calls =
    elim (write_message c.session_id fhandle buffer len) [
      | none ↦ undefined
      | some message ↦
          and_then (exchange message c calls)
            (λ r cs. finished (signed64 (received_size junk r.0), r.1) cs)
    ]

-- A `ssize_t` as the `size_t` of memcpy.
abbrev pub size_of_count : ℤ → ℕ
size_of_count (pos n) = n
size_of_count (negsuc n) = 2 ^ 64 - (n + 1)

-- `memcpy(buffer, receiver_buffer + sizeof(ssize_t), res)`, undefined when the bytes are not all in
-- the receiver_buffer.
unfoldable pub copy_reply : ℤ → Memory → Memory → Option Memory
copy_reply res receiver buffer =
    let n = size_of_count res in
    if leb (8 + n) max_size_message then some (blit buffer 0 n (λ k. receiver (8 + k))) else none

unfoldable pub client_read : ℤ → Memory → ℕ → Client → List Call → Outcome (ℤ × Memory × Client)
client_read fhandle buffer len c calls =
    and_then (exchange (read_message c.session_id fhandle) c calls) (λ r cs.
      let receiver = received (8 + len) (λ k. 0) r.0 in
      let res = signed64 (load_size receiver) in
      if leb (length r.0) max_size_message
      then elim (copy_reply res receiver buffer) [
        | none ↦ undefined
        | some buffer' ↦ finished (res, buffer', r.1) cs
      ]
      else undefined)

unfoldable pub tfs_shutdown_after_all_closed : ℤ → Client → List Call → Outcome (ℤ × Client)
tfs_shutdown_after_all_closed junk c = int_exchange junk (shutdown_message c.session_id) c
