-- ===== src/Client/Tests.antt =====
-- Concrete messages of the client of P2/client, read by the server.
use so_project.Base.{
  ℕ, suc, ◌≤◌, ◌<◌, ◌≡◌, pos, Memory, chars, load_int, arith, refl, [], ◌∷◌, some,
}
use so_project.Fs.Operations.{tfs_close, tfs_write, works}
use so_project.Calls.{ok, finished}
use so_project.Server.State.{Server, process, int_reply, size_reply}
use so_project.Server.Producer.{rounds}
use so_project.Server.Consumer.{consume}
use so_project.Client.Messages.{close_message, open_message, write_message}
use so_project.Client.Delivery.{pieces, with_op_codes}
use so_project.Client.Requests.{Requested, close-served}
use so_project.Client.Fields.{open-misread}
use so_project.Client.Api.{Client}
use so_project.Client.Delivered.{write-served}

abbrev heap : Memory
heap k = 0

abbrev path_f : Memory
path_f = chars (b'/' ∷ b'f' ∷ [])

abbrev abc : Memory
abc = chars (b'a' ∷ b'b' ∷ b'c' ∷ [])

close-served_example :
    (t : Server) × (u : Server) × (rounds 92 heap process
        (pieces (close_message (pos 2) (pos 5)) 0 (with_op_codes (1 ∷ 4 ∷ 4 ∷ []) 91) [])
      ≡ finished t [])
    × Requested 2 (record (process.buffer 2) { op_code = b'4'; fnum = pos 5 }) process t
    × (consume heap works (λ s. s) 2 (pos 7) t (ok 4 [] ∷ []) ≡ finished (pos 7, u) [])
    × (u.fs ≡ (tfs_close works (pos 5) process.fs).1)
    × (u.replies ≡ (pos 7, int_reply (tfs_close works (pos 5) process.fs).0) ∷ process.replies)
close-served_example =
    close-served heap works (λ s. s) 2 (pos 5) (pos 7) process 4 [] [] [] (omega arith)
      (omega arith) refl

open-misread_example :
    (t : Server) × (rounds 52 heap process
        (pieces (open_message (pos 2) path_f (pos 3)) 0 (with_op_codes (1 ∷ 4 ∷ 40 ∷ 4 ∷ []) 51) [])
      ≡ finished t [])
    × ((t.buffer 2).op_code ≡ b'3')
    × ((t.buffer 2).fnum ≡ pos 0)
    × ((t.buffer 2).name 0 ≡ path_f 0)
    × (load_int (t.buffer 2).name 1 ≡ pos 3)
    × ((k : ℕ) → 5 ≤ k → k < 40 → (t.buffer 2).name k ≡ path_f k)
open-misread_example =
    open-misread heap 2 path_f (pos 3) process [] (omega arith) (omega arith) refl

write-served_example :
    (message : Memory) × (contents : Memory) × (t : Server) × (u : Server) × (write_message
        (pos 2)
        (pos 5)
        abc
        3
      ≡ some message)
    × (rounds
          (suc (suc 79))
          heap
          process
          (pieces message 0 (with_op_codes (1 ∷ 4 ∷ 4 ∷ 8 ∷ 3 ∷ []) (suc 79)) [])
        ≡ finished t [])
    × (consume heap works (λ s. s) 2 (pos 7) t (ok 8 [] ∷ []) ≡ finished (pos 7, u) [])
    × (u.fs ≡ (tfs_write works (pos 5) contents 3 process.fs).1)
    × (u.replies
        ≡ (pos 7, size_reply (tfs_write works (pos 5) contents 3 process.fs).0) ∷ process.replies)
    × ((k : ℕ) → k < 3 → contents k ≡ abc k)
write-served_example =
    write-served heap works (λ s. s) 2 (pos 5) (pos 7) abc 3 79 process 8 [] [] [] (omega arith)
      (omega arith) refl refl

abbrev client : Client
client = record { session_id = pos 0; pipe_buffer = heap; messages = [] }
