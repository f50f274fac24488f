-- ===== src/Client/Messages.antt =====
-- The messages of P2/client/tecnicofs_client_api.c: MAX_SIZE_MESSAGE bytes that are zero at first.
use so_project.Base.{
  ℕ, ◌+◌, ℤ, Memory, put, blit, store_int, leb, Option, none, some, if◌then◌else◌,
}
use so_project.Calls.{size_bytes}

abbrev pub max_size_message : ℕ
max_size_message = 100

abbrev pub max_pipe_name : ℕ
max_pipe_name = 40

abbrev empty_message : Memory
empty_message k = 0

-- The op code, then the session id.
abbrev session_message : ℕ → ℤ → Memory
session_message op session_id = store_int (put empty_message 0 op) 1 session_id

abbrev pub mount_message : Memory → Memory
mount_message client_pipe_path = blit (put empty_message 0 b'1') 1 max_pipe_name client_pipe_path

abbrev pub unmount_message : ℤ → Memory
unmount_message session_id = session_message b'2' session_id

-- The flags go behind the first byte of the name.
abbrev pub open_message : ℤ → Memory → ℤ → Memory
open_message session_id name flags =
    store_int (blit (session_message b'3' session_id) 5 max_pipe_name name) (1 + 4 + 1) flags

abbrev pub close_message : ℤ → ℤ → Memory
close_message session_id fhandle = store_int (session_message b'4' session_id) 5 fhandle

-- `none` when the bytes do not fit in the message: the copy runs over its end.
abbrev pub write_message : ℤ → ℤ → Memory → ℕ → Option Memory
write_message session_id fhandle buffer len =
    if leb (17 + len) max_size_message
    then some (
        blit (blit (store_int (session_message b'5' session_id) 5 fhandle) 9 8 (size_bytes len)) 17
          len buffer)
    else none

abbrev pub read_message : ℤ → ℤ → Memory
read_message session_id fhandle = store_int (session_message b'6' session_id) 5 fhandle

abbrev pub shutdown_message : ℤ → Memory
shutdown_message session_id = session_message b'7' session_id
