-- ===== src/Client/Replies.antt =====
-- What the client makes of the server's reply -1.
use so_project.Base.{
  ℕ, ◌<◌, ◌≡◌, pos, minus_one, CString, chars, length, leb, arith, refl, List, [], ◌∷◌, false,
}
use so_project.Calls.{Call, finished, ok, must}
use so_project.Client.Messages.{mount_message}
use so_project.Client.Api.{Client, tfs_mount, unlink_old, make_pipe, open_server}

-- The bytes of -1 as an `int`.
abbrev pub int_minus_one : List ℕ
int_minus_one = 255 ∷ 255 ∷ 255 ∷ 255 ∷ []

-- The bug of a refused mount: for a path that fits, when the system calls succeed and the server
-- replies -1, tfs_mount of the client returns 0 all the same, and the session id is -1.
pub mount-refused :
    (path : CString) (c : Client) (n₁ n₂ n₃ n₄ n₅ n₆ : ℕ) (b₁ b₂ b₃ b₄ b₅ : List ℕ) (cs : List Call)
    → length path < 40
    → tfs_mount path c
        (ok n₁ b₁ ∷ ok n₂ b₂ ∷ ok n₃ b₃ ∷ ok n₄ b₄ ∷ ok n₅ b₅ ∷ ok n₆ int_minus_one ∷ cs)
      ≡ finished
          (
            pos 0,
            record {
              session_id = minus_one;
              pipe_buffer = chars path;
              messages = mount_message (chars path) ∷ c.messages;
            },
          )
          cs
unfolding tfs_mount unlink_old make_pipe open_server must
mount-refused path c n₁ n₂ n₃ n₄ n₅ n₆ b₁ b₂ b₃ b₄ b₅ cs lt =
    let short : leb 40 (length path) ≡ false = ground arith in rw short refl
