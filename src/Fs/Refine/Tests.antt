-- ===== src/Fs/Refine/Tests.antt =====
-- The contract at a write, a read and a close.
use so_project.Base.{ℕ, ◌≡◌, pos, List, [], ◌∷◌, chars, refl, arith}
use so_project.Fs.State.{Fs}
use so_project.Fs.Operations.{tfs_write, write_unsynchronized, write_block, ensure_block}
use so_project.Fs.OpenFile.{get_open_file_entry}
use so_project.Fs.Valid.{IsValid}
use so_project.Fs.Valid.Handle.{offset_of}
use so_project.Fs.Tests.{two, abc, IsOpen-first, two-IsValid}
use so_project.Fs.Refine.{
  Contents, Represents, AllowsAll, write_call, read_call, close_call, carry_out, Calls, none_made,
  made, Answered, answered,
}
use so_project.Fs.Refine.Steps.{contents_of, contents_of-Represents, calls-AllowsAll}

-- Three bytes are written through the handle 0 and read through the handle 1, which is then closed.
written_two : Fs
unfolding two tfs_write write_unsynchronized get_open_file_entry write_block ensure_block
written_two = (carry_out (write_call 0 abc 3) two).2

read_two : Fs
unfolding written_two
read_two = (carry_out (read_call 1 (chars []) 3) written_two).2

closed_two : Fs
unfolding read_two
closed_two = (carry_out (close_call (pos 1)) read_two).2

abbrev answers_two : List Answered
answers_two =
    answered (write_call 0 abc 3) (carry_out (write_call 0 abc 3) two)
    ∷ answered (read_call 1 (chars []) 3) (carry_out (read_call 1 (chars []) 3) written_two)
    ∷ answered (close_call (pos 1)) (carry_out (close_call (pos 1)) read_two)
    ∷ []

Calls-two : Calls two answers_two closed_two
unfolding closed_two
Calls-two =
    made (write_call 0 abc 3) (IsOpen-first, omega arith)
      (made (read_call 1 (chars []) 3) (record { in_table = refl; is_taken = refl })
        (made (close_call (pos 1)) tt none_made))

two-offsets : (h : ℕ) → offset_of h two ≡ 0
unfolding two
two-offsets h = ground arith

Represents-two : Represents two (contents_of two)
Represents-two = contents_of-Represents two (λ h o. omega (arith, two-offsets h))

calls-AllowsAll_example :
    IsValid closed_two
    × ((c : Contents) × AllowsAll (contents_of two) answers_two c × Represents closed_two c)
calls-AllowsAll_example = calls-AllowsAll two-IsValid Represents-two Calls-two
