-- ===== src/Fs/Tests.antt =====
-- Runs of the file system on concrete inputs, and the theorems at these inputs.
use so_project.Base.{
  ℕ, zero, suc, ◌+◌, ap, ◌<◌, ◌≡◌, ◌⊎◌, ℤ, pos, minus_one, CString, Memory, Option, some, none, [],
  ◌∷◌, chars, refl, arith, first_free, strncmp_eq, free, taken,
}
use so_project.Fs.State.{Fs, block_size, data_blocks, zeroed, state_init}
use so_project.Fs.Block.{data_block_alloc, data_block_free, data_block_get}
use so_project.Fs.Inode.{inode_create, inode_delete, inode_get, clear_entries}
use so_project.Fs.Dir.{find_in_dir, find_in_block, add_dir_entry, add_in_block, find_empty}
use so_project.Fs.OpenFile.{
  add_to_open_file_table, remove_from_open_file_table, get_open_file_entry,
}
use so_project.Fs.Operations.{
  works, tfs_init, tfs_open, tfs_write, open_existing, open_new, open_unsynchronized,
  write_unsynchronized, write_block, ensure_block, read_unsynchronized, lookup_unsynchronized,
  truncate,
}
use so_project.Fs.Valid.{IsValid, IsOpen}
use so_project.Fs.Valid.Open.{Leaves, open-IsValid}
use so_project.Fs.Valid.Handle.{file_of, byte_of, offset_of, size_of}
use so_project.Fs.Valid.Write.{write-IsValid}
use so_project.Fs.Io.Write.{write_outcome, Written}
use so_project.Fs.Io.Read.{read_outcome, read_behind_end, Copied}
use so_project.Fs.Io.Isolation.{write-others, SameFile}
use so_project.Fs.Io.RoundTrip.{read-write}
use so_project.Fs.Naming.{create-lookup, create-others, create-long_name}
use so_project.Fs.Misuse.{write-closed}
use Prim.Native.Nat.{min, ◌-◌}
use so_project.Fs.Valid.Reach.{
  Reach, here, next, open_call, write_call, tfs_init-Reach-IsValid, Step-IsValid,
}

abbrev after : Option (ℤ × Fs) → Fs
after none = zeroed
after (some (r, s)) = s

abbrev name_f : CString
name_f = b'f' ∷ []

abbrev pub path_f : Option CString
path_f = some (b'/' ∷ name_f)

abbrev pub abc : Memory
abc = chars (b'a' ∷ b'b' ∷ b'c' ∷ [])

unfoldable pub fresh : Fs
unfolding tfs_init state_init inode_create data_block_alloc data_block_get clear_entries first_free
fresh = (tfs_init works zeroed).1

fresh-IsValid : IsValid fresh
unfolding fresh
fresh-IsValid = tfs_init-Reach-IsValid works zeroed refl refl here

-- The file /f is created and open at the handle 0.
unfoldable pub one : Fs
unfolding fresh tfs_open open_unsynchronized lookup_unsynchronized find_in_dir find_in_block
    strncmp_eq inode_get open_existing truncate open_new add_dir_entry add_in_block find_empty
    add_to_open_file_table inode_delete data_block_free
one = after (tfs_open works path_f 1 fresh)

one-opened : tfs_open works path_f 1 fresh ≡ some (pos 0, one)
unfolding one
one-opened = refl

pub one-IsValid : IsValid one
one-IsValid = Step-IsValid fresh-IsValid (open_call works b'/' name_f 1 (pos 0) one-opened)

-- It is open a second time, at the handle 1.
unfoldable pub two : Fs
unfolding one
two = after (tfs_open works path_f 0 one)

two-opened : tfs_open works path_f 0 one ≡ some (pos 1, two)
unfolding two
two-opened = refl

pub two-IsValid : IsValid two
two-IsValid = Step-IsValid one-IsValid (open_call works b'/' name_f 0 (pos 1) two-opened)

-- Three bytes are written through the handle 0.
three : Fs
unfolding two tfs_write write_unsynchronized get_open_file_entry write_block ensure_block
three = (tfs_write works (pos 0) abc 3 two).1

three-reached : Reach (tfs_init works zeroed).1 three
unfolding three fresh two one
three-reached =
    next
      (next (next here (open_call works b'/' name_f 1 (pos 0) refl))
        (open_call works b'/' name_f 0 (pos 1) refl))
      (write_call works 0 abc 3 (record { in_table = refl; is_taken = refl }) (omega arith))

tfs_init-Reach-IsValid_example : IsValid three
tfs_init-Reach-IsValid_example = tfs_init-Reach-IsValid works zeroed refl refl three-reached

pub IsOpen-first : IsOpen 0 two
unfolding two
IsOpen-first = record { in_table = refl; is_taken = refl }

IsOpen-second : IsOpen 1 two
unfolding two
IsOpen-second = record { in_table = refl; is_taken = refl }

read-write_example :
    ((read_unsynchronized (pos 1) (chars []) 3 (write_unsynchronized (pos 0) abc 3 two).1).0
      ≡ pos 3)
    × ((k : ℕ)
        → k < 3
        → (read_unsynchronized (pos 1) (chars []) 3 (write_unsynchronized (pos 0) abc 3 two).1).1 k
          ≡ abc k)
unfolding three
read-write_example =
    read-write 0 1 abc (chars []) 3 two-IsValid IsOpen-first IsOpen-second (omega arith) refl refl
      (omega arith) (omega arith) refl

write-others_example : SameFile 0 two (write_unsynchronized (pos 0) abc 3 two).1
unfolding two
write-others_example =
    write-others 0 abc 3 two-IsValid IsOpen-first (omega arith) 0 refl (omega arith) (omega arith)

-- The second alternative is empty at this input, whose blocks are not all taken.
write_outcome_example :
    (((write_unsynchronized (pos 0) abc 3 two).0 ≡ pos (min 3 (block_size - offset_of 0 two)))
      × Written 0 abc
          (min 3 (block_size - offset_of 0 two))
          two
          (write_unsynchronized (pos 0) abc 3 two).1)
    ⊎ (((write_unsynchronized (pos 0) abc 3 two).0 ≡ minus_one)
        × (size_of 0 two ≡ 0)
        × ((b : ℕ) → b < data_blocks → two.free_blocks b ≡ taken)
        × ((write_unsynchronized (pos 0) abc 3 two).1.fs_data ≡ two.fs_data)
        × ((write_unsynchronized (pos 0) abc 3 two).1.open_file_table ≡ two.open_file_table))
write_outcome_example = write_outcome 0 abc 3 two-IsValid IsOpen-first (omega arith)

three-IsValid : IsValid three
unfolding three
three-IsValid = write-IsValid 0 abc 3 two-IsValid IsOpen-first (omega arith)

IsOpen-third : IsOpen 1 three
unfolding three
IsOpen-third = record { in_table = refl; is_taken = refl }

read_outcome_example :
    ((read_unsynchronized (pos 1) (chars []) 2 three).0
      ≡ pos (min 2 (size_of 1 three - offset_of 1 three)))
    × Copied 1
        (chars [])
        (min 2 (size_of 1 three - offset_of 1 three))
        three
        (read_unsynchronized (pos 1) (chars []) 2 three).1
        (read_unsynchronized (pos 1) (chars []) 2 three).2
unfolding three
read_outcome_example = read_outcome 1 (chars []) 2 three-IsValid IsOpen-third (omega arith)

missing_f : lookup_unsynchronized path_f fresh ≡ minus_one
unfolding one
missing_f = refl

create_f : open_unsynchronized path_f 1 fresh ≡ some (pos 0, one)
unfolding one
create_f = refl

create-lookup_example :
    (i : ℕ) × (lookup_unsynchronized path_f one ≡ pos i)
    × (fresh.freeinode_ts i ≡ free)
    × (one.open_file_table 0 ≡ record { of_inumber = pos i; of_offset = 0 })
    × ((one.inode_table i).i_size ≡ 0)
    × (fresh.free_open_file_entries 0 ≡ free)
    × IsOpen 0 one
create-lookup_example =
    create-lookup name_f 1 0 fresh-IsValid (omega arith) refl missing_f create_f (omega arith)

abbrev name_g : CString
name_g = b'g' ∷ []

create-others_example :
    lookup_unsynchronized (some (b'/' ∷ name_g)) one
    ≡ lookup_unsynchronized (some (b'/' ∷ name_g)) fresh
create-others_example =
    create-others name_f 1 0 fresh-IsValid (omega arith) refl missing_f create_f (omega arith)
      name_g (omega arith) (omega arith) (λ e. omega (arith, ap (λ (t : CString). chars t 0) e))

-- A name of 40 characters.
abbrev repeated : ℕ → CString
repeated zero = []
repeated (suc n) = b'x' ∷ repeated n

long : Fs
unfolding one
long = after (open_unsynchronized (some (b'/' ∷ repeated 40)) 1 fresh)

create-long_name_example : lookup_unsynchronized (some (b'/' ∷ repeated 40)) long ≡ minus_one
unfolding long
create-long_name_example =
    create-long_name (repeated 40) 1 0 fresh-IsValid (omega arith) refl refl refl (omega arith)

-- The file is truncated through a third handle, while the handle 0 stands at offset 3.
cut : Fs
cut = after (open_unsynchronized path_f 2 three)

after-Leaves : (P : Fs → Type 0) (o : Option (ℤ × Fs)) → Leaves P o → P (after o)
after-Leaves P none l = absurd l
after-Leaves P (some (r, s)) l = l

cut-IsValid : IsValid cut
unfolding cut
cut-IsValid =
    after-Leaves IsValid (open_unsynchronized path_f 2 three)
      (open-IsValid b'/' name_f 2 three-IsValid)

stale_0 : IsOpen 0 cut
unfolding cut three
stale_0 = record { in_table = refl; is_taken = refl }

read_behind_end_example :
    ((read_unsynchronized (pos 0) (chars []) 5 cut).0 ≡ pos 5)
    × ((k : ℕ)
        → k < 5
        → (read_unsynchronized (pos 0) (chars []) 5 cut).1 k
          ≡ byte_of cut (file_of 0 cut) (offset_of 0 cut + k))
unfolding cut three
read_behind_end_example =
    read_behind_end 0 (chars []) 5 cut-IsValid stale_0 (omega arith) refl (omega arith)
      (omega arith)

write-closed_example :
    let closed = (remove_from_open_file_table (pos 0) two).1 in
    ((write_unsynchronized (pos 0) abc 3 closed).0 ≡ (write_unsynchronized (pos 0) abc 3 two).0)
    × ((write_unsynchronized (pos 0) abc 3 closed).1.fs_data
        ≡ (write_unsynchronized (pos 0) abc 3 two).1.fs_data)
write-closed_example = write-closed 0 abc 3 IsOpen-first
