-- ===== src/Fs/Naming.antt =====
-- Which names tfs_lookup finds after tfs_open has created a file.
use so_project.Base.{
  ℕ, ◌≤◌, ◌<◌, ◌≡◌, ◌≢◌, inl, inr, pos, minus_one, CString, NoNul, length, some, Option-cases, free,
  taken, ltb, first_free, first_free-some, ◌∷◌, true, arith, ◌∙◌, sym, ap, subst,
}
use so_project.Fs.State.{Fs, max_dir_entries, max_open_files, inode_table_size}
use so_project.Fs.Dir.{add_in_block, find_empty, find_in_dir, find_in_block, fill_entry, entry_at}
use so_project.Fs.Dir.Entries.{find_empty-some}
use so_project.Fs.Dir.Filled.{find-filled, find-filled_long, find-filled_other}
use so_project.Fs.OpenFile.{add_to_open_file_table}
use so_project.Fs.Operations.{open_unsynchronized, lookup_unsynchronized, has_flag, tfs_o_creat}
use so_project.Fs.Valid.{IsValid, IsOpen}
use so_project.Fs.Valid.Lookup.{find_in_dir-root}
use so_project.Fs.Valid.Open.{
  Leaves, open_at, open_at-empty, open_at-full, open_at-room, open_new-some, open_new-none,
  open-missing, open-IsValid,
}
use so_project.Fs.Valid.Create.{created}
use native.Mathlib.Decide.{ℕ_discrete}

-- What a creation that returned the handle h has done, through the entry k and the i-node i.
pub record Created (i k h : ℕ) (cs : CString) (s s' : Fs) : Type 0 where
  pub new_inode : s.freeinode_ts i ≡ free
  pub in_table : i < inode_table_size
  pub named : 0 < length cs
  pub empty_entry : find_empty s.fs_data 0 max_dir_entries 0 ≡ some k
  pub stored : s'.fs_data ≡ fill_entry s.fs_data (entry_at 0 k) (pos i) cs
  pub handle : s'.open_file_table h ≡ record { of_inumber = pos i; of_offset = 0 }
  pub empty_file : (s'.inode_table i).i_size ≡ 0
  pub new_handle : s.free_open_file_entries h ≡ free
  pub in_range : ltb h max_open_files ≡ true
  pub taken_handle : s'.free_open_file_entries h ≡ taken

room-Created :
    (i k h : ℕ) (cs : CString) {s s' : Fs}
    → find_empty s.fs_data 0 max_dir_entries 0 ≡ some k
    → s.freeinode_ts i ≡ free
    → i < inode_table_size
    → 0 < length cs
    → add_to_open_file_table (pos i) 0 (add_in_block 0 (pos i) cs (created i s)).1 ≡ (pos h, s')
    → Created i k h cs s s'
unfolding add_to_open_file_table add_in_block
room-Created i k h cs {s} {s'} room new below named e =
    elim (Option-cases (first_free s.free_open_file_entries max_open_files 0)) [
      | inl full ↦ absurd (ground (arith, room))
      | inr (h', e') ↦
          ground
            (arith, room, first_free-some s.free_open_file_entries max_open_files 0 {j = h'} e')
    ]

open_at-Created :
    (i h : ℕ) (cs : CString) {s s' : Fs}
    → IsValid s
    → first_free s.freeinode_ts inode_table_size 0 ≡ some i
    → open_at i cs s ≡ (pos h, s')
    → (k : ℕ) × Created i k h cs s s'
open_at-Created i h cs {s} {s'} v e done = elim (ℕ_discrete (length cs) 0) [
  | yes z ↦ absurd (ground (arith, open_at-empty i cs v e z))
  | no z ↦ elim (Option-cases (find_empty s.fs_data 0 max_dir_entries 0)) [
    | inl full ↦ absurd (ground (arith, open_at-full i cs v e z full))
    | inr (k, room) ↦
        (let found = first_free-some s.freeinode_ts inode_table_size 0 {j = i} e in
          (
            k,
            room-Created i k h cs room found.2 found.1 (omega arith)
                (sym (open_at-room i cs v e z room) ∙ done),
          ))
  ]
]

-- A call of tfs_open with TFS_O_CREAT that fails to find the file and returns a handle.
module _ (c : ℕ) (cs : CString) (flags h : ℕ) {s s' : Fs} (v : IsValid s)
    (create : has_flag flags tfs_o_creat ≡ true)
    (missing : lookup_unsynchronized (some (c ∷ cs)) s ≡ minus_one)
    (done : open_unsynchronized (some (c ∷ cs)) flags s ≡ some (pos h, s')) where
  pub Created-open : (i : ℕ) × (k : ℕ) × Created i k h cs s s'
  Created-open = elim (Option-cases (first_free s.freeinode_ts inode_table_size 0)) [
    | inl full ↦
        absurd
          (ground (arith, open-missing (some (c ∷ cs)) flags s missing, open_new-none c cs s full))
    | inr (i, e) ↦
        (let opened : open_unsynchronized (some (c ∷ cs)) flags s ≡ some (open_at i cs s) =
            rw (open-missing (some (c ∷ cs)) flags s missing)
              (rw create (open_new-some c cs i s e)) in
          let same : open_at i cs s ≡ (pos h, s') = ground (arith, opened, done) in
          let (k, made) = open_at-Created i h cs v e same in (i, k, made))
  ]

  pub opened-IsValid : IsValid s'
  opened-IsValid = subst (Leaves IsValid) done (open-IsValid c cs flags v)

  root_search :
      (name : CString)
      → find_in_dir (pos 0) name s' ≡ find_in_block s'.fs_data 0 name max_dir_entries 0
  root_search name = find_in_dir-root opened-IsValid name

  -- The search for the new name in the new state, through the entry that was filled.
  pub new_name-found :
      NoNul cs
      → length cs ≤ 39
      → find_in_dir (pos 0) cs s ≡ minus_one
      → (i : ℕ) × (find_in_dir (pos 0) cs s' ≡ pos i)
        × (s.freeinode_ts i ≡ free)
        × (s'.open_file_table h ≡ record { of_inumber = pos i; of_offset = 0 })
        × ((s'.inode_table i).i_size ≡ 0)
        × (s.free_open_file_entries h ≡ free)
        × IsOpen h s'
  new_name-found nn le absent =
      let (i, k, made) = Created-open in
      let slot = find_empty-some s.fs_data 0 max_dir_entries 0 {j = k} made.empty_entry in
      (
        i,
        root_search cs
            ∙ ap (λ m. find_in_block m 0 cs max_dir_entries 0) made.stored
            ∙ find-filled s.fs_data 0 k (pos i) cs (omega (arith, made.in_table)) (λ e. cc e)
                (omega (arith, slot.1)) slot.2 nn le (sym (find_in_dir-root v cs) ∙ absent),
        made.new_inode,
        made.handle,
        made.empty_file,
        made.new_handle,
        record { in_table = made.in_range; is_taken = made.taken_handle },
      )

  pub long_name-lost :
      NoNul cs
      → 40 ≤ length cs
      → find_in_dir (pos 0) cs s ≡ minus_one
      → find_in_dir (pos 0) cs s' ≡ minus_one
  long_name-lost nn le absent =
      let (i, k, made) = Created-open in
      let slot = find_empty-some s.fs_data 0 max_dir_entries 0 {j = k} made.empty_entry in
      root_search cs
      ∙ ap (λ m. find_in_block m 0 cs max_dir_entries 0) made.stored
      ∙ find-filled_long s.fs_data 0 k (pos i) cs (omega (arith, made.in_table)) (λ e. cc e)
          (omega (arith, slot.1)) slot.2 nn le (sym (find_in_dir-root v cs) ∙ absent)

  pub other_name-kept :
      NoNul cs
      → length cs ≤ 39
      → (other : CString) → NoNul other
      → other ≢ cs
      → find_in_dir (pos 0) other s' ≡ find_in_dir (pos 0) other s
  other_name-kept nn le other nn' ne =
      let (i, k, made) = Created-open in
      let slot = find_empty-some s.fs_data 0 max_dir_entries 0 {j = k} made.empty_entry in
      root_search other
      ∙ ap (λ m. find_in_block m 0 other max_dir_entries 0) made.stored
      ∙ find-filled_other s.fs_data 0 k (pos i) cs (omega (arith, made.in_table)) (λ e. cc e)
          (omega (arith, slot.1)) slot.2 nn le other nn' ne
      ∙ sym (find_in_dir-root v other)

pub lookup-path :
    (name : CString) (s : Fs)
    → 0 < length name
    → lookup_unsynchronized (some (b'/' ∷ name)) s ≡ find_in_dir (pos 0) name s
unfolding lookup_unsynchronized
lookup-path name s h = ground arith

pub lookup-no_slash :
    (c : ℕ) (name : CString) (s : Fs)
    → c ≢ b'/'
    → lookup_unsynchronized (some (c ∷ name)) s ≡ minus_one
unfolding lookup_unsynchronized
lookup-no_slash c name s h = ground arith

module _ (cs : CString) (flags h : ℕ) {s s' : Fs} (v : IsValid s) (nn : NoNul cs)
    (create : has_flag flags tfs_o_creat ≡ true) where
  -- For well formed tables: when tfs_open with TFS_O_CREAT returns a handle for a path that
  -- begins with a slash and that tfs_lookup did not find, and the name behind the slash is a C
  -- string of at most 39 characters, then tfs_lookup finds the path, at an i-number that was
  -- free; the handle was not taken and is open now, on that i-node at offset 0, and the file is
  -- empty.
  pub create-lookup :
      lookup_unsynchronized (some (b'/' ∷ cs)) s ≡ minus_one
      → open_unsynchronized (some (b'/' ∷ cs)) flags s ≡ some (pos h, s')
      → length cs ≤ 39
      → (i : ℕ) × (lookup_unsynchronized (some (b'/' ∷ cs)) s' ≡ pos i)
        × (s.freeinode_ts i ≡ free)
        × (s'.open_file_table h ≡ record { of_inumber = pos i; of_offset = 0 })
        × ((s'.inode_table i).i_size ≡ 0)
        × (s.free_open_file_entries h ≡ free)
        × IsOpen h s'
  create-lookup missing done le =
      let (i, k, made) = Created-open b'/' cs flags h v create missing done in
      let (j, found, new, entry, empty, unused, handle) =
        new_name-found b'/' cs flags h v create missing done nn le
          (sym (lookup-path cs s made.named) ∙ missing) in
      (j, lookup-path cs s' made.named ∙ found, new, entry, empty, unused, handle)

  -- For well formed tables: when tfs_open creates a file with a name of at most 39 characters,
  -- the result of tfs_lookup stays the same for every other path of a slash and a name that is
  -- not empty.
  pub create-others :
      lookup_unsynchronized (some (b'/' ∷ cs)) s ≡ minus_one
      → open_unsynchronized (some (b'/' ∷ cs)) flags s ≡ some (pos h, s')
      → length cs ≤ 39
      → (other : CString) → NoNul other
      → 0 < length other
      → other ≢ cs
      → lookup_unsynchronized (some (b'/' ∷ other)) s'
        ≡ lookup_unsynchronized (some (b'/' ∷ other)) s
  create-others missing done le other nn' p ne =
      lookup-path other s' p
      ∙ other_name-kept b'/' cs flags h v create missing done nn le other nn' ne
      ∙ sym (lookup-path other s p)

  -- The bug of long names, for well formed tables: when tfs_open creates a file whose name has 40
  -- characters or more, tfs_lookup still does not find its path afterwards, since the name was
  -- stored without its end.
  pub create-long_name :
      lookup_unsynchronized (some (b'/' ∷ cs)) s ≡ minus_one
      → open_unsynchronized (some (b'/' ∷ cs)) flags s ≡ some (pos h, s')
      → 40 ≤ length cs
      → lookup_unsynchronized (some (b'/' ∷ cs)) s' ≡ minus_one
  create-long_name missing done le =
      lookup-path cs s' (omega arith)
      ∙ long_name-lost b'/' cs flags h v create missing done nn le
          (sym (lookup-path cs s (omega arith)) ∙ missing)

  -- The bug of the missing check, for well formed tables: when tfs_open with TFS_O_CREAT returns
  -- a handle for the path `c ∷ cs` with another first character than a slash, a name of at most
  -- 39 characters, and no file under the path `/cs`, it has created a file, which tfs_lookup then
  -- finds under the path `/cs`.
  pub create-no_slash :
      (c : ℕ)
      → c ≢ b'/'
      → lookup_unsynchronized (some (b'/' ∷ cs)) s ≡ minus_one
      → open_unsynchronized (some (c ∷ cs)) flags s ≡ some (pos h, s')
      → length cs ≤ 39
      → (i : ℕ) × (lookup_unsynchronized (some (b'/' ∷ cs)) s' ≡ pos i) × (s.freeinode_ts i ≡ free)
  create-no_slash c ne absent done le =
      let missing = lookup-no_slash c cs s ne in
      let (i, k, made) = Created-open c cs flags h v create missing done in
      let (j, found, new, entry, empty, unused, handle) =
        new_name-found c cs flags h v create missing done nn le
          (sym (lookup-path cs s made.named) ∙ absent) in
      (j, lookup-path cs s' made.named ∙ found, new)
