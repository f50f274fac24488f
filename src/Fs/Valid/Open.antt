-- ===== src/Fs/Valid/Open.antt =====
-- Opening keeps the invariant, on every branch.
use so_project.Base.{
  ℕ, ◌≡◌, ◌≢◌, inl, inr, ℤ, pos, minus_one, ◌==ℤ◌, pos_part, Option, none, some, free, first_free,
  first_free-some, Option-cases, CString, ◌∷◌, length, ◌==◌, if◌then◌else◌, false, Bool-cases,
  arith,
}
use so_project.Fs.State.{Fs, max_dir_entries, inode_table_size}
use so_project.Fs.Inode.{set_freeinode, inode_create, inode_get, inode_delete}
use so_project.Fs.Dir.{find_empty, add_dir_entry, add_in_block}
use so_project.Fs.OpenFile.{add_to_open_file_table}
use so_project.Fs.Operations.{
  open_existing, open_new, open_unsynchronized, lookup_unsynchronized, has_flag, tfs_o_trunc,
  tfs_o_append, tfs_o_creat,
}
use so_project.Fs.Valid.{IsValid, IsFile}
use so_project.Fs.Valid.Tables.{add_to_open_file_table-IsValid}
use so_project.Fs.Valid.Blocks.{truncated, truncate-succeeds, truncated-IsValid, truncated-IsFile}
use so_project.Fs.Valid.Handle.{IsFile-pos}
use so_project.Fs.Valid.Lookup.{add_dir_entry-root, lookup-IsFile}
use so_project.Fs.Valid.Create.{
  created, inode_create-file, created-IsValid, created-IsFile, inode_delete-created,
  deleted-IsValid, add_in_block-IsValid, add_in_block-IsFile,
}
use native.Mathlib.Decide.{ℕ_discrete}

-- The result is defined, and its state has the property.
abbrev pub Leaves : (Fs → Type 0) → Option (ℤ × Fs) → Type 0
Leaves P none = ⊥
Leaves P (some (r, s)) = P s

-- The state in which an existing file is opened.
abbrev pub reopened : ℕ → ℕ → Fs → Fs
reopened i flags s = if has_flag flags tfs_o_trunc then truncated i s else s

abbrev pub start_offset : ℕ → ℕ → Fs → ℕ
start_offset i flags s =
    if has_flag flags tfs_o_append then ((reopened i flags s).inode_table i).i_size else 0

module _ (i flags : ℕ) {s : Fs} (v : IsValid s) (f : IsFile s (pos i)) where
  reopened-IsValid : IsValid (reopened i flags s)
  reopened-IsValid = elim (Bool-cases (has_flag flags tfs_o_trunc)) [
    | inl e ↦ rw e (truncated-IsValid i v f)
    | inr e ↦ rw e v
  ]

  reopened-IsFile : IsFile (reopened i flags s) (pos i)
  reopened-IsFile = elim (Bool-cases (has_flag flags tfs_o_trunc)) [
    | inl e ↦ rw e (truncated-IsFile i v f)
    | inr e ↦ rw e f
  ]

  -- In a valid state the only failure left is a full open file table.
  pub open_existing-eq :
      open_existing i flags s
      ≡ add_to_open_file_table (pos i) (start_offset i flags s) (reopened i flags s)
  unfolding open_existing
  open_existing-eq = elim (Bool-cases (has_flag flags tfs_o_trunc)) [
    | inl e ↦ rw (e, open_existing) (rw (truncate-succeeds i v f, open_existing))
    | inr e ↦ rw (e, open_existing)
  ]

  open_existing-IsValid : IsValid (open_existing i flags s).1
  open_existing-IsValid = rw open_existing-eq (
      add_to_open_file_table-IsValid (pos i) (start_offset i flags s) reopened-IsValid
        reopened-IsFile
        (elim (Bool-cases (has_flag flags tfs_o_append)) [
          | inl e ↦ rw e (reopened-IsValid.sizes i reopened-IsFile.is_taken)
          | inr e ↦ rw e (omega arith)
        ]))

not-zero : (cs : CString) → length cs ≢ 0 → (length cs == 0) ≡ false
not-zero cs h = ground arith

-- What open_new does once the i-node i has been created.
pub open_at : ℕ → CString → Fs → ℤ × Fs
open_at i cs s =
    let (r, s') = add_dir_entry (pos 0) (pos i) cs (created i s) in
    if r ==ℤ minus_one
    then (minus_one, (inode_delete (pos i) s').1)
    else add_to_open_file_table (pos i) 0 s'

pub open_new-some :
    (c : ℕ) (cs : CString) (i : ℕ) (s : Fs)
    → first_free s.freeinode_ts inode_table_size 0 ≡ some i
    → open_new (some (c ∷ cs)) s ≡ some (open_at i cs s)
unfolding open_new open_at
open_new-some c cs i s e = rw (inode_create-file s i e, open_new)

pub open_new-none :
    (c : ℕ) (cs : CString) (s : Fs)
    → first_free s.freeinode_ts inode_table_size 0 ≡ none
    → open_new (some (c ∷ cs)) s ≡ some (minus_one, s)
unfolding open_new inode_create
open_new-none c cs s e = rw (e, open_new, inode_create)

module _ (i : ℕ) (cs : CString) {s : Fs} (v : IsValid s)
    (e : first_free s.freeinode_ts inode_table_size 0 ≡ some i) where
  open first_free-some s.freeinode_ts inode_table_size 0 {j = i} e use {
    «1» as below, «2» as available,
  }

  here-IsValid : IsValid (created i s)
  here-IsValid = created-IsValid i v available

  created_file : IsFile (created i s) (pos i)
  created_file = created-IsFile i v available below

  pub open_at-empty :
      length cs ≡ 0 → open_at i cs s ≡ (minus_one, set_freeinode i free (created i s))
  unfolding open_at
  open_at-empty z =
      rw (add_dir_entry-root here-IsValid i cs below, open_at)
        (rw (z, open_at) (rw (inode_delete-created i v available below)))

  pub open_at-full :
      length cs ≢ 0
      → find_empty s.fs_data 0 max_dir_entries 0 ≡ none
      → open_at i cs s ≡ (minus_one, set_freeinode i free (created i s))
  unfolding open_at add_in_block
  open_at-full z full =
      rw (add_dir_entry-root here-IsValid i cs below, open_at)
        (rw (not-zero cs z, open_at)
          (rw (full, open_at, add_in_block) (rw (inode_delete-created i v available below))))

  pub open_at-room :
      length cs ≢ 0
      → {k : ℕ} → find_empty s.fs_data 0 max_dir_entries 0 ≡ some k
      → open_at i cs s
        ≡ add_to_open_file_table (pos i) 0 (add_in_block 0 (pos i) cs (created i s)).1
  unfolding open_at add_in_block
  open_at-room z {k} room =
      rw (add_dir_entry-root here-IsValid i cs below, open_at)
        (rw (not-zero cs z, open_at) (rw (room, open_at, add_in_block)))

  pub open_at-IsValid : IsValid (open_at i cs s).1
  open_at-IsValid = elim (ℕ_discrete (length cs) 0) [
    | yes z ↦ rw (open_at-empty z) (deleted-IsValid i v available)
    | no z ↦ elim (Option-cases (find_empty s.fs_data 0 max_dir_entries 0)) [
      | inl full ↦ rw (open_at-full z full) (deleted-IsValid i v available)
      | inr (k, room) ↦ rw (open_at-room z room) (
          add_to_open_file_table-IsValid (pos i) 0
            (add_in_block-IsValid i cs here-IsValid created_file)
            (add_in_block-IsFile i cs here-IsValid created_file) (omega arith))
    ]
  ]

open_new-IsValid :
    (c : ℕ) (cs : CString) {s : Fs} → IsValid s → Leaves IsValid (open_new (some (c ∷ cs)) s)
open_new-IsValid c cs {s} v = elim (Option-cases (first_free s.freeinode_ts inode_table_size 0)) [
  | inl e ↦ rw (open_new-none c cs s e) v
  | inr (i, e) ↦ rw (open_new-some c cs i s e) (open_at-IsValid i cs v e)
]

-- `lookup` gives the branch: the file exists, or it does not.
pub open-existing :
    (name : Option CString) (flags : ℕ) {s : Fs}
    → IsFile s (lookup_unsynchronized name s)
    → open_unsynchronized name flags s
      ≡ some (open_existing (pos_part (lookup_unsynchronized name s)) flags s)
unfolding open_unsynchronized inode_get
open-existing name flags {s} f = ground (arith, f.in_table)

pub open-missing :
    (name : Option CString) (flags : ℕ) (s : Fs)
    → lookup_unsynchronized name s ≡ minus_one
    → open_unsynchronized name flags s
      ≡ (if has_flag flags tfs_o_creat then open_new name s else some (minus_one, s))
unfolding open_unsynchronized
open-missing name flags s e = rw (e, open_unsynchronized)

pub open-IsValid :
    (c : ℕ) (cs : CString) (flags : ℕ) {s : Fs}
    → IsValid s
    → Leaves IsValid (open_unsynchronized (some (c ∷ cs)) flags s)
open-IsValid c cs flags {s} v = elim (lookup-IsFile v (some (c ∷ cs))) [
  | inr f ↦ rw (open-existing (some (c ∷ cs)) flags f) (
      open_existing-IsValid (pos_part (lookup_unsynchronized (some (c ∷ cs)) s)) flags v
        (IsFile-pos f))
  | inl e ↦
      rw (open-missing (some (c ∷ cs)) flags s e) (elim (Bool-cases (has_flag flags tfs_o_creat)) [
        | inl create ↦ rw create (open_new-IsValid c cs v)
        | inr plain ↦ rw plain v
      ])
]
