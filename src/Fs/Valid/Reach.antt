-- ===== src/Fs/Valid/Reach.antt =====
-- The states that a process reaches from tfs_init by calls of the operations, in any order, with any
-- results of the pthread functions. A handle given to tfs_write or tfs_read is open, as
-- operations.h asks, and a read starts within the file.
use so_project.Base.{
  minus_one, ◌⊎◌, ℕ, ◌^◌, ◌≤◌, ◌<◌, ◌≡◌, inl, inr, ℤ, pos, Option, none, some, CString, ◌∷◌, Memory,
  Bool-cases, ◌&&◌, arith, refl, subst, ◌==ℤ◌,
}
use so_project.Fs.State.{Fs, closing, state_destroy}
use so_project.Fs.OpenFile.{remove_from_open_file_table}
use so_project.Fs.Operations.{
  finish_destroy, tfs_destroy, Pthread, fails, tfs_init, tfs_open, tfs_close, tfs_write, tfs_read,
  open_unsynchronized,
}
use so_project.Fs.Valid.{IsFile, IsValid, IsOpen}
use so_project.Fs.Valid.Tables.{remove_from_open_file_table-IsValid}
use so_project.Fs.Valid.Handle.{file_of}
use so_project.Fs.Valid.Write.{write-IsValid, read-IsValid}
use so_project.Fs.Valid.Open.{Leaves, open-IsValid}
use so_project.Fs.Valid.Init.{initial-IsValid, tfs_init-initial}

pub data Step (s : Fs) : Fs → Type 0 where
  open_call :
      (p : Pthread) (c : ℕ) (cs : CString) (flags : ℕ) (r : ℤ) {s' : Fs}
      → tfs_open p (some (c ∷ cs)) flags s ≡ some (r, s')
      → Step s s'
  close_call : (p : Pthread) (fhandle : ℤ) → Step s (tfs_close p fhandle s).1
  write_call :
      (p : Pthread) (h : ℕ) (buffer : Memory) (to_write : ℕ)
      → IsOpen h s
      → to_write < 2 ^ 63
      → Step s (tfs_write p (pos h) buffer to_write s).1
  read_call :
      (p : Pthread) (h : ℕ) (buffer : Memory) (len : ℕ)
      → IsOpen h s
      → (s.open_file_table h).of_offset ≤ (s.inode_table (file_of h s)).i_size
      → Step s (tfs_read p (pos h) buffer len s).2
  -- tfs_destroy_after_all_closed up to its wait, and behind it
  destroy_begins : Step s (record s { state = closing })
  destroy_ends : (p : Pthread) → Step s (finish_destroy p s).1

pub data Reach (s : Fs) : Fs → Type 0 where
  here : Reach s s
  next : {t u : Fs} → Reach s t → Step t u → Reach s u

module _ (p : Pthread) {s : Fs} (v : IsValid s) where
  tfs_open-IsValid :
      (c : ℕ) (cs : CString) (flags : ℕ) → Leaves IsValid (tfs_open p (some (c ∷ cs)) flags s)
  unfolding tfs_open
  tfs_open-IsValid c cs flags = go (open_unsynchronized (some (c ∷ cs)) flags s) refl
    where
      go :
          (o : Option (ℤ × Fs))
          → open_unsynchronized (some (c ∷ cs)) flags s ≡ o
          → Leaves IsValid (tfs_open p (some (c ∷ cs)) flags s)
      go none e = absurd (subst (Leaves IsValid) e (open-IsValid c cs flags v))
      go (some (r, s')) e = ground (arith, subst (Leaves IsValid) e (open-IsValid c cs flags v), v)

  tfs_close-IsValid : (fhandle : ℤ) → IsValid (tfs_close p fhandle s).1
  unfolding tfs_close
  tfs_close-IsValid fhandle = elim (Bool-cases (fails p.mutex_lock)) [
    | inl unlocked ↦ rw unlocked v
    | inr locked ↦
        rw locked
          (elim (Bool-cases (
            (remove_from_open_file_table fhandle s).1.open_file_count ==ℤ pos 0
            && fails p.cond_signal)) [
              | inl e ↦ rw e (remove_from_open_file_table-IsValid fhandle v)
              | inr e ↦ rw e (elim (Bool-cases (fails p.mutex_unlock)) [
                | inl e' ↦ rw e' (remove_from_open_file_table-IsValid fhandle v)
                | inr e' ↦ rw e' (remove_from_open_file_table-IsValid fhandle v)
              ])
            ])
  ]

  tfs_write-IsValid :
      (h : ℕ) (buffer : Memory) (to_write : ℕ)
      → IsOpen h s
      → to_write < 2 ^ 63
      → IsValid (tfs_write p (pos h) buffer to_write s).1
  unfolding tfs_write
  tfs_write-IsValid h buffer to_write o w = ground (arith, write-IsValid h buffer to_write v o w, v)

  tfs_read-IsValid :
      (h : ℕ) (buffer : Memory) (len : ℕ)
      → IsOpen h s
      → (s.open_file_table h).of_offset ≤ (s.inode_table (file_of h s)).i_size
      → IsValid (tfs_read p (pos h) buffer len s).2
  unfolding tfs_read
  tfs_read-IsValid h buffer len o le = ground (arith, read-IsValid h buffer len v o le, v)

destroy_begins-IsFile : {s : Fs} (z : ℤ) → IsFile s z → IsFile (record s { state = closing }) z
destroy_begins-IsFile z f = record {
  in_table = f.in_table;
  not_root = f.not_root;
  is_taken = f.is_taken;
  is_file = f.is_file;
}

destroy_begins-entry :
    {s : Fs} (z : ℤ)
    → (z ≡ minus_one) ⊎ IsFile s z
    → (z ≡ minus_one) ⊎ IsFile (record s { state = closing }) z
destroy_begins-entry z (inl e) = inl e
destroy_begins-entry z (inr f) = inr (destroy_begins-IsFile z f)

destroy_begins-IsValid : {s : Fs} → IsValid s → IsValid (record s { state = closing })
destroy_begins-IsValid v = record {
  root_taken = v.root_taken;
  root_directory = v.root_directory;
  root_size = v.root_size;
  root_block = v.root_block;
  sizes = v.sizes;
  block_valid = v.block_valid;
  block_taken = v.block_taken;
  separate = v.separate;
  entries = λ k lt. destroy_begins-entry _ (v.entries k lt);
  offsets = v.offsets;
  handles = λ h t. destroy_begins-IsFile _ (v.handles h t);
  counted = v.counted;
}

finish_destroy-same : (p : Pthread) (s : Fs) → (finish_destroy p s).1 ≡ s
unfolding finish_destroy tfs_destroy state_destroy
finish_destroy-same p s = ground arith

-- Every call keeps the invariant, also when a pthread function fails.
pub Step-IsValid : {s t : Fs} → IsValid s → Step s t → IsValid t
Step-IsValid v (open_call p c cs flags r e) =
    subst (Leaves IsValid) e (tfs_open-IsValid p v c cs flags)
Step-IsValid v (close_call p fhandle) = tfs_close-IsValid p v fhandle
Step-IsValid v (write_call p h buffer n o w) = tfs_write-IsValid p v h buffer n o w
Step-IsValid v (read_call p h buffer len o le) = tfs_read-IsValid p v h buffer len o le
Step-IsValid v destroy_begins = destroy_begins-IsValid v
Step-IsValid {s} v (destroy_ends p) = rw (finish_destroy-same p s) v

pub Reach-IsValid : {s t : Fs} → IsValid s → Reach s t → IsValid t
Reach-IsValid v here = v
Reach-IsValid v (next r st) = Step-IsValid (Reach-IsValid v r) st

-- From a tfs_init whose mutex and condition variable could be initialised, whatever the memory held
-- before, every sequence of calls leads to a state in which the tables are well formed: calls of
-- tfs_open with a path that is not empty, of tfs_close with any handle, of tfs_write and tfs_read
-- through open handles, the writes of less than 2 ^ 63 bytes, the reads from within the file, and of
-- tfs_destroy_after_all_closed.
pub tfs_init-Reach-IsValid :
    (p : Pthread) (s : Fs) {t : Fs}
    → p.mutex_init ≡ pos 0
    → p.cond_init ≡ pos 0
    → Reach (tfs_init p s).1 t
    → IsValid t
tfs_init-Reach-IsValid p s a b r =
    Reach-IsValid (rw (tfs_init-initial s p a b) (initial-IsValid s)) r
