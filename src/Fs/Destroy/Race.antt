-- ===== src/Fs/Destroy/Race.antt =====
-- tfs_open tests the state before it takes the lock.
use so_project.Base.{ℕ, ◌≡◌, pos, true, CString, Option, some, ◌==ℤ◌, refl}
use so_project.Fs.State.{Fs, closing, state_destroy}
use so_project.Fs.Operations.{open_unsynchronized, tfs_destroy}
use so_project.Fs.Destroy.{
  destroyed, opening, World, open_file, set_closing, find_none, destroy, Reach, here, next,
  not_called,
}

-- When a thread has tested the state in tfs_open, no file is open, and its tfs_open under the lock
-- would return the handle h in the state CLOSING, there is an order of the steps in which
-- tfs_destroy_after_all_closed is called and comes to its end and the thread opens its file all the
-- same: the destroyed file system has the tables that the thread left.
pub open_slips :
    (t : ℕ) (name : Option CString) (flags : ℕ) (h : ℕ) (s : Fs) (w : World)
    → w.destroyer ≡ not_called
    → (w.fs.open_file_count ==ℤ pos 0) ≡ true
    → w.clients t ≡ opening name flags
    → open_unsynchronized name flags (record (w.fs) { state = closing }) ≡ some (pos h, s)
    → (u : World) × Reach w u × (u.destroyer ≡ destroyed) × (u.fs ≡ s)
unfolding tfs_destroy state_destroy
open_slips t name flags h s w e none_open at o = (
  _,
  next (next (next (next here (set_closing e)) (find_none refl none_open)) (destroy refl))
      (open_file t name flags (pos h) s at o),
  refl,
  refl,
)
