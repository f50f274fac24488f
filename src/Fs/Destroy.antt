-- ===== src/Fs/Destroy.antt =====
-- tfs_destroy_after_all_closed of P2/fs/operations.c beside threads that call tfs_open and tfs_close. What
-- a thread does under single_global_lock is one step; the other operations neither read the state nor
-- change the number of open files, and have no step. pthread functions do not fail here.
pub mod Drained
pub mod Race
mod Tests
use so_project.Base.{
  ℕ, ◌≡◌, ℤ, pos, Bool, true, false, CString, Option, none, some, update, ◌==ℤ◌, if◌then◌else◌,
}
use so_project.Fs.State.{Fs, closing}
use so_project.Fs.Operations.{works, open_unsynchronized, tfs_close, tfs_destroy, is_closing}

-- Where the thread in tfs_destroy_after_all_closed stands.
pub data Destroyer : Type 0 where
  not_called : Destroyer
  at_lock : Destroyer  -- behind `state = CLOSING`
  waiting : Destroyer
  signalled : Destroyer
  at_destroy : Destroyer  -- behind the unlock
  destroyed : Destroyer

-- Where another thread stands: in tfs_open, between the test of the state and the lock, or in no call.
pub data Caller : Type 0 where
  idle : Caller
  opening : (name : Option CString) (flags : ℕ) → Caller

pub record World : Type 0 where
  pub fs : Fs
  pub destroyer : Destroyer
  pub clients : ℕ → Caller

-- pthread_cond_signal
abbrev pub woken : Destroyer → Destroyer
woken not_called = not_called
woken at_lock = at_lock
woken waiting = signalled
woken signalled = signalled
woken at_destroy = at_destroy
woken destroyed = destroyed

-- tfs_close, of any thread.
abbrev pub closed_by : ℤ → World → World
closed_by fhandle w =
    let s = (tfs_close works fhandle w.fs).1 in
    record w {
      fs = s;
      destroyer = if s.open_file_count ==ℤ pos 0 then woken w.destroyer else w.destroyer;
    }

pub data Step (w : World) : World → Type 0 where
  test_state :
      (t : ℕ) (name : Option CString) (flags : ℕ)
      → w.clients t ≡ idle
      → is_closing w.fs.state ≡ false
      → Step w (record w { clients = update w.clients t (opening name flags) })
  open_file :
      (t : ℕ) (name : Option CString) (flags : ℕ) (r : ℤ) (s : Fs)
      → w.clients t ≡ opening name flags
      → open_unsynchronized name flags w.fs ≡ some (r, s)
      → Step w (record w { fs = s; clients = update w.clients t idle })
  close_file : (fhandle : ℤ) → Step w (closed_by fhandle w)
  set_closing :
      w.destroyer ≡ not_called
      → Step w (record w { fs = record (w.fs) { state = closing }; destroyer = at_lock })
  find_none :
      w.destroyer ≡ at_lock
      → (w.fs.open_file_count ==ℤ pos 0) ≡ true
      → Step w (record w { destroyer = at_destroy })
  wait :
      w.destroyer ≡ at_lock
      → (w.fs.open_file_count ==ℤ pos 0) ≡ false
      → Step w (record w { destroyer = waiting })
  wake : w.destroyer ≡ signalled → Step w (record w { destroyer = at_destroy })
  -- pthread_cond_wait may return without a signal, and stands in no loop
  wake_early : w.destroyer ≡ waiting → Step w (record w { destroyer = at_destroy })
  destroy :
      w.destroyer ≡ at_destroy
      → Step w (record w { fs = (tfs_destroy works w.fs).1; destroyer = destroyed })

pub data Reach (w : World) : World → Type 0 where
  here : Reach w w
  next : {u v : World} → Reach w u → Step u v → Reach w v

-- No wait of these steps returned without a signal.
abbrev pub IsSignalled : {w u : World} → Step w u → Type 0
IsSignalled (wake_early e) = ⊥
IsSignalled _ = Unit

abbrev pub AllSignalled : {w u : World} → Reach w u → Type 0
AllSignalled here = Unit
AllSignalled (next r x) = AllSignalled r × IsSignalled x
