-- ===== src/Fs/Destroy/Tests.antt =====
-- Runs of tfs_destroy_after_all_closed beside other threads.
use so_project.Base.{◌≡◌, pos, update, refl}
use so_project.Fs.State.{closing, state_destroy}
use so_project.Fs.OpenFile.{remove_from_open_file_table}
use so_project.Fs.Operations.{tfs_close, tfs_destroy}
use so_project.Fs.Valid.Reach.{Step-IsValid, destroy_begins}
use so_project.Fs.Tests.{fresh, one, one-IsValid, path_f}
use so_project.Fs.Destroy.{
  World, AllSignalled, at_lock, not_called, destroyed, idle, opening, Reach, here, next, wait, wake,
  close_file, destroy, closed_by,
}
use so_project.Fs.Destroy.Drained.{Drains, destroy-Drains}
use so_project.Fs.Destroy.Race.{open_slips}

-- The file that is open at the handle 0 is closed while the destroyer waits.
abbrev one_open : World
one_open = record { fs = record one { state = closing }; destroyer = at_lock; clients = λ t. idle }

drained : World
unfolding tfs_close remove_from_open_file_table tfs_destroy state_destroy one
drained = record { fs = (tfs_close_zero one_open).fs; destroyer = destroyed; clients = λ t. idle }
  where
    tfs_close_zero : World → World
    tfs_close_zero w = closed_by (pos 0) w

drained-reached : Reach one_open drained
unfolding drained
drained-reached =
    next (next (next (next here (wait refl refl)) (close_file (pos 0))) (wake refl)) (destroy refl)

drained-signalled : AllSignalled drained-reached
unfolding drained-reached
drained-signalled = ((((tt, tt), tt), tt), tt)

destroy-Drains_example : Drains drained.destroyer drained.fs
destroy-Drains_example =
    destroy-Drains (Step-IsValid one-IsValid destroy_begins) refl refl (λ t. refl) drained-reached
      drained-signalled

-- A thread is about to create /f when the destroyer is called.
abbrev racing : World
racing = record {
  fs = fresh;
  destroyer = not_called;
  clients = update (λ t. idle) 0 (opening path_f 1);
}

open_slips_example :
    (u : World) × Reach racing u
    × (u.destroyer ≡ destroyed)
    × (u.fs ≡ record one { state = closing })
unfolding one
open_slips_example =
    open_slips 0 path_f 1 0 (record one { state = closing }) racing refl refl refl refl
