-- ===== src/Fs/Destroy/Drained.antt =====
-- tfs_destroy_after_all_closed destroys a file system in which no file is open, when no thread was past
-- the test of the state in tfs_open and the wait ends only by a signal.
use so_project.Base.{
  ℕ, ◌≡◌, ◌≢◌, ℤ, pos, true, free, Bool-cases, ◌==ℤ◌, ==ℤ_iff, refl, arith, inl, inr, if◌then◌else◌,
  count_taken, count_taken-update, sym, subst, ◌∙◌, ap,
}
use so_project.Fs.State.{Fs, max_open_files, state_destroy}
use so_project.Fs.Operations.{works, tfs_close, tfs_destroy, is_closing}
use so_project.Fs.OpenFile.{remove_from_open_file_table}
use so_project.Fs.Handles.{close_outcome}
use so_project.Fs.Refine.Steps.{tfs_close-works}
use so_project.Fs.Valid.{IsValid, IsOpen}
use so_project.Fs.Valid.Tables.{remove_from_open_file_table-IsValid}
use so_project.Fs.Destroy.{
  Destroyer, not_called, at_lock, waiting, signalled, at_destroy, destroyed, idle, World, Step,
  test_state, open_file, close_file, set_closing, find_none, wait, wake, wake_early, IsSignalled,
  AllSignalled, destroy, Reach, here, next, woken,
}

tfs_destroy-same : (s : Fs) → (tfs_destroy works s).1 ≡ s
unfolding tfs_destroy state_destroy
tfs_destroy-same s = refl

abbrev pub NoneOpen : Fs → Type 0
NoneOpen s = (h : ℕ) → ¬ (IsOpen h s)

-- While the destroyer waits, a file is open; from the signal on, none is.
abbrev pub Drains : Destroyer → Fs → Type 0
Drains not_called s = ⊥
Drains at_lock s = Unit
Drains waiting s = s.open_file_count ≢ pos 0
Drains signalled s = NoneOpen s
Drains at_destroy s = NoneOpen s
Drains destroyed s = NoneOpen s

count-NoneOpen : {s : Fs} → IsValid s → s.open_file_count ≡ pos 0 → NoneOpen s
count-NoneOpen {s} v e h o =
    let zero : count_taken s.free_open_file_entries max_open_files ≡ 0 =
      ground (arith, v.counted, e) in
    ground (
      arith,
      zero,
      o.is_taken,
      count_taken-update s.free_open_file_entries max_open_files h free (ground arith),
    )

close-IsValid : (fhandle : ℤ) {s : Fs} → IsValid s → IsValid (tfs_close works fhandle s).1
close-IsValid fhandle {s} v =
    rw (tfs_close-works fhandle s) (remove_from_open_file_table-IsValid fhandle v)

close-NoneOpen : (fhandle : ℤ) {s : Fs} → IsValid s → NoneOpen s → (tfs_close works fhandle s).1 ≡ s
close-NoneOpen fhandle {s} v n = rw (tfs_close-works fhandle s) (elim (close_outcome fhandle v) [
  | inl (r, e, o, shut, counted) ↦ absurd (n _ o)
  | inr (r, same, not_open) ↦ same
])

close-state : (fhandle : ℤ) (s : Fs) → (tfs_close works fhandle s).1.state ≡ s.state
unfolding remove_from_open_file_table
close-state fhandle s = rw (tfs_close-works fhandle s) (ground arith)

-- What holds from the moment that the state is CLOSING.
record IsDraining (w : World) : Type 0 where
  valid : IsValid w.fs
  is_closed : is_closing w.fs.state ≡ true
  none_opening : (t : ℕ) → w.clients t ≡ idle
  drains : Drains w.destroyer w.fs

-- A close that finds nothing open leaves everything as it is.
still :
    (fhandle : ℤ) {s : Fs}
    → IsValid s
    → (n : NoneOpen s) (d : Destroyer) → woken d ≡ d
    → Drains d s
    → let s' = (tfs_close works fhandle s).1 in
      Drains (if s'.open_file_count ==ℤ pos 0 then woken d else d) s'
still fhandle {s} v n d e x =
    rw (close-NoneOpen fhandle v n)
      (elim (Bool-cases (s.open_file_count ==ℤ pos 0)) [ inl b ↦ rw (b, e) x | inr b ↦ rw b x ])

close-Drains :
    (fhandle : ℤ) (d : Destroyer) {s : Fs}
    → IsValid s
    → Drains d s
    → let s' = (tfs_close works fhandle s).1 in
      Drains (if s'.open_file_count ==ℤ pos 0 then woken d else d) s'
close-Drains fhandle not_called v x = absurd x
close-Drains fhandle at_lock {s} v x =
    elim (Bool-cases ((tfs_close works fhandle s).1.open_file_count ==ℤ pos 0)) [
      | inl e ↦ rw e tt
      | inr e ↦ rw e tt
    ]
close-Drains fhandle waiting {s} v x =
    elim (Bool-cases ((tfs_close works fhandle s).1.open_file_count ==ℤ pos 0)) [
      | inl e ↦ rw e (count-NoneOpen (close-IsValid fhandle v) ((==ℤ_iff _ _).0 e))
      | inr e ↦
          rw e (λ z. cc ((==ℤ_iff (tfs_close works fhandle s).1.open_file_count (pos 0)).1 z, e))
    ]
close-Drains fhandle signalled {s} v x = still fhandle v x signalled refl x
close-Drains fhandle at_destroy {s} v x = still fhandle v x at_destroy refl x
close-Drains fhandle destroyed {s} v x = still fhandle v x destroyed refl x

moved :
    {w : World}
    → IsDraining w
    → (d : Destroyer) → Drains d w.fs
    → IsDraining (record w { destroyer = d })
moved x d y = record {
  valid = x.valid;
  is_closed = x.is_closed;
  none_opening = x.none_opening;
  drains = y;
}

Step-IsDraining : {w u : World} → IsDraining w → (x : Step w u) → IsSignalled x → IsDraining u
Step-IsDraining {w} d (test_state t name flags e b) q = cc (b, d.is_closed)
Step-IsDraining {w} d (open_file t name flags r s e o) q = cc (e, d.none_opening t)
Step-IsDraining {w} d (close_file fhandle) q = record {
  valid = close-IsValid fhandle d.valid;
  is_closed = ap is_closing (close-state fhandle w.fs) ∙ d.is_closed;
  none_opening = d.none_opening;
  drains = close-Drains fhandle w.destroyer d.valid d.drains;
}
Step-IsDraining {w} d (set_closing e) q = absurd (subst (λ p. Drains p w.fs) e d.drains)
Step-IsDraining {w} d (find_none e b) q =
    moved d at_destroy (count-NoneOpen d.valid ((==ℤ_iff w.fs.open_file_count (pos 0)).0 b))
Step-IsDraining {w} d (wait e b) q =
    moved d waiting (λ z. cc ((==ℤ_iff w.fs.open_file_count (pos 0)).1 z, b))
Step-IsDraining {w} d (wake e) q = moved d at_destroy (subst (λ p. Drains p w.fs) e d.drains)
Step-IsDraining {w} d (wake_early e) q = absurd q
Step-IsDraining {w} d (destroy e) q =
    rw (tfs_destroy-same w.fs) (moved d destroyed (subst (λ p. Drains p w.fs) e d.drains))

Reach-IsDraining : {w u : World} → IsDraining w → (r : Reach w u) → AllSignalled r → IsDraining u
Reach-IsDraining d here q = d
Reach-IsDraining d (next r x) (q, q') = Step-IsDraining (Reach-IsDraining d r q) x q'

-- When tfs_destroy_after_all_closed has set the state to CLOSING, over well formed tables, and no
-- thread is between the test of the state and the lock in tfs_open: in whichever order the threads
-- go on, if pthread_cond_wait returns only for a signal, the number of open files is not 0 as long as the call waits without a signal, and no file
-- is open from the signal on, or from the test that found none, when the call goes on to destroy
-- the file system.
pub destroy-Drains :
    {w u : World}
    → IsValid w.fs
    → is_closing w.fs.state ≡ true
    → w.destroyer ≡ at_lock
    → ((t : ℕ) → w.clients t ≡ idle)
    → (r : Reach w u) → AllSignalled r
    → Drains u.destroyer u.fs
destroy-Drains {w} v c e idle_all r q =
    (Reach-IsDraining
      (record {
        valid = v;
        is_closed = c;
        none_opening = idle_all;
        drains = subst (λ p. Drains p w.fs) (sym e) tt;
      })
      r q).drains
