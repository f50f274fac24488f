-- ===== src/Fs/Locks.antt =====
-- The operations of P2/fs/operations.c around the global lock, when pthread functions fail and when the
-- server is closing.
use so_project.Base.{
  ℕ, ℤ, pos, minus_one, ◌≡◌, Memory, CString, Option, some, true, Bool-cases, arith, refl, inl, inr,
  ◌∙◌, ◌==ℤ◌,
}
use so_project.Fs.State.{Fs, closing, state_destroy}
use so_project.Fs.Operations.{
  Pthread, fails, tfs_lookup, tfs_open, tfs_close, tfs_write, tfs_read,
  tfs_destroy_after_all_closed, finish_destroy,
}

-- An operation that cannot take the lock returns -1 and changes nothing.
pub unlocked_operations :
    (p : Pthread) (name : Option CString) (flags : ℕ) (fhandle : ℤ) (buffer : Memory) (n : ℕ)
    (s : Fs)
    → fails p.mutex_lock ≡ true
    → (tfs_lookup p name s ≡ (minus_one, s))
      × (tfs_open p name flags s ≡ some (minus_one, s))
      × (tfs_close p fhandle s ≡ (minus_one, s))
      × (tfs_write p fhandle buffer n s ≡ (minus_one, s))
      × (tfs_read p fhandle buffer n s ≡ (minus_one, buffer, s))
unfolding tfs_lookup tfs_open tfs_close tfs_write tfs_read
unlocked_operations p name flags fhandle buffer n s e = (rw e, ground arith, rw e, rw e, rw e)

finish_destroy-state : (p : Pthread) (s : Fs) → (finish_destroy p s).1.state ≡ s.state
unfolding finish_destroy state_destroy
finish_destroy-state p s = ground arith

destroy-closing :
    (p : Pthread) (others : Fs → Fs) (s : Fs)
    → ((t : Fs) → t.state ≡ closing → (others t).state ≡ closing)
    → (tfs_destroy_after_all_closed p others s).1.state ≡ closing
unfolding tfs_destroy_after_all_closed
destroy-closing p others s keep = elim (Bool-cases (fails p.mutex_lock)) [
  | inl e ↦ rw e
  | inr e ↦ rw e (elim (Bool-cases (s.open_file_count ==ℤ pos 0)) [
    | inl none_open ↦ rw none_open (finish_destroy-state p (record s { state = closing }))
    | inr some_open ↦ rw some_open (elim (Bool-cases (fails p.cond_wait)) [
      | inl e' ↦ rw e' (keep (record s { state = closing }) refl)
      | inr e' ↦ rw e' (
          finish_destroy-state p (others (record s { state = closing }))
          ∙ keep (record s { state = closing }) refl)
    ])
  ])
]

tfs_open-closing :
    (q : Pthread) (name : Option CString) (flags : ℕ) (t : Fs)
    → t.state ≡ closing
    → tfs_open q name flags t ≡ some (minus_one, t)
unfolding tfs_open
tfs_open-closing q name flags t e = ground arith

-- Once tfs_destroy_after_all_closed has been called, tfs_open returns -1 and changes nothing,
-- whichever way the call ended, if the threads that ran while it waited left the state CLOSING.
pub destroy-open :
    (p q : Pthread) (others : Fs → Fs) (name : Option CString) (flags : ℕ) (s : Fs)
    → ((t : Fs) → t.state ≡ closing → (others t).state ≡ closing)
    → let s' = (tfs_destroy_after_all_closed p others s).1 in
      tfs_open q name flags s' ≡ some (minus_one, s')
destroy-open p q others name flags s keep =
    tfs_open-closing q name flags _ (destroy-closing p others s keep)
