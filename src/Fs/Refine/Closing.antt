-- ===== src/Fs/Refine/Closing.antt =====
-- Closing a handle does what the contract says.
use so_project.Base.{
  ℕ, ◌≡◌, ◌≢◌, ◌⊎◌, inl, inr, ℤ, pos, pos_part, negsuc, minus_one, pred_ℤ, true, false, none,
  update, refl, ◌∙◌, sym, ap, subst, arith, taken, free, AllocationState, update-same, update-other,
  ltb, Bool-cases,
}
use native.Mathlib.Decide.{ℕ_discrete}
use so_project.Fs.State.{Fs, max_open_files}
use so_project.Fs.OpenFile.{remove_from_open_file_table}
use so_project.Fs.Valid.{IsOpen}
use so_project.Fs.Refine.{Contents, Represents, Allows, closed, refused, move_cursor, close_call}

-- A handle is open, or it is out of range or not taken.
pub handle-cases :
    (h : ℕ) (s : Fs)
    → IsOpen h s ⊎ ((ltb h max_open_files ≡ false) ⊎ (s.free_open_file_entries h ≡ free))
handle-cases h s = elim (Bool-cases (ltb h max_open_files)) [
  | inr out ↦ inr (inl out)
  | inl fits ↦ by_entry (s.free_open_file_entries h) refl fits
]
  where
    by_entry :
        (a : AllocationState)
        → s.free_open_file_entries h ≡ a
        → ltb h max_open_files ≡ true
        → IsOpen h s ⊎ ((ltb h max_open_files ≡ false) ⊎ (s.free_open_file_entries h ≡ free))
    by_entry free e fits = inr (inr e)
    by_entry taken e fits = inl (record { in_table = fits; is_taken = e })

not-IsOpen :
    (h : ℕ) (s : Fs)
    → (ltb h max_open_files ≡ false) ⊎ (s.free_open_file_entries h ≡ free)
    → ¬ (IsOpen h s)
not-IsOpen h s (inl out) o = cc (o.in_table, out)
not-IsOpen h s (inr e) o = cc (o.is_taken, e)

module _ {s : Fs} (c : Contents) (r : Represents s c) where
  close-shut :
      (h : ℕ)
      → IsOpen h s
      → remove_from_open_file_table (pos h) s ≡ (
        pos 0,
        record s {
          free_open_file_entries = update s.free_open_file_entries h free;
          open_file_count = pred_ℤ s.open_file_count;
        },
      )
  unfolding remove_from_open_file_table
  close-shut h o =
      rw (o.in_table, remove_from_open_file_table)
        (rw (o.is_taken, remove_from_open_file_table) refl)

  close-refused :
      (fhandle : ℤ)
      → ((h : ℕ) → fhandle ≡ pos h → ¬ (IsOpen h s))
      → remove_from_open_file_table fhandle s ≡ (minus_one, s)
  unfolding remove_from_open_file_table
  close-refused (negsuc k) not_open = refl
  close-refused (pos h) not_open = elim (handle-cases h s) [
    | inl o ↦ absurd (not_open h refl o)
    | inr (inl out) ↦ rw out refl
    | inr (inr e) ↦ rw e (ground (arith, e))
  ]

  abbrev shut : ℕ → Fs
  shut h = record s {
    free_open_file_entries = update s.free_open_file_entries h free;
    open_file_count = pred_ℤ s.open_file_count;
  }

  IsOpen-before : (h g : ℕ) → IsOpen g (shut h) → IsOpen g s × (g ≢ h)
  IsOpen-before h g x =
      let other : g ≢ h = λ e. cc (
        x.is_taken,
        subst (λ k. update s.free_open_file_entries h free k ≡ free) (sym e)
            (update-same s.free_open_file_entries h free),
      ) in
      (
        record {
          in_table = x.in_table;
          is_taken = sym (update-other s.free_open_file_entries h g free other) ∙ x.is_taken;
        },
        other,
      )

  IsOpen-after : (h g : ℕ) → g ≢ h → IsOpen g s → IsOpen g (shut h)
  IsOpen-after h g ne x = record {
    in_table = x.in_table;
    is_taken = update-other s.free_open_file_entries h g free ne ∙ x.is_taken;
  }

  Represents-shut : (h : ℕ) → Represents (shut h) (move_cursor h none c)
  Represents-shut h = record {
    sizes = λ j f. r.sizes j (record {
      in_table = f.in_table;
      not_root = f.not_root;
      is_taken = f.is_taken;
      is_file = f.is_file;
    });
    bytes = λ j p f. r.bytes j p (record {
      in_table = f.in_table;
      not_root = f.not_root;
      is_taken = f.is_taken;
      is_file = f.is_file;
    });
    cursors = λ g x.
        update-other c.cursor h g none (IsOpen-before h g x).1
        ∙ r.cursors g (IsOpen-before h g x).0;
    closed_handles = λ g x. elim (ℕ_discrete g h) [
      | yes e ↦ rw e (update-same c.cursor h none)
      | no ne ↦
          update-other c.cursor h g none ne ∙ r.closed_handles g (λ y. x (IsOpen-after h g ne y))
    ];
    within = λ g x. r.within g (IsOpen-before h g x).0;
  }

  close-Refused :
      (fhandle : ℤ)
      → ((h : ℕ) → fhandle ≡ pos h → ¬ (IsOpen h s))
      → let (a, s') = remove_from_open_file_table fhandle s in
        (c' : Contents) × Allows c (close_call fhandle) a (λ k. 0) c' × Represents s' c'
  close-Refused fhandle not_open =
      rw (close-refused fhandle not_open)
        (c, refused (λ k. 0) (λ h e. r.closed_handles h (not_open h e)), r)

  -- An open handle is closed; any other argument is refused.
  pub close-Allows :
      (fhandle : ℤ)
      → let (a, s') = remove_from_open_file_table fhandle s in
        (c' : Contents) × Allows c (close_call fhandle) a (λ k. 0) c' × Represents s' c'
  close-Allows (negsuc k) = close-Refused (negsuc k) (λ h e. cc e)
  close-Allows (pos h) = elim (handle-cases h s) [
    | inl o ↦
        rw (close-shut h o)
          (move_cursor h none c, closed (λ k. 0) (r.cursors h o), Represents-shut h)
    | inr shut_already ↦
        close-Refused (pos h)
          (λ g e o. not-IsOpen h s shut_already (subst (λ k. IsOpen k s) (sym (ap pos_part e)) o))
  ]
