-- ===== src/Fs/Refine/Writing.antt =====
-- A write through an open handle does what the contract says.
use so_project.Base.{
  ℕ, ◌+◌, ◌-◌, ◌≤◌, ◌<◌, ◌≡◌, ◌≢◌, ◌⊎◌, inl, inr, ◌^◌, ℤ, pos, minus_one, pos_part, Memory, some,
  arith, ◌∙◌, sym, ap, subst, update-same, update-other,
}
use Prim.Native.Nat.{min}
use native.Mathlib.Decide.{ℕ_discrete}
use so_project.Fs.State.{Fs, OpenFileEntry, block_size}
use so_project.Fs.Operations.{write_unsynchronized}
use so_project.Fs.Valid.{IsValid, IsFile, IsOpen}
use so_project.Fs.Valid.Handle.{IsFile-pos, file_of, offset_of, size_of, byte_of}
use so_project.Fs.Io.Write.{Written, amount_written-min, write_outcome, write-handles}
use so_project.Fs.Io.Isolation.{write-others}
use so_project.Fs.Refine.{
  Contents, overwritten, after_write, Represents, Allows, wrote, no_room, write_call,
}
use so_project.Fs.Refine.Frame.{Framed, write-Framed, write_failed-size}

module _ (h : ℕ) (buffer : Memory) (to_write : ℕ) {s : Fs} (v : IsValid s) (o : IsOpen h s)
    (w : to_write < 2 ^ 63) (c : Contents) (r : Represents s c) where
  abbrev result : ℤ × Fs
  result = write_unsynchronized (pos h) buffer to_write s

  abbrev n : ℕ
  n = min to_write (block_size - offset_of h s)

  framed : Framed h n s result.1
  framed =
      subst (λ k. Framed h k s result.1) (amount_written-min h buffer to_write v o w)
        (write-Framed h buffer to_write v o w)

  file : IsFile s (pos (file_of h s))
  file = IsFile-pos (v.handles h o.is_taken)

  file_before : (j : ℕ) → IsFile result.1 (pos j) → IsFile s (pos j)
  file_before j f = record {
    in_table = f.in_table;
    not_root = f.not_root;
    is_taken = sym (ap (λ t. t j) framed.used) ∙ f.is_taken;
    is_file = sym (framed.types j) ∙ f.is_file;
  }

  entries_kept : result.1.free_open_file_entries ≡ s.free_open_file_entries
  entries_kept = (write-handles h buffer to_write v o w (h + 1) (λ e. absurd (omega arith))).1

  IsOpen-before : (g : ℕ) → IsOpen g result.1 → IsOpen g s
  IsOpen-before g x = record {
    in_table = x.in_table;
    is_taken = sym (ap (λ t. t g) entries_kept) ∙ x.is_taken;
  }

  IsOpen-after : (g : ℕ) → IsOpen g s → IsOpen g result.1
  IsOpen-after g x = record {
    in_table = x.in_table;
    is_taken = ap (λ t. t g) entries_kept ∙ x.is_taken;
  }

  other_entry : (g : ℕ) → g ≢ h → result.1.open_file_table g ≡ s.open_file_table g
  other_entry g ne = (write-handles h buffer to_write v o w g ne).0

  other_byte :
      (j p : ℕ)
      → j ≢ file_of h s
      → IsFile s (pos j)
      → p < (s.inode_table j).i_size
      → byte_of result.1 j p ≡ byte_of s j p
  other_byte j p ne f lt =
      (write-others h buffer to_write v o w j f.is_taken (omega arith) ne).1 p
        (omega (arith, v.sizes j f.is_taken))

  abbrev left : Contents
  left = after_write h (file_of h s) (offset_of h s) n buffer c

  module _ (done : Written h buffer n s result.1) where
    size_after : (j : ℕ) → IsFile s (pos j) → left.size j ≡ (result.1.inode_table j).i_size
    size_after j f = elim (ℕ_discrete j (file_of h s)) [
      | yes e ↦ rw e (ground (arith, done.1, r.sizes (file_of h s) file, r.within h o))
      | no ne ↦ ground (arith, r.sizes j f, framed.other_sizes j ne, ne)
    ]

    own_byte :
        (p : ℕ)
        → p < (result.1.inode_table (file_of h s)).i_size
        → overwritten (c.byte (file_of h s)) (offset_of h s) n buffer p
          ≡ byte_of result.1 (file_of h s) p
    own_byte p lt = elim (place (offset_of h s) n p) [
      | inl inside ↦
          (let back : offset_of h s + (p - offset_of h s) ≡ p = omega arith in
            let here : overwritten (c.byte (file_of h s)) (offset_of h s) n buffer p
                ≡ buffer (p - offset_of h s) =
              ground arith in
            here
            ∙ sym (done.2 (p - offset_of h s) (omega arith))
            ∙ ap (byte_of result.1 (file_of h s)) back)
      | inr outside ↦
          (let before : p < size_of h s = ground (arith, done.1, lt, outside, r.within h o) in
            let here : overwritten (c.byte (file_of h s)) (offset_of h s) n buffer p
                ≡ c.byte (file_of h s) p =
              ground (arith, outside) in
            here ∙ r.bytes (file_of h s) p file before ∙ sym (framed.own_bytes p before outside))
    ]
      where
        place : (a m q : ℕ) → ((a ≤ q) × (q < a + m)) ⊎ (q < a) ⊎ (a + m ≤ q)
        place a m q = ground arith

    byte_after :
        (j p : ℕ)
        → IsFile s (pos j)
        → p < (result.1.inode_table j).i_size
        → left.byte j p ≡ byte_of result.1 j p
    byte_after j p f lt = elim (ℕ_discrete j (file_of h s)) [
      | yes e ↦ rw e (
          ap (λ (b : ℕ → ℕ). b p) (update-same c.byte (file_of h s) _)
          ∙ own_byte p (subst (λ k. p < (result.1.inode_table k).i_size) e lt))
      | no ne ↦
          (let before : p < (s.inode_table j).i_size = omega (arith, lt, framed.other_sizes j ne) in
            ap (λ (b : ℕ → ℕ). b p) (update-other c.byte (file_of h s) j _ ne)
            ∙ r.bytes j p f before
            ∙ sym (other_byte j p ne f before))
    ]

    -- No file gets smaller.
    grown : (j : ℕ) → (s.inode_table j).i_size ≤ (result.1.inode_table j).i_size
    grown j = elim (ℕ_discrete j (file_of h s)) [
      | yes e ↦
          subst (λ k. (s.inode_table k).i_size ≤ (result.1.inode_table k).i_size) (sym e)
            (ground (arith, done.1))
      | no ne ↦ omega (arith, framed.other_sizes j ne)
    ]

    cursor_after :
        (g : ℕ) → IsOpen g s → left.cursor g ≡ some (file_of g result.1, offset_of g result.1)
    cursor_after g x = elim (ℕ_discrete g h) [
      | yes e ↦ rw e (rw framed.same_file (rw done.0 (update-same c.cursor h _)))
      | no ne ↦
          update-other c.cursor h g _ ne
          ∙ r.cursors g x
          ∙ ap (λ (x : OpenFileEntry). some (pos_part x.of_inumber, x.of_offset))
              (sym (other_entry g ne))
    ]

    within_after : (g : ℕ) → IsOpen g s → offset_of g result.1 ≤ size_of g result.1
    within_after g x = elim (ℕ_discrete g h) [
      | yes e ↦
          (let size : size_of h result.1 ≡ (result.1.inode_table (file_of h s)).i_size =
              ap (λ k. (result.1.inode_table k).i_size) framed.same_file in
            let own : offset_of h result.1 ≤ size_of h result.1 =
              ground (arith, size, done.0, done.1, r.within h o) in
            subst (λ k. offset_of k result.1 ≤ size_of k result.1) (sym e) own)
      | no ne ↦
          subst
            (λ (x : OpenFileEntry).
              x.of_offset ≤ (result.1.inode_table (pos_part x.of_inumber)).i_size)
            (sym (other_entry g ne)) (omega (arith, grown (file_of g s), r.within g x))
    ]

    Represents-wrote : Represents result.1 left
    Represents-wrote = record {
      sizes = λ j f. size_after j (file_before j f);
      bytes = λ j p f lt. byte_after j p (file_before j f) lt;
      cursors = λ g x. cursor_after g (IsOpen-before g x);
      closed_handles = λ g x.
          (let other : g ≢ h = λ e. x (IsOpen-after g (subst (λ k. IsOpen k s) (sym e) o)) in
            update-other c.cursor h g _ other ∙ r.closed_handles g (λ y. x (IsOpen-after g y)));
      within = λ g x. within_after g (IsOpen-before g x);
    }

  module _ (failed : result.0 ≡ minus_one) (empty : size_of h s ≡ 0)
      (same_data : result.1.fs_data ≡ s.fs_data)
      (same_entries : result.1.open_file_table ≡ s.open_file_table) where
    same_size : (j : ℕ) → (result.1.inode_table j).i_size ≡ (s.inode_table j).i_size
    same_size j = elim (ℕ_discrete j (file_of h s)) [
      | yes e ↦ rw e (
          ap (λ k. (result.1.inode_table k).i_size) (sym framed.same_file)
          ∙ write_failed-size h buffer to_write v o w failed)
      | no ne ↦ framed.other_sizes j ne
    ]

    Represents-failed : Represents result.1 c
    Represents-failed = record {
      sizes = λ j f. r.sizes j (file_before j f) ∙ sym (same_size j);
      bytes = λ j p f lt.
          (let before : p < (s.inode_table j).i_size = omega (arith, lt, same_size j) in
            let other : j ≢ file_of h s = λ e. cc_size e before in
            r.bytes j p (file_before j f) before
            ∙ sym (other_byte j p other (file_before j f) before));
      cursors = λ g x.
          r.cursors g (IsOpen-before g x)
          ∙ ap (λ (t : ℕ → OpenFileEntry). some (pos_part (t g).of_inumber, (t g).of_offset))
              (sym same_entries);
      closed_handles = λ g x. r.closed_handles g (λ y. x (IsOpen-after g y));
      within = λ g x.
          subst
            (λ (t : ℕ → OpenFileEntry).
              (t g).of_offset ≤ (result.1.inode_table (pos_part (t g).of_inumber)).i_size)
            (sym same_entries)
            (omega (arith, same_size (file_of g s), r.within g (IsOpen-before g x)));
    }
      where
        cc_size : {j p : ℕ} → j ≡ file_of h s → p < (s.inode_table j).i_size → ⊥
        cc_size {j} {p} e lt =
            let lt' = subst (λ k. p < (s.inode_table k).i_size) e lt in omega (arith, empty)

  -- One of the two ways that the contract allows.
  pub write-Allows :
      (c' : Contents) × Allows c (write_call h buffer to_write) result.0 buffer c'
      × Represents result.1 c'
  write-Allows = elim (write_outcome h buffer to_write v o w) [
    | inl (e, done) ↦ (left, rw e (wrote buffer to_write (r.cursors h o)), Represents-wrote done)
    | inr (e, empty, full, same_data, same_entries) ↦ (
      c,
      rw e (no_room buffer to_write (r.cursors h o) (r.sizes (file_of h s) file ∙ empty)),
      Represents-failed e empty same_data same_entries,
    )
  ]
