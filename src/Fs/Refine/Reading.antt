-- ===== src/Fs/Refine/Reading.antt =====
-- A read through an open handle does what the contract says.
use so_project.Base.{
  ℕ, ◌+◌, ◌-◌, ◌*◌, ◌≤◌, ◌<◌, ◌≡◌, ◌≢◌, ℤ, pos, pos_part, Memory, some, arith, refl, ◌∙◌, sym, ap,
  subst, update-same, update-other,
}
use Prim.Native.Nat.{min}
use native.Mathlib.Decide.{ℕ_discrete}
use so_project.Fs.State.{Fs, OpenFileEntry, Inode, block_size}
use so_project.Fs.Operations.{read_unsynchronized}
use so_project.Fs.Valid.{IsValid, IsFile, IsOpen}
use so_project.Fs.Valid.Handle.{IsFile-pos, file_of, offset_of, size_of, amount_read}
use so_project.Fs.Io.Read.{Copied, read_outcome, read-nothing, read-copied}
use so_project.Fs.Refine.{Contents, Represents, Allows, read, move_cursor, read_call}

-- A read changes no table but the entry of its handle.
record ReadFramed (h : ℕ) (s s' : Fs) : Type 0 where
  used : s'.freeinode_ts ≡ s.freeinode_ts
  same_handles : s'.free_open_file_entries ≡ s.free_open_file_entries
  same_file : file_of h s' ≡ file_of h s
  other_entry : (g : ℕ) → g ≢ h → s'.open_file_table g ≡ s.open_file_table g

ReadFramed-refl : (h : ℕ) (s : Fs) → ReadFramed h s s
ReadFramed-refl h s = record {
  used = refl;
  same_handles = refl;
  same_file = refl;
  other_entry = λ g ne. refl;
}

module _ (h : ℕ) (buffer : Memory) (len : ℕ) {s : Fs} (v : IsValid s) (o : IsOpen h s)
    (c : Contents) (r : Represents s c) where
  abbrev result : ℤ × Memory × Fs
  result = read_unsynchronized (pos h) buffer len s

  read-Framed : ReadFramed h s result.2
  read-Framed = elim (ℕ_discrete (amount_read h len s) 0) [
    | yes z ↦ rw (read-nothing h buffer len v o z) (ReadFramed-refl h s)
    | no p ↦
        rw
          (read-copied h buffer len v o (omega arith) (
            v.block_valid (file_of h s) (v.handles h o.is_taken).is_taken
              (ground (arith, r.within h o))))
          (record {
            used = refl;
            same_handles = refl;
            same_file = ground arith;
            other_entry = λ g ne. ground (arith, ne);
          })
  ]

  abbrev n : ℕ
  n = min len (size_of h s - offset_of h s)

  file : IsFile s (pos (file_of h s))
  file = IsFile-pos (v.handles h o.is_taken)

  copied : (result.0 ≡ pos n) × Copied h buffer n s result.1 result.2
  copied = read_outcome h buffer len v o (r.within h o)

  nodes : result.2.inode_table ≡ s.inode_table
  nodes = copied.1.3

  IsOpen-before : (g : ℕ) → IsOpen g result.2 → IsOpen g s
  IsOpen-before g x = record {
    in_table = x.in_table;
    is_taken = sym (ap (λ t. t g) read-Framed.same_handles) ∙ x.is_taken;
  }

  IsOpen-after : (g : ℕ) → IsOpen g s → IsOpen g result.2
  IsOpen-after g x = record {
    in_table = x.in_table;
    is_taken = ap (λ t. t g) read-Framed.same_handles ∙ x.is_taken;
  }

  file_before : (j : ℕ) → IsFile result.2 (pos j) → IsFile s (pos j)
  file_before j f = record {
    in_table = f.in_table;
    not_root = f.not_root;
    is_taken = sym (ap (λ t. t j) read-Framed.used) ∙ f.is_taken;
    is_file = sym (ap (λ (t : ℕ → Inode). (t j).i_node_type) nodes) ∙ f.is_file;
  }

  abbrev left : Contents
  left = move_cursor h (some (file_of h s, offset_of h s + n)) c

  Represents-read : Represents result.2 left
  Represents-read = record {
    sizes = λ j f. r.sizes j (file_before j f) ∙ sym (ap (λ (t : ℕ → Inode). (t j).i_size) nodes);
    bytes = λ j p f lt.
        (let before : p < (s.inode_table j).i_size =
            subst (λ (t : ℕ → Inode). p < (t j).i_size) nodes lt in
          r.bytes j p (file_before j f) before
          ∙ sym (
              ap
                (λ (t : ℕ → Inode). result.2.fs_data (pos_part (t j).i_data_block * block_size + p))
                nodes
              ∙ ap (λ (m : Memory). m (pos_part (s.inode_table j).i_data_block * block_size + p))
                  copied.1.4));
    cursors = λ g x. elim (ℕ_discrete g h) [
      | yes e ↦ rw e (rw read-Framed.same_file (rw copied.1.2 (update-same c.cursor h _)))
      | no ne ↦
          update-other c.cursor h g _ ne
          ∙ r.cursors g (IsOpen-before g x)
          ∙ ap (λ (x : OpenFileEntry). some (pos_part x.of_inumber, x.of_offset))
              (sym (read-Framed.other_entry g ne))
    ];
    closed_handles = λ g x.
        (let other : g ≢ h = λ e. x (IsOpen-after g (subst (λ k. IsOpen k s) (sym e) o)) in
          update-other c.cursor h g _ other ∙ r.closed_handles g (λ y. x (IsOpen-after g y)));
    within = λ g x. elim (ℕ_discrete g h) [
      | yes e ↦
          (let size : size_of h result.2 ≡ size_of h s =
              ap (λ k. (result.2.inode_table k).i_size) read-Framed.same_file
              ∙ ap (λ (t : ℕ → Inode). (t (file_of h s)).i_size) nodes in
            let own : offset_of h result.2 ≤ size_of h result.2 =
              omega (arith, size, copied.1.2, r.within h o) in
            subst (λ k. offset_of k result.2 ≤ size_of k result.2) (sym e) own)
      | no ne ↦
          subst
            (λ (x : OpenFileEntry).
              x.of_offset ≤ (result.2.inode_table (pos_part x.of_inumber)).i_size)
            (sym (read-Framed.other_entry g ne))
            (subst (λ (t : ℕ → Inode). offset_of g s ≤ (t (file_of g s)).i_size) (sym nodes)
              (r.within g (IsOpen-before g x)))
    ];
  }

  -- The bytes of the file from the position on.
  pub read-Allows :
      (c' : Contents) × Allows c (read_call h buffer len) result.0 result.1 c'
      × Represents result.2 c'
  read-Allows =
      let size : c.size (file_of h s) ≡ size_of h s = r.sizes (file_of h s) file in
      let step : Allows c (read_call h buffer len)
          (pos (min len (c.size (file_of h s) - offset_of h s))) result.1
          (move_cursor h
            (some (file_of h s, offset_of h s + min len (c.size (file_of h s) - offset_of h s)))
            c) =
        read buffer result.1 len (r.cursors h o)
          (λ k lt.
            copied.1.0 k (omega (arith, size))
            ∙ sym (r.bytes (file_of h s) (offset_of h s + k) file (omega (arith, size))))
          (λ k le. copied.1.1 k (omega (arith, size))) in
      (
        left,
        rw copied.0 (
            subst
              (λ m.
                Allows c (read_call h buffer len) (pos (min len (m - offset_of h s))) result.1 (
                  move_cursor h (some (file_of h s, offset_of h s + min len (m - offset_of h s)))
                    c))
              size step),
        Represents-read,
      )
