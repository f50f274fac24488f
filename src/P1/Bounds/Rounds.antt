-- ===== src/P1/Bounds/Rounds.antt =====
-- tfs_write and tfs_read of P1/fs/operations.c: the loops end, and the offsets stay within a block.
use so_project.Base.{
  ℕ, zero, suc, ◌+◌, ◌-◌, ◌^◌, ◌≤◌, ◌<◌, ◌≡◌, inl, inr, ℤ, minus_one, ◌==ℤ◌, Memory, true, refl,
  ◌∙◌, Option-cases, Bool-cases, leb, ◌==◌, arith, sub64, sym, subst,
}
use so_project.Fs.State.{block_size}
use so_project.P1.State.{Fs, OpenFileEntry, fs_data_size}
use so_project.P1.Inode.{inode_get}
use so_project.P1.OpenFile.{get_open_file_entry}
use so_project.P1.Update.{Position, null, at, inode_update}
use so_project.P1.Operations.{
  Result, returned, undefined, out_of_fuel, advance, grow, write_chunk, copy_to, copy_in,
  unless_failed, write_loop, tfs_write, read_chunk, copy_from, copy_out, read_loop, clamp_read,
  tfs_read,
}
use so_project.P1.Bounds.Update.{SameEntries, inode_update-SameEntries}

-- Every handle's offset lies within a block.
abbrev pub InBlock : Fs → Type 0
InBlock s = (h : ℕ) → (s.open_file_table h).of_offset < block_size

-- The call ends, and when it returns, what it leaves has the property.
abbrev pub Ends : {A : Type 0} → (A → Type 0) → Result A → Type 0
Ends P (returned z a) = P a
Ends P undefined = Unit
Ends P out_of_fuel = ⊥

pub InBlock-SameEntries : (s t : Fs) → SameEntries s t → InBlock s → InBlock t
InBlock-SameEntries s t e v =
    subst (λ (f : ℕ → OpenFileEntry). (h : ℕ) → (f h).of_offset < block_size) (sym e) v

advance-InBlock :
    (h n : ℕ) (s : Fs)
    → (s.open_file_table h).of_offset + n ≤ block_size
    → InBlock s
    → InBlock (advance h n s)
advance-InBlock h n s fits v g = ground (arith, v g, v h)

pub Ends-map :
    {A : Type 0} {P Q : A → Type 0} (r : Result A) → ((a : A) → P a → Q a) → Ends P r → Ends Q r
Ends-map (returned z a) f e = f a e
Ends-map undefined f e = tt
Ends-map out_of_fuel f e = e

unless_failed-Ends :
    {A : Type 0} {P Q : A → Type 0} (r : Result A) (next : A → Result A)
    → Ends P r
    → ((a : A) → P a → Q a)
    → ((a : A) → P a → Ends Q (next a))
    → Ends Q (unless_failed r next)
unfolding unless_failed
unless_failed-Ends (returned z a) next e stop go = elim (Bool-cases (z ==ℤ minus_one)) [
  | inl failed ↦ rw failed (stop a e)
  | inr ok ↦ rw ok (go a e)
]
unless_failed-Ends undefined next e stop go = tt
unless_failed-Ends out_of_fuel next e stop go = e

-- A copy leaves the entries as they were.
copy_to-SameEntries :
    (buffer : Memory) (n : ℕ) (p : Position) (s : Fs)
    → Ends (SameEntries s) (copy_to buffer n (p, s))
unfolding copy_to
copy_to-SameEntries buffer n null s = refl
copy_to-SameEntries buffer n Position.undefined s = tt
copy_to-SameEntries buffer n (at a) s = elim (Bool-cases (leb (a + n) fs_data_size)) [
  | inl e ↦ rw e refl
  | inr e ↦ rw e tt
]

copy_in-SameEntries :
    (h : ℕ) (buffer : Memory) (n : ℕ) (s : Fs) → Ends (SameEntries s) (copy_in h buffer n s)
unfolding copy_in
copy_in-SameEntries h buffer n s =
    let (p, s') = inode_update h s in
    elim (Bool-cases (n == 0)) [
      | inl e ↦ rw e refl
      | inr e ↦ rw e (
          Ends-map (copy_to buffer n (p, s')) (λ t same. same ∙ inode_update-SameEntries h s)
            (copy_to-SameEntries buffer n p s'))
    ]

copy_from-SameEntries :
    (buffer : Memory) (done n : ℕ) (p : Position) (s : Fs)
    → Ends (λ (r : Memory × Fs). SameEntries s r.1) (copy_from buffer done n (p, s))
unfolding copy_from
copy_from-SameEntries buffer done n null s = refl
copy_from-SameEntries buffer done n Position.undefined s = tt
copy_from-SameEntries buffer done n (at a) s = elim (Bool-cases (leb (a + n) fs_data_size)) [
  | inl e ↦ rw e refl
  | inr e ↦ rw e tt
]

copy_out-SameEntries :
    (h : ℕ) (buffer : Memory) (done to_read n : ℕ) (s : Fs)
    → Ends (λ (r : Memory × Fs). SameEntries s r.1) (copy_out h buffer done to_read n s)
unfolding copy_out
copy_out-SameEntries h buffer done to_read n s =
    let (p, s') = inode_update h s in
    elim (Bool-cases (n == 0)) [
      | inl e ↦ rw e refl
      | inr e ↦ rw e (
          Ends-map (copy_from buffer done to_read (p, s'))
            (λ r same. same ∙ inode_update-SameEntries h s)
            (copy_from-SameEntries buffer done to_read p s'))
    ]

-- A round of each loop handles at least one byte, and stays within the block.
abbrev Round : ℕ → ℕ → ℕ → Type 0
Round o m n = (0 < n) × (n ≤ m) × (o + n ≤ block_size)

write_chunk-Round : (o m : ℕ) → o < block_size → 0 < m → m < 2 ^ 63 → Round o m (write_chunk o m)
write_chunk-Round o m p q w = ground arith

read_chunk-Round : (o m : ℕ) → o < block_size → 0 < m → m < 2 ^ 63 → Round o m (read_chunk o m)
read_chunk-Round o m p q w = ground arith

moved-InBlock :
    (h n : ℕ) (s t : Fs)
    → (s.open_file_table h).of_offset + n ≤ block_size
    → InBlock s
    → SameEntries s t
    → InBlock (advance h n t)
moved-InBlock h n s t fits v same =
    advance-InBlock h n t
      (subst (λ (f : ℕ → OpenFileEntry). (f h).of_offset + n ≤ block_size) (sym same) fits)
      (InBlock-SameEntries s t same v)

write_loop-Ends :
    (fuel h i : ℕ) (buffer : Memory) (count m : ℕ) (s : Fs)
    → m ≤ fuel
    → m < 2 ^ 63
    → InBlock s
    → Ends InBlock (write_loop fuel h i buffer count m s)
unfolding write_loop
write_loop-Ends zero h i buffer count m s enough small v =
    let none_left : (m == 0) ≡ true = ground arith in rw none_left v
write_loop-Ends (suc fuel) h i buffer count m s enough small v = elim (Bool-cases (m == 0)) [
  | inl e ↦ rw e v
  | inr e ↦
      (let n = write_chunk (s.open_file_table h).of_offset m in
        let (p, q, fits) =
          write_chunk-Round (s.open_file_table h).of_offset m (v h) (ground arith) small in
        let left : sub64 m n ≡ m - n = omega arith in
        rw e (
          unless_failed-Ends (copy_in h buffer n s) _ (copy_in-SameEntries h buffer n s)
            (λ t same. InBlock-SameEntries s t same v)
            (λ t same.
              write_loop-Ends fuel h i (λ k. buffer (n + k)) count (sub64 m n)
                (grow i n (advance h n t)) (omega arith) (omega arith)
                (moved-InBlock h n s t fits v same))))
]

read_loop-Ends :
    (fuel h : ℕ) (buffer : Memory) (done count m : ℕ) (s : Fs)
    → m ≤ fuel
    → m < 2 ^ 63
    → InBlock s
    → Ends (λ (r : Memory × Fs). InBlock r.1) (read_loop fuel h buffer done count m s)
unfolding read_loop
read_loop-Ends zero h buffer done count m s enough small v =
    let none_left : (m == 0) ≡ true = ground arith in rw none_left v
read_loop-Ends (suc fuel) h buffer done count m s enough small v = elim (Bool-cases (m == 0)) [
  | inl e ↦ rw e v
  | inr e ↦
      (let n = read_chunk (s.open_file_table h).of_offset m in
        let (p, q, fits) =
          read_chunk-Round (s.open_file_table h).of_offset m (v h) (ground arith) small in
        let left : sub64 m n ≡ m - n = omega arith in
        rw e (
          unless_failed-Ends (copy_out h buffer done m n s) _
            (copy_out-SameEntries h buffer done m n s) (λ r same. InBlock-SameEntries s r.1 same v)
            (λ r same.
              read_loop-Ends fuel h r.0 (done + n) count (sub64 m n) (advance h n r.1) (omega arith)
                (omega arith) (moved-InBlock h n s r.1 fits v same))))
]

-- From any state in which every entry's offset lies within a block, with any handle, tfs_write of
-- less than 2 ^ 63 bytes comes to an end, in a result or in undefined behaviour: its loop never
-- needs more rounds than there are bytes; and when it returns, every offset lies within a block
-- again.
pub tfs_write-Ends :
    (fhandle : ℤ) (buffer : Memory) (n : ℕ) (s : Fs)
    → n < 2 ^ 63
    → InBlock s
    → Ends InBlock (tfs_write fhandle buffer n s)
unfolding tfs_write
tfs_write-Ends fhandle buffer n s small v = elim (Option-cases (get_open_file_entry fhandle)) [
  | inl e ↦ rw (e, tfs_write) v
  | inr (h, e) ↦ elim (Option-cases (inode_get (s.open_file_table h).of_inumber)) [
    | inl e' ↦ rw (e, tfs_write) (rw (e', tfs_write) v)
    | inr (i, e') ↦
        rw (e, tfs_write)
          (rw (e', tfs_write) (write_loop-Ends n h i buffer n n s (omega arith) small v))
  ]
]

-- The same for a read, whatever the sizes in the i-node table.
pub tfs_read-Ends :
    (fhandle : ℤ) (buffer : Memory) (len : ℕ) (s : Fs)
    → len < 2 ^ 63
    → InBlock s
    → Ends (λ (r : Memory × Fs). InBlock r.1) (tfs_read fhandle buffer len s)
unfolding tfs_read
tfs_read-Ends fhandle buffer len s small v = elim (Option-cases (get_open_file_entry fhandle)) [
  | inl e ↦ rw (e, tfs_read) v
  | inr (h, e) ↦ elim (Option-cases (inode_get (s.open_file_table h).of_inumber)) [
    | inl e' ↦ rw (e, tfs_read) (rw (e', tfs_read) v)
    | inr (i, e') ↦
        (let n = clamp_read (s.inode_table i).i_size (s.open_file_table h).of_offset len in
          rw (e, tfs_read)
            (rw (e', tfs_read) (read_loop-Ends n h buffer 0 n n s (omega arith) (ground arith) v)))
  ]
]
