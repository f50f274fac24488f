-- ===== src/Fs/Io/RoundTrip.antt =====
-- What is written through one handle is read through another.
use so_project.Base.{ℕ, ◌+◌, ◌-◌, ◌≤◌, ◌<◌, ◌≡◌, ◌≢◌, inl, inr, pos, Memory, arith, ap, ◌∙◌}
use so_project.Fs.State.{Fs, block_size}
use so_project.Fs.Operations.{write_unsynchronized, read_unsynchronized}
use so_project.Fs.Valid.{IsValid, IsOpen}
use so_project.Fs.Valid.Handle.{file_of, byte_of, amount_written}
use so_project.Fs.Valid.Write.{write-IsValid}
use so_project.Fs.Io.Write.{write_outcome, amount_written-min, write-handles}
use so_project.Fs.Io.Read.{read_outcome}
use Prim.Native.Nat.{min}

module _ (h g : ℕ) (contents buffer : Memory) (count : ℕ) {s : Fs} (v : IsValid s)
    (writer : IsOpen h s) (reader : IsOpen g s) (apart : g ≢ h)
    (same_file : file_of g s ≡ file_of h s)
    (same_offset : (s.open_file_table g).of_offset ≡ (s.open_file_table h).of_offset)
    (some_bytes : 0 < count) (fits : (s.open_file_table h).of_offset + count ≤ block_size) where
  abbrev pub after : Fs
  after = (write_unsynchronized (pos h) contents count s).1

  all_fits : amount_written h count s ≡ count
  all_fits = ground (arith, amount_written-min h contents count v writer (omega arith))

  kept_entry : after.open_file_table g ≡ s.open_file_table g
  kept_entry = (write-handles h contents count v writer (omega arith) g apart).0

  reader_kept : IsOpen g after
  reader_kept = record {
    in_table = reader.in_table;
    is_taken = rw (write-handles h contents count v writer (omega arith) g apart).1 reader.is_taken;
  }

  after-IsValid : IsValid after
  after-IsValid = write-IsValid h contents count v writer (omega arith)

  module _ (done : (write_unsynchronized (pos h) contents count s).0 ≡ pos count) where
    grown : (s.open_file_table h).of_offset + count ≤ (after.inode_table (file_of h s)).i_size
    grown = elim (write_outcome h contents count v writer (omega arith)) [
      | inr (e, _, _, _, _) ↦ absurd (ground arith)
      | inl (e, w) ↦
          ground (arith, w.1, all_fits, amount_written-min h contents count v writer (omega arith))
    ]

    bytes :
        (k : ℕ)
        → k < count
        → byte_of after (file_of h s) ((s.open_file_table h).of_offset + k) ≡ contents k
    bytes k lt = elim (write_outcome h contents count v writer (omega arith)) [
      | inr (e, _, _, _, _) ↦ absurd (ground arith)
      | inl (e, w) ↦ w.2 k (omega arith)
    ]

    same_entry :
        ((after.open_file_table g).of_offset ≡ (s.open_file_table h).of_offset)
        × (file_of g after ≡ file_of h s)
    same_entry = (rw kept_entry same_offset, rw kept_entry same_file)

    -- When a write through one open handle has returned `count`, a read of `count` bytes through
    -- another handle, open on the same file at the same offset, returns `count` and copies the
    -- bytes that were written; for well formed tables, and bytes that fit in the block.
    pub read-write :
        ((read_unsynchronized (pos g) buffer count after).0 ≡ pos count)
        × ((k : ℕ) → k < count → (read_unsynchronized (pos g) buffer count after).1 k ≡ contents k)
    read-write =
        let le : (after.open_file_table g).of_offset
            ≤ (after.inode_table (file_of g after)).i_size =
          rw same_entry.0 (rw same_entry.1 (omega (arith, grown))) in
        let whole : min count
              ((after.inode_table (file_of g after)).i_size - (after.open_file_table g).of_offset)
            ≡ count =
          rw same_entry.0 (rw same_entry.1 (omega (arith, grown))) in
        let (r, c) = read_outcome g buffer count after-IsValid reader_kept le in
        (
          r ∙ ap pos whole,
          λ k lt. c.0 k (rw whole lt) ∙ rw same_entry.0 (rw same_entry.1 (bytes k lt)),
        )
