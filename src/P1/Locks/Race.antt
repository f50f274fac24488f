-- ===== src/P1/Locks/Race.antt =====
-- Two threads in tfs_write of P1/fs/operations.c with the same handle: the bytes of a round are computed
-- from an offset that is read without the mutex of the entry.
use so_project.Base.{
  ℕ, ◌+◌, ◌-◌, ◌*◌, ◌^◌, ◌≤◌, ◌<◌, ◌≡◌, ◌≢◌, pos, Memory, update, blit, true, arith, refl, ◌∙◌, sym,
  subst, leb, ltb,
}
use mathlib.Core.Path.{fun_ext}
use so_project.Fs.State.{block_size, max_open_files, data_blocks}
use so_project.P1.State.{Fs, fs_data_size}
use so_project.P1.OpenFile.{get_open_file_entry}
use so_project.P1.Update.{at}
use so_project.P1.Operations.{returned, tfs_write}
use so_project.P1.Files.Blocks.{OwnsBlocks, pointers, file_blocks}
use so_project.P1.Files.Place.{StandsAt, readied, readied-Extends, address, inode_update-readied}
use so_project.P1.Files.Write.{tfs_write-Wrote}
use so_project.P1.Files.WriteRound.{Wrote}
use so_project.P1.Locks.{
  Shared, Pc, idle, finished, at_head, at_file_lock, at_advance, entered, after_chunk, Move,
  call_write, see_fits, copy, unlocked, System, Reach, start, later, pick,
}
use so_project.P1.Locks.Alone.{Alone, stay, go, Located, inode_update-Located}
use so_project.P1.Locks.Ended.{Written, Ended, write_frame}
use so_project.P1.Locks.Writing.{writes, write-Ended}

-- The steps of one thread are steps of the system.
pub Reach-Alone :
    (j : ℕ) {s : Fs} {m m' : Shared} {p p' : Pc} (pc : ℕ → Pc)
    → Reach s (record { shared = m; pc = pc })
    → pc j ≡ p
    → Alone j m p m' p'
    → Reach s (record { shared = m'; pc = update pc j p' })
Reach-Alone j {s} {m} {p = p} pc r e stay =
    subst (λ (pc' : ℕ → Pc). Reach s (record { shared = m; pc = pc' }))
      (fun_ext (λ k. ground arith)) r
Reach-Alone j {s} {m} {m' = m'} {p' = p'} pc r e (go {m' = m1} {p' = p1} mv rest) =
    let one : Reach s (record { shared = m1; pc = update pc j p1 }) =
      later r (pick j (subst (λ q. Move j m q m1 p1) (sym e) mv)) in
    subst (λ (pc' : ℕ → Pc). Reach s (record { shared = m'; pc = pc' }))
      (fun_ext (λ k. ground arith)) (Reach-Alone j (update pc j p1) one (ground arith) rest)

then_go :
    {me : ℕ} {m m' m'' : Shared} {p p' p'' : Pc}
    → Alone me m p m' p'
    → Move me m' p' m'' p''
    → Alone me m p m'' p''
then_go stay mv = go mv stay
then_go (go first rest) mv = go first (then_go rest mv)

-- The first steps of a write of one block, up to the call of inode_update.
pub chunk_seen :
    (me h i b : ℕ) (buffer : Memory) (s : Fs)
    → h < max_open_files
    → StandsAt h i b 0 s
    → Alone me
        (unlocked s)
        idle
        (unlocked s)
        (at_file_lock (write_frame h i buffer block_size block_size) block_size)
unfolding get_open_file_entry
chunk_seen me h i b buffer s valid stands =
    let f = write_frame h i buffer block_size block_size in
    let handle : ltb h max_open_files ≡ true = ground arith in
    let start_of : writes (pos h) buffer block_size s ≡ at_head f =
      rw (handle, entered) (rw (stands.node, entered) refl) in
    let chunk : after_chunk f block_size ≡ at_file_lock f block_size = refl in
    go (call_write (pos h) buffer block_size (omega arith)) (
      subst (λ p. Alone me (unlocked s) p (unlocked s) (at_file_lock f block_size)) (sym start_of)
        (go (see_fits (omega arith) refl (ground (arith, stands.offset))) (
          subst (λ p. Alone me (unlocked s) p (unlocked s) (at_file_lock f block_size)) (sym chunk)
            stay)))

-- A whole write that returns.
write-Alone :
    (me h n : ℕ) (buffer : Memory) (s t : Fs)
    → n < 2 ^ 63
    → tfs_write (pos h) buffer n s ≡ returned (pos n) t
    → (c : Memory) × Alone me (unlocked s) idle (unlocked t) (finished (pos n) c)
write-Alone me h n buffer s t small e =
    let (c, u, same, path) : Ended Written me (unlocked s) (writes (pos h) buffer n s)
        (returned (pos n) t) =
      subst (λ r. Ended Written me (unlocked s) (writes (pos h) buffer n s) r) e
        (write-Ended me (pos h) buffer n s) in
    (
      c,
      go (call_write (pos h) buffer n small) (
          subst
            (λ u'.
              Alone me (unlocked s) (writes (pos h) buffer n s) (unlocked u') (finished (pos n) c))
            (sym same) path),
    )

-- The copy of a round of a whole block that finds the entry at the byte o of its block.
spilled :
    (w me h i b o x : ℕ) (buffer : Memory) (s : Fs)
    → OwnsBlocks w i s
    → StandsAt h i b o s
    → b < w
    → w ≤ file_blocks
    → o ≤ block_size
    → pointers i s b ≡ pos x
    → x + 1 < data_blocks
    → (t : Fs) × Alone me
        (unlocked s)
        (at_file_lock (write_frame h i buffer block_size block_size) block_size)
        (unlocked t)
        (at_advance
          (write_frame h i (λ k. buffer (block_size + k)) block_size block_size)
          block_size)
      × ((r : ℕ) → r < o → t.fs_data ((x + 1) * block_size + r) ≡ buffer (block_size - o + r))
spilled w me h i b o x buffer s v stands below limit le here room =
    let f = write_frame h i buffer block_size block_size in
    let u = readied i b s in
    let a = address i b o u in
    let block : pointers i u b ≡ pos x =
      (readied-Extends w i b s v below limit).kept b (omega arith) (λ e. cc (e, here)) ∙ here in
    let place : a ≡ x * block_size + o = rw block refl in
    let fits : leb (a + block_size) fs_data_size ≡ true = ground arith in
    let path : Located me f block_size (unlocked s) (at_file_lock f block_size) (at a, u) =
      subst (Located me f block_size (unlocked s) (at_file_lock f block_size))
        (inode_update-readied w i b s v below limit o h stands)
        (inode_update-Located me f block_size s) in
    (
      record u { fs_data = blit u.fs_data a block_size buffer },
      then_go path (copy fits refl),
      λ r lt. ground arith,
    )

-- Behind a write within a block, the entry stands behind its bytes.
Wrote-StandsAt :
    (w h i b m : ℕ) (buffer : Memory) (s t : Fs)
    → m < block_size
    → Wrote w h i b 0 m buffer s t
    → StandsAt h i b m t
Wrote-StandsAt w h i b m buffer s t within wrote =
    let block : wrote.new_block ≡ b = omega (arith, wrote.place, wrote.in_block) in
    let offset : wrote.new_offset ≡ m = omega (arith, wrote.place, wrote.in_block) in
    subst (λ b'. StandsAt h i b' m t) block
      (subst (λ o. StandsAt h i wrote.new_block o t) offset wrote.stands)

-- Let w be 266 at most, and let the first w pointers of the i-node i, direct and then indirect,
-- and its block of pointers name different taken blocks of the volume or none, with a free block
-- for each of them that names none, the block of pointers counting when w is more than 10. Let
-- the entry h stand at the start of the block b of the file, one of the first w, which is the
-- block x and not the last of the volume. When a thread writes one block of bytes through h, and
-- another thread writes m bytes through h, fewer than a block, so that the size does not
-- overflow, then in some order of their steps the second write returns m, and the last m bytes of
-- the first write are stored at the start of the block behind x, whatever that block belongs to.
pub write_spills :
    (w j k h i b x m : ℕ) (first second : Memory) (s : Fs)
    → j ≢ k
    → h < max_open_files
    → OwnsBlocks w i s
    → StandsAt h i b 0 s
    → b < w
    → w ≤ file_blocks
    → pointers i s b ≡ pos x
    → x + 1 < data_blocks
    → m < block_size
    → (s.inode_table i).i_size + m < 2 ^ 64
    → (t : System) × Reach s t
      × ((c : Memory) × (t.pc k ≡ finished (pos m) c))
      × ((r : ℕ)
          → r < m
          → t.shared.fs.fs_data ((x + 1) * block_size + r) ≡ first (block_size - m + r))
write_spills w j k h i b x m first second s ne valid v stands below limit here room within wide =
    let (u, e, wrote) =
      tfs_write-Wrote w h i b 0 m second s valid limit v stands (omega arith) (omega arith) wide in
    let (c, whole) = write-Alone k h m second s u (omega arith) e in
    let behind = Wrote-StandsAt w h i b m second s u within wrote in
    let named : pointers i u b ≡ pos x = wrote.stores.kept b below (λ e. cc (e, here)) ∙ here in
    let (t, rest, bytes) =
      spilled w j h i b m x first u wrote.owns behind below limit (omega arith) named room in
    let idles : ℕ → Pc = λ me. idle in
    let seen : Pc = at_file_lock (write_frame h i first block_size block_size) block_size in
    let pc1 : ℕ → Pc = update idles j seen in
    let pc2 : ℕ → Pc = update pc1 k (finished (pos m) c) in
    let r1 = Reach-Alone j idles start refl (chunk_seen j h i b first s valid stands) in
    let r2 = Reach-Alone k pc1 r1 (ground arith) whole in
    let r3 = Reach-Alone j pc2 r2 (ground arith) rest in (_, r3, (c, ground arith), bytes)
