-- ===== src/P1/Locks/Tests.antt =====
-- Threads in tfs_write and tfs_read on the volume of P1.Tests.
use so_project.Base.{ℕ, ◌+◌, ◌-◌, ◌*◌, ◌<◌, ◌≡◌, pos, update, Memory, arith, refl}
use so_project.Fs.State.{block_size}
use so_project.P1.Operations.{tfs_write, tfs_read}
use so_project.P1.Bounds.Rounds.{InBlock}
use so_project.P1.Files.Blocks.{file_blocks}
use so_project.P1.Tests.Volume.{
  volume, volume-pointers, volume-OwnsBlocks, at_start, at_start', bytes, buffer,
}
use so_project.P1.Locks.{Pc, idle, crashed, finished, at_file_lock, unlocked, System, Reach, start}
use so_project.P1.Locks.Progress.{Goes, working-Goes}
use so_project.P1.Locks.Offsets.{Reach-InBlock}
use so_project.P1.Locks.Apart.{IsApart, Reach-IsApart}
use so_project.P1.Locks.Ended.{Written, ReadInto, EndsAs, write_frame}
use so_project.P1.Locks.Writing.{tfs_write-EndsAs}
use so_project.P1.Locks.Reading.{tfs_read-EndsAs}
use so_project.P1.Locks.Race.{Reach-Alone, chunk_seen, write_spills}

-- The thread 0 has called tfs_write through the handle 0, and the thread 1 through the handle 2; both
-- are before inode_update.
abbrev places : ℕ → Pc
places =
    update
      (update (λ j. idle) 0 (at_file_lock (write_frame 0 1 bytes block_size block_size) block_size))
      1 (at_file_lock (write_frame 2 1 bytes block_size block_size) block_size)

abbrev two_writers : Reach volume (record { shared = unlocked volume; pc = places })
two_writers =
    Reach-Alone 1 _
      (Reach-Alone 0 (λ j. idle) start refl
        (chunk_seen 0 0 1 0 bytes volume (omega arith) at_start))
      refl (chunk_seen 1 2 1 0 bytes volume (omega arith) at_start')

places-fine : (j : ℕ) → ¬ (places j ≡ crashed)
places-fine j e = ground (arith, e)

working-Goes_example : Goes (record { shared = unlocked volume; pc = places })
working-Goes_example = working-Goes two_writers places-fine 1 refl

volume-InBlock : InBlock volume
volume-InBlock h = ground arith

-- The thread 0 writes a block through the handle 0, the thread 1 ten bytes meanwhile.
abbrev raced :
    (t : System) × Reach volume t
    × ((c : Memory) × (t.pc 1 ≡ finished (pos 10) c))
    × ((r : ℕ)
        → r < 10
        → t.shared.fs.fs_data ((2 + 1) * block_size + r) ≡ bytes (block_size - 10 + r))
raced =
    write_spills file_blocks 0 1 0 1 0 2 10 bytes bytes volume (λ e. cc) (omega arith)
      volume-OwnsBlocks at_start (omega arith) (omega arith) (volume-pointers 0) (omega arith)
      (omega arith) (omega arith)

Reach-InBlock_example : InBlock raced.0.shared.fs
Reach-InBlock_example = Reach-InBlock raced.1 volume-InBlock

-- The root has the block 0 as its block of entries, and the file the blocks 2 and 3.
volume-IsApart : IsApart volume
volume-IsApart = record {
  marked = λ i k b u le p. ground arith;
  unique = λ i j k l b u u' le le' p p'. ground arith;
}

Reach-IsApart_example : IsApart raced.0.shared.fs
Reach-IsApart_example = Reach-IsApart raced.1 volume-IsApart

tfs_write-EndsAs_example :
    EndsAs Written 4 (unlocked volume) idle (tfs_write (pos 0) bytes 1500 volume)
tfs_write-EndsAs_example = tfs_write-EndsAs 4 (pos 0) bytes 1500 volume (omega arith) volume-InBlock

tfs_read-EndsAs_example :
    EndsAs ReadInto 4 (unlocked volume) idle (tfs_read (pos 2) buffer 1500 volume)
tfs_read-EndsAs_example = tfs_read-EndsAs 4 (pos 2) buffer 1500 volume (omega arith) volume-InBlock

-- The block 2 is the first of the file, and the block 3 is behind it.
write_spills_example :
    (t : System) × Reach volume t
    × ((c : Memory) × (t.pc 1 ≡ finished (pos 10) c))
    × ((r : ℕ)
        → r < 10
        → t.shared.fs.fs_data ((2 + 1) * block_size + r) ≡ bytes (block_size - 10 + r))
write_spills_example =
    write_spills file_blocks 0 1 0 1 0 2 10 bytes bytes volume (λ e. cc) (omega arith)
      volume-OwnsBlocks at_start (omega arith) (omega arith) (volume-pointers 0) (omega arith)
      (omega arith) (omega arith)
