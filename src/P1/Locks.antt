-- ===== src/P1/Locks.antt =====
-- tfs_write and tfs_read of P1/fs/operations.c, with inode_update of P1/fs/state.c, called by several
-- threads. A step is what a thread does under one lock that it takes and releases again, or without a
-- lock, or one part of inode_update, which holds `of_mutex` and `i_lock` for longer. A round of a loop
-- of inode_update is one step: P1.Threads looks into data_block_alloc.
pub mod Held
pub mod Progress
pub mod Offsets
pub mod Apart
pub mod Alone
pub mod Ended
pub mod Writing
pub mod Reading
pub mod Race
mod Tests
use so_project.Base.{
  ℕ, zero, suc, ◌+◌, ◌-◌, ◌*◌, ◌^◌, ◌<◌, ◌≡◌, ℤ, pos, negsuc, minus_one, Memory, Option, none, some,
  Bool, true, false, AllocationState, leb, ltb, ◌==◌, if◌then◌else◌, update, blit, load_int, add64,
  sub64, signed64,
}
use so_project.Fs.State.{block_size}
use so_project.P1.State.{Fs, direct_block_pointers, max_block_pointers, fs_data_size}
use so_project.P1.Block.{data_block_get}
use so_project.P1.Inode.{inode_get}
use so_project.P1.OpenFile.{get_open_file_entry}
use so_project.P1.Update.{
  Position, null, at, undefined, ensure_direct, ensure_pointer_block, ensure_indirect, loop_rounds,
  position_in,
}
use so_project.P1.Operations.{advance, grow, read_chunk, clamp_read}

-- The file system, and the threads that hold `of_mutex` of an entry and `i_lock` of an i-node across
-- steps.
pub record Shared : Type 0 where
  pub fs : Fs
  pub of_mutex : ℕ → Option ℕ
  pub i_lock : ℕ → Option ℕ

pub data Kind : Type 0 where
  writing reading : Kind

-- The local variables of a call. A write moves `buffer` on, a read counts the bytes in `done`.
pub record Frame : Type 0 where
  pub kind : Kind
  pub handle : ℕ
  pub inode : ℕ
  pub buffer : Memory
  pub done : ℕ
  pub receiver : ℕ
  pub left : ℕ

-- Where a thread stands. In inode_update, n is the number of bytes of the round and i the i-node.
pub data Pc : Type 0 where
  idle crashed : Pc
  finished : (z : ℤ) (buffer : Memory) → Pc
  at_size_lock at_size : (f : Frame) → Pc  -- in tfs_read, before the loop
  at_head : (f : Frame) → Pc
  at_offset : (f : Frame) → Pc  -- in tfs_write, where the rest of the bytes does not fit in the block
  at_file_lock at_inode : (f : Frame) (n : ℕ) → Pc
  at_inode_lock : (f : Frame) (n i : ℕ) → Pc
  at_directs : (f : Frame) (n i : ℕ) (blocks : ℤ) (rounds k : ℕ) → Pc
  at_direct : (f : Frame) (n i blocks : ℕ) → Pc
  at_pointer_block : (f : Frame) (n i blocks : ℕ) → Pc
  at_indirects : (f : Frame) (n i blocks bpointer rounds k : ℕ) → Pc
  at_indirect : (f : Frame) (n blocks bpointer : ℕ) → Pc
  at_copy : (f : Frame) (n : ℕ) (position : Position) → Pc
  at_advance at_grow : (f : Frame) (n : ℕ) → Pc

-- The start of a call, whose tests come before any lock.
abbrev pub entered : (Frame → Pc) → Kind → ℤ → Memory → ℕ → Fs → Pc
entered next kind fhandle buffer count s = elim (get_open_file_entry fhandle) [
  | none ↦ finished minus_one buffer
  | some h ↦ elim (inode_get (s.open_file_table h).of_inumber) [
    | none ↦ finished minus_one buffer
    | some i ↦ next (record {
      kind = kind;
      handle = h;
      inode = i;
      buffer = buffer;
      done = 0;
      receiver = count;
      left = count;
    })
  ]
]

-- `size_t to_read`, from the two fields that tfs_read looks at.
abbrev pub clamped : Frame → Fs → Frame
clamped f s =
    let n =
      clamp_read (s.inode_table f.inode).i_size (s.open_file_table f.handle).of_offset f.left in
    record f { receiver = n; left = n }

-- A round that handles no byte has no copy.
abbrev pub after_chunk : Frame → ℕ → Pc
after_chunk f n = if n == 0 then at_advance f n else at_file_lock f n

-- The frame behind `memcpy` and behind the end of a round.
abbrev pub copied : Frame → ℕ → Fs → ℕ → Frame × Fs
copied f n s a = elim f.kind [
  | writing ↦ (
    record f { buffer = λ k. f.buffer (n + k) },
    record s { fs_data = blit s.fs_data a n f.buffer },
  )
  | reading ↦ (record f { buffer = blit f.buffer f.done f.left (λ k. s.fs_data (a + k)) }, s)
]

-- How many bytes a round copies.
abbrev pub copy_size : Frame → ℕ → ℕ
copy_size f n = elim f.kind [ writing ↦ n | reading ↦ f.left ]

abbrev pub round_done : Frame → ℕ → Frame
round_done f n = elim f.kind [
  | writing ↦ record f { left = sub64 f.left n }
  | reading ↦ record f { done = f.done + n; left = sub64 f.left n }
]

abbrev pub after_advance : Frame → ℕ → Pc
after_advance f n = elim f.kind [ writing ↦ at_grow f n | reading ↦ at_head (round_done f n) ]

-- Behind pointer_block_alloc: `bpointer` is the address of the block of pointers.
abbrev pub after_pointer_block : Frame → ℕ → ℕ → ℕ → Fs → Pc
after_pointer_block f n i blocks s = elim (data_block_get (s.inode_table i).i_data_block) [
  | none ↦ crashed
  | some a ↦ at_indirects f n i blocks a (loop_rounds (pos blocks) max_block_pointers) 0
]

-- Behind the read of `bpointer[blocks]`.
abbrev pub after_indirect : Frame → ℕ → ℕ → ℕ → Fs → Pc
after_indirect f n blocks a s =
    if leb (a + 4 * blocks + 4) fs_data_size
    then at_copy f n
        (position_in (load_int s.fs_data (a + 4 * blocks)) (s.open_file_table f.handle).of_offset)
    else crashed

abbrev pub with_fs : Shared → Fs → Shared
with_fs m s = record m { fs = s }

-- The lock of a table is given to a thread, or back.
abbrev pub with_file : Shared → ℕ → Option ℕ → Shared
with_file m h o = record m { of_mutex = update m.of_mutex h o }

abbrev pub with_inode : Shared → ℕ → Option ℕ → Shared
with_inode m i o = record m { i_lock = update m.i_lock i o }

-- One step of the thread `me`. A caller asks for less than 2 ^ 63 bytes.
pub data Move (me : ℕ) (m : Shared) : Pc → Shared → Pc → Type 0 where
  call_write :
      (fhandle : ℤ) (buffer : Memory) (count : ℕ)
      → count < 2 ^ 63
      → Move me m idle m (entered at_head writing fhandle buffer count m.fs)
  call_read :
      (fhandle : ℤ) (buffer : Memory) (count : ℕ)
      → count < 2 ^ 63
      → Move me m idle m (entered at_size_lock reading fhandle buffer count m.fs)
  lock_size :
      {f : Frame}
      → m.of_mutex f.handle ≡ none
      → Move me m (at_size_lock f) (with_file m f.handle (some me)) (at_size f)
  see_size :
      {f : Frame}
      → m.i_lock f.inode ≡ none
      → Move me m (at_size f) (with_file m f.handle none) (at_head (clamped f m.fs))
  leave :
      {f : Frame} → f.left ≡ 0 → Move me m (at_head f) m (finished (signed64 f.receiver) f.buffer)
  -- tfs_write looks at of_offset twice: in the test, and for `BLOCK_SIZE - file->of_offset`
  see_fits :
      {f : Frame}
      → 0 < f.left
      → f.kind ≡ writing
      → ltb block_size (add64 f.left (m.fs.open_file_table f.handle).of_offset) ≡ false
      → Move me m (at_head f) m (after_chunk f f.left)
  see_over :
      {f : Frame}
      → 0 < f.left
      → f.kind ≡ writing
      → ltb block_size (add64 f.left (m.fs.open_file_table f.handle).of_offset) ≡ true
      → Move me m (at_head f) m (at_offset f)
  see_offset :
      {f : Frame}
      → Move me m
          (at_offset f)
          m
          (after_chunk f (sub64 block_size (m.fs.open_file_table f.handle).of_offset))
  see_offset_locked :
      {f : Frame}
      → 0 < f.left
      → f.kind ≡ reading
      → m.of_mutex f.handle ≡ none
      → Move me m
          (at_head f)
          m
          (after_chunk f (read_chunk (m.fs.open_file_table f.handle).of_offset f.left))
  lock_file :
      {f : Frame} {n : ℕ}
      → m.of_mutex f.handle ≡ none
      → Move me m (at_file_lock f n) (with_file m f.handle (some me)) (at_inode f n)
  no_inode :
      {f : Frame} {n : ℕ}
      → inode_get (m.fs.open_file_table f.handle).of_inumber ≡ none
      → Move me m (at_inode f n) (with_file m f.handle none) (finished minus_one f.buffer)
  see_inode :
      {f : Frame} {n i : ℕ}
      → inode_get (m.fs.open_file_table f.handle).of_inumber ≡ some i
      → Move me m (at_inode f n) m (at_inode_lock f n i)
  lock_inode :
      {f : Frame} {n i : ℕ}
      → m.i_lock i ≡ none
      → Move me m (at_inode_lock f n i) (with_inode m i (some me)) (
          at_directs f n i
            (m.fs.open_file_table f.handle).of_boffset
            (loop_rounds (m.fs.open_file_table f.handle).of_boffset direct_block_pointers)
            0)
  direct :
      {f : Frame} {n i rounds k : ℕ} {blocks : ℤ}
      → Move me m
          (at_directs f n i blocks (suc rounds) k)
          (with_fs m (ensure_direct i k m.fs))
          (at_directs f n i blocks rounds (k + 1))
  no_block :
      {f : Frame} {n i k blocks : ℕ} → Move me m (at_directs f n i (negsuc blocks) 0 k) m crashed
  unlock_direct :
      {f : Frame} {n i k blocks : ℕ}
      → leb direct_block_pointers blocks ≡ false
      → Move me m (at_directs f n i (pos blocks) 0 k) (with_inode m i none) (at_direct f n i blocks)
  behind_directs :
      {f : Frame} {n i k blocks : ℕ}
      → leb direct_block_pointers blocks ≡ true
      → Move me m
          (at_directs f n i (pos blocks) 0 k)
          m
          (at_pointer_block f n i (blocks - direct_block_pointers))
  see_direct :
      {f : Frame} {n i blocks : ℕ}
      → Move me m (at_direct f n i blocks) (with_file m f.handle none) (
          at_copy f n (
            position_in
              ((m.fs.inode_table i).i_direct_blocks blocks)
              (m.fs.open_file_table f.handle).of_offset))
  pointer_block :
      {f : Frame} {n i blocks : ℕ}
      → Move me m
          (at_pointer_block f n i blocks)
          (with_fs m (ensure_pointer_block i m.fs))
          (after_pointer_block f n i blocks (ensure_pointer_block i m.fs))
  indirect :
      {f : Frame} {n i blocks bpointer rounds k : ℕ}
      → Move me m
          (at_indirects f n i blocks bpointer (suc rounds) k)
          (with_fs m (ensure_indirect bpointer k m.fs))
          (at_indirects f n i blocks bpointer rounds (k + 1))
  unlock_indirect :
      {f : Frame} {n i blocks bpointer k : ℕ}
      → Move me m
          (at_indirects f n i blocks bpointer 0 k)
          (with_inode m i none)
          (at_indirect f n blocks bpointer)
  see_indirect :
      {f : Frame} {n blocks bpointer : ℕ}
      → Move me m
          (at_indirect f n blocks bpointer)
          (with_file m f.handle none)
          (after_indirect f n blocks bpointer m.fs)
  no_position : {f : Frame} {n : ℕ} → Move me m (at_copy f n null) m (finished minus_one f.buffer)
  bad_position : {f : Frame} {n : ℕ} → Move me m (at_copy f n undefined) m crashed
  copy_behind :
      {f : Frame} {n a : ℕ}
      → leb (a + copy_size f n) fs_data_size ≡ false
      → Move me m (at_copy f n (at a)) m crashed
  copy :
      {f : Frame} {n a : ℕ}
      → leb (a + copy_size f n) fs_data_size ≡ true
      → m.i_lock f.inode ≡ none
      → Move me m
          (at_copy f n (at a))
          (with_fs m (copied f n m.fs a).1)
          (at_advance (copied f n m.fs a).0 n)
  move_on :
      {f : Frame} {n : ℕ}
      → m.of_mutex f.handle ≡ none
      → Move me m (at_advance f n) (with_fs m (advance f.handle n m.fs)) (after_advance f n)
  enlarge :
      {f : Frame} {n : ℕ}
      → m.i_lock f.inode ≡ none
      → Move me m (at_grow f n) (with_fs m (grow f.inode n m.fs)) (at_head (round_done f n))
  again : {z : ℤ} {buffer : Memory} → Move me m (finished z buffer) m idle

-- Any number of threads, of which only finitely many have left `idle`.
pub record System : Type 0 where
  pub shared : Shared
  pub pc : ℕ → Pc

pub data Step (s : System) : System → Type 0 where
  pick :
      (me : ℕ) {m : Shared} {p : Pc}
      → Move me s.shared (s.pc me) m p
      → Step s (record { shared = m; pc = update s.pc me p })

-- No thread is in a call, and every lock is free.
abbrev pub unlocked : Fs → Shared
unlocked s = record { fs = s; of_mutex = λ h. none; i_lock = λ i. none }

abbrev pub at_rest : Fs → System
at_rest s = record { shared = unlocked s; pc = λ me. idle }

pub data Reach (s : Fs) : System → Type 0 where
  start : Reach s (at_rest s)
  later : {t u : System} → Reach s t → Step t u → Reach s u
