-- ===== src/P1/State.antt =====
-- The types and globals of P1/fs/state.h and state.c, and state_init.
use so_project.Base.{ℕ, ℤ, pos, Memory, AllocationState, free, ◌*◌}
use so_project.Fs.State.{InodeType, t_file, block_size, data_blocks}

abbrev pub direct_block_pointers : ℕ
direct_block_pointers = 10

-- `BLOCK_SIZE/INDEX_SIZE`
abbrev pub max_block_pointers : ℕ
max_block_pointers = 256

-- The number of bytes of `fs_data`.
abbrev pub fs_data_size : ℕ
fs_data_size = block_size * data_blocks

pub record Inode : Type 0 where
  pub i_node_type : InodeType
  pub i_size : ℕ
  pub i_data_block : ℤ
  pub i_direct_blocks : ℕ → ℤ

pub record OpenFileEntry : Type 0 where
  pub of_inumber : ℤ
  pub of_offset : ℕ
  pub of_boffset : ℤ

pub record Fs : Type 0 where
  pub inode_table : ℕ → Inode
  pub freeinode_ts : ℕ → AllocationState
  pub fs_data : Memory
  pub free_blocks : ℕ → AllocationState
  pub open_file_table : ℕ → OpenFileEntry
  pub free_open_file_entries : ℕ → AllocationState

-- The static memory of the process before tfs_init: all zero.
abbrev pub zeroed : Fs
zeroed = record {
  inode_table = λ i. record {
    i_node_type = t_file;
    i_size = 0;
    i_data_block = pos 0;
    i_direct_blocks = λ k. pos 0;
  };
  freeinode_ts = λ i. free;
  fs_data = λ a. 0;
  free_blocks = λ i. free;
  open_file_table = λ i. record { of_inumber = pos 0; of_offset = 0; of_boffset = pos 0 };
  free_open_file_entries = λ i. free;
}

-- The three loops cover every entry of their tables.
unfoldable pub state_init : Fs → Fs
state_init s = record s {
  freeinode_ts = λ i. free;
  free_blocks = λ i. free;
  free_open_file_entries = λ i. free;
}

unfoldable pub state_destroy : Fs → Fs
state_destroy s = s
