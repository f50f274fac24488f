-- ===== src/Fs/State.antt =====
-- P2/fs/config.h, the types and globals of state.h, state.c and operations.c, and state_init.
use so_project.Base.{ℕ, ℤ, pos, Memory, AllocationState, free, in_range, Bool}

abbrev pub root_dir_inum : ℕ
root_dir_inum = 0

abbrev pub block_size : ℕ
block_size = 1024

abbrev pub data_blocks : ℕ
data_blocks = 1024

abbrev pub inode_table_size : ℕ
inode_table_size = 50

abbrev pub max_open_files : ℕ
max_open_files = 20

abbrev pub max_file_name : ℕ
max_file_name = 40

-- `sizeof(dir_entry_t)`: the name, then the `int`.
abbrev pub dir_entry_size : ℕ
dir_entry_size = 44

-- `BLOCK_SIZE / sizeof(dir_entry_t)`
abbrev pub max_dir_entries : ℕ
max_dir_entries = 23

pub data InodeType : Type 0 where
  t_file t_directory : InodeType

pub record Inode : Type 0 where
  pub i_node_type : InodeType
  pub i_size : ℕ
  pub i_data_block : ℤ

pub record OpenFileEntry : Type 0 where
  pub of_inumber : ℤ
  pub of_offset : ℕ

-- `state` of operations.c: OPEN or CLOSING.
pub data Phase : Type 0 where
  opened closing : Phase

pub record Fs : Type 0 where
  pub inode_table : ℕ → Inode
  pub freeinode_ts : ℕ → AllocationState
  pub fs_data : Memory
  pub free_blocks : ℕ → AllocationState
  pub open_file_table : ℕ → OpenFileEntry
  pub free_open_file_entries : ℕ → AllocationState
  pub open_file_count : ℤ
  pub state : Phase

-- The static memory of the process before tfs_init: all zero.
abbrev pub zeroed : Fs
zeroed = record {
  inode_table = λ i. record { i_node_type = t_file; i_size = 0; i_data_block = pos 0 };
  freeinode_ts = λ i. free;
  fs_data = λ a. 0;
  free_blocks = λ i. free;
  open_file_table = λ i. record { of_inumber = pos 0; of_offset = 0 };
  free_open_file_entries = λ i. free;
  open_file_count = pos 0;
  state = opened;
}

abbrev pub valid_inumber : ℤ → Bool
valid_inumber = in_range inode_table_size

abbrev pub valid_block_number : ℤ → Bool
valid_block_number = in_range data_blocks

abbrev pub valid_file_handle : ℤ → Bool
valid_file_handle = in_range max_open_files

-- The three loops cover every entry of their tables.
unfoldable pub state_init : Fs → Fs
state_init s = record s {
  freeinode_ts = λ i. free;
  free_blocks = λ i. free;
  free_open_file_entries = λ i. free;
  open_file_count = pos 0;
}

unfoldable pub state_destroy : Fs → Fs
state_destroy s = s
