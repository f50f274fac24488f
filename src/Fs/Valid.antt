-- ===== src/Fs/Valid.antt =====
-- The well-formedness invariant of the tables of P2/fs.
pub mod Tables
pub mod Reach
pub mod Init
pub mod Open
pub mod Lookup
pub mod Create
pub mod Handle
pub mod Data
pub mod Write
pub mod Blocks
use so_project.Base.{ℕ, ◌≤◌, ◌<◌, ◌≡◌, ◌⊎◌, ℤ, pos, minus_one, pos_part, true, taken, count_taken}
use so_project.Fs.State.{
  Fs, t_file, t_directory, block_size, max_dir_entries, max_open_files, valid_inumber,
  valid_block_number, valid_file_handle,
}
use so_project.Fs.Dir.{d_inumber}

-- z is the i-number of a file that exists.
pub record IsFile (s : Fs) (z : ℤ) : Type 0 where
  pub in_table : valid_inumber z ≡ true
  pub not_root : 0 < pos_part z
  pub is_taken : s.freeinode_ts (pos_part z) ≡ taken
  pub is_file : (s.inode_table (pos_part z)).i_node_type ≡ t_file

-- h is a handle that is open.
pub record IsOpen (h : ℕ) (s : Fs) : Type 0 where
  pub in_table : valid_file_handle (pos h) ≡ true
  pub is_taken : s.free_open_file_entries h ≡ taken

pub record IsValid (s : Fs) : Type 0 where
  pub root_taken : s.freeinode_ts 0 ≡ taken
  pub root_directory : (s.inode_table 0).i_node_type ≡ t_directory
  pub root_size : (s.inode_table 0).i_size ≡ block_size
  pub root_block : (s.inode_table 0).i_data_block ≡ pos 0
  pub sizes : (i : ℕ) → s.freeinode_ts i ≡ taken → (s.inode_table i).i_size ≤ block_size
  -- an i-node that holds data has a block of its own, which is allocated
  pub block_valid :
      (i : ℕ)
      → s.freeinode_ts i ≡ taken
      → 0 < (s.inode_table i).i_size
      → valid_block_number (s.inode_table i).i_data_block ≡ true
  pub block_taken :
      (i : ℕ)
      → s.freeinode_ts i ≡ taken
      → 0 < (s.inode_table i).i_size
      → s.free_blocks (pos_part (s.inode_table i).i_data_block) ≡ taken
  pub separate :
      (i j : ℕ)
      → s.freeinode_ts i ≡ taken
      → s.freeinode_ts j ≡ taken
      → 0 < (s.inode_table i).i_size
      → 0 < (s.inode_table j).i_size
      → (s.inode_table i).i_data_block ≡ (s.inode_table j).i_data_block
      → i ≡ j
  -- an entry of the root directory is empty, or names a file
  pub entries :
      (k : ℕ)
      → k < max_dir_entries
      → (d_inumber s.fs_data 0 k ≡ minus_one) ⊎ IsFile s (d_inumber s.fs_data 0 k)
  -- an open file entry refers to a file, at an offset within a block
  pub offsets :
      (h : ℕ) → s.free_open_file_entries h ≡ taken → (s.open_file_table h).of_offset ≤ block_size
  pub handles :
      (h : ℕ) → s.free_open_file_entries h ≡ taken → IsFile s (s.open_file_table h).of_inumber
  pub counted : s.open_file_count ≡ pos (count_taken s.free_open_file_entries max_open_files)
