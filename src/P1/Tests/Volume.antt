-- ===== src/P1/Tests/Volume.antt =====
-- A volume with the file /f of two blocks, which is open three times.
use so_project.Base.{
  ℕ, ◌+◌, ◌-◌, ◌*◌, ◌/◌, ◌%◌, ◌≤◌, ◌<◌, ◌≡◌, ◌≢◌, inl, inr, ℤ, pos, minus_one, pos_part, Memory,
  CString, some, none, [], ◌∷◌, update, store_int, load_int, free, taken, count_taken, refl, arith,
  subst, ap,
}
use native.Mathlib.Decide.{ℕ_discrete}
use so_project.Fs.State.{t_file, t_directory, block_size}
use so_project.Fs.Dir.{fill_entry}
use so_project.P1.State.{Fs, Inode, OpenFileEntry, fs_data_size}
use so_project.P1.Inode.{inode_get}
use so_project.P1.Copy.{Stdio}
use so_project.P1.Files.Blocks.{OwnsBlocks, missing, missing-le, pointers, indirect, file_blocks}
use so_project.P1.Files.Place.{StandsAt}
use so_project.P1.Files.ReadRound.{Readable}
use so_project.P1.Release.Freed.{IsPointer, pointer_in}
use so_project.P1.Release.{Pointers}

abbrev pub path_f : CString
path_f = b'/' ∷ b'f' ∷ []

abbrev pub bytes : Memory
bytes = λ k. k % 256

abbrev pub buffer : Memory
buffer = λ k. 0

abbrev pub no_node : Inode
no_node = record {
  i_node_type = t_file;
  i_size = 0;
  i_data_block = minus_one;
  i_direct_blocks = λ k. minus_one;
}

-- Its bytes are those of the blocks 2 and 3.
abbrev pub file_node : Inode
file_node = record {
  i_node_type = t_file;
  i_size = 2000;
  i_data_block = minus_one;
  i_direct_blocks = update (update (λ k. minus_one) 0 (pos 2)) 1 (pos 3);
}

abbrev pub root_node : Inode
root_node = record {
  i_node_type = t_directory;
  i_size = 1024;
  i_data_block = pos 0;
  i_direct_blocks = λ k. minus_one;
}

-- The handle 1 stands at the end of the file, the others at its start.
abbrev pub entries : ℕ → OpenFileEntry
entries =
    update (λ h. record { of_inumber = pos 1; of_offset = 0; of_boffset = pos 0 }) 1
      (record { of_inumber = pos 1; of_offset = 976; of_boffset = pos 1 })

abbrev pub volume : Fs
volume = record {
  inode_table = update (update (λ i. no_node) 0 root_node) 1 file_node;
  freeinode_ts = update (update (λ i. free) 0 taken) 1 taken;
  fs_data = fill_entry (λ a. 255) 0 (pos 1) (b'f' ∷ []);
  free_blocks = update (update (update (λ b. free) 0 taken) 2 taken) 3 taken;
  open_file_table = entries;
  free_open_file_entries = update (update (update (λ h. free) 0 taken) 1 taken) 2 taken;
}

pub volume-pointers :
    (k : ℕ) → pointers 1 volume k ≡ update (update (λ j. minus_one) 0 (pos 2)) 1 (pos 3) k
unfolding pointers indirect
volume-pointers k = ground arith

pub volume-OwnsBlocks : OwnsBlocks file_blocks 1 volume
unfolding count_taken missing
volume-OwnsBlocks = record {
  valid = λ k lt there. ground (arith, volume-pointers k);
  allocated = λ k lt there. ground (arith, volume-pointers k);
  apart = λ j k p q there e. ground (arith, volume-pointers j, volume-pointers k);
  block_valid = λ there. absurd (there refl);
  block_allocated = λ there. absurd (there refl);
  block_apart = λ k lt there. there;
  room = omega (arith, missing-le (pointers 1 volume) file_blocks);
}

pub at_start : StandsAt 0 1 0 0 volume
unfolding inode_get
at_start = record { node = refl; block = refl; offset = refl }

pub at_start' : StandsAt 2 1 0 0 volume
unfolding inode_get
at_start' = record { node = refl; block = refl; offset = refl }

pub at_end : StandsAt 1 1 1 976 volume
unfolding inode_get
at_end = record { node = refl; block = refl; offset = refl }

pub volume-Readable : Readable 1 0 2000 volume
volume-Readable = record {
  covered = λ k lt e. ground (arith, volume-pointers ((0 + k) / block_size), e);
  far = λ k lt. ground (arith, volume-pointers ((0 + k) / block_size));
}

-- A state whose file has the blocks of this one.
pub volume-Far :
    (d : ℕ → ℤ)
    → ((k : ℕ) → k < file_blocks → pointers 1 volume k ≢ minus_one → d k ≡ pointers 1 volume k)
    → (k : ℕ) → k < 1500
    → pos_part (d ((0 + k) / block_size)) * block_size + (0 + k) % block_size + (1500 - k)
      ≤ fs_data_size
volume-Far d kept k lt =
    let two = volume-pointers ((0 + k) / block_size) in
    let there : pointers 1 volume ((0 + k) / block_size) ≢ minus_one =
      λ e. ground (arith, two, e) in
    let same = kept ((0 + k) / block_size) (omega arith) there in ground (arith, two, same)

-- Files outside: how many bytes have been written, and how many files were closed.
pub record Files : Type 0 where
  pub written : ℕ
  pub closed : ℕ

abbrev pub taking : Stdio ℕ Files
taking = record {
  fopen = λ path x. (some 3, x);
  fwrite = λ m n f x. (n, record x { written = x.written + n });
  fclose = λ f x. record x { closed = x.closed + 1 };
}

abbrev pub refusing : Stdio ℕ Files
refusing = record taking { fopen = λ path x. (none, x) }

-- The i-node 2 has the direct block 6, and the block of pointers 4, which names the block 5.
abbrev pub with_pointers : Fs
with_pointers = record volume {
  inode_table =
      update (λ i. no_node) 2
        (record {
          i_node_type = t_file;
          i_size = 10500;
          i_data_block = pos 4;
          i_direct_blocks = update (λ k. minus_one) 0 (pos 6);
        });
  fs_data = store_int (λ a. 255) 4096 (pos 5);
  free_blocks = λ b. taken;
}

-- The bytes behind the first pointer are 255.
byte_behind : (x : ℕ) → 4100 ≤ x → store_int (λ a. 255) 4096 (pos 5) x ≡ 255
byte_behind x le = ground arith

pointer_behind : (x : ℕ) → 4100 ≤ x → load_int (store_int (λ a. 255) 4096 (pos 5)) x ≡ minus_one
pointer_behind x le = rw (byte_behind x le) (
    rw (byte_behind (x + 1) (omega arith))
      (rw (byte_behind (x + 2) (omega arith)) (rw (byte_behind (x + 3) (omega arith)) refl)))

pub with_pointers-Pointers : Pointers 2 with_pointers
with_pointers-Pointers = record {
  directs = λ j lt. elim (ℕ_discrete j 0) [ yes e ↦ rw e (inr refl) | no ne ↦ inl (ground arith) ];
  block = inr refl;
  indirects = λ c j is lt.
      let here : 4 ≡ c = ap pos_part is in
      subst (λ x. IsPointer (pointer_in with_pointers.fs_data (x * block_size) j)) here
        (elim (ℕ_discrete j 0) [
          | yes e ↦ rw e (inr refl)
          | no ne ↦ inl (pointer_behind (4 * block_size + 4 * j) (omega arith))
        ]);
}
