-- ===== src/Fs/State.antt =====
-- The data of mylib/myfs.h, and `myfs_superblock_init`, `myfs_mount`, `myfs_used_blocks`.
use staut.Prelude.{ℕ, ◌+◌, ◌-◌, ◌*◌, Bool, false, ◌==◌, ltb, if◌then◌else◌, ◌&&◌, not, [], CString}

-- MYFS_BLOCK_SIZE
abbrev pub block_size : ℕ
block_size = 2 * 1024 * 1024

-- NUM_BLOCKS
abbrev pub num_blocks : ℕ
num_blocks = 700 * 1024

-- MYFS_MAX_BLOCKS_PER_FILE
abbrev pub max_blocks_per_file : ℕ
max_blocks_per_file = 1024 * 128

-- MYFS_MAX_FILES
abbrev pub max_files : ℕ
max_files = 4096

-- MYFS_MAGIC
abbrev pub myfs_magic : ℕ
myfs_magic = 0xdeadcafebabeface

-- An `int32_t` block number; INACTIVE_BLOCK is -1.
pub data Block : Type 0 where
  inactive : Block
  at : ℕ → Block

-- `flags` of `myfs_file_state_t`: bit 0 is MYFS_FILE_OPENED and bit 1 is MYFS_FILE_UNLINKED. No
-- other bit is ever set.
pub record Flags : Type 0 where
  pub opened : Bool
  pub unlinked : Bool

pub record FileState : Type 0 where
  pub flags : Flags
  pub ref_count : ℕ

-- `file_t`; the name is the text before the first 0 byte.
pub record File : Type 0 where
  pub name : CString
  pub block : ℕ → Block
  pub n_block : ℕ

-- `superblock_t` and `myfs_file_states`.
pub record Fs : Type 0 where
  pub magic : ℕ
  pub free_blocks : ℕ → Block
  pub free_blocks_rp : ℕ
  pub free_blocks_wp : ℕ
  pub file : ℕ → File
  pub states : ℕ → FileState

abbrev pub no_flags : Flags
no_flags = record { opened = false; unlinked = false }

-- `flags == MYFS_FILE_OPENED`
abbrev pub only_opened : Flags → Bool
only_opened f = f.opened && not f.unlinked

-- The inner loop of `myfs_superblock_init`: name and block map are reset, `n_block` is not.
unfoldable pub init_file : File → File
init_file f = record f {
  name = [];
  block = λ j. if ltb j max_blocks_per_file then inactive else f.block j;
}

unfoldable pub superblock_init : Fs → Fs
unfolding init_file
superblock_init s = record s {
  magic = myfs_magic;
  free_blocks = λ i. if ltb i (num_blocks - 1) then at i else s.free_blocks i;
  free_blocks_rp = 0;
  free_blocks_wp = num_blocks - 1;
  file = λ i. if ltb i max_files then init_file (s.file i) else s.file i;
}

-- The loop of `myfs_mount` over `myfs_file_states`.
unfoldable pub clear_states : Fs → Fs
clear_states s = record s {
  states = λ i. if ltb i max_files then record { flags = no_flags; ref_count = 0 } else s.states i;
}

-- The part of `myfs_mount` behind `mmap`: `s` is the mapped superblock.
unfoldable pub mount : Fs → Fs
unfolding superblock_init clear_states
mount s = clear_states (if s.magic == myfs_magic then s else superblock_init s)

-- `rp + NUM_BLOCKS - wp - 1` and `rp - wp - 1`; the second is taken only at `wp ≤ rp`, and is -1,
-- here 0, at `rp = wp`.
unfoldable pub used_blocks : Fs → ℕ
used_blocks s =
    if ltb s.free_blocks_rp s.free_blocks_wp
    then s.free_blocks_rp + num_blocks - s.free_blocks_wp - 1
    else s.free_blocks_rp - s.free_blocks_wp - 1

-- `myfs_get_size`
unfoldable pub get_size : Fs → ℕ → ℕ
get_size s i = (s.file i).n_block * block_size
