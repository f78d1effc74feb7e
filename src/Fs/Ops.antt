-- ===== src/Fs/Ops.antt =====
-- Allocation, unlinking, closing and reference counts of mylib/myfs.c and mylib/myfs.h.
use staut.Prelude.{
  ℕ, zero, suc, ◌+◌, ◌-◌, ◌*◌, ◌/◌, ◌%◌, ◌^◌, Bool, true, false, ◌==◌, if◌then◌else◌, not, ◌&&◌, [],
  Option, none, some, update, CString, strncmp_eq, length, ltb,
}
use staut.Fs.State.{
  Fs, File, FileState, Block, inactive, at, no_flags, only_opened, block_size, num_blocks,
  max_files, max_blocks_per_file,
}

abbrev pub set_file : Fs → ℕ → File → Fs
set_file s i f = record s { file = update s.file i f }

abbrev pub set_state : Fs → ℕ → FileState → Fs
set_state s i t = record s { states = update s.states i t }

-- One round of the loop of `__myfs_unlink`: the block goes to the slot at the old write pointer.
unfoldable pub release_block : Fs → ℕ → ℕ → Fs
release_block s fd j = record (set_file s fd (record f { block = update f.block j inactive })) {
  free_blocks = update s.free_blocks s.free_blocks_wp (f.block j);
  free_blocks_wp = (s.free_blocks_wp + 1) % num_blocks;
}
  where
    f : File
    f = s.file fd

-- The loop: `n` rounds are left, from index `j` on.
unfoldable pub release_blocks : ℕ → ℕ → Fs → ℕ → Fs
release_blocks zero j s fd = s
release_blocks (suc n) j s fd = release_blocks n (j + 1) (release_block s fd j) fd

-- `__myfs_unlink`
unfoldable pub unlink_now : Fs → ℕ → Fs
unlink_now s fd = finish (release_blocks (s.file fd).n_block 0 s fd)
  where
    finish : Fs → Fs
    finish t =
        set_state (set_file t fd (record (t.file fd) { name = []; n_block = 0 })) fd
          (record { flags = no_flags; ref_count = 0 })

-- `__myfs_try_unlink`
unfoldable pub try_unlink : Fs → ℕ → Fs
try_unlink s fd = if (s.states fd).ref_count == 0 then unlink_now marked fd else marked
  where
    marked : Fs
    marked =
        set_state s fd
          (record (s.states fd) { flags = record (s.states fd).flags { unlinked = true } })

-- `myfs_unlink_fd`
unfoldable pub unlink_fd : Fs → ℕ → Fs
unlink_fd s fd = try_unlink s fd

-- `strncmp(filename, superblock->file[i].name, strlen(filename)) == 0`
abbrev pub name_matches : CString → Fs → ℕ → Bool
name_matches filename s i = strncmp_eq filename (s.file i).name (length filename)

-- The loop of `myfs_unlink`: `n` rounds are left, from index `i` on.
unfoldable pub unlink_scan : ℕ → ℕ → Fs → CString → Fs
unlink_scan zero i s filename = s
unlink_scan (suc n) i s filename =
    unlink_scan n (i + 1) (if name_matches filename s i then try_unlink s i else s) filename

-- `myfs_unlink`
unfoldable pub unlink : Fs → CString → Fs
unlink s filename = unlink_scan max_files 0 s filename

-- `myfs_close`: `flags ^= MYFS_FILE_OPENED`
unfoldable pub close : Fs → ℕ → Fs
close s fd = set_state s fd (record t { flags = record t.flags { opened = not t.flags.opened } })
  where
    t : FileState
    t = s.states fd

-- `myfs_increment_ref`: 0 is `true`, -1 is `false`. The counter is a `uint16_t`.
unfoldable pub increment_ref : Fs → ℕ → Bool × Fs
increment_ref s fd =
    if only_opened t.flags
    then (true, set_state s fd (record t { ref_count = (t.ref_count + 1) % 2 ^ 16 }))
    else (false, s)
  where
    t : FileState
    t = s.states fd

-- `myfs_decrement_ref`: `ref_count` is the value before the subtraction.
unfoldable pub decrement_ref : Fs → ℕ → Fs
decrement_ref s fd = if t.ref_count == 0 && t.flags.unlinked then unlink_fd counted fd else counted
  where
    t : FileState
    t = s.states fd

    counted : Fs
    counted = set_state s fd (record t { ref_count = (t.ref_count + 2 ^ 16 - 1) % 2 ^ 16 })

-- The allocation of `myfs_get_lba`: the block in the slot at the old read pointer. Whether the ring
-- is empty is not tested.
unfoldable pub alloc_block : Fs → ℕ → ℕ → Fs
alloc_block s i i_block = record (set_file s i given) {
  free_blocks_rp = (s.free_blocks_rp + 1) % num_blocks;
}
  where
    f : File
    f = s.file i

    given : File
    given = record f {
      block = update f.block i_block (s.free_blocks s.free_blocks_rp);
      n_block = f.n_block + 1;
    }

-- The write part of `myfs_get_lba`.
unfoldable pub ensure_block : Fs → ℕ → ℕ → Bool → Fs
unfolding alloc_block
ensure_block s i i_block write =
    if write
    then elim ((s.file i).block i_block) [ inactive ↦ alloc_block s i i_block | at b ↦ s ]
    else s

-- `(block * MYFS_BLOCK_SIZE + offset % MYFS_BLOCK_SIZE) / 512`
abbrev pub lba_of : ℕ → ℕ → ℕ
lba_of b offset = (b * block_size + offset % block_size) / 512

-- The end of `myfs_get_lba`; `none` is the failed assertion.
unfoldable pub block_lba : Block → ℕ → Option ℕ
block_lba inactive offset = none
block_lba (at b) offset = some (lba_of b offset)

-- `i_block`, which is an `int`: a negative one is a number from 2 ^ 31 on.
abbrev pub i_block_of : ℕ → ℕ
i_block_of offset = (offset / block_size) % 2 ^ 32

-- `myfs_get_lba`. An entry outside of the table, or an `i_block` outside of the blocks of an entry, is an
-- access outside of an array: `none`.
unfoldable pub get_lba : Fs → ℕ → ℕ → Bool → Option ℕ × Fs
unfolding block_lba
get_lba s i offset write =
    let t = ensure_block s i (i_block_of offset) write in
    if ltb i max_files && ltb (i_block_of offset) max_blocks_per_file
    then (block_lba ((t.file i).block (i_block_of offset)) offset, t)
    else (none, s)
