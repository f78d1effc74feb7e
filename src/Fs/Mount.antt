-- ===== src/Fs/Mount.antt =====
-- `myfs_superblock_init` and `myfs_mount` of mylib/myfs.c, and the invariant.
use staut.Prelude.{
  ℕ, zero, suc, ◌-◌, ◌<◌, ◌≡◌, ◌≢◌, ap, arith, ◌∙◌, ltb, ◌==◌, if◌then◌else◌, total, total-ext,
  total-zero, total-suc, lt→ltb, ==_iff, ==-false, ◌⊎◌, inl, inr,
}
use staut.Fs.State.{
  Fs, File, Block, inactive, at, num_blocks, max_files, max_blocks_per_file, mount, clear_states,
  superblock_init, init_file, myfs_magic,
}
use staut.Fs.Count.{hit, file_hits, table_hits, ring_hits, blocks_in_use, occurrences, ring_entry}
use staut.Fs.Invariant.{IsValid, IsPacked}

-- What a fresh superblock file, all zero bytes, gives.
abbrev pub IsBlank : Fs → Type 0
IsBlank s = (s.magic ≢ myfs_magic) × ((i : ℕ) → i < max_files → (s.file i).n_block ≡ 0)

total-one : (n b : ℕ) → total n (λ k. if k == b then 1 else 0) ≡ (if ltb b n then 1 else 0)
total-one zero b = total-zero 0 (λ k. if k == b then 1 else 0) (λ k h. elim h [ ]) ∙ ground arith
total-one (suc n) b = ground (arith, total-suc n (λ k. if k == b then 1 else 0), total-one n b)

-- The ring that `myfs_superblock_init` writes.
abbrev init_ring : (ℕ → Block) → ℕ → Block
init_ring free i = if ltb i (num_blocks - 1) then at i else free i

ring_entry-init_ring :
    (free : ℕ → Block) (k : ℕ) → k < num_blocks - 1 → ring_entry (init_ring free) 0 k ≡ at k
ring_entry-init_ring free k h = ground arith

ring_hits-init_ring :
    (b : ℕ) (free : ℕ → Block)
    → ring_hits b (init_ring free) 0 (num_blocks - 1) ≡ (if ltb b (num_blocks - 1) then 1 else 0)
unfolding ring_hits hit
ring_hits-init_ring b free =
    total-ext (num_blocks - 1) _ (λ k. if k == b then 1 else 0)
      (λ k p. ap (hit b) (ring_entry-init_ring free k p))
    ∙ total-one (num_blocks - 1) b

block-init_file : (f : File) (j : ℕ) → j < max_blocks_per_file → (init_file f).block j ≡ inactive
unfolding init_file
block-init_file f j h = rw (lt→ltb j max_blocks_per_file h)

file_hits-init_file : (b : ℕ) (f : File) → file_hits b (init_file f).block ≡ 0
unfolding file_hits hit
file_hits-init_file b f =
    total-zero max_blocks_per_file _ (λ k p. ap (hit b) (block-init_file f k p))

init_file-IsPacked : (f : File) → f.n_block ≡ 0 → IsPacked (init_file f)
unfolding init_file
init_file-IsPacked f e = record {
  short = omega arith;
  live = λ j h. absurd (omega arith);
  rest = λ j _ h. rw (lt→ltb j max_blocks_per_file h);
  unused = λ _. e;
}

file-superblock_init :
    (s : Fs) (i : ℕ) → i < max_files → (superblock_init s).file i ≡ init_file (s.file i)
unfolding superblock_init
file-superblock_init s i h = rw (lt→ltb i max_files h)

table_hits-superblock_init : (b : ℕ) (s : Fs) → table_hits b (superblock_init s).file ≡ 0
unfolding table_hits
table_hits-superblock_init b s =
    total-zero max_files _
      (λ i h. rw (file-superblock_init s i h) (file_hits-init_file b (s.file i)))

blocks_in_use-superblock_init : (s : Fs) → IsBlank s → blocks_in_use (superblock_init s).file ≡ 0
unfolding blocks_in_use init_file
blocks_in_use-superblock_init s blank =
    total-zero max_files _ (λ i h. rw (file-superblock_init s i h) (blank.1 i h))

superblock_init-IsValid : (s : Fs) → IsBlank s → IsValid (superblock_init s)
unfolding superblock_init occurrences
superblock_init-IsValid s blank = record {
  rp_in = omega arith;
  wp_in = omega arith;
  once = λ b. omega (arith, ring_hits-init_ring b s.free_blocks, table_hits-superblock_init b s);
  accounted = omega (arith, blocks_in_use-superblock_init s blank);
  ring_live = λ k h e. ground (arith, ring_entry-init_ring s.free_blocks k h);
  packed = λ i h. rw (file-superblock_init s i h) (init_file-IsPacked (s.file i) (blank.1 i h));
}

clear_states-IsValid : (s : Fs) → IsValid s → IsValid (clear_states s)
unfolding clear_states occurrences
clear_states-IsValid s v = record {
  rp_in = v.rp_in;
  wp_in = v.wp_in;
  once = v.once;
  accounted = v.accounted;
  ring_live = v.ring_live;
  packed = v.packed;
}

-- Mounting a zeroed superblock file, or one that an earlier run left well formed, gives a well-formed
-- superblock.
pub mount-IsValid : (s : Fs) → IsBlank s ⊎ (s.magic ≡ myfs_magic) × IsValid s → IsValid (mount s)
unfolding mount
mount-IsValid s (inl blank) =
    clear_states-IsValid _
      (rw (==-false s.magic myfs_magic blank.0) (superblock_init-IsValid s blank))
mount-IsValid s (inr (e, v)) = clear_states-IsValid _ (rw ((==_iff s.magic myfs_magic).1 e) v)
