-- ===== src/Fs/Invariant.antt =====
-- What holds of the superblock between operations of mylib/myfs.c: every block number is in exactly
-- one place, and the block map of a file is a prefix of its array.
use staut.Prelude.{
  ℕ, suc, ◌+◌, ◌-◌, ◌%◌, ◌≤◌, ◌<◌, ◌≡◌, ◌≢◌, ap, update, arith, ◌∙◌, [], ltb, if◌then◌else◌,
}
use staut.Fs.State.{
  FileState, Fs, File, Block, inactive, num_blocks, max_files, max_blocks_per_file,
}
use staut.Fs.Ops.{set_state, alloc_block}
use staut.Fs.Count.{free_count, ring_entry, occurrences, blocks_in_use, blocks_in_use-update}
use staut.Fs.Blocks.{occurrences-alloc_block}

-- The block map holds blocks below `n_block` and none from there on, and an entry with no name holds
-- no blocks.
pub record IsPacked (f : File) : Type 0 where
  pub short : f.n_block ≤ max_blocks_per_file
  pub live : (j : ℕ) → j < f.n_block → f.block j ≢ inactive
  pub rest : (j : ℕ) → f.n_block ≤ j → j < max_blocks_per_file → f.block j ≡ inactive
  pub unused : f.name ≡ [] → f.n_block ≡ 0

-- The ring's pointers are in range, each block number below NUM_BLOCKS - 1 occurs once in the ring or
-- in the block map of one file and no other does, and all blocks are accounted for.
pub record IsValid (s : Fs) : Type 0 where
  pub rp_in : s.free_blocks_rp < num_blocks
  pub wp_in : s.free_blocks_wp < num_blocks
  pub once : (b : ℕ) → occurrences b s ≡ (if ltb b (num_blocks - 1) then 1 else 0)
  pub accounted :
      free_count s.free_blocks_rp s.free_blocks_wp + blocks_in_use s.file ≡ num_blocks - 1
  pub ring_live :
      (k : ℕ)
      → k < free_count s.free_blocks_rp s.free_blocks_wp
      → ring_entry s.free_blocks s.free_blocks_rp k ≢ inactive
  pub packed : (i : ℕ) → i < max_files → IsPacked (s.file i)

-- A free block is left.
abbrev pub HasRoom : Fs → Type 0
HasRoom s = s.free_blocks_rp ≢ s.free_blocks_wp

IsPacked-extend :
    (f : File) (v : Block)
    → IsPacked f
    → f.name ≢ []
    → f.n_block < max_blocks_per_file
    → v ≢ inactive
    → IsPacked (record f { block = update f.block f.n_block v; n_block = f.n_block + 1 })
IsPacked-extend f v p named h real = record {
  short = omega arith;
  live = λ j q. ground (arith, p.live j);
  rest = λ j q r. ground (arith, p.rest j);
  unused = λ e. absurd (named e);
}

-- The ring keeps only live entries when its first is taken, and when one is put behind its last.
module _ (free : ℕ → Block) (rp wp : ℕ) (hr : rp < num_blocks) (hw : wp < num_blocks)
    (live : (k : ℕ) → k < free_count rp wp → ring_entry free rp k ≢ inactive) where
  pub ring_front : rp ≢ wp → free rp ≢ inactive
  ring_front ne e = live 0 (omega arith) (ap free (omega arith) ∙ e)

  ring_live-take :
      rp ≢ wp
      → (k : ℕ) → k < free_count ((rp + 1) % num_blocks) wp
      → ring_entry free ((rp + 1) % num_blocks) k ≢ inactive
  ring_live-take ne k h e = live (suc k) (omega arith) (ap free (omega arith) ∙ e)

  pub ring_live-put :
      (v : Block)
      → v ≢ inactive
      → free_count rp wp + 1 < num_blocks
      → (k : ℕ) → k < free_count rp ((wp + 1) % num_blocks)
      → ring_entry (update free wp v) rp k ≢ inactive
  ring_live-put v real room k h = ground (arith, live k)

pub IsPacked-update :
    (s : Fs) (i : ℕ) (f : File)
    → ((k : ℕ) → k < max_files → k ≢ i → IsPacked (s.file k))
    → IsPacked f
    → (k : ℕ) → k < max_files
    → IsPacked (update s.file i f k)
IsPacked-update s i f p q k h = ground (arith, p k)

-- Allocating the next block of a named file.
pub alloc_block-IsValid :
    (s : Fs) (i : ℕ)
    → i < max_files
    → (s.file i).n_block < max_blocks_per_file
    → (s.file i).name ≢ []
    → HasRoom s
    → IsValid s
    → IsValid (alloc_block s i (s.file i).n_block)
unfolding alloc_block
alloc_block-IsValid s i hi hj named room v = record {
  rp_in = omega arith;
  wp_in = v.wp_in;
  once = λ b.
      occurrences-alloc_block b s i _ hi hj ((v.packed i hi).rest _ (omega arith) hj) v.rp_in
        v.wp_in room
      ∙ v.once b;
  accounted = omega (arith, v.accounted, blocks_in_use-update s.file i _ hi);
  ring_live = ring_live-take s.free_blocks _ _ v.rp_in v.wp_in v.ring_live room;
  packed =
      IsPacked-update s i _ (λ k h _. v.packed k h)
        (IsPacked-extend (s.file i) _ (v.packed i hi) named hj
          (ring_front s.free_blocks _ _ v.rp_in v.wp_in v.ring_live room));
}

-- The file states are no part of it.
pub set_state-IsValid : (s : Fs) (i : ℕ) (t : FileState) → IsValid s → IsValid (set_state s i t)
unfolding occurrences
set_state-IsValid s i t v = record {
  rp_in = v.rp_in;
  wp_in = v.wp_in;
  once = v.once;
  accounted = v.accounted;
  ring_live = v.ring_live;
  packed = v.packed;
}
