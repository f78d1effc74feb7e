-- ===== src/Fs/Count.antt =====
-- How often a block number occurs in the free ring and in the block maps, and what the two moves of
-- a block, from the ring to a file and back, do to that number.
use staut.Prelude.{
  ap₂, le-total, ℕ, suc, ◌+◌, ◌-◌, ◌%◌, ◌≤◌, ◌<◌, ◌≡◌, ap, ◌==◌, if◌then◌else◌, update, total,
  total-ext, total-front, total-change, total-suc, update_self, update_ne, arith, sym, ◌∙◌,
}
use staut.Fs.State.{Fs, File, Block, inactive, at, num_blocks, max_files, max_blocks_per_file}

-- 1 for block `b`, 0 for any other entry.
unfoldable pub hit : ℕ → Block → ℕ
hit b inactive = 0
hit b (at c) = if c == b then 1 else 0

-- The number of entries between the read and the write pointer.
abbrev pub free_count : ℕ → ℕ → ℕ
free_count rp wp = (wp + num_blocks - rp) % num_blocks

-- The `k`-th entry of the ring behind the read pointer.
abbrev pub ring_entry : (ℕ → Block) → ℕ → ℕ → Block
ring_entry free rp k = free ((rp + k) % num_blocks)

unfoldable pub ring_hits : ℕ → (ℕ → Block) → ℕ → ℕ → ℕ
ring_hits b free rp n = total n (λ k. hit b (ring_entry free rp k))

unfoldable pub file_hits : ℕ → (ℕ → Block) → ℕ
file_hits b block = total max_blocks_per_file (λ j. hit b (block j))

unfoldable pub table_hits : ℕ → (ℕ → File) → ℕ
table_hits b file = total max_files (λ i. file_hits b (file i).block)

-- How often block `b` occurs in the free ring and in all block maps together.
unfoldable pub occurrences : ℕ → Fs → ℕ
unfolding ring_hits table_hits
occurrences b s =
    ring_hits b s.free_blocks s.free_blocks_rp (free_count s.free_blocks_rp s.free_blocks_wp)
    + table_hits b s.file

-- Taking the entry at the read pointer.
pub ring_hits-front :
    (b : ℕ) (free : ℕ → Block) (rp n : ℕ)
    → rp < num_blocks
    → ring_hits b free rp (suc n) ≡ hit b (free rp) + ring_hits b free ((rp + 1) % num_blocks) n
unfolding ring_hits
ring_hits-front b free rp n h =
    total-front n (λ k. hit b (ring_entry free rp k))
    ∙ ap₂ ◌+◌ (ap (λ k. hit b (free k)) (omega arith))
        (total-ext n _ _ (λ k _. ap (λ m. hit b (free m)) (omega arith)))

-- Writing the entry just behind the ring.
pub ring_hits-push :
    (b : ℕ) (free : ℕ → Block) (rp wp n : ℕ) (v : Block)
    → n + 1 < num_blocks
    → wp ≡ (rp + n) % num_blocks
    → ring_hits b (update free wp v) rp (suc n) ≡ ring_hits b free rp n + hit b v
unfolding ring_hits
ring_hits-push b free rp wp n v h e =
    total-suc n _ ∙ ap₂ ◌+◌ (total-ext n _ _ (λ k p. ap (hit b) (other k p))) (ap (hit b) own)
  where
    other : (k : ℕ) → k < n → update free wp v ((rp + k) % num_blocks) ≡ ring_entry free rp k
    other k p = ground arith

    own : update free wp v ((rp + n) % num_blocks) ≡ v
    own = ground arith

-- One entry of a block map changed.
pub file_hits-update :
    (b : ℕ) (block : ℕ → Block) (j : ℕ) (v : Block)
    → j < max_blocks_per_file
    → file_hits b (update block j v) + hit b (block j) ≡ file_hits b block + hit b v
unfolding file_hits
file_hits-update b block j v h =
    total-change max_blocks_per_file j (λ k. hit b (block k)) (λ k. hit b (update block j v k)) h
      (λ k p. ap (hit b) (ground arith))
    ∙ ap (λ w. file_hits b block + hit b w) (ground arith)

-- One file of the table changed.
pub table_hits-update :
    (b : ℕ) (file : ℕ → File) (i : ℕ) (f : File)
    → i < max_files
    → table_hits b (update file i f) + file_hits b (file i).block
      ≡ table_hits b file + file_hits b f.block
unfolding table_hits
table_hits-update b file i f h =
    total-change max_files i (λ k. file_hits b (file k).block)
      (λ k. file_hits b (update file i f k).block) h
      (λ k p. ap (λ (g : File). file_hits b g.block) (update_ne file i f k (λ e. p (sym e))))
    ∙ ap (λ (g : File). table_hits b file + file_hits b g.block) (update_self file i f)

-- The sum of the block counts of all files.
unfoldable pub blocks_in_use : (ℕ → File) → ℕ
blocks_in_use file = total max_files (λ i. (file i).n_block)

pub blocks_in_use-update :
    (file : ℕ → File) (i : ℕ) (f : File)
    → i < max_files
    → blocks_in_use (update file i f) + (file i).n_block ≡ blocks_in_use file + f.n_block
unfolding blocks_in_use
blocks_in_use-update file i f h =
    total-change max_files i (λ k. (file k).n_block) (λ k. (update file i f k).n_block) h
      (λ k p. ap (λ (g : File). g.n_block) (update_ne file i f k (λ e. p (sym e))))
    ∙ ap (λ (g : File). blocks_in_use file + g.n_block) (update_self file i f)

-- One file's count is part of the sum.
pub le-blocks_in_use :
    (file : ℕ → File) (i : ℕ) → i < max_files → (file i).n_block ≤ blocks_in_use file
unfolding blocks_in_use
le-blocks_in_use file i h = le-total max_files i (λ k. (file k).n_block) h
