-- ===== src/Fs/Blocks.antt =====
-- Allocation, the release loop and unlinking of mylib/myfs.c move block numbers and neither lose nor
-- duplicate one.
use staut.Prelude.{ℕ, suc, ◌+◌, ◌%◌, ◌<◌, ◌≡◌, ◌≢◌, ap, update, arith}
use staut.Fs.State.{Fs, File, inactive, num_blocks, max_files, max_blocks_per_file}
use staut.Fs.Ops.{alloc_block, release_block}
use staut.Fs.Count.{
  hit, free_count, ring_hits, occurrences, ring_hits-front, ring_hits-push, file_hits-update,
  table_hits-update,
}

pub ring_length-take :
    (rp wp : ℕ)
    → rp < num_blocks
    → wp < num_blocks
    → rp ≢ wp
    → free_count rp wp ≡ suc (free_count ((rp + 1) % num_blocks) wp)
ring_length-take rp wp h k ne = omega arith

pub ring_length-put :
    (rp wp : ℕ)
    → rp < num_blocks
    → wp < num_blocks
    → free_count rp wp + 1 < num_blocks
    → free_count rp ((wp + 1) % num_blocks) ≡ suc (free_count rp wp)
ring_length-put rp wp h k room = omega arith

-- The write pointer is the index behind the last entry.
pub ring_end :
    (rp wp : ℕ) → rp < num_blocks → wp < num_blocks → wp ≡ (rp + free_count rp wp) % num_blocks
ring_end rp wp h k = omega arith

-- Allocation from a ring that is not empty, for an index that has no block, moves one block.
pub occurrences-alloc_block :
    (b : ℕ) (s : Fs) (i j : ℕ)
    → i < max_files
    → j < max_blocks_per_file
    → (s.file i).block j ≡ inactive
    → s.free_blocks_rp < num_blocks
    → s.free_blocks_wp < num_blocks
    → s.free_blocks_rp ≢ s.free_blocks_wp
    → occurrences b (alloc_block s i j) ≡ occurrences b s
unfolding occurrences alloc_block hit
occurrences-alloc_block b s i j hi hj none_yet hr hw ne =
    let rp = s.free_blocks_rp in
    let wp = s.free_blocks_wp in
    let v = s.free_blocks rp in
    let f = s.file i in
    let given : File = record f { block = update f.block j v; n_block = f.n_block + 1 } in
    let n : ℕ = free_count ((rp + 1) % num_blocks) wp in
    omega (
      arith,
      ap (λ k. ring_hits b s.free_blocks rp k) (ring_length-take rp wp hr hw ne),
      ring_hits-front b s.free_blocks rp n hr,
      table_hits-update b s.file i given hi,
      file_hits-update b f.block j v hj,
      ap (hit b) none_yet,
    )

-- A round of the release loop, with room in the ring, moves one block.
pub occurrences-release_block :
    (b : ℕ) (s : Fs) (fd j : ℕ)
    → fd < max_files
    → j < max_blocks_per_file
    → s.free_blocks_rp < num_blocks
    → s.free_blocks_wp < num_blocks
    → free_count s.free_blocks_rp s.free_blocks_wp + 1 < num_blocks
    → occurrences b (release_block s fd j) ≡ occurrences b s
unfolding occurrences release_block hit
occurrences-release_block b s fd j hf hj hr hw room =
    let rp = s.free_blocks_rp in
    let wp = s.free_blocks_wp in
    let f = s.file fd in
    let v = f.block j in
    let emptied : File = record f { block = update f.block j inactive } in
    let n : ℕ = free_count rp wp in
    omega (
      arith,
      ap (λ k. ring_hits b (update s.free_blocks wp v) rp k) (ring_length-put rp wp hr hw room),
      ring_hits-push b s.free_blocks rp wp n v room (ring_end rp wp hr hw),
      table_hits-update b s.file fd emptied hf,
      file_hits-update b f.block j inactive hj,
    )
