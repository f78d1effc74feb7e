-- ===== src/Fs/Unlink.antt =====
-- The loop of `__myfs_unlink` of mylib/myfs.c, and the invariant.
use staut.Prelude.{
  dec_lt, subst, ℕ, zero, suc, ◌+◌, ◌-◌, ◌≤◌, ◌<◌, ◌≡◌, refl, ◌≢◌, update, arith, ◌∙◌, [], ltb,
  if◌then◌else◌,
}
use staut.Fs.State.{Fs, inactive, num_blocks, max_files, max_blocks_per_file}
use staut.Fs.Ops.{release_block, release_blocks, set_file, unlink_now}
use staut.Fs.Count.{
  table_hits-update, free_count, ring_entry, occurrences, blocks_in_use, blocks_in_use-update,
  le-blocks_in_use,
}
use staut.Fs.Blocks.{ring_length-put, occurrences-release_block}
use staut.Fs.Invariant.{IsPacked, IsValid, IsPacked-update, set_state-IsValid, ring_live-put}

-- The state of the loop at index `j` of file `fd`, which has `m` blocks.
record Releasing (s : Fs) (fd m j : ℕ) : Type 0 where
  rp_in : s.free_blocks_rp < num_blocks
  wp_in : s.free_blocks_wp < num_blocks
  once : (b : ℕ) → occurrences b s ≡ (if ltb b (num_blocks - 1) then 1 else 0)
  accounted :
      free_count s.free_blocks_rp s.free_blocks_wp + blocks_in_use s.file ≡ num_blocks - 1 + j
  ring_live :
      (k : ℕ)
      → k < free_count s.free_blocks_rp s.free_blocks_wp
      → ring_entry s.free_blocks s.free_blocks_rp k ≢ inactive
  packed : (i : ℕ) → i < max_files → i ≢ fd → IsPacked (s.file i)
  size : (s.file fd).n_block ≡ m
  short : m ≤ max_blocks_per_file
  gone : (k : ℕ) → k < j → (s.file fd).block k ≡ inactive
  live : (k : ℕ) → j ≤ k → k < m → (s.file fd).block k ≢ inactive
  rest : (k : ℕ) → m ≤ k → k < max_blocks_per_file → (s.file fd).block k ≡ inactive

release_block-Releasing :
    (s : Fs) (fd m j : ℕ)
    → fd < max_files
    → j < m
    → Releasing s fd m j
    → Releasing (release_block s fd j) fd m (j + 1)
unfolding release_block
release_block-Releasing s fd m j hf hj r = record {
  rp_in = r.rp_in;
  wp_in = omega arith;
  once = λ b. occurrences-release_block b s fd j hf (omega arith) r.rp_in r.wp_in room ∙ r.once b;
  accounted = omega (
    arith,
    r.accounted,
    ring_length-put _ _ r.rp_in r.wp_in room,
    blocks_in_use-update s.file fd
        (record (s.file fd) { block = update (s.file fd).block j inactive }) hf,
  );
  ring_live =
      ring_live-put s.free_blocks _ _ r.rp_in r.wp_in r.ring_live _ (r.live j (omega arith) hj)
        room;
  packed = λ i h ne. ground (arith, r.packed i);
  size = ground (arith, r.size);
  short = r.short;
  gone = λ k h. ground (arith, r.gone k);
  live = λ k h h'. ground (arith, r.live k);
  rest = λ k h h'. ground (arith, r.rest k);
}
  where
    room : free_count s.free_blocks_rp s.free_blocks_wp + 1 < num_blocks
    room = omega (arith, r.accounted, r.size, le-blocks_in_use s.file fd hf)

release_blocks-Releasing :
    (n j : ℕ) (s : Fs) (fd m : ℕ)
    → fd < max_files
    → j + n ≡ m
    → Releasing s fd m j
    → Releasing (release_blocks n j s fd) fd m m
unfolding release_blocks
release_blocks-Releasing zero j s fd m hf e r = subst (Releasing s fd m) (omega arith) r
release_blocks-Releasing (suc n) j s fd m hf e r =
    release_blocks-Releasing n (j + 1) (release_block s fd j) fd m hf (omega arith)
      (release_block-Releasing s fd m j hf (omega arith) r)

start-Releasing :
    (s : Fs) (fd : ℕ) → fd < max_files → IsValid s → Releasing s fd (s.file fd).n_block 0
start-Releasing s fd hf v = record {
  rp_in = v.rp_in;
  wp_in = v.wp_in;
  once = v.once;
  accounted = omega (arith, v.accounted);
  ring_live = v.ring_live;
  packed = λ i h _. v.packed i h;
  size = refl;
  short = (v.packed fd hf).short;
  gone = λ k h. elim h [ ];
  live = λ k _ h. (v.packed fd hf).live k h;
  rest = (v.packed fd hf).rest;
}

unlinked_file-IsPacked :
    (s : Fs) (fd m : ℕ)
    → Releasing s fd m m
    → IsPacked (record (s.file fd) { name = []; n_block = 0 })
unlinked_file-IsPacked s fd m r = record {
  short = omega arith;
  live = λ j h. elim h [ ];
  rest = λ j _ h. elim (dec_lt j m) [ yes p ↦ r.gone j p | no p ↦ r.rest j (omega arith) h ];
  unused = λ _. refl;
}

finish-IsValid :
    (s : Fs) (fd m : ℕ)
    → fd < max_files
    → Releasing s fd m m
    → IsValid (set_file s fd (record (s.file fd) { name = []; n_block = 0 }))
unfolding occurrences
finish-IsValid s fd m hf r = record {
  rp_in = r.rp_in;
  wp_in = r.wp_in;
  once = λ b. omega (arith, r.once b, table_hits-update b s.file fd _ hf);
  accounted = omega (
    arith,
    r.accounted,
    r.size,
    blocks_in_use-update s.file fd (record (s.file fd) { name = []; n_block = 0 }) hf,
  );
  ring_live = r.ring_live;
  packed = IsPacked-update s fd _ r.packed (unlinked_file-IsPacked s fd m r);
}

-- Unlinking a file keeps the superblock well formed and leaves the entry with no block.
pub unlink_now-IsValid : (s : Fs) (fd : ℕ) → fd < max_files → IsValid s → IsValid (unlink_now s fd)
unfolding unlink_now
unlink_now-IsValid s fd hf v = set_state-IsValid _ fd _ (
    finish-IsValid _ fd _ hf (
      release_blocks-Releasing (s.file fd).n_block 0 s fd _ hf (omega arith)
        (start-Releasing s fd hf v)))
