-- ===== src/Fs/References.antt =====
-- Reference counts and holes of mylib/myfs.c: what unlinking does to a file that is in use, and to a
-- file whose block map has a hole.
use staut.Prelude.{ℕ, zero, suc, ◌+◌, ◌%◌, ◌^◌, ◌≤◌, ◌<◌, ◌≡◌, refl, ap, sym, arith, true, ◌∙◌}
use staut.Fs.State.{Fs, inactive, num_blocks}
use staut.Fs.Ops.{try_unlink, decrement_ref, unlink_now, alloc_block, release_block, release_blocks}

-- `n` calls of `myfs_decrement_ref`.
pub decrements : ℕ → Fs → ℕ → Fs
decrements zero s fd = s
decrements (suc n) s fd = decrements n (decrement_ref s fd) fd

-- Dropping one of several references only counts.
pub decrement_ref-counted :
    (s : Fs) (fd : ℕ)
    → 0 < (s.states fd).ref_count
    → (s.states fd).ref_count < 2 ^ 16
    → ((decrement_ref s fd).file ≡ s.file)
      × (((decrement_ref s fd).states fd).ref_count + 1 ≡ (s.states fd).ref_count)
      × (((decrement_ref s fd).states fd).flags ≡ (s.states fd).flags)
unfolding decrement_ref
decrement_ref-counted s fd h k = (ground arith, ground arith, ground arith)

file-decrements :
    (n : ℕ) (s : Fs) (fd : ℕ)
    → n ≤ (s.states fd).ref_count
    → (s.states fd).ref_count < 2 ^ 16
    → ((decrements n s fd).file ≡ s.file)
      × (((decrements n s fd).states fd).flags ≡ (s.states fd).flags)
unfolding decrements
file-decrements zero s fd h k = (refl, refl)
file-decrements (suc n) s fd h k =
    let (f, c, g) = decrement_ref-counted s fd (omega arith) k in
    let (f', g') = file-decrements n (decrement_ref s fd) fd (omega arith) (omega arith) in
    (f' ∙ f, g' ∙ g)

try_unlink-referenced :
    (s : Fs) (fd : ℕ)
    → 0 < (s.states fd).ref_count
    → ((try_unlink s fd).file ≡ s.file)
      × (((try_unlink s fd).states fd).ref_count ≡ (s.states fd).ref_count)
      × (((try_unlink s fd).states fd).flags.unlinked ≡ true)
unfolding try_unlink
try_unlink-referenced s fd h = (ground arith, ground arith, ground arith)

-- A file that is unlinked while it is referenced is marked, and stays as it was when all references,
-- or any number of them, are dropped: neither its name nor its blocks are ever released.
decrements-try_unlink :
    (n : ℕ) (s : Fs) (fd : ℕ)
    → 0 < (s.states fd).ref_count
    → n ≤ (s.states fd).ref_count
    → (s.states fd).ref_count < 2 ^ 16
    → ((decrements n (try_unlink s fd) fd).file ≡ s.file)
      × (((decrements n (try_unlink s fd) fd).states fd).flags.unlinked ≡ true)
decrements-try_unlink n s fd pos h k =
    let (f, c, u) = try_unlink-referenced s fd pos in
    let (f', g) = file-decrements n (try_unlink s fd) fd (omega arith) (omega arith) in
    (f' ∙ f, ground (arith, g, u))

-- Unlinking a file of one block releases what its first slot holds.
unlink_now-single :
    (s : Fs) (fd : ℕ)
    → (s.file fd).n_block ≡ 1
    → let t = unlink_now s fd in
      (t.free_blocks s.free_blocks_wp ≡ (s.file fd).block 0)
      × (t.free_blocks_wp ≡ (s.free_blocks_wp + 1) % num_blocks)
      × ((j : ℕ) → 0 < j → (t.file fd).block j ≡ (s.file fd).block j)
      × ((t.file fd).n_block ≡ 0)
unfolding unlink_now release_blocks release_block
unlink_now-single s fd e =
    rw (e, unlink_now) (ground arith, ground arith, λ j h. ground arith, ground arith)

alloc_block-hole :
    (s : Fs) (fd j : ℕ)
    → (s.file fd).n_block ≡ 0
    → (s.file fd).block 0 ≡ inactive
    → 0 < j
    → let t = alloc_block s fd j in
      ((t.file fd).n_block ≡ 1)
      × ((t.file fd).block 0 ≡ inactive)
      × ((t.file fd).block j ≡ s.free_blocks s.free_blocks_rp)
      × (t.free_blocks_wp ≡ s.free_blocks_wp)
unfolding alloc_block
alloc_block-hole s fd j e hole pos = (ground arith, ground arith, ground arith, ground arith)

-- If the first block of an empty file is allocated at an index `j` above 0, as a write that skips the
-- file's start does, then unlinking puts INACTIVE_BLOCK into the ring and leaves the block in its slot.
unlink_now-hole :
    (s : Fs) (fd j : ℕ)
    → (s.file fd).n_block ≡ 0
    → (s.file fd).block 0 ≡ inactive
    → 0 < j
    → let t = unlink_now (alloc_block s fd j) fd in
      (t.free_blocks s.free_blocks_wp ≡ inactive)
      × (t.free_blocks_wp ≡ (s.free_blocks_wp + 1) % num_blocks)
      × ((t.file fd).block j ≡ s.free_blocks s.free_blocks_rp)
      × ((t.file fd).n_block ≡ 0)
unlink_now-hole s fd j e hole pos =
    let (one, empty, slot, wp) = alloc_block-hole s fd j e hole pos in
    let (last, wp', kept, none_left) = unlink_now-single (alloc_block s fd j) fd one in
    (
      ap (unlink_now (alloc_block s fd j) fd).free_blocks (sym wp) ∙ last ∙ empty,
      wp' ∙ ap (λ k. (k + 1) % num_blocks) wp,
      kept j pos ∙ slot,
      none_left,
    )
