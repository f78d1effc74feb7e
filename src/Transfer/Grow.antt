-- ===== src/Transfer/Grow.antt =====
-- One lookup of `write_impl` in mylib/hook.c in a file that grows.
use staut.Prelude.{
  ℕ, ◌+◌, ◌/◌, ◌≤◌, ◌<◌, ◌≡◌, refl, sym, ◌∙◌, ◌≢◌, subst, arith, true, some, [], ℕ_discrete,
}
use staut.Fs.State.{Fs, inactive, at, block_size, max_files, max_blocks_per_file}
use staut.Fs.Ops.{get_lba, ensure_block, alloc_block, lba_of, block_lba}
use staut.Fs.Count.{free_count}
use staut.Fs.Invariant.{IsValid, HasRoom}
use staut.Transfer.Write.{get_lba-mapped}
use staut.Fs.Addresses.{
  get_lba_inside, ensure_block-inactive, ensure_block-IsValid, ensure_block-live, live-at,
}

-- `t` has what file `fd` has in `s`, and all else as it is there.
pub record Grown (fd : ℕ) (s t : Fs) : Type 0 where
  pub kept : (k b : ℕ) → (s.file fd).block k ≡ at b → (t.file fd).block k ≡ at b
  pub others : (i : ℕ) → i ≢ fd → t.file i ≡ s.file i
  pub states : t.states ≡ s.states
  pub name : (t.file fd).name ≡ (s.file fd).name

pub Grown-refl : (fd : ℕ) (s : Fs) → Grown fd s s
Grown-refl fd s = record { kept = λ k b e. e; others = λ i h. refl; states = refl; name = refl }

pub Grown-trans : (fd : ℕ) {s t u : Fs} → Grown fd s t → Grown fd t u → Grown fd s u
Grown-trans fd g h = record {
  kept = λ k b e. h.kept k b (g.kept k b e);
  others = λ i ne. h.others i ne ∙ g.others i ne;
  states = h.states ∙ g.states;
  name = h.name ∙ g.name;
}

-- The file may be written from `offset` up to the block `last`: it begins in the file or at its end, and
-- there are free blocks for the rest.
pub record IsReady (fd last offset : ℕ) (s : Fs) : Type 0 where
  pub valid : IsValid s
  pub named : (s.file fd).name ≢ []
  pub reach : offset / block_size ≤ (s.file fd).n_block
  pub room : last + 1 ≤ (s.file fd).n_block + free_count s.free_blocks_rp s.free_blocks_wp

-- What a lookup at `offset` leaves.
pub record Looked (fd last offset : ℕ) (s : Fs) : Type 0 where
  pub b : ℕ
  pub fs : Fs
  pub answer : get_lba s fd offset true ≡ (some (lba_of b offset), fs)
  pub mapped : (fs.file fd).block (offset / block_size) ≡ at b
  pub grown : Grown fd s fs
  pub valid : IsValid fs
  pub beyond : offset / block_size + 1 ≤ (fs.file fd).n_block
  pub room : last + 1 ≤ (fs.file fd).n_block + free_count fs.free_blocks_rp fs.free_blocks_wp

alloc_block-Grown :
    (fd j : ℕ) (s : Fs) → (s.file fd).block j ≡ inactive → Grown fd s (alloc_block s fd j)
unfolding alloc_block
alloc_block-Grown fd j s e = record {
  kept = λ k b h. ground (arith, e, h);
  others = λ i ne. ground (arith, ne);
  states = refl;
  name = ground arith;
}

-- One block more in the file, and one less in the ring.
alloc_block-counts :
    (fd j : ℕ) (s : Fs)
    → IsValid s
    → HasRoom s
    → let t = alloc_block s fd j in
      ((t.file fd).n_block ≡ (s.file fd).n_block + 1)
      × (free_count t.free_blocks_rp t.free_blocks_wp + 1
          ≡ free_count s.free_blocks_rp s.free_blocks_wp)
unfolding alloc_block
alloc_block-counts fd j s v room = (ground arith, omega (arith, v.rp_in, v.wp_in, room))

-- A lookup of the block behind the last.
get_lba-fresh :
    (fd last offset : ℕ) (s : Fs)
    → fd < max_files
    → last < max_blocks_per_file
    → offset / block_size ≤ last
    → IsReady fd last offset s
    → offset / block_size ≡ (s.file fd).n_block
    → Looked fd last offset s
unfolding block_lba
get_lba-fresh fd last offset s hf hl ho r e = record {
  b = slot.0;
  fs = t;
  answer = rw (get_lba_inside s fd offset true hf (omega (arith, hl, ho)), slot.1) refl;
  mapped = slot.1;
  grown = subst (Grown fd s) (sym made) (alloc_block-Grown fd k s empty);
  valid = ensure_block-IsValid s fd k true hf (omega (arith, hl, ho)) r.named r.reach room r.valid;
  beyond = rw made (omega (arith, counts.0, e));
  room = rw made (omega (arith, counts.0, counts.1, r.room));
}
  where
    k : ℕ
    k = offset / block_size

    t : Fs
    t = ensure_block s fd k true

    room : HasRoom s
    room q = omega (arith, r.room, r.valid.rp_in, r.valid.wp_in, e, ho, q)

    empty : (s.file fd).block k ≡ inactive
    empty = (r.valid.packed fd hf).rest k (omega (arith, e)) (omega (arith, hl, ho))

    made : t ≡ alloc_block s fd k
    made = ensure_block-inactive s fd k empty

    slot : (b : ℕ) × ((t.file fd).block k ≡ at b)
    slot = ensure_block-live s fd k room r.valid _ refl

    counts :
        (((alloc_block s fd k).file fd).n_block ≡ (s.file fd).n_block + 1)
        × (free_count (alloc_block s fd k).free_blocks_rp (alloc_block s fd k).free_blocks_wp + 1
            ≡ free_count s.free_blocks_rp s.free_blocks_wp)
    counts = alloc_block-counts fd k s r.valid room

pub get_lba-Looked :
    (fd last offset : ℕ) (s : Fs)
    → fd < max_files
    → last < max_blocks_per_file
    → offset / block_size ≤ last
    → IsReady fd last offset s
    → Looked fd last offset s
get_lba-Looked fd last offset s hf hl ho r =
    elim (ℕ_discrete (offset / block_size) (s.file fd).n_block) [
      | no ne ↦
          let (b, e) =
            live-at _
              ((r.valid.packed fd hf).live (offset / block_size) (omega (arith, r.reach))) in
          record {
            b = b;
            fs = s;
            answer = get_lba-mapped s fd offset b hf (omega (arith, hl, ho)) e;
            mapped = e;
            grown = Grown-refl fd s;
            valid = r.valid;
            beyond = omega (arith, r.reach);
            room = r.room;
          }
      | yes e ↦ get_lba-fresh fd last offset s hf hl ho r e
    ]
