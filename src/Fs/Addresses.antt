-- ===== src/Fs/Addresses.antt =====
-- The block addresses that `myfs_get_lba` of mylib/myfs.c hands out.
use staut.Prelude.{
  subst, lt→ltb, ◌∙◌, ℕ, zero, suc, ◌+◌, ◌-◌, ◌/◌, ◌≤◌, ◌<◌, ◌≡◌, refl, ◌≢◌, ap, arith, true, false,
  Bool, some, total, total-suc, le-total, ℕ_discrete, sym, [],
}
use staut.Fs.State.{Fs, Block, inactive, at, num_blocks, max_files, max_blocks_per_file, block_size}
use staut.Fs.Ops.{i_block_of, get_lba, ensure_block, alloc_block, block_lba, lba_of}
use staut.Fs.Count.{hit, free_count, file_hits, table_hits, occurrences}
use staut.Fs.Invariant.{IsValid, HasRoom, alloc_block-IsValid, ring_front}

-- Two different entries are both part of a sum.
pub add-le-total : (n i j : ℕ) (f : ℕ → ℕ) → i < n → j < n → i ≢ j → f i + f j ≤ total n f
add-le-total zero i j f hi hj ne = absurd (omega arith)
add-le-total (suc n) i j f hi hj ne =
    ground (arith, total-suc n f, add-le-total n i j f, le-total n i f, le-total n j f)

hit_self : (b : ℕ) → hit b (at b) ≡ 1
unfolding hit
hit_self b = ground arith

file_hits-pos :
    (b j : ℕ) (block : ℕ → Block) → j < max_blocks_per_file → block j ≡ at b → 1 ≤ file_hits b block
unfolding file_hits
file_hits-pos b j block h e =
    omega (arith, le-total max_blocks_per_file j (λ k. hit b (block k)) h, ap (hit b) e, hit_self b)

file_hits-two :
    (b j j' : ℕ) (block : ℕ → Block)
    → j < max_blocks_per_file
    → j' < max_blocks_per_file
    → block j ≡ at b
    → block j' ≡ at b
    → j ≢ j'
    → 2 ≤ file_hits b block
unfolding file_hits
file_hits-two b j j' block h h' e e' ne = omega (
  arith,
  add-le-total max_blocks_per_file j j' (λ k. hit b (block k)) h h' ne,
  ap (hit b) e,
  ap (hit b) e',
  hit_self b,
)

-- In a well-formed superblock a block number stands in one slot of one file.
pub slot_unique :
    (s : Fs) (b i j i' j' : ℕ)
    → IsValid s
    → i < max_files
    → i' < max_files
    → j < max_blocks_per_file
    → j' < max_blocks_per_file
    → (s.file i).block j ≡ at b
    → (s.file i').block j' ≡ at b
    → (i ≡ i') × (j ≡ j')
unfolding occurrences table_hits
slot_unique s b i j i' j' v hi hi' hj hj' e e' = elim (ℕ_discrete i i') [
  | yes p ↦ (p, same_slot (rw p at e))
  | no p ↦ absurd (
      omega (
        arith,
        at_most_one,
        file_hits-pos b j (s.file i).block hj e,
        file_hits-pos b j' (s.file i').block hj' e',
        add-le-total max_files i i' (λ k. file_hits b (s.file k).block) hi hi' p,
      ))
]
  where
    at_most_one : occurrences b s ≤ 1
    at_most_one = ground (arith, v.once b)

    same_slot : (s.file i').block j ≡ at b → j ≡ j'
    same_slot q = elim (ℕ_discrete j j') [
      | yes r ↦ r
      | no r ↦ absurd (
          omega (
            arith,
            at_most_one,
            file_hits-two b j j' (s.file i').block hj hj' q e' r,
            le-total max_files i' (λ k. file_hits b (s.file k).block) hi',
          ))
    ]

-- An address that `myfs_get_lba` gives names the block of the slot and the 512-byte sector in it.
block_lba-some :
    (k : Block) (offset lba : ℕ)
    → block_lba k offset ≡ some lba
    → (b : ℕ) × (k ≡ at b) × (lba ≡ lba_of b offset)
unfolding block_lba
block_lba-some inactive offset lba h = cc
block_lba-some (at b) offset lba h = (b, refl, ground arith)

-- A lookup inside the arrays.
pub get_lba_inside :
    (s : Fs) (i offset : ℕ) (write : Bool)
    → i < max_files
    → offset / block_size < max_blocks_per_file
    → let t = ensure_block s i (offset / block_size) write in
      get_lba s i offset write ≡ (block_lba ((t.file i).block (offset / block_size)) offset, t)
unfolding get_lba
get_lba_inside s i offset write hi hj =
    let index : i_block_of offset ≡ offset / block_size = omega (arith, hj) in
    rw (index, lt→ltb i max_files hi, lt→ltb (offset / block_size) max_blocks_per_file hj) refl

-- In a well-formed superblock no two sectors of files share an address: if two lookups for reading
-- give the same address, they are for the same file and the same 512-byte sector of it.
pub get_lba-injective :
    (s : Fs) (i i' offset offset' lba : ℕ)
    → IsValid s
    → i < max_files
    → i' < max_files
    → offset / block_size < max_blocks_per_file
    → offset' / block_size < max_blocks_per_file
    → (get_lba s i offset false).0 ≡ some lba
    → (get_lba s i' offset' false).0 ≡ some lba
    → (i ≡ i') × (offset / 512 ≡ offset' / 512)
unfolding ensure_block
get_lba-injective s i i' offset offset' lba v hi hi' hj hj' e e' =
    let inside = get_lba_inside s i offset false hi hj in
    let inside' = get_lba_inside s i' offset' false hi' hj' in
    let (b, k, l) =
      block_lba-some ((s.file i).block (offset / block_size)) offset lba
        (ap (λ r. r.0) (sym inside) ∙ e) in
    let (b', k', l') =
      block_lba-some ((s.file i').block (offset' / block_size)) offset' lba
        (ap (λ r. r.0) (sym inside') ∙ e') in
    let same : b' ≡ b = omega arith in
    let slots =
      slot_unique s b i (offset / block_size) i' (offset' / block_size) v hi hi' hj hj' k
        (rw same at k') in
    (slots.0, omega (arith, slots.1))

-- A lookup never moves a block that a slot already has.
pub ensure_block-keeps :
    (s : Fs) (i j : ℕ) (write : Bool) (i' j' b : ℕ)
    → (s.file i').block j' ≡ at b
    → ((ensure_block s i j write).file i').block j' ≡ at b
unfolding ensure_block alloc_block
ensure_block-keeps s i j write i' j' b h = ground arith

pub live-at : (k : Block) → k ≢ inactive → (b : ℕ) × (k ≡ at b)
live-at inactive h = absurd (h refl)
live-at (at b) h = (b, refl)

pub ensure_block-inactive :
    (s : Fs) (i j : ℕ) → (s.file i).block j ≡ inactive → ensure_block s i j true ≡ alloc_block s i j
unfolding ensure_block
ensure_block-inactive s i j e = ground arith

-- A lookup of a slot that has a block changes nothing.
pub ensure_block-at :
    (s : Fs) (i j : ℕ) (write : Bool) {b : ℕ}
    → (s.file i).block j ≡ at b
    → ensure_block s i j write ≡ s
unfolding ensure_block
ensure_block-at s i j write e = ground arith

-- A write into the blocks of a named file or at their end keeps the superblock well formed.
pub ensure_block-IsValid :
    (s : Fs) (i j : ℕ) (write : Bool)
    → i < max_files
    → j < max_blocks_per_file
    → (s.file i).name ≢ []
    → j ≤ (s.file i).n_block
    → HasRoom s
    → IsValid s
    → IsValid (ensure_block s i j write)
unfolding ensure_block
ensure_block-IsValid s i j false hi hj named le room v = v
ensure_block-IsValid s i j true hi hj named le room v = elim (ℕ_discrete j (s.file i).n_block) [
  | yes e ↦
      subst IsValid (sym (ensure_block-inactive s i j ((v.packed i hi).rest j (omega arith) hj))) (
        subst (λ k. IsValid (alloc_block s i k)) (sym e)
          (alloc_block-IsValid s i (omega arith) (omega arith) named room v))
  | no ne ↦
      let (b, e) = live-at _ ((v.packed i hi).live j (omega arith)) in
      subst IsValid (sym (ensure_block-at s i j true e)) v
]

-- After the write part of a lookup the slot has a block.
pub ensure_block-live :
    (s : Fs) (i j : ℕ)
    → HasRoom s
    → IsValid s
    → (k : Block) → (s.file i).block j ≡ k
    → (b : ℕ) × (((ensure_block s i j true).file i).block j ≡ at b)
unfolding alloc_block
ensure_block-live s i j room v (at b) e = (b, ensure_block-keeps s i j true i j b e)
ensure_block-live s i j room v inactive e =
    let (b, f) = live-at _ (ring_front s.free_blocks _ _ v.rp_in v.wp_in v.ring_live room) in
    (b, rw (ensure_block-inactive s i j e) (ground (arith, f)))

-- With a free block left, a lookup for writing of an entry of the table, at one of its block slots, answers: its assertion does not fail. A later lookup in
-- the same block of the file, for reading or writing, then changes nothing and answers an address in
-- the same block of the device.
pub get_lba-write :
    (s : Fs) (i offset offset' : ℕ) (write : Bool)
    → i < max_files
    → offset / block_size < max_blocks_per_file
    → HasRoom s
    → IsValid s
    → offset' / block_size ≡ offset / block_size
    → let r = get_lba s i offset true in
      (b : ℕ) × (r.0 ≡ some (lba_of b offset))
      × (get_lba r.1 i offset' write ≡ (some (lba_of b offset'), r.1))
unfolding block_lba
get_lba-write s i offset offset' write hi hj room v q =
    let (b, e) = ensure_block-live s i (offset / block_size) room v _ refl in
    (
      b,
      rw (get_lba_inside s i offset true hi hj, e) refl,
      rw (
        get_lba_inside s i offset true hi hj,
        get_lba_inside (ensure_block s i (offset / block_size) true) i offset' write hi
            (omega (arith, hj, q)),
        q,
        ensure_block-at (ensure_block s i (offset / block_size) true) i (offset / block_size) write
            e,
        e,
      ),
    )

-- With no free block left the ring is not seen to be empty: allocation leaves it with all its entries,
-- blocks of files among them.
alloc_block-when_full :
    (s : Fs) (i j : ℕ)
    → s.free_blocks_rp < num_blocks
    → s.free_blocks_rp ≡ s.free_blocks_wp
    → let t = alloc_block s i j in
      (free_count s.free_blocks_rp s.free_blocks_wp ≡ 0)
      × (free_count t.free_blocks_rp t.free_blocks_wp ≡ num_blocks - 1)
      × ((t.file i).block j ≡ s.free_blocks s.free_blocks_rp)
unfolding alloc_block
alloc_block-when_full s i j h e = (omega arith, omega arith, ground arith)
