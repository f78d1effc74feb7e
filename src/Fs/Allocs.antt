-- ===== src/Fs/Allocs.antt =====
-- The writing part of `myfs_get_lba` of mylib/myfs.c run by any number of threads at once: each access
-- to what they share is a step. `wp` and `free` are the write pointer and the entries of the free ring,
-- which no allocation changes.
use staut.Prelude.{ℕ, ◌+◌, ◌-◌, ◌%◌, ◌<◌, ◌≡◌, ◌≢◌, Option, none, some, update}
use staut.Fs.State.{num_blocks, Block, inactive, at}

-- The read pointer, the blocks and their number by file, and who holds the mutex of a file.
pub record Table : Type 0 where
  pub rp : ℕ
  pub block : ℕ → ℕ → Block
  pub n_block : ℕ → ℕ
  pub owner : ℕ → Option ℕ

-- Where a thread stands: before the lock, at the test of the slot, before the load of the read pointer,
-- before the compare-and-swap, before the store of the block, before `n_block++`, before the unlock.
pub data AllocPc : Type 0 where
  outside : AllocPc
  locking : ℕ → ℕ → AllocPc
  testing : ℕ → ℕ → AllocPc
  loading : ℕ → ℕ → AllocPc
  swapping : ℕ → ℕ → ℕ → AllocPc
  storing : ℕ → ℕ → ℕ → AllocPc
  counting : ℕ → AllocPc
  unlocking : ℕ → AllocPc

module _ (wp : ℕ) (free : ℕ → Block) where
  -- A step of thread `t`. A thread that wins takes an entry of a ring that is not empty.
  pub data AllocMove (t : ℕ) (m : Table) : AllocPc → Table → AllocPc → Type 0 where
    call : (i k : ℕ) → AllocMove t m outside m (locking i k)
    lock :
        {i k : ℕ}
        → m.owner i ≡ none
        → AllocMove t m (locking i k) (record m { owner = update m.owner i (some t) }) (testing i k)
    has_block : {i k : ℕ} → m.block i k ≢ inactive → AllocMove t m (testing i k) m (unlocking i)
    no_block : {i k : ℕ} → m.block i k ≡ inactive → AllocMove t m (testing i k) m (loading i k)
    load : {i k : ℕ} → AllocMove t m (loading i k) m (swapping i k m.rp)
    cas_lose : {i k old : ℕ} → m.rp ≢ old → AllocMove t m (swapping i k old) m (loading i k)
    cas_win :
        {i k old : ℕ}
        → m.rp ≡ old
        → m.rp ≢ wp
        → AllocMove t m
            (swapping i k old)
            (record m { rp = (old + 1) % num_blocks })
            (storing i k old)
    store :
        {i k old : ℕ}
        → AllocMove t m
            (storing i k old)
            (record m { block = update m.block i (update (m.block i) k (free old)) })
            (counting i)
    count :
        {i : ℕ}
        → AllocMove t m
            (counting i)
            (record m { n_block = update m.n_block i (m.n_block i + 1) })
            (unlocking i)
    unlock :
        {i : ℕ} → AllocMove t m (unlocking i) (record m { owner = update m.owner i none }) outside

  pub record Allocators : Type 0 where
    pub table : Table
    pub pc : ℕ → AllocPc

  pub data AllocReach (m : Table) : Allocators → Type 0 where
    begin : AllocReach m (record { table = m; pc = λ _. outside })
    later :
        {s : Allocators} (t : ℕ) {n : Table} {p : AllocPc}
        → AllocReach m s
        → AllocMove t s.table (s.pc t) n p
        → AllocReach m (record { table = n; pc = update s.pc t p })

  -- The entry at `p` stands between the read pointer and the write pointer.
  abbrev pub IsAhead : ℕ → ℕ → Type 0
  IsAhead rp p =
      (p < num_blocks) × ((p + num_blocks - rp) % num_blocks < (wp + num_blocks - rp) % num_blocks)

  -- No block is in two places: of the free entries and the slots of files.
  pub record IsApart (m : Table) : Type 0 where
    pub rp_in : m.rp < num_blocks
    pub wp_in : wp < num_blocks
    pub fresh : (p : ℕ) → IsAhead m.rp p → (i k : ℕ) → m.block i k ≢ free p
    pub free_apart : (p q : ℕ) → IsAhead m.rp p → IsAhead m.rp q → p ≢ q → free p ≢ free q
    pub slots_apart : (i k j l b : ℕ) → m.block i k ≡ at b → m.block j l ≡ at b → (i ≡ j) × (k ≡ l)
