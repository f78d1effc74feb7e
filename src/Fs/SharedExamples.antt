-- ===== src/Fs/SharedExamples.antt =====
-- Two threads of mylib/myfs.c allocate at once; the second loses the compare-and-swap and tries again.
use staut.Prelude.{ℕ, ◌≡◌, ◌≢◌, refl, arith, none, some, update}
use staut.Fs.State.{inactive, at}
use staut.Fs.Allocs.{
  Table, AllocPc, outside, locking, testing, loading, swapping, storing, call, lock, no_block, load,
  cas_lose, cas_win, Allocators, AllocReach, begin, later, IsAhead, IsApart,
}
use staut.Fs.Shared.{AllocReach-IsApart}

abbrev table : Table
table = record { rp = 0; block = λ _ _. inactive; n_block = λ _. 0; owner = λ _. none }

table-IsApart : IsApart 10 at table
table-IsApart = record {
  rp_in = omega arith;
  wp_in = omega arith;
  fresh = λ p h i k e. inactive-at e;
  free_apart = λ p q h k ne e. ne (at-inj e);
  slots_apart = λ i k j l b h. absurd (inactive-at h);
}
  where
    inactive-at : {b : ℕ} → inactive ≡ at b → ⊥
    inactive-at e = cc

    at-inj : {a b : ℕ} → at a ≡ at b → a ≡ b
    at-inj e = cc

-- The state behind a step of thread `t`.
abbrev stepped : Allocators 10 at → ℕ → Table → AllocPc → Allocators 10 at
stepped s t m p = record { table = m; pc = update s.pc t p }

abbrev locked : Table
locked = record table { owner = update (update table.owner 0 (some 0)) 1 (some 1) }

abbrev both_loaded : Allocators 10 at
both_loaded =
    let s0 : Allocators 10 at = record { table = table; pc = λ _. outside } in
    let s1 = stepped s0 0 table (locking 0 0) in
    let s2 = stepped s1 0 (record table { owner = update table.owner 0 (some 0) }) (testing 0 0) in
    let s3 = stepped s2 0 s2.table (loading 0 0) in
    let s4 = stepped s3 1 s3.table (locking 1 0) in
    let s5 = stepped s4 1 locked (testing 1 0) in
    let s6 = stepped s5 1 locked (loading 1 0) in
    let s7 = stepped s6 0 locked (swapping 0 0 0) in stepped s7 1 locked (swapping 1 0 0)

both_loaded-AllocReach : AllocReach 10 at table both_loaded
both_loaded-AllocReach =
    later 1
      (later 0
        (later 1
          (later 1
            (later 1 (later 0 (later 0 (later 0 begin (call 0 0)) (lock refl)) (no_block refl))
              (call 1 0))
            (lock refl))
          (no_block refl))
        load)
      load

abbrev first_taken : Table
first_taken = record locked { rp = 1 }

abbrev both_taken : Allocators 10 at
both_taken =
    let s1 = stepped both_loaded 0 first_taken (storing 0 0 0) in
    let s2 = stepped s1 1 first_taken (loading 1 0) in
    let s3 = stepped s2 1 first_taken (swapping 1 0 1) in
    stepped s3 1 (record first_taken { rp = 2 }) (storing 1 0 1)

both_taken-AllocReach : AllocReach 10 at table both_taken
both_taken-AllocReach =
    later 1
      (later 1
        (later 1 (later 0 both_loaded-AllocReach (cas_win refl (λ e. omega (arith, e))))
          (cas_lose (λ e. omega (arith, e))))
        load)
      (cas_win refl (λ e. omega (arith, e)))

AllocReach-IsApart_example :
    IsApart 10 at both_taken.table
    × ((t i k old : ℕ)
        → both_taken.pc t ≡ storing i k old
        → ((j l : ℕ) → both_taken.table.block j l ≢ at old)
          × ((q : ℕ) → IsAhead 10 at both_taken.table.rp q → at q ≢ at old)
          × ((u j l other : ℕ) → t ≢ u → both_taken.pc u ≡ storing j l other → at old ≢ at other))
AllocReach-IsApart_example =
    AllocReach-IsApart 10 at table both_taken table-IsApart both_taken-AllocReach
