-- ===== src/Nvme/Address.antt =====
-- Striping, request identifiers and bounce buffers of mylib/nvme.cc. `nd` is ND, the number of drives,
-- and `n_core` is N_CORE; the build sets both.
use native.Mathlib.Nat.{
  div-add-mod, mul-add-div_right, div-eq_of_lt, mul-add-mod_self_right, mod-eq_of_lt, div-le_self,
}
use staut.Prelude.{ℕ, ◌+◌, ◌*◌, ◌/◌, ◌%◌, ◌≤◌, ◌<◌, ◌≡◌, arith, ap, sym, ◌^◌, ◌∙◌, ◌≢◌, ◌⊎◌}

-- RAID_FACTOR
abbrev pub raid_factor : ℕ
raid_factor = 4096 / 512

-- QD, for N_ULT_PER_CORE = 512
abbrev pub qd : ℕ
qd = 512 * 2

-- N_2MB_PAGE
abbrev pub n_2mb_page : ℕ
n_2mb_page = 2

-- `did` and CDW10 of `nvme_read_req` and `nvme_write_req`.
unfoldable pub drive_of : ℕ → ℕ → ℕ
drive_of nd lba = (lba / raid_factor) % nd

-- The address on the drive, and what CDW10, a `uint32_t`, takes of it.
abbrev pub stripe_lba : ℕ → ℕ → ℕ
stripe_lba nd lba = lba / raid_factor / nd * raid_factor + lba % raid_factor

unfoldable pub drive_lba : ℕ → ℕ → ℕ
drive_lba nd lba = stripe_lba nd lba % 2 ^ 32

-- What `nvme_read_req` and `nvme_write_req` return.
unfoldable pub make_rid : ℕ → ℕ → ℕ → ℕ → ℕ
make_rid n_core did core_id cid = did * qd * n_core + core_id * qd + cid

-- The parts that `nvme_check` reads from it.
pub record Rid : Type 0 where
  pub did : ℕ
  pub qid : ℕ
  pub cid : ℕ

unfoldable pub split_rid : ℕ → ℕ → Rid
split_rid n_core rid = record {
  did = rid / qd / n_core;
  qid = (rid / qd) % n_core + 1;
  cid = rid % qd;
}

-- The page of `get_buf4k` and `buf4k_pa`, and the offset in it.
unfoldable pub buf4k_page : ℕ → ℕ
buf4k_page cid = cid % n_2mb_page

unfoldable pub buf4k_offset : ℕ → ℕ
buf4k_offset cid = 4096 * (cid / n_2mb_page)

-- Below 2 ^ 32 nothing of the address is lost.
pub drive_lba_small : (nd lba : ℕ) → lba < 2 ^ 32 → drive_lba nd lba ≡ stripe_lba nd lba
unfolding drive_lba
drive_lba_small nd lba h = omega (arith, h, div-le_self (lba / raid_factor) nd)

-- Striping loses nothing of addresses below 2 ^ 32: such an address is determined by its drive and its
-- address there.
pub stripe-injective :
    (nd lba lba' : ℕ)
    → 0 < nd
    → lba < 2 ^ 32
    → lba' < 2 ^ 32
    → drive_of nd lba ≡ drive_of nd lba'
    → drive_lba nd lba ≡ drive_lba nd lba'
    → lba ≡ lba'
unfolding drive_of
stripe-injective nd lba lba' h small small' e f' =
    let f : stripe_lba nd lba ≡ stripe_lba nd lba' =
      sym (drive_lba_small nd lba small) ∙ f' ∙ drive_lba_small nd lba' small' in
    let q : lba / raid_factor / nd ≡ lba' / raid_factor / nd = omega arith in
    omega (
      arith,
      ap (λ (t : ℕ). nd * t) q,
      div-add-mod (lba / raid_factor) nd,
      div-add-mod (lba' / raid_factor) nd,
    )

-- `nvme_check` finds the queue pair and the command that the identifier was made of.
pub split_rid-make_rid :
    (n_core did core_id cid : ℕ)
    → core_id < n_core
    → cid < qd
    → split_rid n_core (make_rid n_core did core_id cid)
      ≡ record { did = did; qid = core_id + 1; cid = cid }
unfolding split_rid make_rid
split_rid-make_rid n_core did core_id cid h k =
    let x = did * qd * n_core + core_id * qd + cid in
    let u : x / qd ≡ did * n_core + core_id = omega arith in
    let c : x % qd ≡ cid = omega arith in
    let d : (did * n_core + core_id) / n_core ≡ did =
      mul-add-div_right (omega arith) did core_id ∙ omega (arith, div-eq_of_lt h) in
    let q : (did * n_core + core_id) % n_core ≡ core_id =
      mul-add-mod_self_right did n_core core_id ∙ mod-eq_of_lt h in
    rw (u, c, d, q)

-- Different commands of a queue pair have buffers of 4096 bytes in a page of 2 MB that do not overlap.
pub buf4k-disjoint :
    (c c' : ℕ)
    → c < qd
    → c' < qd
    → c ≢ c'
    → (buf4k_offset c + 4096 ≤ 2 * 1024 * 1024)
      × (buf4k_page c < n_2mb_page)
      × ((buf4k_page c ≢ buf4k_page c')
          ⊎ ((buf4k_offset c + 4096 ≤ buf4k_offset c') ⊎ (buf4k_offset c' + 4096 ≤ buf4k_offset c)))
unfolding buf4k_offset buf4k_page
buf4k-disjoint c c' h k ne = omega arith
