-- ===== src/Backup/Striped.antt =====
-- The tools of abt_backup on the drives behind mylib/nvme.cc, which stripes the sectors over them. The
-- drives themselves are a parameter.
use staut.Prelude.{
  ℕ, ◌+◌, ◌*◌, ◌/◌, ◌^◌, ◌≤◌, ◌<◌, ◌≡◌, ap, ◌∙◌, ◌≢◌, ◌⊎◌, inl, inr, arith, some, List, ℕ_discrete,
}
use staut.Fs.State.{Fs}
use staut.Nvme.Address.{drive_of, drive_lba, drive_lba_small, stripe-injective}
use staut.Backup.Tools.{Drive, num_blk, backup_main, restore_main}
use staut.Backup.Restored.{IsDrive, Same, InNamed}
use staut.Backup.Roundtrip.{AreBlocks, restore_main-Restored}

-- The drives in state `D`: `n` sectors from `lba` on of drive `did` as a page.
pub record Disks (D P : Type 0) : Type 0 where
  pub read : (did lba n : ℕ) → D → P
  pub write : (did lba n : ℕ) → P → D → D

-- A drive holds what was written to it, and nothing else changes.
pub record IsDisks {D P : Type 0} (disks : Disks D P) : Type 0 where
  pub same :
      (did lba did' a n : ℕ) (e d : D)
      → disks.read did lba n (disks.write did lba n (disks.read did' a n e) d)
        ≡ disks.read did' a n e
  pub elsewhere :
      (did lba did' lba' n : ℕ) (p : P) (d : D)
      → (did ≢ did') ⊎ ((lba + n ≤ lba') ⊎ (lba' + n ≤ lba))
      → disks.read did' lba' n (disks.write did lba n p d) ≡ disks.read did' lba' n d

-- `nvme_read_req` and `nvme_write_req` for a page, with the wait for it.
abbrev pub striped : ℕ → {D P : Type 0} → Disks D P → Drive D P
striped nd disks = record {
  read_req = λ lba n d. disks.read (drive_of nd lba) (drive_lba nd lba) n d;
  write_req = λ lba n p d. disks.write (drive_of nd lba) (drive_lba nd lba) n p d;
}

page_lba-aligned : (nd m : ℕ) → m < 2 ^ 29 → drive_lba nd (8 * m) ≡ 8 * (m / nd)
page_lba-aligned nd m h =
    let q : 8 * m / 8 ≡ m = omega arith in
    drive_lba_small nd (8 * m) (omega (arith, h)) ∙ omega (arith, ap (λ (x : ℕ). x / nd) q)

striped-elsewhere :
    (nd m m' : ℕ)
    → 0 < nd
    → m < 2 ^ 29
    → m' < 2 ^ 29
    → m ≢ m'
    → (drive_of nd (8 * m) ≢ drive_of nd (8 * m'))
      ⊎ ((drive_lba nd (8 * m) + num_blk ≤ drive_lba nd (8 * m'))
          ⊎ (drive_lba nd (8 * m') + num_blk ≤ drive_lba nd (8 * m)))
striped-elsewhere nd m m' pos h h' ne =
    elim (ℕ_discrete (drive_of nd (8 * m)) (drive_of nd (8 * m'))) [
      | no p ↦ inl p
      | yes e ↦ elim (ℕ_discrete (drive_lba nd (8 * m)) (drive_lba nd (8 * m'))) [
        | yes f ↦
            let q =
              stripe-injective nd (8 * m) (8 * m') pos (omega (arith, h)) (omega (arith, h')) e f in
            absurd (ne (omega (arith, q)))
        | no f ↦ inr (omega (arith, f, page_lba-aligned nd m h, page_lba-aligned nd m' h'))
      ]
    ]

striped-IsDrive :
    (nd : ℕ) {D P : Type 0} (disks : Disks D P)
    → 0 < nd
    → IsDisks disks
    → IsDrive (striped nd disks)
striped-IsDrive nd disks pos v = record {
  same = λ lba a n e d. v.same _ _ _ _ n e d;
  elsewhere =
      λ m m' p d h h' ne. v.elsewhere _ _ _ _ num_blk p d (striped-elsewhere nd m m' pos h h' ne);
}

-- Let a backup of the drives in state `d`, written over any file, be restored to the drives in state `d'`,
-- with the same superblock, in which the blocks that count of files with a name are blocks of the device.
-- Then the restore answers. Of the pages below sector 2 ^ 32, those of a block of a file with a name are
-- then what they are in `d`, and all others what they were in `d'`. The drives keep what is written to
-- them.
pub restore_main-backup_main :
    (nd : ℕ) {D P : Type 0} (disks : Disks D P) (s : Fs) (d d' : D) (old : List P)
    → 0 < nd
    → IsDisks disks
    → AreBlocks s
    → (rest : List P) × (t : D) × (restore_main
          (striped nd disks)
          s
          (backup_main (striped nd disks) s d old)
          d'
        ≡ some (rest, t))
      × ((m : ℕ)
          → m < 2 ^ 29
          → InNamed (striped nd disks) s m
          → Same (striped nd disks) (8 * m) d t)
      × ((m : ℕ)
          → m < 2 ^ 29
          → (InNamed (striped nd disks) s m → ⊥)
          → Same (striped nd disks) (8 * m) d' t)
restore_main-backup_main nd disks s d d' old pos v live =
    restore_main-Restored (striped nd disks) s d d' old (striped-IsDrive nd disks pos v) live
