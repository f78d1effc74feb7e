-- ===== src/Backup/Examples.antt =====
-- The tools on a drive that is an array of sectors.
use staut.Prelude.{
  ℕ, ℕ_discrete, ==-false, List, some, ◌<◌, ◌^◌, ◌*◌, ◌+◌, ◌-◌, ◌≡◌, fun_ext, arith, [], ◌∷◌, ltb,
  if◌then◌else◌, ◌&&◌, not, ◌==◌,
}
use staut.Fs.State.{at, inactive, Fs, no_flags}
use staut.Backup.Tools.{backup_main, restore_main}
use staut.Backup.Restored.{Same, InNamed}
use staut.Backup.Roundtrip.{AreBlocks}
use staut.Backup.Striped.{Disks, IsDisks, striped, restore_main-backup_main}

-- Three drives that are arrays of sectors.
abbrev sectors : Disks (ℕ → ℕ → ℕ) (ℕ → ℕ)
sectors = record {
  read = λ did lba n d k. if ltb k n then d did (lba + k) else 0;
  write = λ did lba n p d i k.
      if i == did
      then (if not (ltb k lba) && ltb k (lba + n) then p (k - lba) else d i k)
      else d i k;
}

sectors-IsDisks : IsDisks sectors
sectors-IsDisks = record {
  same = λ did lba did' a n e d.
      fun_ext (λ k. let r : lba + k - lba ≡ k = omega arith in ground (arith, r));
  elsewhere = λ did lba did' lba' n p d h. fun_ext (λ k. ground (arith, h));
}

-- File 1 has the name "a", and the blocks 3 and 1.
abbrev s : Fs
s = record {
  magic = 0;
  free_blocks = λ _. inactive;
  free_blocks_rp = 0;
  free_blocks_wp = 0;
  file = λ i. record {
    name = if i == 1 then 97 ∷ [] else [];
    block = λ k. if k == 0 then at 3 else at 1;
    n_block = if i == 1 then 2 else 0;
  };
  states = λ _. record { flags = no_flags; ref_count = 0 };
}

s-AreBlocks : AreBlocks s
s-AreBlocks i h named k l = elim (ℕ_discrete k 0) [
  | yes e ↦ rw e (omega arith)
  | no ne ↦ rw (==-false k 0 ne) (omega arith)
]

restore_main-backup_main_example :
    (rest : List (ℕ → ℕ)) × (t : ℕ → ℕ → ℕ) × (restore_main
        (striped 3 sectors)
        s
        (backup_main (striped 3 sectors) s (λ i k. k) [])
        (λ _ _. 0)
      ≡ some (rest, t))
    × ((m : ℕ)
        → m < 2 ^ 29
        → InNamed (striped 3 sectors) s m
        → Same (striped 3 sectors) (8 * m) (λ i k. k) t)
    × ((m : ℕ)
        → m < 2 ^ 29
        → (InNamed (striped 3 sectors) s m → ⊥)
        → Same (striped 3 sectors) (8 * m) (λ _ _. 0) t)
restore_main-backup_main_example =
    restore_main-backup_main 3 sectors s (λ i k. k) (λ _ _. 0) [] (omega arith) sectors-IsDisks
      s-AreBlocks
