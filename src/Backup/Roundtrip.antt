-- ===== src/Backup/Roundtrip.antt =====
-- What abt_restore brings back of a drive that abt_backup has copied.
use staut.Prelude.{
  ℕ, zero, suc, ◌+◌, ◌*◌, ◌≡◌, ◌<◌, ◌≤◌, ◌^◌, arith, refl, ap, sym, ◌∙◌, ◌≢◌, ◌⊎◌, inl, inr, some,
  List, [], ◌∷◌, ◌++◌, ◌>>=◌,
}
use mathlib.Core.List.{append_assoc, append-nil}
use staut.Fs.State.{Block, File, Fs, max_files}
use staut.Backup.Tools.{
  Drive, deg, int_n_block, read_block, append, backup, overwrite, backup_main, read_pages,
  write_block, parse, restore, restore_main,
}
use staut.Backup.Restored.{
  IsBlock, IsDrive, Same, Within, Restored, Restored-none, Restored-first, Restored-empty,
  Restored-in, InBlock, InFile, InNamed, write_block-Restored,
}

name-cases : {A : Type 0} (l : List A) → (l ≡ []) ⊎ ((c : A) × (cs : List A) × (l ≡ c ∷ cs))
name-cases [] = inl refl
name-cases (c ∷ cs) = inr (c, cs, refl)

-- Every block that counts of a file with a name is one of the device: there are no holes.
abbrev pub AreBlocks : Fs → Type 0
AreBlocks s =
    (i : ℕ)
    → i < max_files
    → (s.file i).name ≢ []
    → (k : ℕ) → k < int_n_block (s.file i)
    → IsBlock ((s.file i).block k)

module _ {D P : Type 0} (drive : Drive D P) where
  read_pages-read_block :
      (n j : ℕ) (b : Block) (d : D) (rest : List P)
      → read_pages drive n (read_block drive n j b d ++ rest)
        ≡ some (read_block drive n j b d, rest)
  unfolding read_pages read_block
  read_pages-read_block zero j b d rest = refl
  read_pages-read_block (suc n) j b d rest = rw (read_pages-read_block n (j + 1) b d rest) refl

  read_pages-append :
      (b : Block) (d : D) (pages rest : List P)
      → read_pages drive deg ((read_block drive deg 0 b d ++ pages) ++ rest)
        ≡ some (read_block drive deg 0 b d, pages ++ rest)
  read_pages-append b d pages rest =
      ap (read_pages drive deg) (append_assoc (read_block drive deg 0 b d) pages rest)
      ∙ read_pages-read_block deg 0 b d (pages ++ rest)

  backup-unnamed :
      (n i : ℕ) (s : Fs) (d : D)
      → (s.file i).name ≡ []
      → backup drive (suc n) i s d ≡ backup drive n (i + 1) s d
  unfolding backup
  backup-unnamed n i s d h = rw (h, backup) refl

  restore-unnamed :
      (n i : ℕ) (s : Fs) (file : List P) (d : D)
      → (s.file i).name ≡ []
      → restore drive (suc n) i s file d ≡ restore drive n (i + 1) s file d
  unfolding restore
  restore-unnamed n i s file d h = rw (h, restore) refl

  backup-named :
      (n i : ℕ) (s : Fs) (d : D)
      → (s.file i).name ≢ []
      → backup drive (suc n) i s d
        ≡ append drive (int_n_block (s.file i)) 0 (s.file i) d ++ backup drive n (i + 1) s d
  unfolding backup
  backup-named n i s d h = elim (name-cases (s.file i).name) [
    | inl e ↦ absurd (h e)
    | inr (c, cs, e) ↦ simp (e, backup) refl
  ]

  restore-named :
      (n i : ℕ) (s : Fs) (file : List P) (d : D)
      → (s.file i).name ≢ []
      → restore drive (suc n) i s file d ≡ (
          parse drive (int_n_block (s.file i)) 0 (s.file i) file d >>= λ r.
          restore drive n (i + 1) s r.0 r.1)
  unfolding restore
  restore-named n i s file d h = elim (name-cases (s.file i).name) [
    | inl e ↦ absurd (h e)
    | inr (c, cs, e) ↦ simp (e, restore) refl
  ]

  module _ (drive-IsDrive : IsDrive drive) (d : D) where
    parse-append :
        (n k : ℕ) (f : File) (rest : List P) (d' : D)
        → ((i : ℕ) → i < k + n → IsBlock (f.block i))
        → (t : D) × (parse drive n k f (append drive n k f d ++ rest) d' ≡ some (rest, t))
          × Restored drive (Within n k (InBlock drive f)) d d' t
    unfolding parse append
    parse-append zero k f rest d' live = (d', refl, Restored-empty drive)
    parse-append (suc n) k f rest d' live =
        let block = read_block drive deg 0 (f.block k) d in
        let (t, e, r) =
          parse-append n (k + 1) f rest (write_block drive block 0 (f.block k) d')
            (λ i h. live i (omega (arith, h))) in
        (
          t,
          ap (λ m. m >>= λ r. parse drive n (k + 1) f r.1 (write_block drive r.0 0 (f.block k) d'))
                (read_pages-append (f.block k) d (append drive n (k + 1) f d) rest)
              ∙ e,
          Restored-first drive (InBlock drive f) n k
              (write_block-Restored drive drive-IsDrive d deg 0 (f.block k) d'
                (live k (omega arith)) (omega arith))
              r,
        )

    -- The files `i` to `i + n` come back, and what follows their pages in the file is left.
    abbrev Restorable : (n i : ℕ) → Fs → List P → D → Type 0
    Restorable n i s rest d' =
        (t : D) × (restore drive n i s (backup drive n i s d ++ rest) d' ≡ some (rest, t))
        × Restored drive (Within n i (InFile drive s)) d d' t

    restore-skip :
        (n i : ℕ) (s : Fs) (rest : List P) (d' : D)
        → (s.file i).name ≡ []
        → Restorable n (i + 1) s rest d'
        → Restorable (suc n) i s rest d'
    restore-skip n i s rest d' h (t, e, r) = (
      t,
      rw (backup-unnamed n i s d h, restore-unnamed n i s (backup drive n (i + 1) s d ++ rest) d' h)
          e,
      Restored-first drive (InFile drive s) n i (Restored-none drive (λ m x. x.0 h)) r,
    )

    restore-file :
        (n i : ℕ) (s : Fs) (rest : List P) (d' : D)
        → (s.file i).name ≢ []
        → ((k : ℕ) → k < int_n_block (s.file i) → IsBlock ((s.file i).block k))
        → ((e : D) → Restorable n (i + 1) s rest e)
        → Restorable (suc n) i s rest d'
    restore-file n i s rest d' h live next =
        let f = s.file i in
        let pages = backup drive n (i + 1) s d in
        let one = append drive (int_n_block f) 0 f d in
        let (t1, e1, r1) =
          parse-append (int_n_block f) 0 f (pages ++ rest) d' (λ k l. live k (omega (arith, l))) in
        let (t, e, r) = next t1 in
        (
          t,
          rw (backup-named n i s d h, append_assoc one pages rest)
              (restore-named n i s (one ++ (pages ++ rest)) d' h
                ∙ ap (λ m. m >>= λ r. restore drive n (i + 1) s r.0 r.1) e1
                ∙ e),
          Restored-first drive (InFile drive s) n i
              (Restored-in drive (λ m x. x.1) (λ m x. (h, x)) r1) r,
        )

    restore-backup :
        (n i : ℕ) (s : Fs) (rest : List P) (d' : D)
        → i + n ≤ max_files
        → AreBlocks s
        → Restorable n i s rest d'
    unfolding restore backup
    restore-backup zero i s rest d' low live = (d', refl, Restored-empty drive)
    restore-backup (suc n) i s rest d' low live = elim (name-cases (s.file i).name) [
      | inl e ↦ restore-skip n i s rest d' e (restore-backup n (i + 1) s rest d' (omega arith) live)
      | inr (c, cs, e) ↦
          restore-file n i s rest d' (λ q. cc) (live i (omega arith) (λ q. cc))
            (λ d1. restore-backup n (i + 1) s rest d1 (omega arith) live)
    ]

  overwrite-front : (new old : List P) → (rest : List P) × (overwrite drive new old ≡ new ++ rest)
  unfolding overwrite
  overwrite-front [] old = (old, refl)
  overwrite-front (p ∷ new) [] = ([], ap (λ l. p ∷ l) (sym (append-nil new)))
  overwrite-front (p ∷ new) (_ ∷ old) =
      let (rest, e) = overwrite-front new old in (rest, ap (λ l. p ∷ l) e)

  -- Whatever drive `d'` a backup of drive `d` is restored to.
  pub restore_main-Restored :
      (s : Fs) (d d' : D) (old : List P)
      → IsDrive drive
      → AreBlocks s
      → (rest : List P) × (t : D) × (restore_main drive s (backup_main drive s d old) d'
          ≡ some (rest, t))
        × ((m : ℕ) → m < 2 ^ 29 → InNamed drive s m → Same drive (8 * m) d t)
        × ((m : ℕ) → m < 2 ^ 29 → (InNamed drive s m → ⊥) → Same drive (8 * m) d' t)
  unfolding restore_main backup_main
  restore_main-Restored s d d' old drive-IsDrive live =
      let (rest, o) = overwrite-front (backup drive max_files 0 s d) old in
      let (t, e, r) = restore-backup drive-IsDrive d max_files 0 s rest d' (omega arith) live in
      (rest, t, ap (λ file. restore drive max_files 0 s file d') o ∙ e, r.good, r.frame)
