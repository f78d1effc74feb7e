-- ===== src/Backup/Restored.antt =====
-- From a copy of a drive, page by page: what a run of abt_restore may have done to another drive so far.
use staut.Prelude.{
  ℕ, zero, suc, ◌+◌, ◌*◌, ◌^◌, ◌≤◌, ◌<◌, ◌≡◌, refl, sym, subst, ◌∙◌, ◌≢◌, ◌⊎◌, inl, inr, arith, [],
  ℕ_discrete,
}
use staut.Fs.State.{Block, inactive, at, File, Fs, num_blocks, max_files}
use staut.Backup.Tools.{
  Drive, deg, num_blk, lba_base, page_lba, int_n_block, read_block, write_block,
}

-- A page that was read somewhere is what its address holds once it is written there, and a write of another
-- page leaves it, where both are below sector 2 ^ 32.
pub record IsDrive {D P : Type 0} (drive : Drive D P) : Type 0 where
  pub same :
      (lba a n : ℕ) (e d : D)
      → drive.read_req lba n (drive.write_req lba n (drive.read_req a n e) d) ≡ drive.read_req a n e
  pub elsewhere :
      (m m' : ℕ) (p : P) (d : D)
      → m < 2 ^ 29
      → m' < 2 ^ 29
      → m ≢ m'
      → drive.read_req (8 * m') num_blk (drive.write_req (8 * m) num_blk p d)
        ≡ drive.read_req (8 * m') num_blk d

-- A block of the device, as a slot of a file that is in use holds.
abbrev pub IsBlock : Block → Type 0
IsBlock inactive = ⊥
IsBlock (at b) = b < num_blocks

-- The number of page `j` of a block.
abbrev page_of : Block → ℕ → ℕ
page_of inactive j = j
page_of (at b) j = 512 * b + j

page_lba-IsBlock :
    (b : Block) (j : ℕ)
    → IsBlock b
    → j < deg
    → (page_lba b j ≡ 8 * page_of b j) × (page_of b j < 2 ^ 29)
unfolding lba_base
page_lba-IsBlock inactive j h l = absurd h
page_lba-IsBlock (at b) j h l = (omega (arith, h), omega (arith, h, l))

-- `Q k` for a `k` of the `n` numbers from `lo` on.
abbrev pub Within : (n lo : ℕ) → (ℕ → ℕ → Type 0) → ℕ → Type 0
Within n lo Q m = (k : ℕ) × (lo ≤ k) × (k < lo + n) × Q k m

module _ {D P : Type 0} (drive : Drive D P) where
  -- The page at `lba` is the same in both states.
  abbrev pub Same : ℕ → D → D → Type 0
  Same lba d t = drive.read_req lba num_blk t ≡ drive.read_req lba num_blk d

  -- From `d'` to `t` the pages of `In` become those of `d`, and no other page changes, as far as sector 2 ^ 32.
  pub record Restored (In : ℕ → Type 0) (d d' t : D) : Type 0 where
    pub good : (m : ℕ) → m < 2 ^ 29 → In m → Same (8 * m) d t
    pub either : (m : ℕ) → m < 2 ^ 29 → Same (8 * m) d t ⊎ Same (8 * m) d' t
    pub frame : (m : ℕ) → m < 2 ^ 29 → (In m → ⊥) → Same (8 * m) d' t

  pub Restored-none : {In : ℕ → Type 0} {d d' : D} → ((m : ℕ) → In m → ⊥) → Restored In d d' d'
  Restored-none never = record {
    good = λ m l h. absurd (never m h);
    either = λ m l. inr refl;
    frame = λ m l h. refl;
  }

  Restored-trans :
      {In First Second : ℕ → Type 0} {d d' e t : D}
      → Restored First d d' e
      → Restored Second d e t
      → ((m : ℕ) → In m → First m ⊎ Second m)
      → ((m : ℕ) → First m → In m)
      → ((m : ℕ) → Second m → In m)
      → Restored In d d' t
  Restored-trans r q split first second = record {
    good = λ m l h. elim (split m h) [
      | inl a ↦ elim (q.either m l) [ inl x ↦ x | inr y ↦ y ∙ r.good m l a ]
      | inr b ↦ q.good m l b
    ];
    either = λ m l. elim (q.either m l) [
      | inl x ↦ inl x
      | inr y ↦ elim (r.either m l) [ inl x ↦ inl (y ∙ x) | inr x ↦ inr (y ∙ x) ]
    ];
    frame = λ m l no. q.frame m l (λ b. no (second m b)) ∙ r.frame m l (λ a. no (first m a));
  }

  pub Restored-first :
      (Q : ℕ → ℕ → Type 0) (n lo : ℕ) {d d' e t : D}
      → Restored (Q lo) d d' e
      → Restored (Within n (lo + 1) Q) d e t
      → Restored (Within (suc n) lo Q) d d' t
  Restored-first Q n lo r q =
      Restored-trans r q
        (λ m h. elim (ℕ_discrete h.0 lo) [
          | yes e ↦ inl (subst (λ k. Q k m) e h.3)
          | no ne ↦ inr (h.0, omega (arith, h.1), omega (arith, h.2), h.3)
        ])
        (λ m h. (lo, omega arith, omega arith, h))
        (λ m h. (h.0, omega (arith, h.1), omega (arith, h.2), h.3))

  pub Restored-empty : {Q : ℕ → ℕ → Type 0} {lo : ℕ} {d d' : D} → Restored (Within 0 lo Q) d d' d'
  Restored-empty = Restored-none (λ m h. absurd (omega (arith, h.1, h.2)))

  pub Restored-in :
      {In Out : ℕ → Type 0} {d d' t : D}
      → ((m : ℕ) → Out m → In m)
      → ((m : ℕ) → In m → Out m)
      → Restored In d d' t
      → Restored Out d d' t
  Restored-in to from r = record {
    good = λ m l h. r.good m l (to m h);
    either = r.either;
    frame = λ m l h. r.frame m l (λ x. h (from m x));
  }

  abbrev pub InPage : Block → ℕ → ℕ → Type 0
  InPage b j m = 8 * m ≡ page_lba b j

  abbrev pub InBlock : File → ℕ → ℕ → Type 0
  InBlock f k = Within deg 0 (InPage (f.block k))

  abbrev pub InFile : Fs → ℕ → ℕ → Type 0
  InFile s i m = ((s.file i).name ≢ []) × Within (int_n_block (s.file i)) 0 (InBlock (s.file i)) m

  -- The addresses of a file's pages, and those of all files.
  abbrev pub InNamed : Fs → ℕ → Type 0
  InNamed s = Within max_files 0 (InFile s)

  module _ (drive-IsDrive : IsDrive drive) (d : D) where
    write_req-Restored :
        (b : Block) (j : ℕ) (d' : D)
        → IsBlock b
        → j < deg
        → Restored
            (λ m. 8 * m ≡ page_lba b j)
            d
            d'
            (drive.write_req (page_lba b j) num_blk (drive.read_req (page_lba b j) num_blk d) d')
    write_req-Restored b j d' live low = record {
      good = λ m l e. here m e;
      either = λ m l. elim (ℕ_discrete (8 * m) (page_lba b j)) [
        | yes e ↦ inl (here m e)
        | no ne ↦ inr (there m l ne)
      ];
      frame = there;
    }
      where
        t : D
        t = drive.write_req (page_lba b j) num_blk (drive.read_req (page_lba b j) num_blk d) d'

        here : (m : ℕ) → 8 * m ≡ page_lba b j → Same (8 * m) d t
        here m e = subst (λ lba. Same lba d t) (sym e) (drive-IsDrive.same _ _ _ _ _)

        there : (m : ℕ) → m < 2 ^ 29 → 8 * m ≢ page_lba b j → Same (8 * m) d' t
        there m l ne =
            let (e, k) = page_lba-IsBlock b j live low in
            subst
              (λ lba.
                drive.read_req (8 * m) num_blk
                  (drive.write_req lba num_blk (drive.read_req (page_lba b j) num_blk d) d')
                ≡ drive.read_req (8 * m) num_blk d')
              (sym e)
              (drive-IsDrive.elsewhere (page_of b j) m _ d' k l (λ q. omega (arith, q, e, ne)))

    pub write_block-Restored :
        (n j : ℕ) (b : Block) (d' : D)
        → IsBlock b
        → j + n ≤ deg
        → Restored
            (Within n j (InPage b))
            d
            d'
            (write_block drive (read_block drive n j b d) j b d')
    unfolding write_block read_block
    write_block-Restored zero j b d' live low = Restored-empty
    write_block-Restored (suc n) j b d' live low =
        Restored-first (InPage b) n j (write_req-Restored b j d' live (omega arith))
          (write_block-Restored n (j + 1) b _ live (omega arith))
