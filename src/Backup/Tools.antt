-- ===== src/Backup/Tools.antt =====
-- abt_backup/abt_backup.c and abt_backup/abt_restore.c behind `myfs_mount`. The requests are a parameter here: one
-- is done when `nvme_check` says so, and the tools wait for it before they use the buffer.
use staut.Prelude.{
  ℕ, zero, suc, ◌+◌, ◌-◌, ◌*◌, ◌/◌, ◌%◌, ◌^◌, Option, none, some, List, [], ◌∷◌, ◌++◌, ltb,
  if◌then◌else◌, ◌>>=◌,
}
use staut.Fs.State.{Block, inactive, at, File, Fs, block_size, max_files}

-- A drive in state `D`, and `num_blk` sectors from `lba` on as a page of `P`.
pub record Drive (D P : Type 0) : Type 0 where
  pub read_req : (lba num_blk : ℕ) → D → P
  pub write_req : (lba num_blk : ℕ) → P → D → D

-- DEG, the buffers of a round.
abbrev pub deg : ℕ
deg = 512

-- BUF_SIZE/512
abbrev pub num_blk : ℕ
num_blk = 4096 / 512

-- An `int32_t` taken to `uint64_t`.
abbrev blk : Block → ℕ
blk inactive = 2 ^ 64 - 1
blk (at b) = b

unfoldable pub lba_base : Block → ℕ
lba_base b = (blk b * block_size % 2 ^ 64) / 512

-- The address of buffer `j`. The loop over `offset` has one round, since `8 * DEG` is a whole block.
abbrev pub page_lba : Block → ℕ → ℕ
page_lba b j = lba_base b + 8 * j

-- `int n_block = superblock->file[i].n_block`, as the bound of a loop from 0.
abbrev pub int_n_block : File → ℕ
int_n_block f = let n = f.n_block % 2 ^ 32 in if ltb n (2 ^ 31) then n else 0

module _ {D P : Type 0} (drive : Drive D P) where
  -- The buffers `j` to `j + n` of a block.
  unfoldable pub read_block : (n j : ℕ) → Block → D → List P
  read_block zero j b d = []
  read_block (suc n) j b d = drive.read_req (page_lba b j) num_blk d ∷ read_block n (j + 1) b d

  -- `append`: `n` blocks are left, from `i_block` on.
  unfoldable pub append : (n i_block : ℕ) → File → D → List P
  unfolding read_block
  append zero i_block f d = []
  append (suc n) i_block f d = read_block deg 0 (f.block i_block) d ++ append n (i_block + 1) f d

  -- The loop of `main` over the files.
  unfoldable pub backup : (n i : ℕ) → Fs → D → List P
  unfolding append
  backup zero i s d = []
  backup (suc n) i s d =
      let rest = backup n (i + 1) s d in
      elim (s.file i).name [
        | [] ↦ rest
        | _ ∷ _ ↦ append (int_n_block (s.file i)) 0 (s.file i) d ++ rest
      ]

  -- What the file holds when pages are written from its start on.
  unfoldable pub overwrite : (new old : List P) → List P
  overwrite [] old = old
  overwrite (p ∷ new) [] = p ∷ new
  overwrite (p ∷ new) (_ ∷ old) = p ∷ overwrite new old

  -- `main` of abt_backup.c. The file is opened without O_TRUNC.
  unfoldable pub backup_main : Fs → D → List P → List P
  unfolding backup overwrite
  backup_main s d old = overwrite (backup max_files 0 s d) old

  -- `n` calls of `read`. At the end of the file a buffer stays as the stack has it: `none`.
  unfoldable pub read_pages : ℕ → List P → Option (List P × List P)
  read_pages zero file = some ([], file)
  read_pages (suc n) [] = none
  read_pages (suc n) (p ∷ file) = read_pages n file >>= λ r. some (p ∷ r.0, r.1)

  unfoldable pub write_block : List P → (j : ℕ) → Block → D → D
  write_block [] j b d = d
  write_block (p ∷ buf) j b d =
      write_block buf (j + 1) b (drive.write_req (page_lba b j) num_blk p d)

  -- `parse`: `n` blocks are left, from `i_block` on.
  unfoldable pub parse : (n i_block : ℕ) → File → List P → D → Option (List P × D)
  unfolding read_pages write_block
  parse zero i_block f file d = some (file, d)
  parse (suc n) i_block f file d = read_pages deg file >>= λ r.
      parse n (i_block + 1) f r.1 (write_block r.0 0 (f.block i_block) d)

  -- The loop of `main` of abt_restore.c over the files.
  unfoldable pub restore : (n i : ℕ) → Fs → List P → D → Option (List P × D)
  unfolding parse
  restore zero i s file d = some (file, d)
  restore (suc n) i s file d = elim (s.file i).name [
    | [] ↦ restore n (i + 1) s file d
    | _ ∷ _ ↦
        parse (int_n_block (s.file i)) 0 (s.file i) file d >>= λ r. restore n (i + 1) s r.0 r.1
  ]

  -- `main` of abt_restore.c, up to `close`.
  unfoldable pub restore_main : Fs → List P → D → Option (List P × D)
  unfolding restore
  restore_main s file d = restore max_files 0 s file d
