-- ===== src/Transfer/Shape.antt =====
-- What a sound request of `read_impl` and `write_impl` in mylib/hook.c is.
use staut.Prelude.{
  subst, sym, ◌++◌, ℕ, ◌+◌, ◌*◌, ◌/◌, ◌%◌, ◌≤◌, ◌<◌, ◌≡◌, ◌⊎◌, arith, List, [], ◌∷◌,
}
use staut.Fs.State.{Block, block_size, at}
use staut.Fs.Ops.{lba_of}
use staut.Transfer.Request.{Request, Batch, request_at, read_blksz, write_blksz}

-- `pos + j` begins a sector, and a unit from it on stays in its 4096-byte unit.
abbrev pub Fits : ℕ → ℕ → ℕ → Type 0
Fits pos blksz j = ((pos + j) % 512 ≡ 0) × ((pos + j) % 4096 + blksz ≤ 4096)

-- The sizes that the code chooses.
abbrev pub UnitSize : ℕ → ℕ → ℕ → Type 0
UnitSize len pos blksz =
    (blksz ≡ 512)
    ⊎ ((blksz ≡ 4096) × (pos % 4096 ≡ 0))
    ⊎ ((blksz ≡ len) × (pos % 4096 + len ≤ 4096))

pub write_blksz-UnitSize : (len pos : ℕ) → UnitSize len pos (write_blksz len pos)
unfolding write_blksz
write_blksz-UnitSize len pos = ground arith

pub read_blksz-UnitSize : (len pos : ℕ) → UnitSize len pos (read_blksz len pos)
unfolding read_blksz
read_blksz-UnitSize len pos = ground arith

-- The first request fits, and with one request every later one that is issued.
pub Fits-first : (len pos blksz : ℕ) → pos % 512 ≡ 0 → UnitSize len pos blksz → Fits pos blksz 0
Fits-first len pos blksz h u = omega arith

-- If a request fits and is not the last, the next one fits.
pub Fits-next :
    (len pos blksz j : ℕ)
    → UnitSize len pos blksz
    → j + blksz < len
    → Fits pos blksz j
    → Fits pos blksz (j + blksz)
Fits-next len pos blksz j u h f = omega arith

-- A request of a transfer of `len` bytes at `pos`, for the block number `b`: it is not empty and stays
-- within the buffer, it transfers enough sectors and at most one unit of 4096 bytes of the device, and
-- its bytes lie in one block of the file, at the address of their first one.
pub record IsSound (pos len b : ℕ) (r : Request) : Type 0 where
  pub nonempty : 0 < r.len
  pub in_buffer : r.buf + r.len ≤ len
  pub enough : r.len ≤ r.num_blk * 512
  pub one_unit : r.lba % 8 + r.num_blk ≤ 8
  pub one_block : (pos + r.buf) % block_size + r.len ≤ block_size
  pub address : r.lba * 512 ≡ b * block_size + (pos + r.buf) % block_size

pub UnitSize-pos : (len pos blksz j : ℕ) → UnitSize len pos blksz → j < len → 0 < blksz
UnitSize-pos len pos blksz j u h = omega arith

pub request_at-IsSound :
    (len pos blksz j b : ℕ)
    → UnitSize len pos blksz
    → j < len
    → Fits pos blksz j
    → IsSound pos len b (request_at (lba_of b (pos + j)) len blksz j)
request_at-IsSound len pos blksz j b u h f = record {
  nonempty = omega arith;
  in_buffer = omega arith;
  enough = omega arith;
  one_unit = omega arith;
  one_block = omega arith;
  address = omega arith;
}

-- The requests transfer the bytes from `j` up to `e` of the buffer, in order and without gaps.
abbrev pub Covers : ℕ → List Request → ℕ → Type 0
Covers j [] e = j ≡ e
Covers j (r ∷ rs) e = (r.buf ≡ j) × Covers (j + r.len) rs e

pub Covers-append :
    (j m e : ℕ) (rs ts : List Request) → Covers j rs m → Covers m ts e → Covers j (rs ++ ts) e
Covers-append j m e [] ts h k = subst (λ i. Covers i ts e) (sym h) k
Covers-append j m e (r ∷ rs) ts h k = (h.0, Covers-append (j + r.len) m e rs ts h.1 k)

-- All requests of a list of batches.
abbrev pub requests_of : List Batch → List Request
requests_of [] = []
requests_of (b ∷ bs) = b.requests ++ requests_of bs

abbrev pub All {ℓ κ} : {A : Type ℓ} → (A → Type κ) → List A → Type κ
All P [] = Unit
All P (x ∷ xs) = P x × All P xs

pub All-append {ℓ κ} :
    {A : Type ℓ} (P : A → Type κ) (xs ys : List A) → All P xs → All P ys → All P (xs ++ ys)
All-append P [] ys h k = k
All-append P (x ∷ xs) ys h k = (h.0, All-append P xs ys h.1 k)

-- A request that is sound for the block that the file's map has at its offset.
abbrev pub Sound : (ℕ → Block) → ℕ → ℕ → Request → Type 0
Sound block pos len r = (b : ℕ) × (block ((pos + r.buf) / block_size) ≡ at b) × IsSound pos len b r
