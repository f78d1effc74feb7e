-- ===== src/Transfer/Request.antt =====
-- The arguments of `nvme_read_req` and `nvme_write_req` in mylib/hook.c, and the choice of the size
-- of a request.
use staut.Prelude.{
  ℕ, ◌+◌, ◌-◌, ◌/◌, ◌%◌, List, [], ◌∷◌, if◌then◌else◌, ◌==◌, not, ◌||◌, leb, length, min,
}

-- BLKSZ
abbrev pub blksz_max : ℕ
blksz_max = 4096

-- DIV_CEIL
abbrev pub div_ceil : ℕ → ℕ → ℕ
div_ceil x y = (x + y - 1) / y

-- One call of the driver: the address, the number of 512-byte sectors, the length, and the offset
-- `j` in the caller's buffer.
pub record Request : Type 0 where
  pub lba : ℕ
  pub num_blk : ℕ
  pub len : ℕ
  pub buf : ℕ

-- One round of the outer loop: the requests issued, and how many of them, from the first on, are
-- polled until they are done.
pub record Batch : Type 0 where
  pub requests : List Request
  pub awaited : ℕ

-- `((len % BLKSZ != 0) || (pos % BLKSZ != 0)) ? 512 : BLKSZ`
unfoldable pub write_blksz : ℕ → ℕ → ℕ
write_blksz len pos =
    if not (len % blksz_max == 0) || not (pos % blksz_max == 0) then 512 else blksz_max

-- A read that lies in one aligned unit of BLKSZ bytes is one request.
unfoldable pub read_blksz : ℕ → ℕ → ℕ
unfolding write_blksz
read_blksz len pos = if leb (pos % blksz_max + len) blksz_max then len else write_blksz len pos

-- The request at offset `j` of a transfer of `len` bytes in units of `blksz`.
abbrev pub request_at : ℕ → ℕ → ℕ → ℕ → Request
request_at lba len blksz j = record {
  lba = lba;
  num_blk = div_ceil blksz 512;
  len = min blksz (len - j);
  buf = j;
}

-- All requests of a transfer, and how many of them are awaited.
unfoldable pub issued : List Batch → ℕ
issued [] = 0
issued (b ∷ bs) = length b.requests + issued bs

unfoldable pub awaited_in : List Batch → ℕ
awaited_in [] = 0
awaited_in (b ∷ bs) = b.awaited + awaited_in bs
