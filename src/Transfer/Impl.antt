-- ===== src/Transfer/Impl.antt =====
-- The loops of `read_impl` and `write_impl` of mylib/hook.c. `deg` is READ_DEG or WRITE_DEG.
use staut.Prelude.{
  ℕ, zero, suc, ◌+◌, ◌-◌, ◌%◌, true, false, List, [], ◌∷◌, Option, none, some, ltb, leb, ◌==◌, ◌^◌,
  ◌&&◌, Bool, if◌then◌else◌, ◌>>=◌, ◌>>◌, assert, length,
}
use staut.Fs.State.{Fs, get_size}
use staut.Fs.Ops.{get_lba, increment_ref, decrement_ref}
use staut.Transfer.Request.{Request, Batch, request_at, read_blksz, write_blksz}

module _ (fd pos len blksz : ℕ) where
  -- The `for` loop of `read_impl`: `n` requests may still be issued. The answer is the requests and
  -- the next `j`.
  unfoldable pub read_batch : ℕ → Fs → ℕ → Option (List Request × ℕ)
  read_batch zero s j = some ([], j)
  read_batch (suc n) s j =
      let rest = read_batch n s (j + blksz) in
      if leb len j then some ([], j) else (do
        lba ← (get_lba s fd (pos + j) false).0
        (rs, j') ← rest
        some (request_at lba len blksz j ∷ rs, j'))

  -- The `while` loop of `read_impl`: all requests of the batch are awaited. `none` is a failed
  -- assertion of `myfs_get_lba`, or no fuel.
  unfoldable pub read_loop : ℕ → ℕ → Fs → ℕ → Option (List Batch)
  unfolding read_batch
  read_loop zero deg s j = if ltb j len then none else some []
  read_loop (suc fuel) deg s j =
      let round = read_batch deg s j >>= λ r. read_loop fuel deg s r.1 >>= λ bs.
      some (record { requests = r.0; awaited = length r.0 } ∷ bs) in
      if ltb j len then round else some []

  -- What the `for` loop of `write_impl` leaves: the requests, `rq_k`, `j` and the file system.
  pub record Written : Type 0 where
    pub requests : List Request
    pub rq_k : ℕ
    pub next : ℕ
    pub fs : Fs

  -- The `for` loop of `write_impl`: `break` leaves `rq_k` at the request just issued.
  unfoldable pub write_batch : ℕ → Fs → ℕ → Option Written
  write_batch zero s j = some (record { requests = []; rq_k = 0; next = j; fs = s })
  write_batch (suc n) s j =
      let found = get_lba s fd (pos + j) true in
      found.0 >>= λ lba.
      let rest = write_batch n found.1 (j + blksz) in
      if leb len (j + blksz)
      then some (record {
        requests = request_at lba len blksz j ∷ [];
        rq_k = 0;
        next = j + blksz;
        fs = found.1;
      })
      else (rest >>= λ w.
          some (record w { requests = request_at lba len blksz j ∷ w.requests; rq_k = w.rq_k + 1 }))

  -- The `while` loop of `write_impl`: the first `rq_k` requests of the batch are awaited.
  unfoldable pub write_loop : ℕ → ℕ → Fs → ℕ → Option (List Batch × Fs)
  unfolding write_batch
  write_loop zero deg s j = if ltb j len then none else some ([], s)
  write_loop (suc fuel) deg s j =
      let round = write_batch deg s j >>= λ w. write_loop fuel deg w.fs w.next >>= λ r.
      some (record { requests = w.requests; awaited = w.rq_k } ∷ r.0, r.1) in
      if ltb j len then round else some ([], s)

-- The length that is read: not beyond the end of the file.
unfoldable pub clip : ℕ → ℕ → ℕ → ℕ
clip size pos len = if ltb size (pos + len) then size - pos else len

-- `j` is an `int` and `pos + len` a `loff_t`: whether no sum leaves them, where `n` bytes are transferred.
abbrev pub no_overflow : ℕ → ℕ → ℕ → Bool
no_overflow n pos len = ltb (n + 4096) (2 ^ 31) && ltb (pos + len) (2 ^ 63)

-- `read_impl`. `none` is also an overflow, which C leaves undefined. Each round of the loop advances `j`, so `len` rounds are enough.
unfoldable pub read_impl : ℕ → Fs → ℕ → ℕ → ℕ → Option (List Batch × Fs)
unfolding clip
read_impl deg s fd len pos =
    let t = (increment_ref s fd).1 in
    let n = clip (get_size t fd) pos len in
    assert (no_overflow n pos len)
    >> assert (pos % 512 == 0)
    >> (read_loop fd pos n (read_blksz n pos) n deg t 0 >>= λ bs. some (bs, decrement_ref t fd))

-- `write_impl`, with the same meaning of `none`.
unfoldable pub write_impl : ℕ → Fs → ℕ → ℕ → ℕ → Option (List Batch × Fs)
write_impl deg s fd len pos =
    let t = (increment_ref s fd).1 in
    assert (no_overflow len pos len)
    >> assert (pos % 512 == 0)
    >> (write_loop fd pos len (write_blksz len pos) len deg t 0 >>= λ r.
        some (r.0, decrement_ref r.1 fd))
