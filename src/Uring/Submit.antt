-- ===== src/Uring/Submit.antt =====
-- What `iouring_op` of mylib/iouringlib.c puts into the submission ring.
use staut.Prelude.{
  ℕ, ◌+◌, ◌%◌, ◌^◌, ◌<◌, ◌≡◌, refl, ap, subst, ◌∙◌, ◌≢◌, arith, ==-false, some, update, update_ne,
  update_self,
}
use staut.Uring.Rings.{Submitter, succ, pending, iouring_op}

-- IOURING_DEPTH
abbrev pub iouring_depth : ℕ
iouring_depth = 1024

-- What the request at the tail leaves.
abbrev pub submitted : Submitter → ℕ → ℕ → ℕ → ℕ → ℕ → Submitter
submitted s op fd buf count off = record s {
  sq_tail = succ s.sq_tail;
  sqes = update s.sqes (s.sq_tail % s.sq_entries) (record {
    opcode = op;
    fd = fd;
    addr = buf;
    len = count % 2 ^ 32;
    off = off;
    user_data = s.sq_tail % s.sq_entries;
  });
  done_flag = update s.done_flag (s.sq_tail % s.sq_entries) 0;
}

pub iouring_op-submitted :
    (s : Submitter) (op fd buf count off : ℕ)
    → succ s.sq_tail ≢ s.sq_head
    → iouring_op s op fd buf count off
      ≡ some (s.sq_tail % s.sq_entries, submitted s op fd buf count off)
unfolding iouring_op
iouring_op-submitted s op fd buf count off ne = rw (==-false (succ s.sq_tail) s.sq_head ne) refl

-- With fewer than IOURING_DEPTH requests between head and tail, `iouring_op` answers the index of an
-- entry within the ring. That entry holds the request, whose count fits 32 bits, under its own index, and
-- is not done. Each request that was waiting is left as it was, and one more is waiting.
pub iouring_op-keeps :
    (s : Submitter) (op fd buf count off : ℕ)
    → s.sq_entries ≡ iouring_depth
    → s.sq_head < 2 ^ 32
    → s.sq_tail < 2 ^ 32
    → pending s.sq_head s.sq_tail < iouring_depth
    → count < 2 ^ 32
    → (index : ℕ) × (t : Submitter) × (iouring_op s op fd buf count off ≡ some (index, t))
      × (index < iouring_depth)
      × (t.sqes index
          ≡ record { opcode = op; fd = fd; addr = buf; len = count; off = off; user_data = index })
      × (t.done_flag index ≡ 0)
      × ((k : ℕ)
          → k < pending s.sq_head s.sq_tail
          → t.sqes ((s.sq_head + k) % iouring_depth) ≡ s.sqes ((s.sq_head + k) % iouring_depth))
      × (pending t.sq_head t.sq_tail ≡ pending s.sq_head s.sq_tail + 1)
iouring_op-keeps s op fd buf count off m h t room small =
    let fits : count % 2 ^ 32 ≡ count = omega (arith, small) in
    let i : s.sq_tail % s.sq_entries ≡ s.sq_tail % iouring_depth =
      ap (λ (n : ℕ). s.sq_tail % n) m in
    (
      s.sq_tail % s.sq_entries,
      submitted s op fd buf count off,
      iouring_op-submitted s op fd buf count off (λ e. omega arith),
      omega (arith, i),
      rw (update_self s.sqes (s.sq_tail % s.sq_entries), fits) refl,
      ground arith,
      λ k waits.
          update_ne s.sqes (s.sq_tail % s.sq_entries) _ ((s.sq_head + k) % iouring_depth)
            (λ e. omega (arith, i, waits)),
      omega arith,
    )

-- With IOURING_DEPTH requests waiting the ring is not seen to be full: the request takes the place of
-- the first that waits.
iouring_op-when_full :
    (s : Submitter) (op fd buf count off : ℕ)
    → s.sq_entries ≡ iouring_depth
    → s.sq_head < 2 ^ 32
    → s.sq_tail < 2 ^ 32
    → pending s.sq_head s.sq_tail ≡ iouring_depth
    → (t : Submitter) × (iouring_op s op fd buf count off ≡ some (s.sq_head % iouring_depth, t))
      × (t.sqes (s.sq_head % iouring_depth) ≡ record {
        opcode = op;
        fd = fd;
        addr = buf;
        len = count % 2 ^ 32;
        off = off;
        user_data = s.sq_head % iouring_depth;
      })
iouring_op-when_full s op fd buf count off m h t full =
    let i : s.sq_tail % s.sq_entries ≡ s.sq_head % iouring_depth =
      ap (λ (n : ℕ). s.sq_tail % n) m ∙ omega arith in
    (
      submitted s op fd buf count off,
      iouring_op-submitted s op fd buf count off (λ e. omega arith)
          ∙ ap (λ (n : ℕ). some (n, submitted s op fd buf count off)) i,
      subst
          (λ n. (submitted s op fd buf count off).sqes n ≡ record {
            opcode = op;
            fd = fd;
            addr = buf;
            len = count % 2 ^ 32;
            off = off;
            user_data = n;
          })
          i (ground arith),
    )
