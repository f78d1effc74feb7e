-- ===== src/Uring/Rings.antt =====
-- `struct submitter` of mylib/iouringlib.h and the operations of mylib/iouringlib.c on it. The kernel is the
-- other side of the rings: it moves `sq_head` and `cq_tail` and writes `cqes`.
use staut.Prelude.{
  ℕ, zero, suc, ◌+◌, ◌-◌, ◌%◌, ◌^◌, true, false, ◌==◌, if◌then◌else◌, Option, none, some, update,
  ◌>>=◌,
}

-- `res`: negative ones are error numbers.
pub data Res : Type 0 where
  answered : ℕ → Res
  refused : ℕ → Res

-- `struct io_uring_cqe`
pub record Cqe : Type 0 where
  pub user_data : ℕ
  pub res : Res

-- What `iouring_op` writes into a `struct io_uring_sqe`, but for the fields that it sets to 0.
pub record Sqe : Type 0 where
  pub opcode : ℕ
  pub fd : ℕ
  pub addr : ℕ
  pub len : ℕ
  pub off : ℕ
  pub user_data : ℕ

-- The heads and tails are `unsigned` counters that wrap at 2 ^ 32. `ring_mask` is the number of entries
-- less 1, and that number a power of two, so `& ring_mask` is the remainder.
pub record Submitter : Type 0 where
  pub sq_head : ℕ
  pub sq_tail : ℕ
  pub sq_entries : ℕ
  pub sqes : ℕ → Sqe
  pub cq_head : ℕ
  pub cq_tail : ℕ
  pub cq_entries : ℕ
  pub cqes : ℕ → Cqe
  pub done_flag : ℕ → ℕ

-- The counter behind `x`.
abbrev pub succ : ℕ → ℕ
succ x = (x + 1) % 2 ^ 32

-- What `iouring_check` returns; `stopped` is -1.
pub data Checked : Type 0 where
  reaped : ℕ → Checked
  stopped : Checked

abbrev pub entry : Submitter → ℕ → Cqe
entry s head = s.cqes (head % s.cq_entries)

-- The loop of `iouring_check`, at `head` with `n` entries reaped.
unfoldable pub check_loop : ℕ → ℕ → ℕ → Submitter → Checked × Submitter
check_loop zero head n s = (reaped n, s)
check_loop (suc fuel) head n s = elim (head == s.cq_tail) [
  | true ↦ (reaped n, if n == 0 then s else record s { cq_head = head })
  | false ↦ elim (entry s head).res [
    | refused e ↦ (stopped, s)
    | answered r ↦
        check_loop fuel (succ head) (n + 1)
          (record s { done_flag = update s.done_flag (entry s head).user_data 1 })
  ]
]

-- The entries between the head and the tail of the completion ring.
abbrev pub pending : ℕ → ℕ → ℕ
pending head tail = (tail + 2 ^ 32 - head) % 2 ^ 32

-- `iouring_check`: each round but the last takes one pending entry.
unfoldable pub iouring_check : Submitter → Checked × Submitter
unfolding check_loop
iouring_check s = check_loop (pending s.cq_head s.cq_tail + 1) s.cq_head 0 s

-- `iouring_get_sqe`; `none` is -1.
unfoldable pub iouring_get_sqe : Submitter → Option (ℕ × Submitter)
iouring_get_sqe s =
    if succ s.sq_tail == s.sq_head
    then none
    else some (s.sq_tail % s.sq_entries, record s { sq_tail = succ s.sq_tail })

-- `iouring_op`. `len` has 32 bits.
unfoldable pub iouring_op : Submitter → ℕ → ℕ → ℕ → ℕ → ℕ → Option (ℕ × Submitter)
unfolding iouring_get_sqe
iouring_op s op fd buf count off = iouring_get_sqe s >>= λ r.
    let index = r.0 in
    some (
      index,
      record r.1 {
        sqes = update r.1.sqes index (record {
          opcode = op;
          fd = fd;
          addr = buf;
          len = count % 2 ^ 32;
          off = off;
          user_data = index;
        });
        done_flag = update r.1.done_flag index 0;
      },
    )

-- `iouring_setup`, behind the mapping of the rings; `array[i]` is `i` from then on. The kernel gives the
-- rings empty, with their number of entries.
unfoldable pub iouring_setup : ℕ → ℕ → (ℕ → Sqe) → (ℕ → Cqe) → Submitter
iouring_setup sq_entries cq_entries sqes cqes = record {
  sq_head = 0;
  sq_tail = 0;
  sq_entries = sq_entries;
  sqes = sqes;
  cq_head = 0;
  cq_tail = 0;
  cq_entries = cq_entries;
  cqes = cqes;
  done_flag = λ _. 1;
}

-- IORING_OP_READ and IORING_OP_WRITE
abbrev pub op_read : ℕ
op_read = 22

abbrev pub op_write : ℕ
op_write = 23

unfoldable pub iouring_read : Submitter → ℕ → ℕ → ℕ → ℕ → Option (ℕ × Submitter)
unfolding iouring_op
iouring_read s fd buf count off = iouring_op s op_read fd buf count off

unfoldable pub iouring_write : Submitter → ℕ → ℕ → ℕ → ℕ → Option (ℕ × Submitter)
unfolding iouring_op
iouring_write s fd buf count off = iouring_op s op_write fd buf count off
