-- ===== src/Threads/Fifo.antt =====
-- `MyFIFO` of mylib/myfifo.hpp with the depth that mylib/mylib.c gives it. A push is two steps, as other
-- threads see it: the compare-and-swap claims an entry, and then the entry is written.
use staut.Prelude.{ℕ, ◌+◌, ◌%◌, Bool, true, false, ◌==◌, if◌then◌else◌, Option, none, some, update}

-- `que` holds pointers.
pub record Fifo : Type 0 where
  pub wp : ℕ
  pub rp : ℕ
  pub que : ℕ → ℕ

-- The constructor; `que` is not set.
unfoldable pub init : Fifo → Fifo
init q = record q { wp = 0; rp = 0 }

-- `qd` is the template's QD, which the build sets.
module _ (qd : ℕ) where
  -- The first part of `push`, up to the compare-and-swap; `none` is a full queue. The answer is `old_wp`.
  unfoldable pub claim : Fifo → Option (ℕ × Fifo)
  claim q = if (q.wp + 1) % qd == q.rp then none else some (q.wp, record q { wp = (q.wp + 1) % qd })

  -- `que[old_wp] = entry`
  unfoldable pub fill : ℕ → ℕ → Fifo → Fifo
  fill old_wp entry q = record q { que = update q.que old_wp entry }

  -- `push` with no other thread between its steps.
  unfoldable pub push : ℕ → Fifo → Bool × Fifo
  unfolding claim fill
  push entry q = elim (claim q) [ none ↦ (false, q) | some r ↦ (true, fill r.0 entry r.1) ]

  -- `pop`; `none` is `nullptr`.
  unfoldable pub pop : Fifo → Option ℕ × Fifo
  pop q = if q.rp == q.wp then (none, q) else (some (q.que q.rp), record q { rp = (q.rp + 1) % qd })
