-- ===== src/Nvme/Admin.antt =====
-- A command of the admin queue pair of mylib/nvme.cc, with a drive that completes the command announced
-- last before the poll of number `wait`.
use native.Mathlib.Nat.{mod-lt}
use staut.Prelude.{
  ℕ, zero, suc, ◌+◌, ◌%◌, ◌≤◌, ◌<◌, ◌≡◌, refl, sym, ap, ◌∙◌, ◌≢◌, arith, true, Option, some, [],
  ◌∷◌, ◌==◌, if◌then◌else◌, update, update_self, update_ne, ==_iff, ==-false, ℕ_discrete,
}
use staut.Nvme.Qp.{Qp, Sqe, new_qp, new_sqe, await_slot, check_cq, is_done}
use staut.Nvme.Polled.{check_cq_fields}
use staut.Nvme.Window.{Window, Window-post, Window-polled, slot_lt, lap_lt, slot_zero, lap_zero}
use staut.Nvme.Setup.{await_done, req_and_wait, admin}

-- The drive posts one completion, at the head that the driver polls.
abbrev pub answers : ℕ → ℕ → Qp → Qp
answers wait k q =
    if k == wait
    then record q {
      cqes = update q.cqes q.cq_head (record { cid = (q.sq_doorbell + 7) % 8; phase = q.cq_phase });
    }
    else q

-- No command is in flight, and no completion stands in the queue.
pub record IsIdle (q : Qp) : Type 0 where
  pub sized : q.n_sqe ≡ 8
  pub tail_in : q.sq_tail < 8
  pub head_in : q.cq_head < q.n_sqe
  pub bit : q.cq_phase < 2
  pub window : Window q.n_sqe q.cqes q.cq_head q.cq_phase []
  pub free : (i : ℕ) → q.done_flag i ≢ 0
  pub blank : (i : ℕ) → (q.sqes i).cdw12 ≡ 0

pub new_qp-IsIdle : (rbuf : ℕ → Option ℕ) (len : ℕ → ℕ) → IsIdle (new_qp 0 rbuf len)
unfolding new_qp
new_qp-IsIdle rbuf len = record {
  sized = refl;
  tail_in = omega arith;
  head_in = omega arith;
  bit = omega arith;
  window = λ k h. ground arith;
  free = λ i z. omega (arith, z);
  blank = λ i. refl;
}

check_cq_idle : (q : Qp) → (q.cqes q.cq_head).phase ≢ q.cq_phase → check_cq q ≡ q
unfolding check_cq
check_cq_idle q h = rw (==-false _ q.cq_phase h) refl

-- One command is in flight and announced.
record IsSent (q : Qp) (cid : ℕ) : Type 0 where
  sized : q.n_sqe ≡ 8
  tail_in : q.sq_tail < 8
  head_in : q.cq_head < q.n_sqe
  bit : q.cq_phase < 2
  window : Window q.n_sqe q.cqes q.cq_head q.cq_phase []
  sent : q.done_flag cid ≡ 0
  free : (i : ℕ) → i ≢ cid → q.done_flag i ≢ 0
  blank : (i : ℕ) → (q.sqes i).cdw12 ≡ 0
  belled : (q.sq_doorbell + 7) % 8 ≡ cid

answered :
    (wait : ℕ) (q : Qp) (cid : ℕ)
    → IsSent q cid
    → (t : Qp) × (check_cq (answers wait wait q) ≡ t) × (is_done t cid ≡ true) × IsIdle t
answered wait q cid v =
    let win =
      rw
        (
          slot_zero q.n_sqe q.cq_head q.cq_phase v.head_in v.bit,
          lap_zero q.n_sqe q.cq_head q.cq_phase v.head_in v.bit,
        )
        at (Window-post q.n_sqe q.cq_head q.cq_phase v.head_in v.bit q.cqes [] cid room v.window) in
    let (d, e) = check_cq_fields posting (cid ∷ []) v.head_in v.bit room win in
    (
      _,
      ap check_cq same ∙ e,
      rw (update_self q.done_flag cid 1) refl,
      record {
        sized = v.sized;
        tail_in = v.tail_in;
        head_in = slot_lt q.n_sqe q.cq_head q.cq_phase v.head_in v.bit 1 room;
        bit = lap_lt q.n_sqe q.cq_head q.cq_phase v.head_in v.bit 1;
        window =
            Window-polled q.n_sqe q.cq_head q.cq_phase v.head_in v.bit posting.cqes (cid ∷ []) room
              win;
        free = λ i z. elim (ℕ_discrete cid i) [
          | yes p ↦ omega (arith, sym (rw (← p) at z) ∙ update_self q.done_flag cid 1)
          | no p ↦ v.free i (λ w. p (sym w)) (sym (update_ne q.done_flag cid 1 i p) ∙ z)
        ];
        blank = v.blank;
      },
    )
  where
    posting : Qp
    posting = record q { cqes = update q.cqes q.cq_head (record { cid = cid; phase = q.cq_phase }) }

    room : 1 ≤ q.n_sqe
    room = omega (arith, v.sized)

    same : answers wait wait q ≡ posting
    same = rw ((==_iff wait wait).1 refl, v.belled) refl

await_done-answers :
    (wait m k fuel : ℕ) (q : Qp) (cid : ℕ)
    → k + m ≡ wait
    → m < fuel
    → IsSent q cid
    → (t : Qp) × (await_done fuel (answers wait) k q cid ≡ some t) × IsIdle t
unfolding await_done
await_done-answers wait m k zero q cid e l v = absurd (omega arith)
await_done-answers wait zero k (suc fuel) q cid e l v =
    let (t, f, d, i) = answered wait q cid v in
    let now : k ≡ wait = omega (arith, e) in (t, rw (now, f, d) refl, i)
await_done-answers wait (suc m) k (suc fuel) q cid e l v =
    let (t, f, i) =
      await_done-answers wait m (k + 1) fuel q cid (omega (arith, e)) (omega arith) v in
    let early : answers wait k q ≡ q = rw (==-false k wait (λ p. omega (arith, p, e))) refl in
    let first =
      rw
        (
          slot_zero q.n_sqe q.cq_head q.cq_phase v.head_in v.bit,
          lap_zero q.n_sqe q.cq_head q.cq_phase v.head_in v.bit,
        )
        at (v.window 0 (omega (arith, v.head_in))) in
    (t, rw (early, check_cq_idle q first, v.sent) f, i)

await_slot-free :
    (fuel : ℕ) (drive : ℕ → Qp → Qp) (q : Qp)
    → q.done_flag q.sq_tail ≢ 0
    → await_slot fuel drive 0 q ≡ some q
unfolding await_slot
await_slot-free zero drive q h = rw (==-false _ 0 h) refl
await_slot-free (suc fuel) drive q h = rw (==-false _ 0 h, await_slot) refl

-- With fuel for `wait` polls a command is carried out: it is the command at the tail with the fields
-- that were set, and the queue pair is idle behind it.
pub admin-answers :
    (wait fuel : ℕ) (fill : ℕ → Sqe → Sqe) (q : Qp)
    → wait < fuel
    → IsIdle q
    → ((cid : ℕ) (e : Sqe) → (fill cid e).cdw12 ≡ e.cdw12)
    → (t : Qp) × (admin fuel (answers wait) fill q ≡ some (fill q.sq_tail (q.sqes q.sq_tail), t))
      × IsIdle t
unfolding admin req_and_wait new_sqe
admin-answers wait fuel fill q l v same =
    let (t, e, i) = await_done-answers wait wait 0 fuel sent q.sq_tail (omega arith) l is_sent in
    (t, rw (await_slot-free fuel (answers wait) q (v.free q.sq_tail), e) refl, i)
  where
    c : Sqe
    c = fill q.sq_tail (q.sqes q.sq_tail)

    sent : Qp
    sent = record q {
      done_flag = update q.done_flag q.sq_tail 0;
      sq_tail = (q.sq_tail + 1) % q.n_sqe;
      sqes = update q.sqes q.sq_tail c;
      sq_doorbell = (q.sq_tail + 1) % q.n_sqe;
    }

    is_sent : IsSent sent q.sq_tail
    is_sent = record {
      sized = v.sized;
      tail_in = rw v.sized (mod-lt (q.sq_tail + 1) (omega arith));
      head_in = v.head_in;
      bit = v.bit;
      window = v.window;
      sent = update_self q.done_flag q.sq_tail 0;
      free = λ i p z. v.free i (sym (update_ne q.done_flag q.sq_tail 0 i (λ e. p (sym e))) ∙ z);
      blank = λ i. elim (ℕ_discrete q.sq_tail i) [
        | yes p ↦
            rw (← p, update_self q.sqes q.sq_tail c)
              (same q.sq_tail (q.sqes q.sq_tail) ∙ v.blank q.sq_tail)
        | no p ↦ rw (update_ne q.sqes q.sq_tail c i p) (v.blank i)
      ];
      belled = rw v.sized (omega (arith, v.tail_in));
    }
