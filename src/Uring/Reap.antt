-- ===== src/Uring/Reap.antt =====
-- What `iouring_check` of mylib/iouringlib.c takes from the completion ring.
use staut.Prelude.{
  ℕ, zero, suc, ◌+◌, ◌%◌, ◌^◌, ◌≤◌, ◌<◌, ◌≡◌, refl, ◌≢◌, ap, ap₂, ◌∙◌, arith, ◌==◌, ==-false,
  if◌then◌else◌, List, [], ◌∷◌, length, update,
}
use staut.Uring.Rings.{
  Res, answered, refused, Cqe, Submitter, succ, Checked, reaped, stopped, entry, check_loop,
  pending, iouring_check,
}

-- How the entries from `head` on end: at the tail, or at an entry that reports an error.
pub data End : Type 0 where
  at_tail : End
  at_error : End

-- The requests whose answers stand in the ring from `head` on, in order, up to that end.
abbrev pub Ready : (ℕ → Cqe) → ℕ → ℕ → End → ℕ → List ℕ → Type 0
Ready cqes m tail at_tail head [] = head ≡ tail
Ready cqes m tail at_error head [] = (head ≢ tail) × (e : ℕ) × ((cqes (head % m)).res ≡ refused e)
Ready cqes m tail end head (c ∷ cs) =
    (head ≢ tail)
    × ((cqes (head % m)).user_data ≡ c)
    × (r : ℕ) × ((cqes (head % m)).res ≡ answered r)
    × Ready cqes m tail end (succ head) cs

-- The flags when the requests are marked as done.
abbrev pub mark : (ℕ → ℕ) → List ℕ → ℕ → ℕ
mark flags [] = flags
mark flags (c ∷ cs) = mark (update flags c 1) cs

-- What a check answers, and the ring's head after it.
abbrev pub answer_of : End → ℕ → Checked
answer_of at_tail n = reaped n
answer_of at_error n = stopped

abbrev pub head_of : End → ℕ → ℕ → ℕ
head_of at_tail head tail = tail
head_of at_error head tail = head

-- The head that the loop stores.
abbrev stored : End → ℕ → ℕ → ℕ → ℕ
stored at_tail n head tail = if n == 0 then head else tail
stored at_error n head tail = head

check_loop-Ready :
    (end : End) (cs : List ℕ) (fuel head n : ℕ) (s : Submitter)
    → Ready s.cqes s.cq_entries s.cq_tail end head cs
    → length cs < fuel
    → check_loop fuel head n s ≡ (
      answer_of end (n + length cs),
      record s {
        cq_head = stored end (n + length cs) s.cq_head s.cq_tail;
        done_flag = mark s.done_flag cs;
      },
    )
unfolding check_loop
check_loop-Ready end cs zero head n s h l = absurd (omega arith)
check_loop-Ready at_tail [] (suc fuel) head n s h l = ground (arith, h)
check_loop-Ready at_error [] (suc fuel) head n s (ne, e, h) l =
    rw (==-false head s.cq_tail ne, check_loop, h) refl
check_loop-Ready end (c ∷ cs) (suc fuel) head n s (ne, u, r, h, rest) l =
    rw (==-false head s.cq_tail ne, check_loop, h)
      (check_loop-Ready end cs fuel (succ head) (n + 1)
          (record s { done_flag = update s.done_flag (entry s head).user_data 1 }) rest
          (omega arith)
        ∙ ap₂
            (λ (k d : ℕ). (
              answer_of end k,
              record s {
                cq_head = stored end k s.cq_head s.cq_tail;
                done_flag = mark (update s.done_flag d 1) cs;
              },
            ))
            (omega arith) u)

-- Every content of the ring has such an end.
record Finds (s : Submitter) (head bound : ℕ) : Type 0 where
  end : End
  cids : List ℕ
  ready : Ready s.cqes s.cq_entries s.cq_tail end head cids
  short : length cids ≤ bound

Finds-by :
    {m : ℕ} {s : Submitter} {head : ℕ}
    → Finds s (succ head) m
    → (r : Res) → (entry s head).res ≡ r
    → head ≢ s.cq_tail
    → Finds s head (suc m)
Finds-by rest (refused x) q ne = record {
  end = at_error;
  cids = [];
  ready = (ne, x, q);
  short = omega arith;
}
Finds-by {s = s} {head = head} rest (answered x) q ne = record {
  end = rest.end;
  cids = (entry s head).user_data ∷ rest.cids;
  ready = (ne, refl, x, q, rest.ready);
  short = omega (arith, rest.short);
}

-- At the tail the head that is stored is the tail, also if no entry was taken.
stored_head :
    (end : End) (cs : List ℕ) (head : ℕ) (s : Submitter)
    → Ready s.cqes s.cq_entries s.cq_tail end head cs
    → stored end (0 + length cs) head s.cq_tail ≡ head_of end head s.cq_tail
stored_head at_tail [] head s h = ground (arith, h)
stored_head at_tail (c ∷ cs) head s h = ground arith
stored_head at_error cs head s h = refl

finds :
    (m : ℕ) (s : Submitter) (head : ℕ)
    → head < 2 ^ 32
    → s.cq_tail < 2 ^ 32
    → pending head s.cq_tail ≡ m
    → Finds s head m
finds zero s head h t e = record {
  end = at_tail;
  cids = [];
  ready = omega arith;
  short = omega arith;
}
finds (suc m) s head h t e =
    Finds-by (finds m s (succ head) (omega arith) t (omega arith)) (entry s head).res refl
      (λ p. omega arith)

-- A check of the completion ring ends, whatever the ring holds. It marks the requests whose answers stand in
-- the ring as done, in order, up to the ring's tail or to the first answer that reports an error. At the
-- tail it returns how many it took and moves the head there; at an error it returns -1 and leaves the
-- head where it was.
pub iouring_check-Ready :
    (s : Submitter)
    → s.cq_head < 2 ^ 32
    → s.cq_tail < 2 ^ 32
    → (end : End) × (cs : List ℕ) × Ready s.cqes s.cq_entries s.cq_tail end s.cq_head cs
      × (iouring_check s ≡ (
        answer_of end (length cs),
        record s { cq_head = head_of end s.cq_head s.cq_tail; done_flag = mark s.done_flag cs },
      ))
unfolding iouring_check
iouring_check-Ready s h t =
    let found = finds (pending s.cq_head s.cq_tail) s s.cq_head h t refl in
    (
      found.end,
      found.cids,
      found.ready,
      check_loop-Ready found.end found.cids _ s.cq_head 0 s found.ready (omega (arith, found.short))
          ∙ ap₂
              (λ (k x : ℕ). (
                answer_of found.end k,
                record s { cq_head = x; done_flag = mark s.done_flag found.cids },
              ))
              (omega arith) (stored_head found.end found.cids s.cq_head s found.ready),
    )

stopped_again :
    (end : End) (cs : List ℕ) (s : Submitter)
    → Ready s.cqes s.cq_entries s.cq_tail end s.cq_head cs
    → length cs ≤ pending s.cq_head s.cq_tail
    → (iouring_check s).0 ≡ stopped
    → ((iouring_check s).1.cq_head ≡ s.cq_head) × ((iouring_check (iouring_check s).1).0 ≡ stopped)
unfolding iouring_check
stopped_again at_tail cs s r l e = absurd (
    cc (
      e,
      ap (λ (x : Checked × Submitter). x.0)
          (check_loop-Ready at_tail cs (pending s.cq_head s.cq_tail + 1) s.cq_head 0 s r
            (omega arith)),
    ))
stopped_again at_error cs s r l e =
    let first =
      check_loop-Ready at_error cs (pending s.cq_head s.cq_tail + 1) s.cq_head 0 s r
        (omega arith) in
    (
      ap (λ (x : Checked × Submitter). x.1.cq_head) first,
      ap (λ (x : Checked × Submitter). (iouring_check x.1).0) first
          ∙ ap (λ (x : Checked × Submitter). x.0)
              (check_loop-Ready at_error cs (pending s.cq_head s.cq_tail + 1) s.cq_head 0
                (record s { done_flag = mark s.done_flag cs }) r (omega arith)),
    )

-- After a check that returns -1 the head is where it was, and the next check returns -1 too.
pub iouring_check-stopped :
    (s : Submitter)
    → s.cq_head < 2 ^ 32
    → s.cq_tail < 2 ^ 32
    → (iouring_check s).0 ≡ stopped
    → ((iouring_check s).1.cq_head ≡ s.cq_head) × ((iouring_check (iouring_check s).1).0 ≡ stopped)
iouring_check-stopped s h t e =
    let found = finds (pending s.cq_head s.cq_tail) s s.cq_head h t refl in
    stopped_again found.end found.cids s found.ready found.short e
