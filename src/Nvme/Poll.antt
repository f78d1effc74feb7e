-- ===== src/Nvme/Poll.antt =====
-- What a poll of a completion queue in mylib/nvme.cc consumes, and that it ends.
use staut.Prelude.{
  ℕ, zero, suc, ◌+◌, ◌-◌, ◌≤◌, ◌<◌, ◌≡◌, refl, arith, ap, ◌∙◌, ◌≢◌, List, [], ◌∷◌, length, ==_iff,
  ==-false, ℕ_discrete,
}
use staut.Nvme.Qp.{Qp, Cqe, complete, consume, poll, check_cq, next_head, next_phase}

-- The commands whose completions stand in the queue from `head` on, in the order of the entries. The
-- next entry is an old one.
abbrev pub Posted : ℕ → (ℕ → Cqe) → ℕ → ℕ → List ℕ → Type 0
Posted n cqes head phase [] = (cqes head).phase ≢ phase
Posted n cqes head phase (c ∷ cs) =
    ((cqes head).phase ≡ phase)
    × ((cqes head).cid ≡ c)
    × Posted n cqes (next_head n head) (next_phase n head phase) cs

-- The queue pair behind the entry at the head, which completes command `c`.
abbrev pub moved : Qp → ℕ → Qp
moved q c = record (complete q c) {
  cq_head = next_head q.n_sqe q.cq_head;
  cq_phase = next_phase q.n_sqe q.cq_head q.cq_phase;
}

-- The queue pair when the commands are completed in order.
abbrev pub completes : Qp → List ℕ → Qp
completes q [] = q
completes q (c ∷ cs) = completes (moved q c) cs

-- The head is announced to the drive if there was an entry.
abbrev pub polled : Qp → List ℕ → Qp
polled q [] = q
polled q (c ∷ cs) = record (completes q (c ∷ cs)) { cq_doorbell = (completes q (c ∷ cs)).cq_head }

poll-Posted :
    (fuel : ℕ) (q : Qp) (cs : List ℕ)
    → Posted q.n_sqe q.cqes q.cq_head q.cq_phase cs
    → length cs < fuel
    → poll fuel q ≡ completes q cs
unfolding poll consume complete
poll-Posted zero q cs h l = absurd (omega arith)
poll-Posted (suc fuel) q [] h l = rw (==-false _ q.cq_phase h, poll)
poll-Posted (suc fuel) q (c ∷ cs) (e, f, h) l =
    rw ((==_iff _ q.cq_phase).1 e, poll)
      (poll-Posted fuel (consume q) cs h (omega arith) ∙ ap (λ k. completes (moved q k) cs) f)

-- Every content of the queue has such a list: behind a full lap stands an entry of the other phase.
module _ (n : ℕ) (cqes : ℕ → Cqe) (start phase : ℕ) (in_range : start < n) (bit : phase < 2)
    (first : (cqes start).phase ≡ phase) where
  record Finds (head phase' bound : ℕ) : Type 0 where
    cids : List ℕ
    posted : Posted n cqes head phase' cids
    short : length cids ≤ bound

  second_lap : (m head : ℕ) → head + m ≡ start → Finds head (1 - phase) m
  second_lap zero head e = record {
    cids = [];
    posted =
        λ p. absurd (omega (arith, ap (λ k. (cqes k).phase) {x = head} {y = start} (omega arith)));
    short = omega arith;
  }
  second_lap (suc m) head e = elim (ℕ_discrete (cqes head).phase (1 - phase)) [
    | no p ↦ record { cids = []; posted = p; short = omega arith }
    | yes p ↦
        let rest = second_lap m (head + 1) (omega arith) in
        record {
          cids = (cqes head).cid ∷ rest.cids;
          posted = (p, refl, rw (==-false (head + 1) n (omega arith)) rest.posted);
          short = omega (arith, rest.short);
        }
  ]

  first_lap : (m head : ℕ) → start ≤ head → head + suc m ≡ n → Finds head phase (suc m + start)
  first_lap zero head l e = elim (ℕ_discrete (cqes head).phase phase) [
    | no p ↦ record { cids = []; posted = p; short = omega arith }
    | yes p ↦
        let rest = second_lap start 0 (omega arith) in
        record {
          cids = (cqes head).cid ∷ rest.cids;
          posted = (p, refl, rw ((==_iff (head + 1) n).1 (omega arith)) rest.posted);
          short = omega (arith, rest.short);
        }
  ]
  first_lap (suc m) head l e = elim (ℕ_discrete (cqes head).phase phase) [
    | no p ↦ record { cids = []; posted = p; short = omega arith }
    | yes p ↦
        let rest = first_lap m (head + 1) (omega arith) (omega arith) in
        record {
          cids = (cqes head).cid ∷ rest.cids;
          posted = (p, refl, rw (==-false (head + 1) n (omega arith)) rest.posted);
          short = omega (arith, rest.short);
        }
  ]

rung :
    (q : Qp) (cs : List ℕ)
    → (q.cqes q.cq_head).phase ≡ q.cq_phase
    → Posted q.n_sqe q.cqes q.cq_head q.cq_phase cs
    → record (completes q cs) { cq_doorbell = (completes q cs).cq_head } ≡ polled q cs
rung q [] e h = absurd (h e)
rung q (c ∷ cs) e h = refl

-- Whatever the completion queue holds, a poll ends after at most one entry for each slot. It completes
-- exactly the commands whose completions stand in the queue, in their order, up to the first old entry,
-- and then announces the new head to the drive; if there are none it changes nothing.
pub check_cq-Posted :
    (q : Qp)
    → q.cq_head < q.n_sqe
    → q.cq_phase < 2
    → (cs : List ℕ) × Posted q.n_sqe q.cqes q.cq_head q.cq_phase cs
      × (length cs ≤ q.n_sqe)
      × (check_cq q ≡ polled q cs)
unfolding check_cq
check_cq-Posted q h b = elim (ℕ_discrete (q.cqes q.cq_head).phase q.cq_phase) [
  | no p ↦ ([], p, omega arith, rw (==-false _ q.cq_phase p))
  | yes p ↦
      let found =
        first_lap q.n_sqe q.cqes q.cq_head q.cq_phase h b p (q.n_sqe - q.cq_head - 1) q.cq_head
          (omega arith) (omega arith) in
      (
        found.cids,
        found.posted,
        omega (arith, found.short),
        rw ((==_iff _ q.cq_phase).1 p) (
            ap {A = Qp} (λ t. record t { cq_doorbell = t.cq_head })
              (poll-Posted (q.n_sqe + 1) q found.cids found.posted (omega (arith, found.short)))
            ∙ rung q found.cids p found.posted),
      )
]
