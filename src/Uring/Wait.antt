-- ===== src/Uring/Wait.antt =====
-- `__io_uring_bottom`, `__io_uring_read` and `__io_uring_write` of mylib/hook.c over the rings. What
-- the kernel does when a request is submitted, and in the `k`-th wait for events, is a parameter; so is
-- what goes on in the `k`-th yield.
use staut.Prelude.{
  subst, ℕ, zero, suc, ◌+◌, ◌%◌, ◌^◌, ◌<◌, ◌≡◌, ◌≢◌, refl, sym, ap, ap₂, ◌∙◌, arith, ◌==◌, ==_iff,
  ==-false, if◌then◌else◌, Option, none, some, ◌>>=◌, List, [], ◌∷◌, update, ℕ_discrete, ◌⊎◌, inl,
  inr,
}
use staut.Uring.Rings.{
  Cqe, answered, refused, Submitter, succ, op_read, op_write, iouring_check, iouring_read,
  iouring_write,
}
use staut.Uring.Submit.{submitted, iouring_op-submitted}
use staut.Uring.Reap.{End, at_tail, at_error, Ready, mark, iouring_check-Ready}

module _ (submit : Submitter → Submitter) (getevents yields : ℕ → Submitter → Submitter) where
  -- A round of the loop, up to the test.
  abbrev pub round : ℕ → Submitter → Submitter
  round k s = (iouring_check (getevents k s)).1

  -- The loop. `none` means that the request is not done.
  unfoldable pub await_event : ℕ → ℕ → ℕ → Submitter → Option Submitter
  await_event zero k sqe_id s = none
  await_event (suc fuel) k sqe_id s =
      let t = round k s in
      let rest = await_event fuel (k + 1) sqe_id (yields k t) in
      if t.done_flag sqe_id == 0 then rest else some t

  -- `__io_uring_bottom`
  unfoldable pub io_uring_bottom : ℕ → ℕ → Submitter → Option Submitter
  io_uring_bottom fuel sqe_id s = await_event fuel 0 sqe_id (submit s)

  -- `__io_uring_read` and `__io_uring_write`, with the index of the request.
  unfoldable pub io_uring_read : ℕ → Submitter → ℕ → ℕ → ℕ → ℕ → Option (ℕ × Submitter)
  io_uring_read fuel s fd buf count pos =
      iouring_read s fd buf count pos >>= λ r. io_uring_bottom fuel r.0 r.1 >>= λ t. some (r.0, t)

  unfoldable pub io_uring_write : ℕ → Submitter → ℕ → ℕ → ℕ → ℕ → Option (ℕ × Submitter)
  io_uring_write fuel s fd buf count pos =
      iouring_write s fd buf count pos >>= λ r. io_uring_bottom fuel r.0 r.1 >>= λ t. some (r.0, t)

  -- The state before round `r`, from round `k` on, as long as the loop goes on.
  abbrev pub before_round : ℕ → ℕ → Submitter → Submitter
  before_round zero k s = s
  before_round (suc r) k s = before_round r (k + 1) (yields k (round k s))

-- `c` is one of the list.
abbrev pub IsIn : ℕ → List ℕ → Type 0
IsIn c [] = ⊥
IsIn c (d ∷ ds) = (d ≡ c) ⊎ IsIn c ds

mark-same : (flags : ℕ → ℕ) (cs : List ℕ) (c : ℕ) → flags c ≡ 1 → mark flags cs c ≡ 1
mark-same flags [] c h = h
mark-same flags (d ∷ cs) c h = mark-same (update flags d 1) cs c (ground (arith, h))

mark-IsIn : (flags : ℕ → ℕ) (cs : List ℕ) (c : ℕ) → IsIn c cs → mark flags cs c ≡ 1
mark-IsIn flags [] c h = absurd h
mark-IsIn flags (d ∷ cs) c (inl e) = mark-same (update flags d 1) cs c (ground (arith, e))
mark-IsIn flags (d ∷ cs) c (inr h) = mark-IsIn (update flags d 1) cs c h

clash : {e r : ℕ} → refused e ≡ answered r → ⊥
clash q = cc

-- The requests that stand ready are determined by the ring.
Ready-unique :
    (cqes : ℕ → Cqe) (m tail : ℕ) (end end' : End) (head : ℕ) (cs ds : List ℕ)
    → Ready cqes m tail end head cs
    → Ready cqes m tail end' head ds
    → cs ≡ ds
Ready-unique cqes m tail end end' head [] [] h k = refl
Ready-unique cqes m tail at_tail end' head [] (d ∷ ds) h k = absurd (k.0 h)
Ready-unique cqes m tail at_error end' head [] (d ∷ ds) (ne, e, h) (ne', u, r, k, rest) =
    absurd (clash (sym h ∙ k))
Ready-unique cqes m tail end at_tail head (c ∷ cs) [] h k = absurd (h.0 k)
Ready-unique cqes m tail end at_error head (c ∷ cs) [] (ne', u, r, k, rest) (ne, e, h) =
    absurd (clash (sym h ∙ k))
Ready-unique cqes m tail end end' head (c ∷ cs) (d ∷ ds) (ne, u, r, h, rest)
      (ne', u', r', h', rest') =
    ap₂ (◌∷◌) (sym u ∙ u') (Ready-unique cqes m tail end end' (succ head) cs ds rest rest')

-- The request's answer stands in the completion ring, with no error before it.
pub record IsAnswered (s : Submitter) (sqe_id : ℕ) : Type 0 where
  pub head_in : s.cq_head < 2 ^ 32
  pub tail_in : s.cq_tail < 2 ^ 32
  pub end : End
  pub ids : List ℕ
  pub ready : Ready s.cqes s.cq_entries s.cq_tail end s.cq_head ids
  pub here : IsIn sqe_id ids

iouring_check-IsAnswered :
    (s : Submitter) (c : ℕ) → IsAnswered s c → (iouring_check s).1.done_flag c ≡ 1
iouring_check-IsAnswered s c v =
    let (end, cs, ready, e) = iouring_check-Ready s v.head_in v.tail_in in
    let same =
      Ready-unique s.cqes s.cq_entries s.cq_tail v.end end s.cq_head v.ids cs v.ready ready in
    ap (λ x. x.1.done_flag c) e
    ∙ ap (λ l. mark s.done_flag l c) (sym same)
    ∙ mark-IsIn s.done_flag v.ids c v.here

module _ (submit : Submitter → Submitter) (getevents yields : ℕ → Submitter → Submitter) where
  await_event-IsAnswered :
      (r fuel k sqe_id : ℕ) (s : Submitter)
      → r < fuel
      → IsAnswered (getevents (k + r) (before_round submit getevents yields r k s)) sqe_id
      → (t : Submitter) × (await_event submit getevents yields fuel k sqe_id s ≡ some t)
        × (t.done_flag sqe_id ≢ 0)
  unfolding await_event
  await_event-IsAnswered r zero k sqe_id s l v = absurd (omega arith)
  await_event-IsAnswered zero (suc fuel) k sqe_id s l v =
      let d =
        iouring_check-IsAnswered (getevents k s) sqe_id
          (subst (λ n. IsAnswered (getevents n s) sqe_id) {x = k + 0} {y = k} (omega arith) v) in
      (round submit getevents yields k s, rw d refl, λ z. omega (arith, d, z))
  await_event-IsAnswered (suc r) (suc fuel) k sqe_id s l v =
      elim (ℕ_discrete ((iouring_check (getevents k s)).1.done_flag sqe_id) 0) [
        | yes p ↦
            let u = yields k (round submit getevents yields k s) in
            let (t, e, n) = await_event-IsAnswered r fuel (k + 1) sqe_id u (omega arith) (
              subst
                (λ n.
                  IsAnswered (getevents n (before_round submit getevents yields r (k + 1) u))
                    sqe_id)
                {x = k + suc r} {y = k + 1 + r} (omega arith) v) in
            (t, rw ((==_iff ((iouring_check (getevents k s)).1.done_flag sqe_id) 0).1 p) e, n)
        | no p ↦ (
          round submit getevents yields k s,
          rw (==-false ((iouring_check (getevents k s)).1.done_flag sqe_id) 0 p) refl,
          p,
        )
      ]

  io_uring_bottom-answered :
      (r fuel sqe_id : ℕ) (s : Submitter)
      → r < fuel
      → IsAnswered (getevents r (before_round submit getevents yields r 0 (submit s))) sqe_id
      → (t : Submitter) × (io_uring_bottom submit getevents yields fuel sqe_id s ≡ some t)
        × (t.done_flag sqe_id ≢ 0)
  unfolding io_uring_bottom
  io_uring_bottom-answered r fuel sqe_id s l v =
      await_event-IsAnswered r fuel 0 sqe_id (submit s) l (
        subst
          (λ n.
            IsAnswered (getevents n (before_round submit getevents yields r 0 (submit s))) sqe_id)
          {x = r} {y = 0 + r} (omega arith) v)

  -- What a request leads to.
  abbrev pub Answers : ℕ → ℕ → Submitter → ℕ → ℕ → ℕ → ℕ → Type 0
  Answers r op s fd buf count pos =
      IsAnswered
        (getevents r
          (before_round submit getevents yields r 0 (submit (submitted s op fd buf count pos))))
        (s.sq_tail % s.sq_entries)

  -- If the tail of the submission ring does not run into its head, and the fuel reaches a round in whose
  -- wait the answer to the request has come into the completion ring, with no error before it, then
  -- a read and a write end, with the index of the entry that the request took. The request is done
  -- then.
  pub io_uring_read-answered :
      (s : Submitter) (fd buf count pos r fuel : ℕ)
      → succ s.sq_tail ≢ s.sq_head
      → r < fuel
      → Answers r op_read s fd buf count pos
      → Answers r op_write s fd buf count pos
      → ((t : Submitter) × (io_uring_read submit getevents yields fuel s fd buf count pos
            ≡ some (s.sq_tail % s.sq_entries, t))
          × (t.done_flag (s.sq_tail % s.sq_entries) ≢ 0))
        × ((t : Submitter) × (io_uring_write submit getevents yields fuel s fd buf count pos
              ≡ some (s.sq_tail % s.sq_entries, t))
            × (t.done_flag (s.sq_tail % s.sq_entries) ≢ 0))
  unfolding io_uring_read io_uring_write iouring_read iouring_write
  io_uring_read-answered s fd buf count pos r fuel ne l v w =
      let (t, e, d) =
        io_uring_bottom-answered r fuel (s.sq_tail % s.sq_entries)
          (submitted s op_read fd buf count pos) l v in
      let (u, f, g) =
        io_uring_bottom-answered r fuel (s.sq_tail % s.sq_entries)
          (submitted s op_write fd buf count pos) l w in
      (
        (t, rw (iouring_op-submitted s op_read fd buf count pos ne, e) refl, d),
        (u, rw (iouring_op-submitted s op_write fd buf count pos ne, f) refl, g),
      )
