-- ===== src/Hook/Polling.antt =====
-- The loop of the waiting calls of mylib/hook.c, whatever its body is.
use staut.Prelude.{
  ℕ, zero, suc, ◌+◌, ◌≤◌, ◌<◌, ◌≡◌, refl, ◌∙◌, ◌≢◌, inl, inr, arith, Option, none, some,
  Option-cases,
}
use staut.Hook.Waits.{World, poll}

module _ {K : Type 0} (w : World K) where
  pub poll-answer :
      {R : Type 0} (fuel : ℕ) (body : K → Option R × K) (k : K) (r : R)
      → (body k).0 ≡ some r
      → poll w (suc fuel) body k ≡ some (r, (body k).1)
  unfolding poll
  poll-answer fuel body k r h = rw (h, poll) refl

  pub poll-again :
      {R : Type 0} (fuel : ℕ) (body : K → Option R × K) (k : K)
      → (body k).0 ≡ none
      → poll w (suc fuel) body k ≡ poll w fuel body (w.ult_yield (body k).1)
  unfolding poll
  poll-again fuel body k h = rw (h, poll) refl

  -- The call answers, and `j` is the world in which its last round began.
  abbrev pub Answers : {R : Type 0} → ℕ → (K → Option R × K) → K → Type 0
  Answers {R} fuel body k =
      (r : R) × (j : K) × (poll w fuel body k ≡ some (r, (body j).1)) × ((body j).0 ≡ some r)

  -- A loop whose body answers from some time on.
  pub poll-Answers :
      {R : Type 0} (time : K → ℕ) (bound fuel : ℕ) (body : K → Option R × K) (k : K)
      → ((j : K) → time j < time (w.ult_yield j))
      → ((j : K) → time j ≤ time (body j).1)
      → ((j : K) → bound ≤ time j → (body j).0 ≢ none)
      → bound < time k + fuel
      → 0 < fuel
      → Answers fuel body k
  poll-Answers time bound zero body k yield_on on late h pos = absurd (omega (arith, pos))
  poll-Answers time bound (suc fuel) body k yield_on on late h pos =
      elim (Option-cases (body k).0) [
        | inr (r, e) ↦ (r, k, poll-answer fuel body k r e, e)
        | inl e ↦
            let early : time k < bound = ground (arith, e, late k) in
            let k' = w.ult_yield (body k).1 in
            let (r, j, q, p) =
              poll-Answers time bound fuel body k' yield_on on late
                (omega (arith, early, h, on k, yield_on (body k).1)) (omega (arith, early, h)) in
            (r, j, poll-again fuel body k e ∙ q, p)
      ]
