-- ===== src/Hook/Waiting.antt =====
-- When the waiting calls of mylib/hook.c answer.
use staut.Prelude.{
  ℕ, zero, suc, ◌+◌, ◌^◌, ◌%◌, ◌≤◌, ◌<◌, ◌≡◌, refl, ap, ◌∙◌, ◌≢◌, ◌⊎◌, inl, inr, arith, true, false,
  ℕ_discrete, Option, none, some, ◌>>=◌,
}
use staut.Hook.Calls.{Ret, value}
use staut.Hook.Waits.{
  Timespec, World, poll, differs, is_wait, hook_futex, add_timespec, fits_timespec, nanos, sleeps,
  hook_clock_nanosleep, is_zero, is_positive, select_round, select_call, epoll_round, epoll_pwait2,
}
use staut.Hook.Polling.{poll-answer, poll-again, poll-Answers}

-- The world after `n` yields.
abbrev pub after : {K : Type 0} → World K → ℕ → K → K
after w zero k = k
after w (suc n) k = after w n (w.ult_yield k)

-- What a wait for a word may come to with some fuel.
abbrev pub Waited : {K : Type 0} → World K → (fuel uaddr val : ℕ) → K → Option (Ret × K) → Type 0
Waited w fuel uaddr val k r =
    ((n : ℕ) × (n < fuel)
      × ((i : ℕ) → i < n → w.load uaddr (after w i k) ≡ val)
      × (w.load uaddr (after w n k) ≢ val)
      × (r ≡ some (value 0, after w n k)))
    ⊎ (((i : ℕ) → i < fuel → w.load uaddr (after w i k) ≡ val) × (r ≡ none))

module _ {K : Type 0} (w : World K) where
  -- One more yield in front.
  same-first :
      (n uaddr val : ℕ) (k : K)
      → w.load uaddr k ≡ val
      → ((i : ℕ) → i < n → w.load uaddr (after w i (w.ult_yield k)) ≡ val)
      → (i : ℕ) → i < suc n
      → w.load uaddr (after w i k) ≡ val
  same-first n uaddr val k e same zero h = e
  same-first n uaddr val k e same (suc i) h = same i (omega (arith, h))

  poll-differs :
      (fuel uaddr val : ℕ) (k : K) → Waited w fuel uaddr val k (poll w fuel (differs w uaddr val) k)
  unfolding differs poll
  poll-differs zero uaddr val k = inr (λ i h. absurd (omega (arith, h)), refl)
  poll-differs (suc fuel) uaddr val k = elim (ℕ_discrete (w.load uaddr k) val) [
    | no ne ↦ inl (
      0,
      omega arith,
      λ i h. absurd (omega (arith, h)),
      ne,
      poll-answer w fuel (differs w uaddr val) k (value 0) (ground (arith, ne)),
    )
    | yes e ↦
        let again = poll-again w fuel (differs w uaddr val) k (ground (arith, e)) in
        elim (poll-differs fuel uaddr val (w.ult_yield k)) [
          | inl (n, l, same, ne, q) ↦
              inl (suc n, omega (arith, l), same-first n uaddr val k e same, ne, again ∙ q)
          | inr (same, q) ↦ inr (same-first fuel uaddr val k e same, again ∙ q)
        ]
  ]

  -- `time` is what a clock counts. A reading is less than `tick` behind it, no call takes it back, and a
  -- yield takes some.
  pub record IsTimed (time : K → ℕ) (tick : ℕ) : Type 0 where
    pub read_past : (k : K) → nanos (w.clock_gettime k).0 ≤ time k
    pub read_near : (k : K) → time k < nanos (w.clock_gettime k).0 + tick
    pub read_on : (k : K) → time k ≤ time (w.clock_gettime k).1
    pub call_on : (k : K) → time k ≤ time (w.next_sys_call k).1
    pub yield_on : (k : K) → time k < time (w.ult_yield k)

  -- A futex wait that is not the library's own answers 0 when the word differs from the value, at the first
  -- yield after which it does, and goes on waiting while the word has the value.
  pub hook_futex-Waited :
      (fuel uaddr futex_op val a6 : ℕ) (k : K)
      → is_wait futex_op a6 ≡ true
      → Waited w fuel uaddr (val % 2 ^ 32) k (hook_futex w fuel uaddr futex_op val a6 k)
  unfolding hook_futex
  hook_futex-Waited fuel uaddr futex_op val a6 k h = rw h (poll-differs fuel uaddr (val % 2 ^ 32) k)

  -- The last round of select, from `j` to `k`: the deadline has passed, or what the kernel answers is
  -- not 0.
  abbrev pub Selected : Timespec → K → Ret → K → Type 0
  Selected ts j r k =
      ((r ≡ value 0) × (nanos ts < nanos (w.clock_gettime j).0) × (k ≡ (w.clock_gettime j).1))
      ⊎ ((is_zero r ≡ false)
          × (nanos (w.clock_gettime j).0 ≤ nanos ts)
          × (r ≡ (w.next_sys_call (w.clock_gettime j).1).0)
          × (k ≡ (w.next_sys_call (w.clock_gettime j).1).1))

  -- The last round of epoll_pwait2, from `j` to `k`: the kernel has events, or it has none and the deadline
  -- has passed.
  abbrev pub Polled : Timespec → K → Ret → K → Type 0
  Polled ts j r k =
      ((is_positive r ≡ true) × (r ≡ (w.next_sys_call j).0) × (k ≡ (w.next_sys_call j).1))
      ⊎ ((r ≡ value 0)
          × (is_positive (w.next_sys_call j).0 ≡ false)
          × (nanos ts < nanos (w.clock_gettime (w.next_sys_call j).1).0)
          × (k ≡ (w.clock_gettime (w.next_sys_call j).1).1))

  module _ (time : K → ℕ) (tick : ℕ) (timed : IsTimed time tick) where
    open timed use {read_past, read_near, read_on, call_on, yield_on}

    sleeps-late :
        (alarm : Timespec) (j : K) → nanos alarm + tick ≤ time j → (sleeps w alarm j).0 ≢ none
    unfolding sleeps
    sleeps-late alarm j h = ground (arith, h, read_near j)

    sleeps-some :
        (alarm : Timespec) (j : K) (r : Ret)
        → (sleeps w alarm j).0 ≡ some r
        → (r ≡ value 0) × (nanos alarm < nanos (w.clock_gettime j).0)
    unfolding sleeps
    sleeps-some alarm j r h = ground (arith, h)

    -- Fuel for the time asked for and a tick is fuel up to the deadline.
    deadline-fuel :
        (fuel : ℕ) (t : Timespec) (k : K)
        → nanos t + tick < fuel
        → nanos (add_timespec (w.clock_gettime k).0 t) + tick < time (w.clock_gettime k).1 + fuel
    deadline-fuel fuel t k h = omega (arith, h, read_past k, read_on k)

    -- With a clock that runs, a sleep of the real-time clock whose end fits answers 0, and not before the
    -- clock has passed the first reading by the time asked for.
    pub hook_clock_nanosleep-sleeps :
        (fuel : ℕ) (req : Timespec) (k : K)
        → nanos req + tick < fuel
        → fits_timespec (w.clock_gettime k).0 req ≡ true
        → (j : K) × (hook_clock_nanosleep w fuel 0 0 req k ≡ some (value 0, (w.clock_gettime j).1))
          × (nanos (w.clock_gettime k).0 + nanos req < nanos (w.clock_gettime j).0)
    unfolding hook_clock_nanosleep sleeps
    hook_clock_nanosleep-sleeps fuel req k h fits =
        let alarm = add_timespec (w.clock_gettime k).0 req in
        let (r, j, q, p) =
          poll-Answers w time (nanos alarm + tick) fuel (sleeps w alarm) (w.clock_gettime k).1
            yield_on read_on (sleeps-late alarm) (deadline-fuel fuel req k h) (omega (arith, h)) in
        let (z, l) = sleeps-some alarm j r p in
        (j, rw fits (q ∙ ap (λ x. some (x, (w.clock_gettime j).1)) z), omega (arith, l))

    select_round-late :
        (ts : Timespec) (j : K) → nanos ts + tick ≤ time j → (select_round w ts j).0 ≢ none
    unfolding select_round
    select_round-late ts j h = ground (arith, h, read_near j)

    select_round-on : (ts : Timespec) (j : K) → time j ≤ time (select_round w ts j).1
    unfolding select_round
    select_round-on ts j = ground (arith, read_on j, call_on (w.clock_gettime j).1)

    select_round-Selected :
        (ts : Timespec) (j : K) (r : Ret)
        → (select_round w ts j).0 ≡ some r
        → Selected ts j r (select_round w ts j).1
    unfolding select_round
    select_round-Selected ts j r h = ground (arith, h)

    epoll_round-late :
        (ts : Timespec) (j : K) → nanos ts + tick ≤ time j → (epoll_round w (some ts) j).0 ≢ none
    unfolding epoll_round
    epoll_round-late ts j h = ground (arith, h, call_on j, read_near (w.next_sys_call j).1)

    epoll_round-on : (ts : Timespec) (j : K) → time j ≤ time (epoll_round w (some ts) j).1
    unfolding epoll_round
    epoll_round-on ts j = ground (arith, call_on j, read_on (w.next_sys_call j).1)

    epoll_round-Polled :
        (ts : Timespec) (j : K) (r : Ret)
        → (epoll_round w (some ts) j).0 ≡ some r
        → Polled ts j r (epoll_round w (some ts) j).1
    unfolding epoll_round
    epoll_round-Polled ts j r h = ground (arith, h)

    -- With a clock that runs, select with a timeout whose end fits answers: what the kernel answers, if that is not 0 and
    -- the deadline has not passed, or 0 behind the deadline.
    pub select_call-Selected :
        (fuel : ℕ) (ats : Timespec) (k : K)
        → nanos ats + tick < fuel
        → fits_timespec (w.clock_gettime k).0 ats ≡ true
        → (r : Ret) × (j k' : K) × (select_call w fuel (some ats) k ≡ some (r, k'))
          × Selected (add_timespec (w.clock_gettime k).0 ats) j r k'
    unfolding select_call
    select_call-Selected fuel ats k h fits =
        let ts = add_timespec (w.clock_gettime k).0 ats in
        let (r, j, q, p) =
          poll-Answers w time (nanos ts + tick) fuel (select_round w ts) (w.clock_gettime k).1
            yield_on (select_round-on ts) (select_round-late ts) (deadline-fuel fuel ats k h)
            (omega (arith, h)) in
        (r, j, (select_round w ts j).1, rw fits q, select_round-Selected ts j r p)

    -- With a clock that runs, epoll_pwait2 with a timeout whose end fits answers: what the kernel answers, if that is
    -- positive, or 0 behind the deadline and with no events from the kernel just before. The timeout that the
    -- caller passed holds the deadline then.
    pub epoll_pwait2-Polled :
        (fuel : ℕ) (t : Timespec) (k : K)
        → nanos t + tick < fuel
        → fits_timespec t (w.clock_gettime k).0 ≡ true
        → (r : Ret) × (j k' : K) × (ts : Timespec) × (epoll_pwait2 w fuel (some t) k
            ≡ some ((r, k'), some ts))
          × (nanos ts ≡ nanos t + nanos (w.clock_gettime k).0)
          × Polled ts j r k'
    unfolding epoll_pwait2
    epoll_pwait2-Polled fuel t k h fits =
        let ts = add_timespec t (w.clock_gettime k).0 in
        let (r, j, q, p) =
          poll-Answers w time (nanos ts + tick) fuel (epoll_round w (some ts)) (w.clock_gettime k).1
            yield_on (epoll_round-on ts) (epoll_round-late ts)
            (omega (arith, deadline-fuel fuel t k h)) (omega (arith, h)) in
        (
          r,
          j,
          (epoll_round w (some ts) j).1,
          ts,
          rw fits (ap (λ m. m >>= λ r. some (r, some ts)) q),
          omega arith,
          epoll_round-Polled ts j r p,
        )
