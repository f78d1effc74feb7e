-- ===== src/Hook/Waits.antt =====
-- The calls of mylib/hook.c that wait: `hook_futex`, `hook_clock_nanosleep` and the cases of select and
-- epoll_pwait2 in `hook_function`. What goes on outside is a parameter. Each loop has fuel; `none` is
-- an assertion that fails, a load through a null pointer, an overflow of a time, or no fuel.
use staut.Prelude.{
  ℕ, zero, suc, ◌+◌, ◌*◌, ◌^◌, ◌%◌, Bool, false, not, ◌&&◌, ◌||◌, ◌==◌, ltb, if◌then◌else◌, Option,
  none, some, ◌>>=◌, ◌>>◌, assert,
}
use staut.Hook.Calls.{Ret, value, failed}

-- `struct timespec`
pub record Timespec : Type 0 where
  pub tv_sec : ℕ
  pub tv_nsec : ℕ

-- The rest of the world in state `K`: what another thread has stored at an address, a reading of a clock,
-- a call of the kernel that does not wait, and what goes on in `ult_yield`.
pub record World (K : Type 0) : Type 0 where
  pub load : (uaddr : ℕ) → K → ℕ
  pub clock_gettime : K → Timespec × K
  pub next_sys_call : K → Ret × K
  pub ult_yield : K → K

-- `while (1) { body; ult_yield(); }`, where `body` answers what the function returns, if it does.
unfoldable pub poll {ℓ} :
    {K : Type 0} {R : Type ℓ} → World K → (fuel : ℕ) → (K → Option R × K) → K → Option (R × K)
poll w zero body k = none
poll w (suc fuel) body k = elim (body k).0 [
  | none ↦ poll w fuel body (w.ult_yield (body k).1)
  | some r ↦ some (r, (body k).1)
]

-- `*uaddr != val`
unfoldable pub differs : {K : Type 0} → World K → (uaddr val : ℕ) → K → Option Ret × K
differs w uaddr val k = (if w.load uaddr k == val then none else some (value 0), k)

-- FUTEX_WAIT is 0 and FUTEX_PRIVATE_FLAG is 128.
abbrev pub is_wait : (futex_op a6 : ℕ) → Bool
is_wait futex_op a6 = not (a6 == 0xdead_cafe) && (futex_op == 0 || futex_op == 128)

unfoldable pub hook_futex :
    {K : Type 0} → World K → (fuel uaddr futex_op val a6 : ℕ) → K → Option (Ret × K)
unfolding poll differs
hook_futex w fuel uaddr futex_op val a6 k =
    if is_wait futex_op a6
    then poll w fuel (differs w uaddr (val % 2 ^ 32)) k
    else some (w.next_sys_call k)

-- Whether the sums fit: seconds fit a `time_t`, and nanoseconds stay below 2 ^ 52, from where on the
-- rounding of a difference could change its sign. No other sum is answered for.
abbrev pub fits_timespec : Timespec → Timespec → Bool
fits_timespec s t = ltb (s.tv_sec + t.tv_sec) (2 ^ 63) && ltb (s.tv_nsec + t.tv_nsec) (2 ^ 52)

-- Both fields are added, without a carry.
abbrev pub add_timespec : Timespec → Timespec → Timespec
add_timespec s t = record { tv_sec = s.tv_sec + t.tv_sec; tv_nsec = s.tv_nsec + t.tv_nsec }

abbrev pub nanos : Timespec → ℕ
nanos t = t.tv_sec * 10 ^ 9 + t.tv_nsec

-- `diff_nsec > 0`. The difference is a `double` and is rounded, which leaves its sign.
abbrev pub is_after : Timespec → Timespec → Bool
is_after now alarm = ltb (nanos alarm) (nanos now)

unfoldable pub sleeps : {K : Type 0} → World K → (alarm : Timespec) → K → Option Ret × K
sleeps w alarm k =
    let r = w.clock_gettime k in (if is_after r.0 alarm then some (value 0) else none, r.1)

-- CLOCK_REALTIME is 0.
unfoldable pub hook_clock_nanosleep :
    {K : Type 0} → World K → (fuel which_clock flags : ℕ) → (req : Timespec) → K → Option (Ret × K)
unfolding poll sleeps
hook_clock_nanosleep w fuel which_clock flags req k =
    assert (which_clock == 0)
    >> assert (flags == 0)
    >> (let r = w.clock_gettime k in
        assert (fits_timespec r.0 req) >> poll w fuel (sleeps w (add_timespec r.0 req)) r.1)

-- `ret` and `!ret`
abbrev pub is_zero : Ret → Bool
is_zero (value n) = n == 0
is_zero (failed e) = false

-- `ret > 0`
abbrev pub is_positive : Ret → Bool
is_positive (value n) = ltb 0 n
is_positive (failed e) = false

-- One round of select: the clock first, then the kernel.
unfoldable pub select_round : {K : Type 0} → World K → (ts : Timespec) → K → Option Ret × K
select_round w ts k =
    let now = w.clock_gettime k in
    let r = w.next_sys_call now.1 in
    if is_after now.0 ts
    then (some (value 0), now.1)
    else ((if is_zero r.0 then none else some r.0), r.1)

-- select. `a6` is read before it is compared with null.
unfoldable pub select_call :
    {K : Type 0} → World K → (fuel : ℕ) → (a6 : Option Timespec) → K → Option (Ret × K)
unfolding poll select_round
select_call w fuel a6 k = a6 >>= λ ats.
    let r = w.clock_gettime k in
    assert (fits_timespec r.0 ats) >> poll w fuel (select_round w (add_timespec r.0 ats)) r.1

-- One round of epoll_pwait2: the kernel first, then the clock.
unfoldable pub epoll_round : {K : Type 0} → World K → (ts : Option Timespec) → K → Option Ret × K
epoll_round w ts k =
    let r = w.next_sys_call k in
    if is_positive r.0 then (some r.0, r.1) else elim ts [
      | none ↦ (none, r.1)
      | some alarm ↦
          let now = w.clock_gettime r.1 in
          (if is_after now.0 alarm then some (value 0) else none, now.1)
    ]

-- epoll_pwait2: the answer, and what `*ts` of the caller holds then.
unfoldable pub epoll_pwait2 :
    {K : Type 0}
    → World K
    → (fuel : ℕ) → (a5 : Option Timespec) → K
    → Option ((Ret × K) × Option Timespec)
unfolding poll epoll_round
epoll_pwait2 w fuel none k = poll w fuel (epoll_round w none) k >>= λ r. some (r, none)
epoll_pwait2 w fuel (some t) k =
    let r = w.clock_gettime k in
    let ts = add_timespec t r.0 in
    assert (fits_timespec t r.0)
    >> (poll w fuel (epoll_round w (some ts)) r.1 >>= λ q. some (q, some ts))
