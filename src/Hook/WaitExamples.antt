-- ===== src/Hook/WaitExamples.antt =====
-- The waiting calls in a world that counts nanoseconds, with a clock of 10 ns ticks.
use staut.Prelude.{ℕ, ◌+◌, ◌*◌, ◌/◌, ◌<◌, ◌≡◌, refl, arith, some, ltb, if◌then◌else◌}
use staut.Hook.Calls.{Ret, value}
use staut.Hook.Waits.{Timespec, World, hook_futex, nanos, hook_clock_nanosleep, epoll_pwait2}
use staut.Hook.Waiting.{
  Waited, IsTimed, Polled, hook_futex-Waited, hook_clock_nanosleep-sleeps, epoll_pwait2-Polled,
}

-- Another thread stores 6 over 5 at time 3, and the kernel has an event from time 50 on.
abbrev world : World ℕ
world = record {
  load = λ uaddr k. if ltb k 3 then 5 else 6;
  clock_gettime = λ k. (record { tv_sec = 0; tv_nsec = k / 10 * 10 }, k);
  next_sys_call = λ k. (if ltb k 50 then value 0 else value 1, k);
  ult_yield = λ k. k + 1;
}

world-IsTimed : IsTimed world (λ k. k) 10
world-IsTimed = record {
  read_past = λ k. omega arith;
  read_near = λ k. omega arith;
  read_on = λ k. omega arith;
  call_on = λ k. omega arith;
  yield_on = λ k. omega arith;
}

abbrev nsec : ℕ → Timespec
nsec n = record { tv_sec = 0; tv_nsec = n }

-- The word is seen at time 3.
waits : hook_futex world 9 4096 128 5 0 0 ≡ some (value 0, 3)
unfolding hook_futex
waits = refl

-- The event comes before the deadline, and after it.
events : epoll_pwait2 world 99 (some (nsec 70)) 0 ≡ some ((value 1, 50), some (nsec 70))
unfolding epoll_pwait2
events = refl

no_events : epoll_pwait2 world 99 (some (nsec 30)) 0 ≡ some ((value 0, 40), some (nsec 30))
unfolding epoll_pwait2
no_events = refl

hook_futex-Waited_example : Waited world 9 4096 5 0 (hook_futex world 9 4096 128 5 0 0)
hook_futex-Waited_example = hook_futex-Waited world 9 4096 128 5 0 0 refl

hook_clock_nanosleep-sleeps_example :
    (j : ℕ) × (hook_clock_nanosleep world 40 0 0 (nsec 25) 7
      ≡ some (value 0, (world.clock_gettime j).1))
    × (nanos (world.clock_gettime 7).0 + nanos (nsec 25) < nanos (world.clock_gettime j).0)
hook_clock_nanosleep-sleeps_example =
    hook_clock_nanosleep-sleeps world (λ k. k) 10 world-IsTimed 40 (nsec 25) 7 (omega arith) refl

epoll_pwait2-Polled_example :
    (r : Ret) × (j k' : ℕ) × (ts : Timespec) × (epoll_pwait2 world 99 (some (nsec 30)) 7
      ≡ some ((r, k'), some ts))
    × (nanos ts ≡ nanos (nsec 30) + nanos (world.clock_gettime 7).0)
    × Polled world ts j r k'
epoll_pwait2-Polled_example =
    epoll_pwait2-Polled world (λ k. k) 10 world-IsTimed 99 (nsec 30) 7 (omega arith) refl
