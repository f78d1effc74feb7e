-- ===== src/Threads/Examples.antt =====
-- `MyFIFO` of mylib/myfifo.hpp with four places.
use staut.Prelude.{
  update, ◌*◌, ◌≤◌, ◌≢◌, ◌%◌, ℕ, ◌+◌, ◌<◌, ◌≡◌, refl, arith, true, false, [], ◌∷◌, ◌++◌, some, none,
  ◌⊎◌,
}
use staut.Threads.Fifo.{Fifo, push, pop}
use staut.Threads.Lazy.{
  mutex, Object, new_magic, Pc, trying, making, waiting, loading, got, look_zero, look_set, cas_win,
  store, pass, load, System, pick, start, Reach, here, later,
}
use staut.Threads.Made.{IsUsual, Reach-got, Reach-waiting}
use staut.Threads.Once
use staut.Threads.Once.{
  Callers, all_trying, running, spinning, ending, returned, OnceReach, begin, cas_lose, done, close,
  OnceReach-returned,
}
use staut.Threads.Keys.{AbtKeys, Keys, IsInjective}
use staut.Threads.Queue.{IsValid, count, contents, push_refines, pop_refines}

-- It holds 13 and 10, round the end of the array.
abbrev fifo : Fifo
fifo = record { wp = 1; rp = 3; que = λ i. 10 + i }

abbrev empty : Fifo
empty = record fifo { rp = 1 }

push_refines_example :
    ((count 4 fifo + 1 < 4)
      × (t : Fifo) × (push 4 99 fifo ≡ (true, t))
      × IsValid 4 t
      × (contents 4 t ≡ contents 4 fifo ++ 99 ∷ []))
    ⊎ ((count 4 fifo + 1 ≡ 4) × (push 4 99 fifo ≡ (false, fifo)))
push_refines_example = push_refines 4 fifo 99 (omega arith, omega arith)

pop_refines_example :
    ((contents 4 fifo ≡ []) × (pop 4 fifo ≡ (none, fifo)))
    ⊎ ((x : ℕ) × (t : Fifo) × (pop 4 fifo ≡ (some x, t))
        × IsValid 4 t
        × (contents 4 fifo ≡ x ∷ contents 4 t))
pop_refines_example = pop_refines 4 fifo (omega arith, omega arith)

-- Wrappers 4096 bytes apart.
abbrev alloc : ℕ → ℕ
alloc k = 4096 * (k % 1000 + 1)

alloc-IsUsual : IsUsual alloc
alloc-IsUsual k = (omega arith, omega arith)

-- Thread `i` of `s` takes a step to `p`, which leaves the object as `m`.
abbrev after : System → ℕ → Object → Pc → System
after s i m p = record { object = m; pc = update s.pc i p }

-- Thread 0 has marked the mutex, and thread 1 has found the mark.
abbrev marked_mutex : Object
marked_mutex = record { slot = new_magic; made = 0 }

abbrev one_waits : System
one_waits =
    after (after (after (start mutex) 0 (start mutex).object trying) 0 marked_mutex making) 1
      marked_mutex waiting

one_waits-Reach : Reach mutex alloc one_waits
one_waits-Reach =
    later (later (later here (pick 0 (look_zero refl))) (pick 0 (cas_win refl)))
      (pick 1 (look_set (omega arith)))

abbrev made_mutex : Object
made_mutex = record { slot = 4096; made = 1 }

-- Both go on: thread 1 has the wrapper that thread 0 made.
abbrev one_got : System
one_got =
    after (after (after one_waits 0 made_mutex waiting) 1 made_mutex loading) 1 made_mutex
      (got 4096)

one_got-Reach : Reach mutex alloc one_got
one_got-Reach =
    later (later (later one_waits-Reach (pick 0 store)) (pick 1 (pass (omega arith)))) (pick 1 load)

Reach-got_example : (4096 ≡ alloc 0) × (one_got.object.slot ≡ alloc 0) × (one_got.object.made ≡ 1)
Reach-got_example = Reach-got alloc-IsUsual one_got-Reach 1 refl

Reach-waiting_example : ((j : ℕ) × (one_waits.pc j ≡ making)) ⊎ (one_waits.object.slot ≡ alloc 0)
Reach-waiting_example = Reach-waiting alloc-IsUsual one_waits-Reach 1 refl

-- Thread 0 is the first and thread 1 comes when the routine runs; thread 0 has returned.
abbrev zero_returned : Callers
zero_returned = record {
  control = record { once_control = 2; calls = 1; returns = 1 };
  pc = update (update (update (update all_trying.pc 0 running) 1 spinning) 0 ending) 0 returned;
}

zero_returned-OnceReach : OnceReach zero_returned
zero_returned-OnceReach =
    Once.later 0
      (Once.later 0 (Once.later 1 (Once.later 0 begin (Once.cas_win refl)) (cas_lose (omega arith)))
        done)
      close

OnceReach-returned_example :
    (zero_returned.control.calls ≤ 1)
    × ((zero_returned.pc 0 ≢ returned)
        ⊎ ((zero_returned.control.calls ≡ 1) × (zero_returned.control.returns ≡ 1)))
OnceReach-returned_example = OnceReach-returned zero_returned-OnceReach 0

-- Keys of Argobots: the state is the number of keys and their values.
abbrev keys_lib : AbtKeys (ℕ × (ℕ → ℕ))
keys_lib = record {
  key_create = λ a. (0, a.0, (a.0 + 1, a.1));
  key_set = λ k v a. (0, (a.0, update a.1 k v));
  key_get = λ k a. a.1 k;
  key_free = λ k a. (0, a);
}

-- Entry 1 is in use.
abbrev keys : Keys (ℕ × (ℕ → ℕ))
keys = record { abt_keys = update (λ _. none) 1 (some 6); abt = (7, λ _. 0) }

keys-IsInjective : IsInjective keys_lib keys
keys-IsInjective i j k h e = ground arith
