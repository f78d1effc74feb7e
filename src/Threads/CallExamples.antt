-- ===== src/Threads/CallExamples.antt =====
-- A wait on a condition variable of mylib/mylib.c, with an Argobots that counts the objects it makes.
use staut.Prelude.{
  ℕ, ◌+◌, ◌<◌, refl, arith, ℕ_discrete, inl, inr, true, some, none, ◌==◌, if◌then◌else◌,
}
use staut.Threads.Lazy.{Kind, mutex, cond}
use staut.Threads.Objects.{Abt, Objects, Attr, create}
use staut.Threads.Handles.{IsAbt, IsValid}
use staut.Threads.Calls.{cond_wait, run, live_after}
use staut.Threads.Kept.{IsCareful, Answers, run-IsValid}

abbrev counting : Abt ℕ
counting = record {
  mutex_create = λ r a. (0, a, a + 1);
  mutex_free = λ h a. (0, a);
  mutex_lock = λ h a. (0, a);
  mutex_trylock = λ h a. (0, a);
  mutex_unlock = λ h a. (0, a);
  cond_create2 = λ c a. (0, a, a + 1);
  cond_free = λ h a. (0, a);
  cond_signal = λ h a. (0, a);
  cond_broadcast = λ h a. (0, a);
  cond_wait = λ c m a. (c, a);
  cond_timedwait = λ c m t a. (0, a);
  cond_clockwait = λ c m k t a. (0, a);
}

abbrev IsMade : ℕ → ℕ → Type 0
IsMade a h = h < a

create_new : (kind : Kind) (attr : Attr) (a : ℕ) → IsMade a (create counting kind attr a).1 → ⊥
create_new mutex attr a h = omega (arith, h)
create_new cond attr a h = omega (arith, h)

create_alive :
    (kind : Kind) (attr : Attr) (a : ℕ)
    → IsMade (create counting kind attr a).2 (create counting kind attr a).1
create_alive mutex attr a = omega arith
create_alive cond attr a = omega arith

create_keeps :
    (kind : Kind) (attr : Attr) (a h : ℕ) → IsMade a h → IsMade (create counting kind attr a).2 h
create_keeps mutex attr a h l = omega (arith, l)
create_keeps cond attr a h l = omega (arith, l)

counting-IsAbt : IsAbt counting IsMade
counting-IsAbt = record {
  create_new = create_new;
  create_alive = create_alive;
  create_keeps = create_keeps;
}

counting-IsCareful : IsCareful counting IsMade
counting-IsCareful = record {
  lock = λ h h' a l. l;
  trylock = λ h h' a l. l;
  unlock = λ h h' a l. l;
  signal = λ h h' a l. l;
  broadcast = λ h h' a l. l;
  waiting = λ c h h' a l. l;
  timedwait = λ c t h h' a l. l;
  clockwait = λ c k t h h' a l. l;
  free_mutex = λ h h' a ne l. l;
  free_cond = λ h h' a ne l. l;
}

-- Condition variable 9 has a wrapper at 4096, and mutex 8 is as its initializer left it.
abbrev objects : Objects ℕ
objects = record {
  slot = λ o. if o == 9 then 4096 else 0;
  wraps = λ p. if p == 4096 then some (record { magic = 0xdead_beef; handle = 0 }) else none;
  abt = 1;
}

objects-IsValid : IsValid IsMade (λ _. true) objects
objects-IsValid = record {
  owned = λ o l. elim (ℕ_discrete o 9) [
    | yes e ↦ inr (record { magic = 0xdead_beef; handle = 0 }, ground (arith, e))
    | no ne ↦ inl (ground (arith, ne))
  ];
  apart = λ o o' l l' e. ground (arith, e);
  address = λ p w h. ground (arith, h);
  used = λ p w h. ground (arith, h);
  handles = λ p q w v h k e. ground (arith, h, k);
}

run-IsValid_example :
    Answers IsMade
      (live_after (λ _. true) (cond_wait 9 8 8192 12288))
      (run counting (cond_wait 9 8 8192 12288) objects)
run-IsValid_example =
    run-IsValid counting IsMade (λ _. true) objects (cond_wait 9 8 8192 12288) counting-IsAbt
      counting-IsCareful objects-IsValid
      (
        refl,
        refl,
        omega arith,
        (refl, (omega arith, omega arith)),
        (refl, (omega arith, omega arith)),
        λ e. omega (arith, e),
      )
