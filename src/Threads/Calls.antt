-- ===== src/Threads/Calls.antt =====
-- The calls of mylib/mylib.c on mutexes and condition variables as data, and what a correct program keeps to.
use staut.Prelude.{ℕ, ◌≡◌, ◌≢◌, Bool, true, false, Option, update}
use staut.Threads.Lazy.{mutex, cond}
use staut.Threads.Objects.{
  Abt, Objects, Attr, is_readable, init, pthread_mutex_lock, pthread_mutex_trylock,
  pthread_mutex_unlock, pthread_mutex_destroy, pthread_cond_signal, pthread_cond_broadcast,
  pthread_cond_destroy, pthread_cond_wait, pthread_cond_timedwait, pthread_cond_clockwait,
}
use staut.Threads.Handles.{IsFree}

-- One call, with the addresses that `malloc` gives in it.
pub data Call : Type 0 where
  mutex_init : (obj p : ℕ) → Attr → Call
  mutex_destroy : (obj p : ℕ) → Call
  mutex_lock : (obj p : ℕ) → Call
  mutex_trylock : (obj p : ℕ) → Call
  mutex_unlock : (obj p : ℕ) → Call
  cond_init : (obj p : ℕ) → Attr → Call
  cond_destroy : (obj p : ℕ) → Call
  cond_signal : (obj p : ℕ) → Call
  cond_broadcast : (obj p : ℕ) → Call
  cond_wait : (c m p q : ℕ) → Call
  cond_timedwait : (c m p q abstime : ℕ) → Call
  cond_clockwait : (c m p q clk abstime : ℕ) → Call

unfoldable pub run : {A : Type 0} → Abt A → Call → Objects A → Option (ℕ × Objects A)
run lib (mutex_init obj p attr) s = init lib mutex obj p attr s
run lib (mutex_destroy obj p) s = pthread_mutex_destroy lib obj p s
run lib (mutex_lock obj p) s = pthread_mutex_lock lib obj p s
run lib (mutex_trylock obj p) s = pthread_mutex_trylock lib obj p s
run lib (mutex_unlock obj p) s = pthread_mutex_unlock lib obj p s
run lib (cond_init obj p attr) s = init lib cond obj p attr s
run lib (cond_destroy obj p) s = pthread_cond_destroy lib obj p s
run lib (cond_signal obj p) s = pthread_cond_signal lib obj p s
run lib (cond_broadcast obj p) s = pthread_cond_broadcast lib obj p s
run lib (cond_wait c m p q) s = pthread_cond_wait lib c m p q s
run lib (cond_timedwait c m p q abstime) s = pthread_cond_timedwait lib c m p q abstime s
run lib (cond_clockwait c m p q clk abstime) s = pthread_cond_clockwait lib c m p q clk abstime s

-- A call is for objects in use, an initialization for any object, and `malloc` gives free addresses. A
-- condition variable is initialized with attributes before it is used: its static initializer would be
-- made good by `pthread_cond_init` with a null pointer for them.
abbrev pub IsUse : {A : Type 0} → (live : ℕ → Bool) → Objects A → Call → Type 0
IsUse live s (mutex_init obj p attr) = IsFree s p
IsUse live s (mutex_destroy obj p) = (live obj ≡ true) × IsFree s p
IsUse live s (mutex_lock obj p) = (live obj ≡ true) × IsFree s p
IsUse live s (mutex_trylock obj p) = (live obj ≡ true) × IsFree s p
IsUse live s (mutex_unlock obj p) = (live obj ≡ true) × IsFree s p
IsUse live s (cond_init obj p attr) = IsFree s p × (is_readable cond attr ≡ true)
IsUse live s (cond_destroy obj p) = (live obj ≡ true) × IsFree s p × (s.slot obj ≢ 0)
IsUse live s (cond_signal obj p) = (live obj ≡ true) × IsFree s p × (s.slot obj ≢ 0)
IsUse live s (cond_broadcast obj p) = (live obj ≡ true) × IsFree s p × (s.slot obj ≢ 0)
IsUse live s (cond_wait c m p q) =
    (live c ≡ true) × (live m ≡ true) × (p ≢ q) × IsFree s p × IsFree s q × (s.slot c ≢ 0)
IsUse live s (cond_timedwait c m p q abstime) =
    (live c ≡ true) × (live m ≡ true) × (p ≢ q) × IsFree s p × IsFree s q × (s.slot c ≢ 0)
IsUse live s (cond_clockwait c m p q clk abstime) =
    (live c ≡ true) × (live m ≡ true) × (p ≢ q) × IsFree s p × IsFree s q × (s.slot c ≢ 0)

-- The objects in use behind a call.
abbrev pub live_after : (ℕ → Bool) → Call → ℕ → Bool
live_after live (mutex_init obj p attr) = update live obj true
live_after live (cond_init obj p attr) = update live obj true
live_after live (mutex_destroy obj p) = update live obj false
live_after live (cond_destroy obj p) = update live obj false
live_after live _ = live
