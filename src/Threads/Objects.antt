-- ===== src/Threads/Objects.antt =====
-- The mutexes and condition variables of mylib/mylib.c, called by one thread at a time: `pthread_mutex_init`
-- to `pthread_cond_clockwait`. Argobots is a parameter. USE_MYFIFO is 0, so a wrapper is one `malloc`, and
-- each operation takes the address `p` that a call of `malloc` gives in it. `none` is a wait in `get_abt_mutex` or `get_abt_cond` that nobody ends, a load of a wrapper
-- that is not there, or one through a null pointer.
use staut.Prelude.{ℕ, Bool, true, false, Option, none, some, update, ◌==◌, if◌then◌else◌, ◌>>=◌}
use staut.Threads.Lazy.{Kind, mutex, cond, magic, new_magic}

-- What is used of Argobots in state `A`: handles are numbers, and each call answers a return value.
pub record Abt (A : Type 0) : Type 0 where
  pub mutex_create : (recursive : Bool) → A → ℕ × ℕ × A
  pub mutex_free : ℕ → A → ℕ × A
  pub mutex_lock : ℕ → A → ℕ × A
  pub mutex_trylock : ℕ → A → ℕ × A
  pub mutex_unlock : ℕ → A → ℕ × A
  pub cond_create2 : (clock_id : ℕ) → A → ℕ × ℕ × A
  pub cond_free : ℕ → A → ℕ × A
  pub cond_signal : ℕ → A → ℕ × A
  pub cond_broadcast : ℕ → A → ℕ × A
  pub cond_wait : (cond mutex : ℕ) → A → ℕ × A
  pub cond_timedwait : (cond mutex abstime : ℕ) → A → ℕ × A
  pub cond_clockwait : (cond mutex clk abstime : ℕ) → A → ℕ × A

-- `abt_mutex_wrap_t` and `abt_cond_wrap_t`
pub record Wrap : Type 0 where
  pub magic : ℕ
  pub handle : ℕ

-- The first eight bytes of each object, the wrappers by their address, and Argobots.
pub record Objects (A : Type 0) : Type 0 where
  pub slot : ℕ → ℕ
  pub wraps : ℕ → Option Wrap
  pub abt : A

-- `attr`: for a mutex whether its type is PTHREAD_MUTEX_RECURSIVE, for a condition variable its clock.
pub data Attr : Type 0 where
  no_attr : Attr
  recursive : Bool → Attr
  clock : ℕ → Attr

abbrev pub is_recursive : Attr → Bool
is_recursive (recursive b) = b
is_recursive a = false

-- Whether the attributes can be read: `real_pthread_condattr_getclock` of the C library loads them through
-- the pointer, which may not be null.
abbrev pub is_readable : Kind → Attr → Bool
is_readable mutex attr = true
is_readable cond (clock c) = true
is_readable cond a = false

-- The clock that `real_pthread_condattr_getclock` finds, which is asked for readable attributes only.
abbrev pub clock_id : Attr → ℕ
clock_id (clock c) = c
clock_id a = 0

-- ABT_ERR_COND_TIMEDOUT and ETIMEDOUT
abbrev pub abt_err_cond_timedout : ℕ
abt_err_cond_timedout = 42

abbrev pub etimedout : ℕ
etimedout = 110

module _ {A : Type 0} (lib : Abt A) where
  -- The call of Argobots that makes an object.
  abbrev pub create : Kind → Attr → A → ℕ × ℕ × A
  create mutex attr a = lib.mutex_create (is_recursive attr) a
  create cond attr a = lib.cond_create2 (clock_id attr) a

  abbrev pub wrap_magic : Kind → ℕ
  wrap_magic mutex = 0xdead_cafe
  wrap_magic cond = 0xdead_beef

  -- What `pthread_mutex_init` and `pthread_cond_init` return and leave.
  unfoldable pub made : Kind → (obj p : ℕ) → Attr → Objects A → ℕ × Objects A
  made kind obj p attr s =
      let r = create kind attr s.abt in
      (
        r.0,
        record {
          slot = update s.slot obj p;
          wraps = update s.wraps p (some (record { magic = wrap_magic kind; handle = r.1 }));
          abt = r.2;
        },
      )

  -- `pthread_mutex_init` and `pthread_cond_init`; `none` is the load through a null pointer.
  unfoldable pub init : Kind → (obj p : ℕ) → Attr → Objects A → Option (ℕ × Objects A)
  unfolding made
  init kind obj p attr s = if is_readable kind attr then some (made kind obj p attr s) else none

  -- The first test of `get_abt_mutex` and `get_abt_cond`.
  unfoldable pub ensure : Kind → (obj p : ℕ) → Objects A → Option (Objects A)
  unfolding init
  ensure kind obj p s =
      let fresh = init kind obj p no_attr s >>= λ r. some r.1 in
      if magic (s.slot obj) == 0 then fresh else some s

  -- The loop, and the load of the wrapper.
  unfoldable pub load_handle : (obj : ℕ) → Objects A → Option (ℕ × Objects A)
  load_handle obj s =
      if magic (s.slot obj) == new_magic
      then none
      else s.wraps (s.slot obj) >>= λ w. some (w.handle, s)

  -- `get_abt_mutex` and `get_abt_cond`: the handle, and the state behind.
  unfoldable pub get_abt : Kind → (obj p : ℕ) → Objects A → Option (ℕ × Objects A)
  unfolding ensure load_handle
  get_abt kind obj p s = ensure kind obj p s >>= λ t. load_handle obj t

  -- A call of Argobots with the handle of an object.
  unfoldable pub with_handle :
      Kind → (obj p : ℕ) → (ℕ → A → ℕ × A) → Objects A → Option (ℕ × Objects A)
  unfolding get_abt
  with_handle kind obj p call s = get_abt kind obj p s >>= λ r.
      some ((call r.0 r.1.abt).0, record r.1 { abt = (call r.0 r.1.abt).1 })

  abbrev pub pthread_mutex_lock : (obj p : ℕ) → Objects A → Option (ℕ × Objects A)
  pthread_mutex_lock obj p = with_handle mutex obj p lib.mutex_lock

  abbrev pub pthread_mutex_trylock : (obj p : ℕ) → Objects A → Option (ℕ × Objects A)
  pthread_mutex_trylock obj p = with_handle mutex obj p lib.mutex_trylock

  abbrev pub pthread_mutex_unlock : (obj p : ℕ) → Objects A → Option (ℕ × Objects A)
  pthread_mutex_unlock obj p = with_handle mutex obj p lib.mutex_unlock

  abbrev pub pthread_cond_signal : (obj p : ℕ) → Objects A → Option (ℕ × Objects A)
  pthread_cond_signal obj p = with_handle cond obj p lib.cond_signal

  abbrev pub pthread_cond_broadcast : (obj p : ℕ) → Objects A → Option (ℕ × Objects A)
  pthread_cond_broadcast obj p = with_handle cond obj p lib.cond_broadcast

  -- `free` of the wrapper. The object keeps its address.
  unfoldable pub destroy : Kind → (obj p : ℕ) → (ℕ → A → ℕ × A) → Objects A → Option (ℕ × Objects A)
  unfolding with_handle
  destroy kind obj p free s = with_handle kind obj p free s >>= λ r.
      some (r.0, record r.1 { wraps = update r.1.wraps (r.1.slot obj) none })

  abbrev pub pthread_mutex_destroy : (obj p : ℕ) → Objects A → Option (ℕ × Objects A)
  pthread_mutex_destroy obj p = destroy mutex obj p lib.mutex_free

  abbrev pub pthread_cond_destroy : (obj p : ℕ) → Objects A → Option (ℕ × Objects A)
  pthread_cond_destroy obj p = destroy cond obj p lib.cond_free

  -- A wait has two handles, that of the condition variable first; `p` and `q` are for their wrappers.
  unfoldable pub wait : (c m p q : ℕ) → (ℕ → ℕ → A → ℕ × A) → Objects A → Option (ℕ × Objects A)
  unfolding get_abt with_handle
  wait c m p q call s = get_abt cond c p s >>= λ r. with_handle mutex m q (call r.0) r.1

  abbrev pub pthread_cond_wait : (c m p q : ℕ) → Objects A → Option (ℕ × Objects A)
  pthread_cond_wait c m p q = wait c m p q lib.cond_wait

  -- ETIMEDOUT for a timeout, and 0 for all else.
  abbrev pub timed : ℕ → ℕ
  timed ret = if ret == abt_err_cond_timedout then etimedout else 0

  unfoldable pub pthread_cond_timedwait : (c m p q abstime : ℕ) → Objects A → Option (ℕ × Objects A)
  unfolding wait
  pthread_cond_timedwait c m p q abstime s =
      wait c m p q (λ hc hm. lib.cond_timedwait hc hm abstime) s >>= λ r. some (timed r.0, r.1)

  unfoldable pub pthread_cond_clockwait :
      (c m p q clk abstime : ℕ) → Objects A → Option (ℕ × Objects A)
  unfolding wait
  pthread_cond_clockwait c m p q clk abstime s =
      wait c m p q (λ hc hm. lib.cond_clockwait hc hm clk abstime) s >>= λ r. some (timed r.0, r.1)
