-- ===== src/Threads/Lazy.antt =====
-- `get_abt_mutex` and `get_abt_cond` of mylib/mylib.c, called by any number of threads for the same
-- object at once. Each shared access is one step.
use staut.Prelude.{ℕ, ◌+◌, ◌*◌, ◌/◌, ◌%◌, ◌^◌, ◌≡◌, ◌≢◌, update}

-- Which of the two functions.
pub data Kind : Type 0 where
  mutex : Kind
  cond : Kind

-- The first eight bytes of the object, and how many wrappers `pthread_mutex_init` or
-- `pthread_cond_init` made.
pub record Object : Type 0 where
  pub slot : ℕ
  pub made : ℕ

-- `*p_magic`, the lower half of the slot.
abbrev pub magic : ℕ → ℕ
magic slot = slot % 2 ^ 32

-- The mark of an object that a thread is making.
abbrev pub new_magic : ℕ
new_magic = 0xffff_ffff

-- The slot when the mark is written to its lower half.
abbrev pub marked : ℕ → ℕ
marked slot = slot / 2 ^ 32 * 2 ^ 32 + new_magic

-- Where a thread stands: before the first test of `get_abt_mutex`, before the compare-and-swap, in the
-- call of `pthread_mutex_init`, at the test of the loop, before the load of the pointer, and behind it.
pub data Pc : Type 0 where
  looking : Pc
  trying : Pc
  making : Pc
  waiting : Pc
  loading : Pc
  got : (wrap : ℕ) → Pc

-- A call of `get_abt_cond` begins with the compare-and-swap.
abbrev pub entry_of : Kind → Pc
entry_of mutex = looking
entry_of cond = trying

-- Behind `pthread_mutex_init` comes the loop, but `get_abt_cond` has it in the other branch.
abbrev pub after_making : Kind → Pc
after_making mutex = waiting
after_making cond = loading

-- One step of one thread. `alloc k` is the address of the `k`-th wrapper.
pub data Move (kind : Kind) (alloc : ℕ → ℕ) (m : Object) : Pc → Object → Pc → Type 0 where
  look_zero : magic m.slot ≡ 0 → Move kind alloc m looking m trying
  look_set : magic m.slot ≢ 0 → Move kind alloc m looking m waiting
  cas_win : magic m.slot ≡ 0 → Move kind alloc m trying (record m { slot = marked m.slot }) making
  cas_lose : magic m.slot ≢ 0 → Move kind alloc m trying m waiting
  store :
      Move kind alloc m making
        (record m { slot = alloc m.made; made = m.made + 1 })
        (after_making kind)
  spin : magic m.slot ≡ new_magic → Move kind alloc m waiting m waiting
  pass : magic m.slot ≢ new_magic → Move kind alloc m waiting m loading
  load : Move kind alloc m loading m (got m.slot)

pub record System : Type 0 where
  pub object : Object
  pub pc : ℕ → Pc

pub data Step (kind : Kind) (alloc : ℕ → ℕ) (s : System) : System → Type 0 where
  pick :
      (i : ℕ) {m : Object} {p : Pc}
      → Move kind alloc s.object (s.pc i) m p
      → Step kind alloc s (record { object = m; pc = update s.pc i p })

-- All threads call, and the object is as its static initializer leaves it.
abbrev pub start : Kind → System
start kind = record { object = record { slot = 0; made = 0 }; pc = λ _. entry_of kind }

pub data Reach (kind : Kind) (alloc : ℕ → ℕ) : System → Type 0 where
  here : Reach kind alloc (start kind)
  later : {s t : System} → Reach kind alloc s → Step kind alloc s t → Reach kind alloc t
