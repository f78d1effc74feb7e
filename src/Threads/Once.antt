-- ===== src/Threads/Once.antt =====
-- `pthread_once` of mylib/mylib.c, called by any number of threads for the same control at once.
use staut.Prelude.{ℕ, ◌+◌, ◌≤◌, ◌≡◌, refl, ◌≢◌, ◌⊎◌, inl, arith, update, Bool, true, false}

-- `once_control`, and how often `init_routine` was called and has returned.
pub record Control : Type 0 where
  pub once_control : ℕ
  pub calls : ℕ
  pub returns : ℕ

abbrev pub ini_val : ℕ
ini_val = 0

abbrev pub run_val : ℕ
run_val = 1

abbrev pub end_val : ℕ
end_val = 2

-- Where a thread stands: before the compare-and-swap, in `init_routine`, behind it, at the test of the
-- loop, and behind the call.
pub data OncePc : Type 0 where
  trying : OncePc
  running : OncePc
  ending : OncePc
  spinning : OncePc
  returned : OncePc

pub data OnceMove (m : Control) : OncePc → Control → OncePc → Type 0 where
  cas_win :
      m.once_control ≡ ini_val
      → OnceMove m trying (record m { once_control = run_val; calls = m.calls + 1 }) running
  cas_lose : m.once_control ≢ ini_val → OnceMove m trying m spinning
  done : OnceMove m running (record m { returns = m.returns + 1 }) ending
  close : OnceMove m ending (record m { once_control = end_val }) returned
  spin : m.once_control ≢ end_val → OnceMove m spinning m spinning
  pass : m.once_control ≡ end_val → OnceMove m spinning m returned

pub record Callers : Type 0 where
  pub control : Control
  pub pc : ℕ → OncePc

-- PTHREAD_ONCE_INIT is 0.
abbrev pub all_trying : Callers
all_trying = record {
  control = record { once_control = 0; calls = 0; returns = 0 };
  pc = λ _. trying;
}

pub data OnceReach : Callers → Type 0 where
  begin : OnceReach all_trying
  later :
      {s : Callers} (i : ℕ) {m : Control} {p : OncePc}
      → OnceReach s
      → OnceMove s.control (s.pc i) m p
      → OnceReach (record { control = m; pc = update s.pc i p })

-- What the place of a thread says about the control.
abbrev Local : Control → OncePc → Type 0
Local m trying = Unit
Local m running = (m.once_control ≡ run_val) × (m.returns ≡ 0)
Local m ending = (m.once_control ≡ run_val) × (m.returns ≡ 1)
Local m spinning = m.once_control ≢ ini_val
Local m returned = m.once_control ≡ end_val

abbrev inside : OncePc → Bool
inside running = true
inside ending = true
inside _ = false

abbrev Phase : Control → Type 0
Phase m =
    ((m.once_control ≡ ini_val) × (m.calls ≡ 0) × (m.returns ≡ 0))
    ⊎ (((m.once_control ≡ run_val) × (m.calls ≡ 1) × (m.returns ≤ 1))
        ⊎ ((m.once_control ≡ end_val) × (m.calls ≡ 1) × (m.returns ≡ 1)))

record Inv (m : Control) (pc : ℕ → OncePc) : Type 0 where
  phase : Phase m
  local : (i : ℕ) → Local m (pc i)
  unique : (i j : ℕ) → inside (pc i) ≡ true → inside (pc j) ≡ true → i ≡ j
  covered : m.once_control ≡ run_val → (i : ℕ) × (inside (pc i) ≡ true)

abbrev Guard : {m m' : Control} {p p' : OncePc} → OnceMove m p m' p' → Type 0
Guard {m} (cas_win _) = m.once_control ≡ ini_val
Guard {m} (cas_lose _) = m.once_control ≢ ini_val
Guard {m} (spin _) = m.once_control ≢ end_val
Guard {m} (pass _) = m.once_control ≡ end_val
Guard _ = Unit

guard : {m m' : Control} {p p' : OncePc} (mv : OnceMove m p m' p') → Guard mv
guard (cas_win g) = g
guard (cas_lose g) = g
guard (spin g) = g
guard (pass g) = g
guard _ = tt

module _ {m : Control} {pc : ℕ → OncePc} (inv : Inv m pc) (i : ℕ) where
  open inv use {phase, local, unique, covered}

  OnceMove-Local :
      {p p' : OncePc} {m' : Control}
      → OnceMove m p m' p'
      → pc i ≡ p
      → Local m p
      → (j : ℕ) → Local m' (update pc i p' j)
  OnceMove-Local (cas_win g) e l j = ground (arith, phase, local j)
  OnceMove-Local mv e l j = ground (arith, phase, guard mv, local j, unique i j)

  OnceMove-Phase : {p p' : OncePc} {m' : Control} → OnceMove m p m' p' → Local m p → Phase m'
  OnceMove-Phase (cas_win g) l = omega (arith, phase)
  OnceMove-Phase mv l = ground (arith, phase, guard mv)

  OnceMove-unique :
      {p p' : OncePc} {m' : Control}
      → OnceMove m p m' p'
      → pc i ≡ p
      → (a b : ℕ) → inside (update pc i p' a) ≡ true
      → inside (update pc i p' b) ≡ true
      → a ≡ b
  OnceMove-unique (cas_win g) e a b x y = ground (arith, local a, local b)
  OnceMove-unique mv e a b x y = ground (arith, guard mv, local a, local b, unique a b)

  OnceMove-covered :
      {p p' : OncePc} {m' : Control}
      → OnceMove m p m' p'
      → pc i ≡ p
      → m'.once_control ≡ run_val
      → (a : ℕ) × (inside (update pc i p' a) ≡ true)
  OnceMove-covered (cas_win g) e h = (i, ground arith)
  OnceMove-covered done e h = (i, ground arith)
  OnceMove-covered close e h = absurd (omega arith)
  OnceMove-covered mv e h = let (a, q) = covered h in (a, ground (arith, guard mv))

  OnceMove-Inv : {p' : OncePc} {m' : Control} → OnceMove m (pc i) m' p' → Inv m' (update pc i p')
  OnceMove-Inv mv = record {
    phase = OnceMove-Phase mv (local i);
    local = OnceMove-Local mv refl (local i);
    unique = OnceMove-unique mv refl;
    covered = OnceMove-covered mv refl;
  }

Inv-all_trying : Inv all_trying.control all_trying.pc
Inv-all_trying = record {
  phase = inl (refl, refl, refl);
  local = λ _. tt;
  unique = λ i j x y. cc;
  covered = λ e. absurd (omega arith);
}

OnceReach-Inv : {s : Callers} → OnceReach s → Inv s.control s.pc
OnceReach-Inv begin = Inv-all_trying
OnceReach-Inv (later i r mv) = OnceMove-Inv (OnceReach-Inv r) i mv

-- In every interleaving of any number of calls for one control, `init_routine` is called at most once, and
-- where a call has returned it was called once and has returned.
pub OnceReach-returned :
    {s : Callers}
    → OnceReach s
    → (i : ℕ)
    → (s.control.calls ≤ 1)
      × ((s.pc i ≢ returned) ⊎ ((s.control.calls ≡ 1) × (s.control.returns ≡ 1)))
OnceReach-returned {s} r i = let inv = OnceReach-Inv r in ground (arith, inv.phase, inv.local i)
