-- ===== src/Threads/Made.antt =====
-- How many wrappers threads make for an object, and which one they get, in mylib/mylib.c.
use staut.Prelude.{ℕ, ◌≡◌, refl, ◌≢◌, ◌⊎◌, inl, inr, arith, update, subst}
use staut.Threads.Lazy.{
  Kind, Object, magic, new_magic, Pc, looking, trying, making, waiting, loading, got, Move,
  look_zero, look_set, cas_win, cas_lose, store, pass, System, pick, start, Reach, here, later,
}

-- An address whose lower half is neither 0 nor the mark.
abbrev pub IsUsual : (ℕ → ℕ) → Type 0
IsUsual alloc = (k : ℕ) → (magic (alloc k) ≢ 0) × (magic (alloc k) ≢ new_magic)

-- What the place of a thread says about the object.
abbrev Local : (ℕ → ℕ) → Object → Pc → Type 0
Local alloc m looking = Unit
Local alloc m trying = Unit
Local alloc m making = m.slot ≡ new_magic
Local alloc m waiting = m.slot ≢ 0
Local alloc m loading = m.slot ≡ alloc 0
Local alloc m (got wrap) = (m.slot ≡ alloc 0) × (wrap ≡ alloc 0)

abbrev Phase : (ℕ → ℕ) → Object → Type 0
Phase alloc m =
    ((m.slot ≡ 0) × (m.made ≡ 0))
    ⊎ (((m.slot ≡ new_magic) × (m.made ≡ 0)) ⊎ ((m.slot ≡ alloc 0) × (m.made ≡ 1)))

record Inv (alloc : ℕ → ℕ) (m : Object) (pc : ℕ → Pc) : Type 0 where
  phase : Phase alloc m
  local : (i : ℕ) → Local alloc m (pc i)
  unique : (i j : ℕ) → pc i ≡ making → pc j ≡ making → i ≡ j
  covered : m.slot ≡ new_magic → (i : ℕ) × (pc i ≡ making)

-- The premise of a step, for the clauses that do not name it.
abbrev Guard :
    {kind : Kind} {alloc : ℕ → ℕ} {m m' : Object} {p p' : Pc} → Move kind alloc m p m' p' → Type 0
Guard {m = m} (look_zero _) = magic m.slot ≡ 0
Guard {m = m} (look_set _) = magic m.slot ≢ 0
Guard {m = m} (cas_win _) = magic m.slot ≡ 0
Guard {m = m} (cas_lose _) = magic m.slot ≢ 0
Guard {m = m} (pass _) = magic m.slot ≢ new_magic
Guard _ = Unit

guard :
    {kind : Kind} {alloc : ℕ → ℕ} {m m' : Object} {p p' : Pc} (mv : Move kind alloc m p m' p')
    → Guard mv
guard (look_zero g) = g
guard (look_set g) = g
guard (cas_win g) = g
guard (cas_lose g) = g
guard (pass g) = g
guard _ = tt

module _ {kind : Kind} {alloc : ℕ → ℕ} (usual : IsUsual alloc) {m : Object} {pc : ℕ → Pc}
    (inv : Inv alloc m pc) (i : ℕ) where
  open inv use {phase, local, unique, covered}

  Move-Phase :
      {p p' : Pc} {m' : Object} → Move kind alloc m p m' p' → Local alloc m p → Phase alloc m'
  Move-Phase (cas_win g) l = omega (arith, phase, usual 0)
  Move-Phase store l = ground (arith, phase, usual 0)
  Move-Phase mv l = phase

  Move-Local :
      {p p' : Pc} {m' : Object}
      → Move kind alloc m p m' p'
      → pc i ≡ p
      → Local alloc m p
      → (j : ℕ) → Local alloc m' (update pc i p' j)
  Move-Local (cas_win g) e l j = ground (arith, phase, usual 0, local j)
  Move-Local store e l j = ground (arith, phase, usual 0, local j, unique i j)
  Move-Local mv e l j = ground (arith, phase, usual 0, guard mv, local j)

  Move-unique :
      {p p' : Pc} {m' : Object}
      → Move kind alloc m p m' p'
      → pc i ≡ p
      → Local alloc m p
      → (a b : ℕ) → update pc i p' a ≡ making
      → update pc i p' b ≡ making
      → a ≡ b
  Move-unique (cas_win g) e l a b x y = ground (arith, phase, usual 0, local a, local b, unique a b)
  Move-unique mv e l a b x y = ground (arith, unique a b)

  Move-covered :
      {p p' : Pc} {m' : Object}
      → Move kind alloc m p m' p'
      → pc i ≡ p
      → Local alloc m p
      → m'.slot ≡ new_magic
      → (a : ℕ) × (update pc i p' a ≡ making)
  Move-covered (cas_win g) e l h = (i, ground arith)
  Move-covered store e l h = absurd (omega (arith, phase, usual 0, usual m.made))
  Move-covered mv e l h = let (a, q) = covered h in (a, ground (arith, guard mv))

  Move-Inv :
      {p' : Pc} {m' : Object} → Move kind alloc m (pc i) m' p' → Inv alloc m' (update pc i p')
  Move-Inv mv = record {
    phase = Move-Phase mv (local i);
    local = Move-Local mv refl (local i);
    unique = Move-unique mv refl (local i);
    covered = Move-covered mv refl (local i);
  }

Inv-start : (kind : Kind) (alloc : ℕ → ℕ) → Inv alloc (start kind).object (start kind).pc
Inv-start kind alloc = record {
  phase = inl (refl, refl);
  local = λ i. ground arith;
  unique = λ i j x y. ground arith;
  covered = λ e. absurd (omega arith);
}

Reach-Inv :
    {kind : Kind} {alloc : ℕ → ℕ} {s : System}
    → IsUsual alloc
    → Reach kind alloc s
    → Inv alloc s.object s.pc
Reach-Inv {kind} {alloc} usual here = Inv-start kind alloc
Reach-Inv usual (later r (pick i mv)) = Move-Inv usual (Reach-Inv usual r) i mv

-- In every interleaving of any number of calls for one object, at most one wrapper is made, and every call
-- that is behind its load has got that one. The addresses of wrappers have a lower half that is neither 0
-- nor the mark.
pub Reach-got :
    {kind : Kind} {alloc : ℕ → ℕ} {s : System} {wrap : ℕ}
    → IsUsual alloc
    → Reach kind alloc s
    → (i : ℕ) → s.pc i ≡ got wrap
    → (wrap ≡ alloc 0) × (s.object.slot ≡ alloc 0) × (s.object.made ≡ 1)
Reach-got {alloc = alloc} {s} usual r i e =
    let inv = Reach-Inv usual r in
    let here' : Local alloc s.object (got _) = subst (Local alloc s.object) e (inv.local i) in
    (here'.1, here'.0, omega (arith, inv.phase, usual 0, here'.0))

-- No deadlock: where a call waits, some thread makes the wrapper, or the wait is over.
pub Reach-waiting :
    {kind : Kind} {alloc : ℕ → ℕ} {s : System}
    → IsUsual alloc
    → Reach kind alloc s
    → (i : ℕ) → s.pc i ≡ waiting
    → ((j : ℕ) × (s.pc j ≡ making)) ⊎ (s.object.slot ≡ alloc 0)
Reach-waiting {alloc = alloc} {s} usual r i e =
    let inv = Reach-Inv usual r in
    elim inv.phase [
      | inl (z, _) ↦ absurd (subst (Local alloc s.object) e (inv.local i) z)
      | inr (inl (z, _)) ↦ inl (inv.covered z)
      | inr (inr (z, _)) ↦ inr z
    ]
