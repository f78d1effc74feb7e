-- ===== src/Threads/Queue.antt =====
-- `MyFIFO` of mylib/myfifo.hpp against a queue, and a pop between the two steps of a push.
use native.Mathlib.Nat.{mod_self, mod-eq_of_lt}
use staut.Prelude.{
  ℕ, zero, suc, ◌+◌, ◌-◌, ◌%◌, ◌≤◌, ◌<◌, ◌≡◌, refl, ◌≢◌, ap, ap₂, ◌∙◌, sym, arith, Bool, true,
  false, ◌==◌, leb, ==_iff, ==-false, if◌then◌else◌, Option, none, some, List, [], ◌∷◌, ◌++◌,
  update, update_self, update_ne, ◌⊎◌, inl, inr, ℕ_discrete,
}
use staut.Threads.Fifo.{Fifo, claim, fill, push, pop}

module _ (qd : ℕ) where
  abbrev pub IsValid : Fifo → Type 0
  IsValid q = (q.wp < qd) × (q.rp < qd)

  -- The index behind `i`, and the one `n` places behind.
  abbrev pub behind : ℕ → ℕ
  behind i = if i + 1 == qd then 0 else i + 1

  abbrev place : ℕ → ℕ → ℕ
  place zero i = i
  place (suc n) i = place n (behind i)

  abbrev pub count : Fifo → ℕ
  count q = if leb q.rp q.wp then q.wp - q.rp else q.wp + qd - q.rp

  -- `n` entries from index `i` on.
  abbrev pub items : (ℕ → ℕ) → ℕ → ℕ → List ℕ
  items que zero i = []
  items que (suc n) i = que i ∷ items que n (behind i)

  -- What the queue holds, its oldest entry first.
  abbrev pub contents : Fifo → List ℕ
  contents q = items q.que (count q) q.rp

  mod-behind : (i : ℕ) → i < qd → (i + 1) % qd ≡ behind i
  mod-behind i h = elim (ℕ_discrete (i + 1) qd) [
    | yes e ↦ rw ((==_iff (i + 1) qd).1 e) (ap (λ (k : ℕ). k % qd) e ∙ mod_self qd)
    | no ne ↦ rw (==-false (i + 1) qd ne) (mod-eq_of_lt (omega arith))
  ]

  place-sum :
      (n i : ℕ)
      → i < qd
      → n < qd
      → ((i + n < qd) × (place n i ≡ i + n)) ⊎ ((qd ≤ i + n) × (place n i + qd ≡ i + n))
  place-sum zero i h l = inl (omega arith, omega arith)
  place-sum (suc n) i h l = elim (ℕ_discrete (i + 1) qd) [
    | yes e ↦
        rw ((==_iff (i + 1) qd).1 e) (omega (arith, place-sum n 0 (omega arith) (omega arith)))
    | no ne ↦
        rw (==-false (i + 1) qd ne) (omega (arith, place-sum n (i + 1) (omega arith) (omega arith)))
  ]

  behind-lt : (i : ℕ) → i < qd → behind i < qd
  behind-lt i h = ground arith

  items-update :
      (que : ℕ → ℕ) (n i j v : ℕ)
      → ((k : ℕ) → k < n → place k i ≢ j)
      → items (update que j v) n i ≡ items que n i
  items-update que zero i j v far = refl
  items-update que (suc n) i j v far =
      ap₂ (λ x xs. x ∷ xs) (update_ne que j v i (λ e. far 0 (omega arith) (sym e)))
        (items-update que n (behind i) j v (λ k l. far (suc k) (omega arith)))

  items-snoc : (que : ℕ → ℕ) (n i : ℕ) → items que (suc n) i ≡ items que n i ++ que (place n i) ∷ []
  items-snoc que zero i = refl
  items-snoc que (suc n) i = ap (λ xs. que i ∷ xs) (items-snoc que n (behind i))

  items-push :
      (que : ℕ → ℕ) (n i v : ℕ)
      → i < qd
      → n < qd
      → items (update que (place n i) v) (suc n) i ≡ items que n i ++ v ∷ []
  items-push que n i v h l =
      items-snoc (update que (place n i) v) n i
      ∙ ap₂ (λ xs x. xs ++ x ∷ []) (items-update que n i (place n i) v apart)
          (update_self que (place n i) v)
    where
      apart : (k : ℕ) → k < n → place k i ≢ place n i
      apart k q e = absurd (omega (arith, place-sum k i h (omega arith), place-sum n i h l))

  place-count : (q : Fifo) → IsValid q → (place (count q) q.rp ≡ q.wp) × (count q < qd)
  place-count q v = (ground (arith, place-sum (count q) q.rp v.1 small), small)
    where
      small : count q < qd
      small = ground arith

  claim-full : (q : Fifo) → IsValid q → behind q.wp ≡ q.rp → claim qd q ≡ none
  unfolding claim
  claim-full q v e = rw (mod-behind q.wp v.0, (==_iff (behind q.wp) q.rp).1 e) refl

  claim-room :
      (q : Fifo)
      → IsValid q
      → behind q.wp ≢ q.rp
      → claim qd q ≡ some (q.wp, record q { wp = behind q.wp })
  unfolding claim
  claim-room q v ne = rw (mod-behind q.wp v.0, ==-false (behind q.wp) q.rp ne) refl

  abbrev push_by : Fifo → ℕ → Option (ℕ × Fifo) → Bool × Fifo
  push_by q entry c = elim c [ none ↦ (false, q) | some r ↦ (true, fill qd r.0 entry r.1) ]

  -- With one place left `push` takes the entry to the end of the queue, and else refuses it and changes
  -- nothing: a queue of QD places holds at most QD - 1 entries.
  pub push_refines :
      (q : Fifo) (entry : ℕ)
      → IsValid q
      → ((count q + 1 < qd)
          × (t : Fifo) × (push qd entry q ≡ (true, t))
          × IsValid t
          × (contents t ≡ contents q ++ entry ∷ []))
        ⊎ ((count q + 1 ≡ qd) × (push qd entry q ≡ (false, q)))
  unfolding push claim fill
  push_refines q entry v = elim (ℕ_discrete (behind q.wp) q.rp) [
    | yes e ↦ inr (ground arith, ap (push_by q entry) (claim-full q v e))
    | no ne ↦ inl (
      ground arith,
      pushed,
      ap (push_by q entry) (claim-room q v ne),
      (behind-lt q.wp v.0, v.1),
      ap₂ (λ n j. items (update q.que j entry) n q.rp) {y = suc (count q)} (ground arith)
            (sym (place-count q v).0)
          ∙ items-push q.que (count q) q.rp entry v.1 (place-count q v).1,
    )
  ]
    where
      pushed : Fifo
      pushed = record q { wp = behind q.wp; que = update q.que q.wp entry }

  -- `pop` takes the oldest entry, and answers `nullptr` exactly if there is none.
  pub pop_refines :
      (q : Fifo)
      → IsValid q
      → ((contents q ≡ []) × (pop qd q ≡ (none, q)))
        ⊎ ((x : ℕ) × (t : Fifo) × (pop qd q ≡ (some x, t))
            × IsValid t
            × (contents q ≡ x ∷ contents t))
  unfolding pop
  pop_refines q v = elim (ℕ_discrete q.rp q.wp) [
    | yes e ↦
        inl (ap (λ n. items q.que n q.rp) {y = 0} (ground arith), rw ((==_iff q.rp q.wp).1 e) refl)
    | no ne ↦ inr (
      q.que q.rp,
      popped,
      rw (==-false q.rp q.wp ne, mod-behind q.rp v.1) refl,
      (v.0, behind-lt q.rp v.1),
      ap (λ n. items q.que n q.rp) {y = suc (count popped)} (ground arith),
    )
  ]
    where
      popped : Fifo
      popped = record q { rp = behind q.rp }

  -- A pop between the two steps of a push into an empty queue takes what stood in the array before, not
  -- what is pushed.
  pop-claim :
      (q : Fifo)
      → IsValid q
      → 1 < qd
      → q.rp ≡ q.wp
      → (t : Fifo) × (claim qd q ≡ some (q.wp, t)) × ((pop qd t).0 ≡ some (q.que q.wp))
  unfolding claim pop
  pop-claim q v h e = (
    record q { wp = behind q.wp },
    claim-room q v (λ p. ground arith),
    rw (==-false q.rp (behind q.wp) (λ p. ground arith)) (ap (λ k. some (q.que k)) e),
  )
