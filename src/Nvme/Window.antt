-- ===== src/Nvme/Window.antt =====
-- The completion queue of mylib/nvme.cc seen from its head: the entries that the drive has posted and
-- that are not consumed, and behind them the old ones.
use staut.Prelude.{
  ℕ, zero, suc, ◌+◌, ◌-◌, ◌≤◌, ◌<◌, ◌≡◌, refl, sym, arith, ap, ◌≢◌, Option, none, some, List, [],
  ◌∷◌, ◌++◌, ltb, if◌then◌else◌, length, update, subst, dec_lt, ℕ_discrete, update_self, update_ne,
}
use staut.Nvme.Qp.{Cqe, next_head, next_phase}
use staut.Nvme.Poll.{Posted}

-- The place of the `k`-th entry from the head, and the phase of a new entry there.
abbrev pub slot : ℕ → ℕ → ℕ → ℕ
slot n head k = if ltb (head + k) n then head + k else head + k - n

abbrev pub lap : ℕ → ℕ → ℕ → ℕ → ℕ
lap n head phase k = if ltb (head + k) n then phase else 1 - phase

abbrev pub nth : List ℕ → ℕ → Option ℕ
nth [] k = none
nth (c ∷ cs) zero = some c
nth (c ∷ cs) (suc k) = nth cs k

-- An entry that holds a new completion, or an old one.
abbrev pub IsEntry : Cqe → ℕ → Option ℕ → Type 0
IsEntry e phase none = e.phase ≢ phase
IsEntry e phase (some c) = (e.phase ≡ phase) × (e.cid ≡ c)

-- The queue holds the completions of the commands `cs`, from the head on, and no other.
abbrev pub Window : ℕ → (ℕ → Cqe) → ℕ → ℕ → List ℕ → Type 0
Window n cqes head phase cs =
    (k : ℕ) → k < n → IsEntry (cqes (slot n head k)) (lap n head phase k) (nth cs k)

nth-some : (cs : List ℕ) (k : ℕ) → k < length cs → (c : ℕ) × (nth cs k ≡ some c)
nth-some [] k h = absurd (omega arith)
nth-some (c ∷ cs) zero h = (c, refl)
nth-some (c ∷ cs) (suc k) h = nth-some cs k (omega arith)

nth-none : (cs : List ℕ) (k : ℕ) → length cs ≤ k → nth cs k ≡ none
nth-none [] k h = refl
nth-none (c ∷ cs) zero h = absurd (omega arith)
nth-none (c ∷ cs) (suc k) h = nth-none cs k (omega arith)

nth-snoc : (cs : List ℕ) (c : ℕ) → nth (cs ++ c ∷ []) (length cs) ≡ some c
nth-snoc [] c = refl
nth-snoc (d ∷ cs) c = nth-snoc cs c

nth-snoc_ne : (cs : List ℕ) (c k : ℕ) → k ≢ length cs → nth (cs ++ c ∷ []) k ≡ nth cs k
nth-snoc_ne [] c zero h = absurd (h refl)
nth-snoc_ne [] c (suc k) h = refl
nth-snoc_ne (d ∷ cs) c zero h = refl
nth-snoc_ne (d ∷ cs) c (suc k) h = nth-snoc_ne cs c k (λ e. h (ap suc e))

module _ (n head phase : ℕ) (in_range : head < n) (bit : phase < 2) where
  pub next_head-slot : (k : ℕ) → k < n → next_head n (slot n head k) ≡ slot n head (k + 1)
  next_head-slot k h = ground arith

  pub next_phase-lap :
      (k : ℕ) → k < n → next_phase n (slot n head k) (lap n head phase k) ≡ lap n head phase (k + 1)
  next_phase-lap k h = ground arith

  pub slot_lt : (m : ℕ) → m ≤ n → slot n head m < n
  slot_lt m h = ground arith

  pub lap_lt : (m : ℕ) → lap n head phase m < 2
  lap_lt m = ground arith

  pub slot_zero : slot n head 0 ≡ head
  slot_zero = ground arith

  pub lap_zero : lap n head phase 0 ≡ phase
  lap_zero = ground arith

  slot-injective : (j k : ℕ) → j < n → k < n → slot n head j ≡ slot n head k → j ≡ k
  slot-injective j k hj hk e = ground arith

  slot-slot : (m k : ℕ) → m + k < n → slot n (slot n head m) k ≡ slot n head (m + k)
  slot-slot m k h = ground arith

  lap-lap :
      (m k : ℕ)
      → m + k < n
      → lap n (slot n head m) (lap n head phase m) k ≡ lap n head phase (m + k)
  lap-lap m k h = ground arith

  slot-slot_wrapped :
      (m k : ℕ) → m ≤ n → k < n → n ≤ m + k → slot n (slot n head m) k ≡ slot n head (m + k - n)
  slot-slot_wrapped m k l h w = ground arith

  lap-lap_wrapped :
      (m k : ℕ)
      → m ≤ n
      → k < n
      → n ≤ m + k
      → lap n (slot n head m) (lap n head phase m) k ≡ 1 - lap n head phase (m + k - n)
  lap-lap_wrapped m k l h w = ground arith

  -- The window as the list that a poll reads, from the `j`-th entry on.
  Window-Posted_from :
      (cqes : ℕ → Cqe) (cs : List ℕ) (j : ℕ)
      → ((k : ℕ)
          → k < n
          → j ≤ k
          → IsEntry (cqes (slot n head k)) (lap n head phase k) (nth cs (k - j)))
      → j + length cs ≤ n
      → (j + length cs ≡ n → (cqes head).phase ≡ phase)
      → Posted n cqes (slot n head j) (lap n head phase j) cs
  Window-Posted_from cqes [] j w l full = elim (dec_lt j n) [
    | yes p ↦ w j p (omega arith)
    | no p ↦
        let last : slot n head j ≡ head = ground arith in
        let turned : lap n head phase j ≡ 1 - phase = ground arith in
        rw (last, turned) (λ e. omega (arith, full (omega arith), bit, e))
  ]
  Window-Posted_from cqes (c ∷ cs) j w l full =
      let e =
        subst (λ m. IsEntry (cqes (slot n head j)) (lap n head phase j) (nth (c ∷ cs) m))
          {x = j - j} {y = 0} (omega arith) (w j (omega arith) (omega arith)) in
      let shift : (k : ℕ) → j + 1 ≤ k → k - j ≡ suc (k - (j + 1)) = λ k h. omega arith in
      (
        e.0,
        e.1,
        rw (next_head-slot j (omega arith), next_phase-lap j (omega arith))
            (Window-Posted_from cqes cs (j + 1)
              (λ k p q.
                subst (λ m. IsEntry (cqes (slot n head k)) (lap n head phase k) (nth (c ∷ cs) m))
                  (shift k q) (w k p (omega arith)))
              (omega arith) (λ q. full (omega arith))),
      )

  pub Window-Posted :
      (cqes : ℕ → Cqe) (cs : List ℕ)
      → length cs ≤ n
      → Window n cqes head phase cs
      → Posted n cqes head phase cs
  Window-Posted cqes cs l w =
      rw (slot_zero, lap_zero) at
        (Window-Posted_from cqes cs 0
          (λ k p q.
            subst (λ m. IsEntry (cqes (slot n head k)) (lap n head phase k) (nth cs m)) {x = k}
              {y = k - 0} (omega arith) (w k p))
          (omega arith) full)
    where
      full : 0 + length cs ≡ n → (cqes head).phase ≡ phase
      full e =
          let c = nth-some cs 0 (omega arith) in
          (rw (c.1, slot_zero, lap_zero) at (w 0 (omega arith))).0

  -- The drive posts one more completion.
  pub Window-post :
      (cqes : ℕ → Cqe) (cs : List ℕ) (c : ℕ)
      → length cs < n
      → Window n cqes head phase cs
      → Window n
          (update cqes
            (slot n head (length cs))
            (record { cid = c; phase = lap n head phase (length cs) }))
          head
          phase
          (cs ++ c ∷ [])
  Window-post cqes cs c l w k h = elim (ℕ_discrete k (length cs)) [
    | yes e ↦ rw (e, nth-snoc cs c, update_self cqes (slot n head (length cs))) (refl, refl)
    | no ne ↦
        rw
          (
            update_ne cqes (slot n head (length cs)) _ (slot n head k)
                (λ q. ne (sym (slot-injective (length cs) k l h q))),
            nth-snoc_ne cs c k ne,
          )
          (w k h)
  ]

  -- A poll consumes all of them: behind it every entry is an old one.
  pub Window-polled :
      (cqes : ℕ → Cqe) (cs : List ℕ)
      → length cs ≤ n
      → Window n cqes head phase cs
      → Window n cqes (slot n head (length cs)) (lap n head phase (length cs)) []
  Window-polled cqes cs l w k h = elim (dec_lt (length cs + k) n) [
    | yes p ↦
        rw (slot-slot (length cs) k p, lap-lap (length cs) k p)
          (rw (nth-none cs (length cs + k) (omega arith)) at (w (length cs + k) p))
    | no p ↦
        let c = nth-some cs (length cs + k - n) (omega arith) in
        let e = rw (c.1) at (w (length cs + k - n) (omega arith)) in
        rw
          (
            slot-slot_wrapped (length cs) k l h (omega arith),
            lap-lap_wrapped (length cs) k l h (omega arith),
          )
          (λ q. ground (arith, e.0, q))
  ]
