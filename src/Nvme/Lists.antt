-- ===== src/Nvme/Lists.antt =====
-- Lists of distinct commands, and a buffer behind a copy into it, for mylib/nvme.cc.
use staut.Prelude.{
  ℕ, zero, suc, ◌≤◌, ◌<◌, ◌≡◌, refl, sym, arith, ap, ◌∙◌, ◌≢◌, List, [], ◌∷◌, ◌++◌, length, take,
  update, update_self, update_ne, total, total-zero, total-suc, total-change,
}
use staut.Nvme.Qp.{overlay}

abbrev pub All {ℓ κ} : {A : Type ℓ} → (A → Type κ) → List A → Type κ
All P [] = Unit
All P (x ∷ xs) = P x × All P xs

abbrev pub Distinct : List ℕ → Type 0
Distinct [] = Unit
Distinct (c ∷ cs) = All (λ d. d ≢ c) cs × Distinct cs

length-total :
    (n : ℕ) (cs : List ℕ) (f : ℕ → ℕ)
    → All (λ c. (c < n) × (f c ≡ 1)) cs
    → Distinct cs
    → length cs ≤ total n f
length-total n [] f b d = omega arith
length-total n (c ∷ cs) f b d =
    let g = update f c 0 in
    omega (
      arith,
      length-total n cs g (rest cs b.1 d.0) d.1,
      total-change n c f g b.0.0 (λ k p. update_ne f c 0 k (λ e. p (sym e))),
      update_self f c 0,
      b.0.1,
    )
  where
    rest :
        (ds : List ℕ)
        → All (λ d. (d < n) × (f d ≡ 1)) ds
        → All (λ d. d ≢ c) ds
        → All (λ d. (d < n) × (update f c 0 d ≡ 1)) ds
    rest [] b d = tt
    rest (x ∷ ds) b d = ((b.0.0, update_ne f c 0 x (λ e. d.0 (sym e)) ∙ b.0.1), rest ds b.1 d.1)

total-ones : (n : ℕ) → total n (λ _. 1) ≡ n
total-ones zero = total-zero 0 (λ _. 1) (λ k p. absurd (omega arith))
total-ones (suc n) = omega (arith, total-suc n (λ _. 1), total-ones n)

pub All-map {ℓ κ} :
    {A : Type ℓ} {P Q : A → Type κ} (xs : List A) → ((x : A) → P x → Q x) → All P xs → All Q xs
All-map [] f h = tt
All-map (x ∷ xs) f h = (f x h.0, All-map xs f h.1)

-- Distinct commands below `n` are at most `n`.
pub length-Distinct : (n : ℕ) (cs : List ℕ) → All (λ c. c < n) cs → Distinct cs → length cs ≤ n
length-Distinct n cs b d =
    omega (arith, length-total n cs (λ _. 1) (All-map cs (λ c l. (l, refl)) b) d, total-ones n)

pub All-snoc {ℓ κ} :
    {A : Type ℓ} (P : A → Type κ) (xs : List A) (x : A) → All P xs → P x → All P (xs ++ x ∷ [])
All-snoc P [] x h k = (k, tt)
All-snoc P (y ∷ xs) x h k = (h.0, All-snoc P xs x h.1 k)

pub All-of_snoc {ℓ κ} :
    {A : Type ℓ} (P : A → Type κ) (xs : List A) (x : A) → All P (xs ++ x ∷ []) → All P xs × P x
All-of_snoc P [] x h = (tt, h.0)
All-of_snoc P (y ∷ xs) x h = let rest = All-of_snoc P xs x h.1 in ((h.0, rest.0), rest.1)

pub Distinct-snoc :
    (cs : List ℕ) (i : ℕ) → Distinct cs → All (λ c. c ≢ i) cs → Distinct (cs ++ i ∷ [])
Distinct-snoc [] i d h = (tt, tt)
Distinct-snoc (c ∷ cs) i d h =
    (All-snoc (λ d. d ≢ c) cs i d.0 (λ e. h.0 (sym e)), Distinct-snoc cs i d.1 h.1)

pub take-overlay : (l : ℕ) (xs old : List ℕ) → l ≤ length xs → take l (overlay xs old) ≡ take l xs
take-overlay zero xs old h = refl
take-overlay (suc l) [] old h = absurd (omega arith)
take-overlay (suc l) (x ∷ xs) [] h = refl
take-overlay (suc l) (x ∷ xs) (y ∷ old) h = ap (◌∷◌ x) (take-overlay l xs old (omega arith))
