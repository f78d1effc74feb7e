-- ===== src/Prelude/Arrays.antt =====
-- C arrays of a fixed size as functions of the index, a write at one index, and sums over the
-- first `n` indices.
use Prim.Native.Nat.{ℕ, zero, suc, ◌+◌, ◌≤◌, ◌<◌}
use mathlib.Core.Path.{◌≡◌, refl}
use mathlib.Core.Logic.{◌≢◌}
use native.Mathlib.Omega.{arith}
use staut.Prelude.Tests.{◌==◌, if◌then◌else◌}

-- `f[i] = v`
abbrev pub update {ℓ} : {A : Type ℓ} → (ℕ → A) → ℕ → A → ℕ → A
update f i v j = if i == j then v else f j

-- The sum of the first `n` entries.
pub total : ℕ → (ℕ → ℕ) → ℕ
total zero f = 0
total (suc n) f = total n f + f n

-- The last entry taken off.
pub total-suc : (n : ℕ) (f : ℕ → ℕ) → total (suc n) f ≡ total n f + f n
unfolding total
total-suc n f = refl

pub update_self {ℓ} : {A : Type ℓ} (f : ℕ → A) (i : ℕ) (v : A) → update f i v i ≡ v
update_self f i v = ground arith

pub update_ne {ℓ} : {A : Type ℓ} (f : ℕ → A) (i : ℕ) (v : A) (j : ℕ) → i ≢ j → update f i v j ≡ f j
update_ne f i v j h = ground arith

-- Sums of entries that agree below `n` agree.
pub total-ext : (n : ℕ) (f g : ℕ → ℕ) → ((k : ℕ) → k < n → f k ≡ g k) → total n f ≡ total n g
unfolding total
total-ext zero f g h = refl
total-ext (suc n) f g h =
    omega (arith, total-ext n f g (λ k p. h k (omega arith)), h n (omega arith))

-- The first entry taken off the front.
pub total-front : (n : ℕ) (f : ℕ → ℕ) → total (suc n) f ≡ f 0 + total n (λ k. f (suc k))
unfolding total
total-front zero f = omega arith
total-front (suc n) f = omega (arith, total-front n f)

-- One entry changed: the rest of the sum stays.
pub total-change :
    (n i : ℕ) (f g : ℕ → ℕ)
    → i < n
    → ((k : ℕ) → k ≢ i → g k ≡ f k)
    → total n g + f i ≡ total n f + g i
unfolding total
total-change zero i f g h same = absurd (omega arith)
total-change (suc n) i f g h same = ground (arith, same n, ext, total-change n i f g)
  where
    ext : i ≡ n → total n g ≡ total n f
    ext e = total-ext n g f (λ k p. same k (λ q. omega arith))

-- A sum whose entries are all 0.
pub total-zero : (n : ℕ) (f : ℕ → ℕ) → ((k : ℕ) → k < n → f k ≡ 0) → total n f ≡ 0
unfolding total
total-zero zero f h = refl
total-zero (suc n) f h = omega (arith, total-zero n f (λ k p. h k (omega arith)), h n (omega arith))

-- One entry is at most the sum.
pub le-total : (n i : ℕ) (f : ℕ → ℕ) → i < n → f i ≤ total n f
unfolding total
le-total zero i f h = absurd (omega arith)
le-total (suc n) i f h = ground (arith, le-total n i f)
