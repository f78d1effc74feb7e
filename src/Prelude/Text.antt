-- ===== src/Prelude/Text.antt =====
-- C strings as the list of their bytes before the terminating 0, and the part of string.h that the
-- sources use.
use Prim.Native.Nat.{ℕ, zero, suc, ◌+◌}
use mathlib.Core.Path.{◌≡◌, refl}
use mathlib.Core.Bool.{Bool, true, false, ◌&&◌}
use mathlib.Core.List.{List, [], ◌∷◌, ◌++◌}
use native.Mathlib.Omega.{arith}
use staut.Prelude.Tests.{◌==◌}

abbrev pub CString : Type 0
CString = List ℕ

module _ {ℓ} {A : Type ℓ} where
  abbrev pub length : List A → ℕ
  length [] = 0
  length (x ∷ xs) = suc (length xs)

  abbrev pub take : ℕ → List A → List A
  take zero xs = []
  take (suc n) [] = []
  take (suc n) (x ∷ xs) = x ∷ take n xs

  pub length-append : (xs ys : List A) → length (xs ++ ys) ≡ length xs + length ys
  length-append [] ys = omega arith
  length-append (x ∷ xs) ys = omega (arith, length-append xs ys)

-- `strncmp(a, b, n) == 0`
unfoldable pub strncmp_eq : CString → CString → ℕ → Bool
strncmp_eq a b zero = true
strncmp_eq [] [] (suc n) = true
strncmp_eq [] (y ∷ b) (suc n) = false
strncmp_eq (x ∷ a) [] (suc n) = false
strncmp_eq (x ∷ a) (y ∷ b) (suc n) = x == y && strncmp_eq a b n

-- Compared over its own length, a string matches exactly its extensions.
pub strncmp_eq-append : (a b : CString) → strncmp_eq a (a ++ b) (length a) ≡ true
unfolding strncmp_eq
strncmp_eq-append [] b = refl
strncmp_eq-append (x ∷ a) b = ground (arith, strncmp_eq-append a b)

pub eq-append_of_strncmp_eq :
    (a c : CString) → strncmp_eq a c (length a) ≡ true → (b : CString) × (c ≡ a ++ b)
unfolding strncmp_eq
eq-append_of_strncmp_eq [] c h = (c, refl)
eq-append_of_strncmp_eq (x ∷ a) [] h = cc
eq-append_of_strncmp_eq (x ∷ a) (y ∷ c) h =
    let tail = eq-append_of_strncmp_eq a c (ground arith) in (tail.0, ground (arith, tail.1))
