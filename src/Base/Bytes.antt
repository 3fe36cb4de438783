-- ===== src/Base/Bytes.antt =====
-- Byte strings compared as std::array and std::memcmp compare them.
use Prim.Native.Nat.{ℕ}
use mathlib.Core.Path.{◌≡◌, refl}
use mathlib.Core.Bool.{Bool, true, false, ◌&&◌, ◌||◌}
use mathlib.Core.List.{List, [], ◌∷◌}
use mathlib.Core.Logic.{◌⊎◌, inl, inr}
use native.Mathlib.Omega.{arith}
use libofp.Base.Tests.{ltb, ◌==◌}

unfoldable pub bytes_eq : List ℕ → List ℕ → Bool
bytes_eq [] [] = true
bytes_eq [] (y ∷ ys) = false
bytes_eq (x ∷ xs) [] = false
bytes_eq (x ∷ xs) (y ∷ ys) = x == y && bytes_eq xs ys

-- The lexicographic order.
unfoldable pub bytes_less : List ℕ → List ℕ → Bool
bytes_less [] [] = false
bytes_less [] (y ∷ ys) = true
bytes_less (x ∷ xs) [] = false
bytes_less (x ∷ xs) (y ∷ ys) = ltb x y || (x == y && bytes_less xs ys)

pub bytes_eq_refl : (xs : List ℕ) → bytes_eq xs xs ≡ true
unfolding bytes_eq
bytes_eq_refl [] = refl
bytes_eq_refl (x ∷ xs) = ground (arith, bytes_eq_refl xs)

pub bytes_eq→eq : (xs ys : List ℕ) → bytes_eq xs ys ≡ true → xs ≡ ys
unfolding bytes_eq
bytes_eq→eq [] [] h = refl
bytes_eq→eq [] (y ∷ ys) h = cc
bytes_eq→eq (x ∷ xs) [] h = cc
bytes_eq→eq (x ∷ xs) (y ∷ ys) h = ground (arith, bytes_eq→eq xs ys)

-- Of two byte strings exactly one of three holds: equal, less, or greater.
pub bytes_compare :
    (xs ys : List ℕ)
    → ((bytes_eq xs ys ≡ true) × (bytes_less xs ys ≡ false) × (bytes_less ys xs ≡ false))
      ⊎ ((bytes_eq xs ys ≡ false) × (bytes_less xs ys ≡ true) × (bytes_less ys xs ≡ false))
      ⊎ ((bytes_eq xs ys ≡ false) × (bytes_less xs ys ≡ false) × (bytes_less ys xs ≡ true))
unfolding bytes_eq bytes_less
bytes_compare [] [] = inl (refl, refl, refl)
bytes_compare [] (y ∷ ys) = inr (inl (refl, refl, refl))
bytes_compare (x ∷ xs) [] = inr (inr (refl, refl, refl))
bytes_compare (x ∷ xs) (y ∷ ys) = ground (arith, bytes_compare xs ys)

pub bytes_eq_comm : (xs ys : List ℕ) → bytes_eq xs ys ≡ bytes_eq ys xs
unfolding bytes_eq
bytes_eq_comm [] [] = refl
bytes_eq_comm [] (y ∷ ys) = refl
bytes_eq_comm (x ∷ xs) [] = refl
bytes_eq_comm (x ∷ xs) (y ∷ ys) = ground (arith, bytes_eq_comm xs ys)
