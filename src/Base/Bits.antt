-- ===== src/Base/Bits.antt =====
-- Single bits of a word, and `&` bit by bit.
use Prim.Native.Nat.{
  ℕ, zero, suc, ◌+◌, ◌*◌, ◌/◌, ◌%◌, ◌≤◌, min, max, bit_and, bit_or, digits, bit_and-bitwise,
  bit_or-bitwise,
}
use mathlib.Core.Path.{◌≡◌, refl, ◌∙◌, ap}
use mathlib.Core.Bool.{Bool, ◌&&◌, ◌||◌}
use native.Mathlib.Omega.{arith}
use libofp.Base.Tests.{◌==◌}

-- `word >> i`
abbrev pub shift_right : ℕ → ℕ → ℕ
shift_right word zero = word
shift_right word (suc i) = shift_right (word / 2) i

-- `(word >> i) & 1`
abbrev pub test_bit : ℕ → ℕ → Bool
test_bit word i = shift_right word i % 2 == 1

-- The recursion that `bit_and` stands for; its fuel does not count.
abbrev min_digits : ℕ → ℕ → ℕ → ℕ
min_digits fuel a b = digits (λ b. zero) min fuel a b

min_digits-fuel : (k l a b : ℕ) → a ≤ k → a ≤ l → min_digits k a b ≡ min_digits l a b
min_digits-fuel zero zero a b h h' = refl
min_digits-fuel zero (suc l) zero b h h' = refl
min_digits-fuel zero (suc l) (suc a) b h h' = absurd (omega arith)
min_digits-fuel (suc k) zero zero b h h' = refl
min_digits-fuel (suc k) zero (suc a) b h h' = absurd (omega arith)
min_digits-fuel (suc k) (suc l) zero b h h' = refl
min_digits-fuel (suc k) (suc l) (suc a) b h h' =
    omega (arith, min_digits-fuel k l (suc a / 2) (b / 2) (omega arith) (omega arith))

bit_and-halves :
    (a b : ℕ)
    → (bit_and a b / 2 ≡ bit_and (a / 2) (b / 2)) × (bit_and a b % 2 ≡ min (a % 2) (b % 2))
bit_and-halves zero b =
    let e = bit_and-bitwise 0 in (omega (arith, e b, e (b / 2)), omega (arith, e b))
bit_and-halves (suc a) b =
    let e : bit_and (suc a) b ≡ bit_and (suc a / 2) (b / 2) * 2 + min (suc a % 2) (b % 2) = omega (
      arith,
      bit_and-bitwise (suc a) b,
      bit_and-bitwise (suc a / 2) (b / 2),
      min_digits-fuel a (suc a / 2) (suc a / 2) (b / 2) (omega arith) (omega arith),
    ) in
    (omega (arith, e), omega (arith, e))

-- A bit of `a & b` is set when it is set in both.
pub test_bit-bit_and : (i a b : ℕ) → test_bit (bit_and a b) i ≡ (test_bit a i && test_bit b i)
test_bit-bit_and zero a b = ground (arith, bit_and-halves a b)
test_bit-bit_and (suc i) a b =
    ap (λ w. shift_right w i % 2 == 1) (bit_and-halves a b).0 ∙ test_bit-bit_and i (a / 2) (b / 2)

-- The recursion that `bit_or` stands for.
abbrev max_digits : ℕ → ℕ → ℕ → ℕ
max_digits fuel a b = digits (λ b. b) max fuel a b

max_digits-fuel : (k l a b : ℕ) → a ≤ k → a ≤ l → max_digits k a b ≡ max_digits l a b
max_digits-fuel zero zero a b h h' = refl
max_digits-fuel zero (suc l) zero b h h' = refl
max_digits-fuel zero (suc l) (suc a) b h h' = absurd (omega arith)
max_digits-fuel (suc k) zero zero b h h' = refl
max_digits-fuel (suc k) zero (suc a) b h h' = absurd (omega arith)
max_digits-fuel (suc k) (suc l) zero b h h' = refl
max_digits-fuel (suc k) (suc l) (suc a) b h h' =
    omega (arith, max_digits-fuel k l (suc a / 2) (b / 2) (omega arith) (omega arith))

bit_or-halves :
    (a b : ℕ) → (bit_or a b / 2 ≡ bit_or (a / 2) (b / 2)) × (bit_or a b % 2 ≡ max (a % 2) (b % 2))
bit_or-halves zero b =
    let e = bit_or-bitwise 0 in (omega (arith, e b, e (b / 2)), omega (arith, e b))
bit_or-halves (suc a) b =
    let e : bit_or (suc a) b ≡ bit_or (suc a / 2) (b / 2) * 2 + max (suc a % 2) (b % 2) = omega (
      arith,
      bit_or-bitwise (suc a) b,
      bit_or-bitwise (suc a / 2) (b / 2),
      max_digits-fuel a (suc a / 2) (suc a / 2) (b / 2) (omega arith) (omega arith),
    ) in
    (omega (arith, e), omega (arith, e))

-- A bit of `a | b` is set when it is set in one of them.
pub test_bit-bit_or : (i a b : ℕ) → test_bit (bit_or a b) i ≡ (test_bit a i || test_bit b i)
test_bit-bit_or zero a b = ground (arith, bit_or-halves a b)
test_bit-bit_or (suc i) a b =
    ap (λ w. shift_right w i % 2 == 1) (bit_or-halves a b).0 ∙ test_bit-bit_or i (a / 2) (b / 2)
