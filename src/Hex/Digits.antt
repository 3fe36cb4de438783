-- ===== src/Hex/Digits.antt =====
-- Every byte comes back from its two digits.
use libofp.Base.{ℕ, zero, suc, ◌/◌, ◌%◌, ◌<◌, ◌≡◌, Bool, true, false, ◌&&◌, not, arith, ◌==◌, refl}
use libofp.Hex.{is_xdigit, from_hex, to_hex_upper_case, to_hex_lower_case, byte_of}

-- Over a small range, every value is tried.
unfoldable pub all_below : ℕ → (ℕ → Bool) → Bool
all_below zero p = true
all_below (suc n) p = p n && all_below n p

pub all_below-lt : (n : ℕ) (p : ℕ → Bool) (x : ℕ) → all_below n p ≡ true → x < n → p x ≡ true
unfolding all_below
all_below-lt zero p x h lt = absurd (omega arith)
all_below-lt (suc n) p x h lt = ground (arith, all_below-lt n p x)

abbrev is_digit_for : (ℕ → ℕ) → ℕ → Bool
is_digit_for to_hex x =
    is_xdigit (to_hex x) && from_hex (to_hex x) == x && not (to_hex x == 0) && not (to_hex x == 58)

upper_table : all_below 16 (is_digit_for to_hex_upper_case) ≡ true
unfolding all_below is_xdigit from_hex to_hex_upper_case
upper_table = refl

lower_table : all_below 16 (is_digit_for to_hex_lower_case) ≡ true
unfolding all_below is_xdigit from_hex to_hex_lower_case
lower_table = refl

abbrev pub IsDigitFor : ℕ → ℕ → Type 0
IsDigitFor c x = (is_xdigit c ≡ true) × (from_hex c ≡ x) × ((c == 0) ≡ false) × ((c == 58) ≡ false)

pub upper-IsDigitFor : (x : ℕ) → x < 16 → IsDigitFor (to_hex_upper_case x) x
upper-IsDigitFor x h =
    ground (arith, all_below-lt 16 (is_digit_for to_hex_upper_case) x upper_table h)

pub lower-IsDigitFor : (x : ℕ) → x < 16 → IsDigitFor (to_hex_lower_case x) x
lower-IsDigitFor x h =
    ground (arith, all_below-lt 16 (is_digit_for to_hex_lower_case) x lower_table h)

pub byte_of-digits :
    (x a b : ℕ) → x < 256 → from_hex a ≡ x / 16 → from_hex b ≡ x % 16 → byte_of a b ≡ x
byte_of-digits x a b h d e = omega arith
