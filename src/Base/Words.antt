-- ===== src/Base/Words.antt =====
-- Machine words as native numbers: the wrap-around is written out.
use Prim.Native.Nat.{ℕ, ◌+◌, ◌-◌, ◌*◌, ◌/◌, ◌%◌, ◌^◌}
use mathlib.Core.List.{List, [], ◌∷◌}
use libofp.Base.Lists.{get_or}

abbrev pub u32_mod : ℕ
u32_mod = 2 ^ 32

-- UInt32_narrow_cast
abbrev pub narrow32 : ℕ → ℕ
narrow32 x = x % 2 ^ 32

-- Unsigned 32-bit addition and subtraction; the operands are reduced first.
abbrev pub add32 : ℕ → ℕ → ℕ
add32 a b = (a + b) % 2 ^ 32

abbrev pub sub32 : ℕ → ℕ → ℕ
sub32 a b = (a + 2 ^ 32 - b % 2 ^ 32) % 2 ^ 32

-- The bytes of a Big16 and of a Big32.
abbrev pub bytes16 : ℕ → List ℕ
bytes16 x = x / 256 % 256 ∷ x % 256 ∷ []

abbrev pub bytes32 : ℕ → List ℕ
bytes32 x = x / 2 ^ 24 % 256 ∷ x / 2 ^ 16 % 256 ∷ x / 256 % 256 ∷ x % 256 ∷ []

-- `*Big32_cast`
unfoldable pub big32 : List ℕ → ℕ
big32 bytes =
    get_or bytes 0 0 * 2 ^ 24
    + get_or bytes 1 0 * 2 ^ 16
    + get_or bytes 2 0 * 256
    + get_or bytes 3 0
