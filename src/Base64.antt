-- ===== src/Base64.antt =====
-- RawDataToBase64 of src/ofp/types.cpp.
pub mod Decoding
use libofp.Base.{
  ℕ, ◌+◌, ◌*◌, ◌/◌, ◌%◌, ◌^◌, List, [], ◌∷◌, ◌++◌, get_or, length, ltb, if◌then◌else◌,
}
use libofp.Hex.{codes, two_gigabytes}

abbrev pub base64_digits : List ℕ
base64_digits = codes "ABCDEFGHIJKLMNOPQRSTUVWXYZabcdefghijklmnopqrstuvwxyz0123456789+/"

unfoldable pub to_base64 : ℕ → ℕ
to_base64 value = get_or base64_digits value 0

-- `ToBase64((block24 >> k) & 0x03F)`, for the three bytes of a block
abbrev pub block24 : ℕ → ℕ → ℕ → ℕ
block24 a b c = a * 2 ^ 16 + b * 2 ^ 8 + c

-- The loop, and the one or two bytes behind it
unfoldable pub base64_blocks : List ℕ → List ℕ
base64_blocks (a ∷ b ∷ c ∷ rest) =
    to_base64 (block24 a b c / 2 ^ 18 % 64)
    ∷ to_base64 (block24 a b c / 2 ^ 12 % 64)
    ∷ to_base64 (block24 a b c / 2 ^ 6 % 64)
    ∷ to_base64 (block24 a b c % 64)
    ∷ base64_blocks rest
base64_blocks (a ∷ b ∷ []) =
    to_base64 (block24 a b 0 / 2 ^ 18 % 64)
    ∷ to_base64 (block24 a b 0 / 2 ^ 12 % 64)
    ∷ to_base64 (block24 a b 0 / 2 ^ 6 % 64)
    ∷ 61
    ∷ []
base64_blocks (a ∷ []) =
    to_base64 (block24 a 0 0 / 2 ^ 18 % 64) ∷ to_base64 (block24 a 0 0 / 2 ^ 12 % 64) ∷ 61 ∷ 61 ∷ []
base64_blocks [] = []

unfoldable pub raw_data_to_base64 : List ℕ → List ℕ
raw_data_to_base64 data' =
    if ltb two_gigabytes (length data') then codes "== base64 too big ==" else base64_blocks data'
