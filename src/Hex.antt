-- ===== src/Hex.antt =====
-- The hexadecimal functions of src/ofp/types.cpp. A text is the list of its characters' codes.
-- `(a << 4) | b` of two digits is written as a sum, since the second one is below 16. What an error leaves
-- in an output buffer has no model.
pub mod Digits
pub mod Tests
pub mod RoundTrip
use Prim.Native.Char.{code}
use Prim.Native.String.{String}
use libofp.Base.{
  ℕ, zero, suc, ◌+◌, ◌-◌, ◌*◌, ◌/◌, ◌%◌, ◌^◌, Bool, true, false, ◌&&◌, ◌||◌, not, List, [], ◌∷◌,
  ◌++◌, Option, none, some, length, take, drop, replicate, get_or, ltb, leb, ◌==◌, if◌then◌else◌,
  bit_and,
}

-- `String` has its own `[]` and `∷`.
abbrev pub codes : String → List ℕ
codes String.[] = []
codes (String.◌∷◌ c s) = code c ∷ codes s

abbrev pub two_gigabytes : ℕ
two_gigabytes = 0x8000_0000

abbrev pub hex_digits_upper_case : List ℕ
hex_digits_upper_case = codes "0123456789ABCDEF"

abbrev pub hex_digits_lower_case : List ℕ
hex_digits_lower_case = codes "0123456789abcdef"

abbrev pub hex_too_big : List ℕ
hex_too_big = codes "== hex too big =="

-- `std::isxdigit` and `std::isspace`
unfoldable pub is_xdigit : ℕ → Bool
is_xdigit c = (leb 48 c && leb c 57) || (leb 65 c && leb c 70) || (leb 97 c && leb c 102)

unfoldable pub is_space : ℕ → Bool
is_space c = c == 32 || (leb 9 c && leb c 13)

-- `FromHex`
unfoldable pub from_hex : ℕ → ℕ
from_hex c = if leb c 57 then c - 48 else bit_and c 0xdf - 65 + 10

unfoldable pub to_hex_upper_case : ℕ → ℕ
to_hex_upper_case value = get_or hex_digits_upper_case value 0

unfoldable pub to_hex_lower_case : ℕ → ℕ
to_hex_lower_case value = get_or hex_digits_lower_case value 0

-- Two digits for a byte
abbrev pub upper_pair : ℕ → List ℕ → List ℕ
upper_pair x rest = to_hex_upper_case (x / 16) ∷ to_hex_upper_case (x % 16) ∷ rest

abbrev pub lower_pair : ℕ → List ℕ → List ℕ
lower_pair x rest = to_hex_lower_case (x / 16) ∷ to_hex_lower_case (x % 16) ∷ rest

-- The byte of two digits
abbrev pub byte_of : ℕ → ℕ → ℕ
byte_of a b = (from_hex a * 16 + from_hex b) % 256

-- `RawDataToHexDelimitedLowercase`, before the final 0
unfoldable pub delimited_tail : List ℕ → List ℕ
delimited_tail [] = []
delimited_tail (x ∷ data') = 58 ∷ lower_pair x (delimited_tail data')

unfoldable pub raw_data_to_hex_delimited_lowercase : List ℕ → List ℕ
raw_data_to_hex_delimited_lowercase [] = []
raw_data_to_hex_delimited_lowercase (x ∷ data') = lower_pair x (delimited_tail data')

-- The loop of `RawDataToHex`
unfoldable pub hex_pairs : List ℕ → List ℕ
hex_pairs [] = []
hex_pairs (x ∷ data') = upper_pair x (hex_pairs data')

unfoldable pub raw_data_to_hex : List ℕ → List ℕ
raw_data_to_hex data' = if ltb two_gigabytes (length data') then hex_too_big else hex_pairs data'

-- `RawDataToHex` to a stream: what is written to it, in blocks of 128 bytes and a rest.
unfoldable pub write_blocks : ℕ → List ℕ → List ℕ
write_blocks zero data' = []
write_blocks (suc k) data' =
    let rest = hex_pairs (take 128 data') ++ write_blocks k (drop 128 data') in
    if leb 128 (length data') then rest else hex_pairs data'

unfoldable pub write_hex : List ℕ → List ℕ
write_hex data' =
    if ltb two_gigabytes (length data') then hex_too_big else write_blocks (length data') data'

-- `RawDataToHex` with a delimiter before each word but the first; `cnt` is that of the loop.
unfoldable pub hex_words : ℕ → ℕ → ℕ → List ℕ → List ℕ
hex_words delimiter word cnt [] = []
hex_words delimiter word cnt (x ∷ data') =
    let again = delimiter ∷ upper_pair x (hex_words delimiter word 1 data') in
    let more = upper_pair x (hex_words delimiter word (cnt + 1) data') in
    if ltb word (cnt + 1) then again else more

unfoldable pub raw_data_to_hex_words : List ℕ → ℕ → ℕ → List ℕ
raw_data_to_hex_words data' delimiter word =
    if leb two_gigabytes (length data') then hex_too_big else hex_words delimiter word 0 data'

-- `HexToRawData` to a string, with the digit `ch[0]` while `idx` is 1. A text ends at the code 0.
unfoldable pub collect : Option ℕ → List ℕ → List ℕ
collect pending [] = []
collect pending (c ∷ text) =
    if c == 0
    then []
    else if is_xdigit c
    then elim pending [ none ↦ collect (some c) text | some a ↦ byte_of a c ∷ collect none text ]
    else collect pending text

unfoldable pub hex_to_raw_string : List ℕ → List ℕ
hex_to_raw_string text = collect none text

-- What `HexToRawData` to a buffer leaves: the bytes written, whether a digit is left, and `nonhex`.
pub record Parsed : Type 0 where
  pub bytes : List ℕ
  pub odd : Bool
  pub nonhex : Bool

abbrev pub end_of_text : Option ℕ → Bool → Parsed
end_of_text none nonhex = record { bytes = []; odd = false; nonhex = nonhex }
end_of_text (some a) nonhex = record { bytes = []; odd = true; nonhex = nonhex }

unfoldable pub parse_hex : ℕ → Option ℕ → Bool → List ℕ → Parsed
parse_hex room pending nonhex [] = end_of_text pending nonhex
parse_hex room pending nonhex (c ∷ text) =
    let stop : Parsed = end_of_text pending nonhex in
    let first : Parsed = parse_hex room (some c) nonhex text in
    let skipped : Parsed = parse_hex room pending (nonhex || not (is_space c)) text in
    let more : Parsed = parse_hex (room - 1) none nonhex text in
    if c == 0 then stop else if not (is_xdigit c) then skipped else elim pending [
      | none ↦ first
      | some a ↦
          if leb room 1
          then record { bytes = byte_of a c ∷ []; odd = false; nonhex = nonhex }
          else record more { bytes = byte_of a c ∷ more.bytes }
    ]

-- `HexToRawData` to a buffer of `maxlen` bytes: the bytes of the buffer, what is returned, and
-- `*error`; none where nothing is written.
unfoldable pub hex_to_raw_data : List ℕ → ℕ → Option (List ℕ × ℕ × Bool)
hex_to_raw_data text maxlen =
    let r : Parsed = parse_hex maxlen none false text in
    if maxlen == 0
    then none
    else some (r.bytes ++ replicate (maxlen - length r.bytes) 0, length r.bytes, r.nonhex || r.odd)

-- `HexStrictToRawData`; none is the result 0 after an error.
unfoldable pub strict_bytes : ℕ → List ℕ → Option (List ℕ)
strict_bytes room [] = some []
strict_bytes room (a ∷ []) = none
strict_bytes zero (a ∷ b ∷ text) = none
strict_bytes (suc room) (a ∷ b ∷ text) = elim (strict_bytes room text) [
  | none ↦ none
  | some bytes ↦ if is_xdigit a && is_xdigit b then some (byte_of a b ∷ bytes) else none
]

-- `HexDelimitedToRawData`; none is the result 0.
unfoldable pub delimited_bytes : ℕ → ℕ → List ℕ → Option (List ℕ)
delimited_bytes delimiter room [] = none
delimited_bytes delimiter zero (a ∷ text) = none
delimited_bytes delimiter (suc room) (a ∷ []) = if is_xdigit a then some (from_hex a ∷ []) else none
delimited_bytes delimiter (suc room) (a ∷ b ∷ []) =
    if not (is_xdigit a)
    then none
    else if b == delimiter
    then none
    else if is_xdigit b
    then some (byte_of a b ∷ [])
    else none
delimited_bytes delimiter (suc room) (a ∷ b ∷ c ∷ text) =
    let single = delimited_bytes delimiter room (c ∷ text) in
    let double = delimited_bytes delimiter room text in
    let put = λ (x : ℕ) (r : Option (List ℕ)). elim r as (λ q. Option (List ℕ)) [
      | none ↦ none
      | some bytes ↦ some (x ∷ bytes)
    ] in
    if not (is_xdigit a)
    then none
    else if b == delimiter
    then put (from_hex a) single
    else if not (is_xdigit b)
    then none
    else if c == delimiter
    then put (byte_of a b) double
    else none
