-- ===== src/Hex/Tests.antt =====
-- The theorems on three bytes, and the parsers on texts with spaces, delimiters and errors.
use libofp.Base.{ℕ, List, [], ◌∷◌, ◌≡◌, true, false, some, none, refl, arith}
use libofp.Hex.{
  codes, raw_data_to_hex, raw_data_to_hex_words, strict_bytes, hex_to_raw_data, delimited_bytes,
  raw_data_to_hex_delimited_lowercase, hex_pairs, hex_words, parse_hex, is_xdigit, is_space,
  from_hex, to_hex_upper_case, to_hex_lower_case, delimited_tail,
}
use libofp.Hex.RoundTrip.{hex_to_raw_data-raw_data_to_hex, delimited_bytes-raw_data}
use libofp.Base64.{raw_data_to_base64, base64_blocks, to_base64}

abbrev three : List ℕ
three = 0 ∷ 171 ∷ 255 ∷ []

prints : raw_data_to_hex three ≡ codes "00ABFF"
unfolding raw_data_to_hex hex_pairs to_hex_upper_case
prints = refl

prints_words : raw_data_to_hex_words three 32 2 ≡ codes "00AB FF"
unfolding raw_data_to_hex_words hex_words to_hex_upper_case
prints_words = refl

prints_delimited : raw_data_to_hex_delimited_lowercase three ≡ codes "00:ab:ff"
unfolding raw_data_to_hex_delimited_lowercase delimited_tail to_hex_lower_case
prints_delimited = refl

parses_spaces : hex_to_raw_data (codes "0 1aB") 4 ≡ some (1 ∷ 171 ∷ 0 ∷ 0 ∷ [], 2, false)
unfolding hex_to_raw_data parse_hex is_xdigit is_space from_hex
parses_spaces = refl

parses_odd : hex_to_raw_data (codes "0x123") 4 ≡ some (1 ∷ 35 ∷ 0 ∷ 0 ∷ [], 2, true)
unfolding hex_to_raw_data parse_hex is_xdigit is_space from_hex
parses_odd = refl

parses_single : delimited_bytes 58 4 (codes "1:ab:f") ≡ some (1 ∷ 171 ∷ 15 ∷ [])
unfolding delimited_bytes is_xdigit from_hex
parses_single = refl

refuses_delimiter : delimited_bytes 58 4 (codes "1:ab:") ≡ none
unfolding delimited_bytes is_xdigit from_hex
refuses_delimiter = refl

encodes : raw_data_to_base64 (codes "light w") ≡ codes "bGlnaHQgdw=="
unfolding raw_data_to_base64 base64_blocks to_base64
encodes = refl

hex_to_raw_data-raw_data_to_hex_example :
    (strict_bytes 4 (raw_data_to_hex three) ≡ some three)
    × (hex_to_raw_data (raw_data_to_hex three) 4 ≡ some (0 ∷ 171 ∷ 255 ∷ 0 ∷ [], 3, false))
hex_to_raw_data-raw_data_to_hex_example =
    hex_to_raw_data-raw_data_to_hex three 4 (omega arith) (omega arith) (omega arith) (omega arith)

delimited_bytes-raw_data_example :
    delimited_bytes 58 8 (raw_data_to_hex_delimited_lowercase three) ≡ some three
delimited_bytes-raw_data_example =
    delimited_bytes-raw_data three 8 (omega arith) (omega arith) (omega arith)
