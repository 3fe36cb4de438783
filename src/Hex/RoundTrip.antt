-- ===== src/Hex/RoundTrip.antt =====
-- Bytes that are printed in hexadecimal and parsed again.
use libofp.Base.{
  ℕ, zero, suc, ◌+◌, ◌-◌, ◌/◌, ◌%◌, ◌<◌, ◌≤◌, ◌≡◌, false, List, [], ◌∷◌, ◌++◌, All, none, some,
  arith, ltb, leb, ◌==◌, if◌then◌else◌, refl, ◌∙◌, ap, sym, length, replicate, Bool-cases, inl, inr,
  take, drop, take-drop, length-drop,
}
use libofp.Hex.{
  is_xdigit, byte_of, upper_pair, lower_pair, collect, hex_to_raw_string, hex_pairs, hex_words,
  raw_data_to_hex, raw_data_to_hex_words, strict_bytes, delimited_bytes, delimited_tail,
  raw_data_to_hex_delimited_lowercase, Parsed, parse_hex, hex_to_raw_data, two_gigabytes,
  hex_too_big, write_blocks, write_hex, to_hex_upper_case, to_hex_lower_case,
}
use libofp.Hex.Digits.{upper-IsDigitFor, lower-IsDigitFor, byte_of-digits}

abbrev pub IsBytes : List ℕ → Type 0
IsBytes data' = All (λ x. x < 256) data'

upper_byte :
    (x : ℕ) → x < 256 → byte_of (to_hex_upper_case (x / 16)) (to_hex_upper_case (x % 16)) ≡ x
upper_byte x h =
    byte_of-digits x (to_hex_upper_case (x / 16)) (to_hex_upper_case (x % 16)) h
      (upper-IsDigitFor (x / 16) (omega arith)).1 (upper-IsDigitFor (x % 16) (omega arith)).1

lower_byte :
    (x : ℕ) → x < 256 → byte_of (to_hex_lower_case (x / 16)) (to_hex_lower_case (x % 16)) ≡ x
lower_byte x h =
    byte_of-digits x (to_hex_lower_case (x / 16)) (to_hex_lower_case (x % 16)) h
      (lower-IsDigitFor (x / 16) (omega arith)).1 (lower-IsDigitFor (x % 16) (omega arith)).1

collect-pair :
    (x : ℕ) (rest : List ℕ) → x < 256 → collect none (upper_pair x rest) ≡ x ∷ collect none rest
unfolding collect
collect-pair x rest h =
    let (a, _, b, _) = upper-IsDigitFor (x / 16) (omega arith) in
    let (c, _, d, _) = upper-IsDigitFor (x % 16) (omega arith) in
    rw (a, b, c, d, upper_byte x h) refl

collect-skip :
    (c : ℕ) (rest : List ℕ)
    → is_xdigit c ≡ false
    → (c == 0) ≡ false
    → collect none (c ∷ rest) ≡ collect none rest
unfolding collect
collect-skip c rest h k = rw (k, h) refl

collect_nil : collect none [] ≡ []
unfolding collect
collect_nil = refl

collect-hex_words :
    (delimiter word cnt : ℕ) (data' : List ℕ)
    → is_xdigit delimiter ≡ false
    → (delimiter == 0) ≡ false
    → IsBytes data'
    → collect none (hex_words delimiter word cnt data') ≡ data'
unfolding hex_words
collect-hex_words delimiter word cnt [] h k b = collect_nil
collect-hex_words delimiter word cnt (x ∷ data') h k (small, b) =
    elim (Bool-cases (ltb word (cnt + 1))) [
      | inl e ↦ rw e (
          collect-skip delimiter _ h k
          ∙ collect-pair x _ small
          ∙ ap (λ l. x ∷ l) (collect-hex_words delimiter word 1 data' h k b))
      | inr e ↦ rw e (
          collect-pair x _ small
          ∙ ap (λ l. x ∷ l) (collect-hex_words delimiter word (cnt + 1) data' h k b))
    ]

collect-hex_pairs : (data' : List ℕ) → IsBytes data' → collect none (hex_pairs data') ≡ data'
unfolding hex_pairs
collect-hex_pairs [] b = collect_nil
collect-hex_pairs (x ∷ data') (small, b) =
    collect-pair x (hex_pairs data') small ∙ ap (λ l. x ∷ l) (collect-hex_pairs data' b)

strict_bytes-hex_pairs :
    (room : ℕ) (data' : List ℕ)
    → IsBytes data'
    → length data' ≤ room
    → strict_bytes room (hex_pairs data') ≡ some data'
unfolding strict_bytes hex_pairs
strict_bytes-hex_pairs zero [] b h = refl
strict_bytes-hex_pairs (suc room) [] b h = refl
strict_bytes-hex_pairs zero (x ∷ data') b h = absurd (omega arith)
strict_bytes-hex_pairs (suc room) (x ∷ data') (small, b) h =
    let (p, _, _, _) = upper-IsDigitFor (x / 16) (omega arith) in
    let (q, _, _, _) = upper-IsDigitFor (x % 16) (omega arith) in
    rw (strict_bytes-hex_pairs room data' b (omega arith), p, q, upper_byte x small) refl

no_bytes : (xs : List ℕ) → length xs ≡ 0 → xs ≡ []
no_bytes [] h = refl
no_bytes (x ∷ xs) h = absurd (omega arith)

abbrev whole : List ℕ → Parsed
whole data' = record { bytes = data'; odd = false; nonhex = false }

parse_hex-hex_pairs :
    (room : ℕ) (data' : List ℕ)
    → IsBytes data'
    → length data' ≤ room
    → parse_hex room none false (hex_pairs data') ≡ whole data'
unfolding parse_hex hex_pairs
parse_hex-hex_pairs room [] b h = refl
parse_hex-hex_pairs room (x ∷ data') (small, b) h =
    let (p, _, q, _) = upper-IsDigitFor (x / 16) (omega arith) in
    let (r, _, s, _) = upper-IsDigitFor (x % 16) (omega arith) in
    elim (Bool-cases (leb room 1)) [
      | inl e ↦
          rw (p, q, r, s, e, upper_byte x small)
            (ap (λ l. whole (x ∷ l)) (sym (no_bytes data' (ground arith))))
      | inr e ↦
          rw
            (
              p,
              q,
              r,
              s,
              e,
              upper_byte x small,
              parse_hex-hex_pairs (room - 1) data' b (omega arith),
            )
            refl
    ]

-- Fewer than 2 ^ 31 bytes that are printed, without delimiters or with one that is neither a digit
-- nor 0, come back from HexToRawData.
pub hex_to_raw_string-words :
    (data' : List ℕ) (delimiter word : ℕ)
    → IsBytes data'
    → length data' < two_gigabytes
    → is_xdigit delimiter ≡ false
    → 0 < delimiter
    → (hex_to_raw_string (raw_data_to_hex data') ≡ data')
      × (hex_to_raw_string (raw_data_to_hex_words data' delimiter word) ≡ data')
unfolding hex_to_raw_string raw_data_to_hex raw_data_to_hex_words
hex_to_raw_string-words data' delimiter word b h d n =
    let small : ltb two_gigabytes (length data') ≡ false = ground arith in
    let smaller : leb two_gigabytes (length data') ≡ false = ground arith in
    rw (small, smaller)
      (collect-hex_pairs data' b, collect-hex_words delimiter word 0 data' d (ground arith) b)

-- Fewer than 2 ^ 31 bytes that are printed fill the beginning of a buffer with room for them, at
-- least one byte, without an error: the rest is 0 for HexToRawData; HexStrictToRawData takes them too.
pub hex_to_raw_data-raw_data_to_hex :
    (data' : List ℕ) (maxlen : ℕ)
    → IsBytes data'
    → length data' < two_gigabytes
    → length data' ≤ maxlen
    → 0 < maxlen
    → (strict_bytes maxlen (raw_data_to_hex data') ≡ some data')
      × (hex_to_raw_data (raw_data_to_hex data') maxlen
          ≡ some (data' ++ replicate (maxlen - length data') 0, length data', false))
unfolding hex_to_raw_data raw_data_to_hex
hex_to_raw_data-raw_data_to_hex data' maxlen b h fits n =
    let small : ltb two_gigabytes (length data') ≡ false = ground arith in
    let room : (maxlen == 0) ≡ false = ground arith in
    rw (small, room, parse_hex-hex_pairs maxlen data' b fits)
      (strict_bytes-hex_pairs maxlen data' b fits, refl)

delimited_bytes-tail :
    (x room : ℕ) (data' : List ℕ)
    → x < 256
    → IsBytes data'
    → length data' ≤ room
    → delimited_bytes 58 (suc room) (lower_pair x (delimited_tail data')) ≡ some (x ∷ data')
unfolding delimited_bytes delimited_tail
delimited_bytes-tail x room [] small b h =
    let (p, _, _, _) = lower-IsDigitFor (x / 16) (omega arith) in
    let (q, _, _, s) = lower-IsDigitFor (x % 16) (omega arith) in
    rw (p, q, s, lower_byte x small) refl
delimited_bytes-tail x zero (y ∷ data') small b h = absurd (omega arith)
delimited_bytes-tail x (suc room) (y ∷ data') small (b, bs) h =
    let (p, _, _, _) = lower-IsDigitFor (x / 16) (omega arith) in
    let (q, _, _, s) = lower-IsDigitFor (x % 16) (omega arith) in
    rw (p, q, s, delimited_bytes-tail y room data' b bs (omega arith), lower_byte x small) refl

-- Bytes, one at least, that are printed with `:` between them come back from HexDelimitedToRawData,
-- if the buffer has room for them.
pub delimited_bytes-raw_data :
    (data' : List ℕ) (room : ℕ)
    → IsBytes data'
    → 0 < length data'
    → length data' ≤ room
    → delimited_bytes 58 room (raw_data_to_hex_delimited_lowercase data') ≡ some data'
unfolding raw_data_to_hex_delimited_lowercase
delimited_bytes-raw_data [] room b n h = absurd (omega arith)
delimited_bytes-raw_data (x ∷ data') zero b n h = absurd (omega arith)
delimited_bytes-raw_data (x ∷ data') (suc room) (small, b) n h =
    delimited_bytes-tail x room data' small b (omega arith)

hex_pairs-append : (xs ys : List ℕ) → hex_pairs (xs ++ ys) ≡ hex_pairs xs ++ hex_pairs ys
unfolding hex_pairs
hex_pairs-append [] ys = refl
hex_pairs-append (x ∷ xs) ys = ap (λ l. upper_pair x l) (hex_pairs-append xs ys)

write_blocks-eq-hex_pairs :
    (k : ℕ) (data' : List ℕ) → length data' ≤ k → write_blocks k data' ≡ hex_pairs data'
unfolding write_blocks hex_pairs
write_blocks-eq-hex_pairs zero data' h = sym (ap hex_pairs (no_bytes data' (omega arith)))
write_blocks-eq-hex_pairs (suc k) data' h = elim (Bool-cases (leb 128 (length data'))) [
  | inr e ↦ rw e refl
  | inl e ↦
      let shorter : length (drop 128 data') ≤ k = ground (arith, length-drop 128 data') in
      rw e (
        ap (λ l. hex_pairs (take 128 data') ++ l)
          (write_blocks-eq-hex_pairs k (drop 128 data') shorter)
        ∙ sym (hex_pairs-append (take 128 data') (drop 128 data'))
        ∙ ap hex_pairs (take-drop 128 data'))
]

-- What is written to a stream in blocks is what is printed to a string.
pub write_hex-eq-raw_data_to_hex : (data' : List ℕ) → write_hex data' ≡ raw_data_to_hex data'
unfolding write_hex raw_data_to_hex
write_hex-eq-raw_data_to_hex data' =
    ap (λ l. if ltb two_gigabytes (length data') then hex_too_big else l)
      (write_blocks-eq-hex_pairs (length data') data' (omega arith))
