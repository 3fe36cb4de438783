-- ===== src/Address.antt =====
-- Addresses: src/ofp/ipv4address.cpp and src/ofp/ipv6address.cpp with their headers, as lists of bytes.
pub mod Zones
pub mod Tests
use libofp.Base.{
  ℕ, zero, suc, ◌+◌, ◌-◌, ◌*◌, ◌/◌, ◌%◌, ◌^◌, Bool, true, false, ◌&&◌, ◌||◌, not, List, [], ◌∷◌,
  ◌++◌, Option, none, some, take, drop, replicate, get_or, length, ltb, leb, min, ◌==◌,
  if◌then◌else◌, bit_and,
}

-- `mask`, for at most 32 bits
unfoldable pub mask : ℕ → List ℕ
mask prefix =
    let d : ℕ = min 4 (prefix / 8) in
    if ltb d 4
    then replicate d 0xff ++ ((0xff * 2 ^ (8 - prefix % 8)) % 256 ∷ replicate (3 - d) 0)
    else replicate d 0xff

-- The bits at the beginning of a byte that is not full: the loop of `prefix` has at most eight rounds.
unfoldable pub leading_bits : ℕ → ℕ → ℕ
leading_bits zero v = 0
leading_bits (suc rounds) v =
    let rest = suc (leading_bits rounds (v * 2 % 256)) in if bit_and v 0x80 == 0 then 0 else rest

unfoldable pub prefix_length : List ℕ → ℕ
prefix_length [] = 0
prefix_length (x ∷ addr) =
    let rest = 8 + prefix_length addr in if not (x == 0xff) then leading_bits 8 x else rest

-- `IPv6Address(const IPv4Address &)`, `isV4Mapped` and `toV4`
unfoldable pub of_v4 : List ℕ → List ℕ
of_v4 addr = replicate 10 0 ++ (0xff ∷ 0xff ∷ addr)

abbrev pub is_mem_filled : List ℕ → ℕ → Bool
is_mem_filled [] ch = true
is_mem_filled (x ∷ xs) ch = (x == ch) && is_mem_filled xs ch

unfoldable pub is_v4_mapped : List ℕ → Bool
is_v4_mapped addr =
    is_mem_filled (take 10 addr) 0 && (get_or addr 10 0 == 0xff) && (get_or addr 11 0 == 0xff)

unfoldable pub to_v4 : List ℕ → List ℕ
to_v4 addr = take 4 (drop 12 addr)

unfoldable pub is_link_local : List ℕ → Bool
is_link_local addr = (get_or addr 0 0 == 0xfe) && (bit_and (get_or addr 1 0) 0xc0 == 0x80)

unfoldable pub zone : List ℕ → ℕ
zone addr =
    if not (is_link_local addr)
    then 0
    else (get_or addr 4 0 * 2 ^ 8 + get_or addr 5 0) * 2 ^ 16
      + (get_or addr 2 0 * 2 ^ 8 + get_or addr 3 0)

unfoldable pub set_zone : ℕ → List ℕ → List ℕ
set_zone z addr =
    take 2 addr ++ (z / 2 ^ 8 % 256 ∷ z % 256 ∷ z / 2 ^ 24 % 256 ∷ z / 2 ^ 16 % 256 ∷ drop 6 addr)

abbrev pub percent : ℕ
percent = 37

-- The text before the first `%`, and the text behind it, if there is one
unfoldable pub split_zone : List ℕ → List ℕ × Option (List ℕ)
split_zone [] = ([], none)
split_zone (c ∷ text) =
    let rest : List ℕ × Option (List ℕ) = split_zone text in
    if c == percent then ([], some text) else (c ∷ rest.0, rest.1)

-- `parse` without IPv4, and `outputV6`, over what the system's functions read and print: `pton` and
-- `ntop` for addresses, and decimal numbers of 32 bits
module _ (pton : List ℕ → Option (List ℕ)) (ntop : List ℕ → List ℕ)
    (get_as_integer : List ℕ → Option ℕ) (decimal : ℕ → List ℕ) where
  unfoldable pub parse_v6 : List ℕ → Option (List ℕ)
  parse_v6 text =
      let parts : List ℕ × Option (List ℕ) = split_zone text in
      elim parts.1 [
        | none ↦ pton text
        | some zone_text ↦ elim (pton parts.0) [
          | none ↦ none
          | some addr ↦
              if not (is_link_local addr)
              then none
              else if length zone_text == 0
              then none
              else elim (get_as_integer zone_text) [ none ↦ none | some z ↦ some (set_zone z addr) ]
        ]
      ]

  unfoldable pub output_v6 : List ℕ → List ℕ
  output_v6 addr =
      if zone addr == 0
      then ntop addr
      else ntop (set_zone 0 addr) ++ (percent ∷ decimal (zone addr))
