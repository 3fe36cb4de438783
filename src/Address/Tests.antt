-- ===== src/Address/Tests.antt =====
-- Runs of the addresses of src/ofp/ipv4address.cpp and src/ofp/ipv6address.cpp on sample inputs.
use libofp.Base.{
  ℕ, ◌+◌, ◌-◌, ◌≡◌, ◌≢◌, true, List, [], ◌∷◌, ◌++◌, Option, none, some, refl, arith, All, ap, ◌∙◌,
  replicate,
}
use libofp.Address.{
  mask, prefix_length, leading_bits, of_v4, to_v4, is_v4_mapped, zone, is_link_local, percent,
  parse_v6, output_v6,
}
use libofp.Address.Zones.{parse_v6-output_v6}

mask_20 : mask 20 ≡ 255 ∷ 255 ∷ 240 ∷ 0 ∷ []
unfolding mask
mask_20 = refl

prefix_20 : prefix_length (mask 20) ≡ 20
unfolding mask prefix_length leading_bits
prefix_20 = refl

mapped : is_v4_mapped (of_v4 (10 ∷ 0 ∷ 0 ∷ 1 ∷ [])) ≡ true
unfolding is_v4_mapped of_v4
mapped = refl

unmapped : to_v4 (of_v4 (10 ∷ 0 ∷ 0 ∷ 1 ∷ [])) ≡ 10 ∷ 0 ∷ 0 ∷ 1 ∷ []
unfolding to_v4 of_v4
unmapped = refl

-- Addresses whose bytes are printed as such, shifted past all characters, and numbers as strokes
ntop : List ℕ → List ℕ
ntop [] = []
ntop (x ∷ addr) = (x + 256) ∷ ntop addr

pton : List ℕ → List ℕ
pton [] = []
pton (x ∷ text) = (x - 256) ∷ pton text

strokes : ℕ → List ℕ
strokes n = n ∷ []

number : List ℕ → Option ℕ
number [] = none
number (n ∷ more) = some n

pton-ntop : (addr : List ℕ) → pton (ntop addr) ≡ addr
unfolding pton ntop
pton-ntop [] = refl
pton-ntop (x ∷ addr) =
    let e : x + 256 - 256 ≡ x = omega arith in
    ap (λ y. y ∷ pton (ntop addr)) e ∙ ap (λ l. x ∷ l) (pton-ntop addr)

ntop_plain : (addr : List ℕ) → All (λ x. x ≢ percent) (ntop addr)
unfolding ntop
ntop_plain [] = tt
ntop_plain (x ∷ addr) = (λ h. omega arith, ntop_plain addr)

-- fe80::1%5
abbrev local_address : List ℕ
local_address = 0xfe ∷ 0x80 ∷ 0 ∷ 5 ∷ 0 ∷ 0 ∷ (replicate 9 0 ++ (1 ∷ []))

local_zone : zone local_address ≡ 5
unfolding zone is_link_local
local_zone = refl

parse_v6-output_v6_example :
    parse_v6
      (λ text. some (pton text))
      ntop
      number
      strokes
      (output_v6 (λ text. some (pton text)) ntop number strokes local_address)
    ≡ some local_address
unfolding number strokes
parse_v6-output_v6_example =
    parse_v6-output_v6 (λ text. some (pton text)) ntop number strokes 0xfe 0x80 0 5 0 0
      (replicate 9 0 ++ (1 ∷ [])) (λ addr whole. ap some (pton-ntop addr))
      (λ addr whole. ntop_plain addr) (λ n h. refl) (λ n. omega arith) refl (omega arith)
      (omega arith) (omega arith) (omega arith) (omega arith) (omega arith)
