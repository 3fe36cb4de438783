-- ===== src/Address/Zones.antt =====
-- Zones of the IPv6 addresses of src/ofp/ipv6address.cpp, and their texts.
use libofp.Base.{
  ℕ, ◌+◌, ◌*◌, ◌/◌, ◌%◌, ◌^◌, ◌<◌, ◌≡◌, ◌≢◌, true, false, not, List, [], ◌∷◌, ◌++◌, Option, none,
  some, length, ◌==◌, refl, ◌∙◌, ap, Bool-cases, if_rule, inl, inr, arith, All,
}
use libofp.Address.{is_link_local, zone, set_zone, percent, split_zone, parse_v6, output_v6}

-- A zone that is set in a link-local address is its zone, and can be set again.
set_zone-bytes :
    (a b c d e f : ℕ) (rest : List ℕ)
    → a < 256
    → b < 256
    → c < 256
    → d < 256
    → e < 256
    → f < 256
    → is_link_local (a ∷ b ∷ c ∷ d ∷ e ∷ f ∷ rest) ≡ true
    → set_zone (zone (a ∷ b ∷ c ∷ d ∷ e ∷ f ∷ rest)) (set_zone 0 (a ∷ b ∷ c ∷ d ∷ e ∷ f ∷ rest))
      ≡ a ∷ b ∷ c ∷ d ∷ e ∷ f ∷ rest
unfolding zone set_zone
set_zone-bytes a b c d e f rest ha hb hc hd he hf l =
    let x : ℕ = (e * 256 + f) * 65536 + (c * 256 + d) in
    let p : x / 256 % 256 ≡ c = omega arith in
    let q : x % 256 ≡ d = omega arith in
    let r : x / 16777216 % 256 ≡ e = omega arith in
    let s : x / 65536 % 256 ≡ f = omega arith in rw (l, p, q, r, s) refl

local_kept :
    (a b c d e f : ℕ) (rest : List ℕ)
    → is_link_local (set_zone 0 (a ∷ b ∷ c ∷ d ∷ e ∷ f ∷ rest))
      ≡ is_link_local (a ∷ b ∷ c ∷ d ∷ e ∷ f ∷ rest)
unfolding set_zone is_link_local
local_kept a b c d e f rest = refl

set_zone_length :
    (a b c d e f : ℕ) (rest : List ℕ)
    → length (set_zone 0 (a ∷ b ∷ c ∷ d ∷ e ∷ f ∷ rest)) ≡ length (a ∷ b ∷ c ∷ d ∷ e ∷ f ∷ rest)
unfolding set_zone
set_zone_length a b c d e f rest = refl

has_zone-local : (addr : List ℕ) → zone addr ≢ 0 → is_link_local addr ≡ true
unfolding zone
has_zone-local addr h = elim (Bool-cases (is_link_local addr)) [
  | inl y ↦ y
  | inr n ↦ absurd (h (rw n refl))
]

zone_small :
    (a b c d e f : ℕ) (rest : List ℕ)
    → c < 256
    → d < 256
    → e < 256
    → f < 256
    → zone (a ∷ b ∷ c ∷ d ∷ e ∷ f ∷ rest) < 2 ^ 32
unfolding zone
zone_small a b c d e f rest hc hd he hf =
    if_rule (λ z. z < 2 ^ 32) (not (is_link_local (a ∷ b ∷ c ∷ d ∷ e ∷ f ∷ rest)))
      (λ _. omega arith) (λ _. omega arith)

split_zone-plain : (text : List ℕ) → All (λ c. c ≢ percent) text → split_zone text ≡ (text, none)
unfolding split_zone
split_zone-plain [] h = refl
split_zone-plain (c ∷ text) (n, h) =
    let other : (c == percent) ≡ false = ground (arith, n) in
    rw (other, split_zone-plain text h) refl

split_zone-percent :
    (text more : List ℕ)
    → All (λ c. c ≢ percent) text
    → split_zone (text ++ (percent ∷ more)) ≡ (text, some more)
unfolding split_zone
split_zone-percent [] more h = refl
split_zone-percent (c ∷ text) more (n, h) =
    let other : (c == percent) ≡ false = ground (arith, n) in
    rw (other, split_zone-percent text more h) refl

module _ (pton : List ℕ → Option (List ℕ)) (ntop : List ℕ → List ℕ)
    (get_as_integer : List ℕ → Option ℕ) (decimal : ℕ → List ℕ) where
  parse_plain :
      (text : List ℕ)
      → All (λ c. c ≢ percent) text
      → parse_v6 pton ntop get_as_integer decimal text ≡ pton text
  unfolding parse_v6
  parse_plain text h = rw (parse_v6, split_zone-plain text h) refl

  parse_zone :
      (text more addr : List ℕ) (z : ℕ)
      → All (λ c. c ≢ percent) text
      → pton text ≡ some addr
      → is_link_local addr ≡ true
      → 0 < length more
      → get_as_integer more ≡ some z
      → parse_v6 pton ntop get_as_integer decimal (text ++ (percent ∷ more))
        ≡ some (set_zone z addr)
  unfolding parse_v6
  parse_zone text more addr z h reads l digits int =
      let filled : (length more == 0) ≡ false = ground arith in
      let parts : split_zone (text ++ (percent ∷ more)) ≡ (text, some more) =
        split_zone-percent text more h in
      rw (parse_v6, parts, parts, reads, l, filled, int) refl

-- What is printed for an address of 16 bytes, with its zone if it has one, is parsed as this address,
-- where the system reads back what it prints for an address or a number of 32 bits, and prints no `%`
-- in an address and something for each number.
pub parse_v6-output_v6 :
    (pton : List ℕ → Option (List ℕ)) (ntop : List ℕ → List ℕ) (get_as_integer : List ℕ → Option ℕ)
    (decimal : ℕ → List ℕ) (a b c d e' f : ℕ) (rest : List ℕ)
    → ((addr : List ℕ) → length addr ≡ 16 → pton (ntop addr) ≡ some addr)
    → ((addr : List ℕ) → length addr ≡ 16 → All (λ x. x ≢ percent) (ntop addr))
    → ((n : ℕ) → n < 2 ^ 32 → get_as_integer (decimal n) ≡ some n)
    → ((n : ℕ) → 0 < length (decimal n))
    → length rest ≡ 10
    → a < 256
    → b < 256
    → c < 256
    → d < 256
    → e' < 256
    → f < 256
    → parse_v6 pton ntop get_as_integer decimal
        (output_v6 pton ntop get_as_integer decimal (a ∷ b ∷ c ∷ d ∷ e' ∷ f ∷ rest))
      ≡ some (a ∷ b ∷ c ∷ d ∷ e' ∷ f ∷ rest)
unfolding parse_v6 output_v6
parse_v6-output_v6 pton ntop get_as_integer decimal a b c d e' f rest reads plain ints some_digits
      ten ha hb hc hd he hf =
    let addr : List ℕ = a ∷ b ∷ c ∷ d ∷ e' ∷ f ∷ rest in
    let parse : List ℕ → Option (List ℕ) = parse_v6 pton ntop get_as_integer decimal in
    let bare : List ℕ = set_zone 0 addr in
    let whole : length addr ≡ 16 = omega (arith, ten) in
    let bare_whole : length bare ≡ 16 = set_zone_length a b c d e' f rest ∙ whole in
    elim (Bool-cases (zone addr == 0)) [
      | inl z ↦
          let e : output_v6 pton ntop get_as_integer decimal addr ≡ ntop addr =
            rw (output_v6, z) refl in
          ap parse e
          ∙ parse_plain pton ntop get_as_integer decimal (ntop addr) (plain addr whole)
          ∙ reads addr whole
      | inr z ↦
          let l : is_link_local addr ≡ true = has_zone-local addr (λ h. ground arith) in
          let e : output_v6 pton ntop get_as_integer decimal addr
              ≡ ntop bare ++ (percent ∷ decimal (zone addr)) =
            rw (output_v6, z) refl in
          ap parse e
          ∙ parse_zone pton ntop get_as_integer decimal (ntop bare) (decimal (zone addr)) bare
              (zone addr) (plain bare bare_whole) (reads bare bare_whole)
              (local_kept a b c d e' f rest ∙ l) (some_digits (zone addr))
              (ints (zone addr) (zone_small a b c d e' f rest hc hd he hf))
          ∙ ap some (set_zone-bytes a b c d e' f rest ha hb hc hd he hf l)
    ]
