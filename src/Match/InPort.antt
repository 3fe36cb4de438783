-- ===== src/Match/InPort.antt =====
-- The input port of a match of version 1 in src/ofp/standardmatch.cpp.
use libofp.Base.{
  ℕ, ◌+◌, ◌*◌, ◌/◌, ◌%◌, ◌^◌, ◌≤◌, ◌<◌, ◌≡◌, ◌↔◌, List, [], ◌∷◌, ◌++◌, length, drop, refl, ap, sym,
  ◌∙◌, arith, bytes32, append_nil, dec_le, get_or,
}
use libofp.Memory.Fields.{flat, field, field-flat}
use libofp.Match.{standard_match, standard_fields}
use libofp.Port.{from_v1}

-- The two bytes of the port in a match.
field_of_port :
    (w rest : List ℕ) (x y : ℕ) → length w ≡ 4 → field 4 2 (w ++ (x ∷ y ∷ rest)) ≡ x ∷ y ∷ []
unfolding flat
field_of_port w rest x y h =
    ap (λ l. field 4 2 (w ++ (x ∷ y ∷ l))) (sym (append_nil rest))
    ∙ field-flat 1 4 2 (x ∷ y ∷ []) (rest ∷ []) (w ∷ (x ∷ y ∷ []) ∷ rest ∷ []) refl (omega arith)
        refl

in_port_bytes :
    (w rest : List ℕ) (x y : ℕ)
    → length w ≡ 4
    → field 4 4 (standard_match (w ++ (x ∷ y ∷ rest))) ≡ 0 ∷ 0 ∷ x ∷ y ∷ []
unfolding standard_match standard_fields
in_port_bytes w rest x y h =
    let m = w ++ (x ∷ y ∷ rest) in
    let e = field_of_port w rest x y h in
    let size : length (0 ∷ 0 ∷ field 4 2 m) ≡ 4 = rw e refl in
    field-flat 1 4 4 (0 ∷ 0 ∷ field 4 2 m) (drop 2 (standard_fields m)) (standard_fields m) refl
      refl size
    ∙ ap (λ l. 0 ∷ 0 ∷ l) e

from_v1-reserved : (n : ℕ) → 0xff00 < n → from_v1 n ≡ 0xffff0000 + n
unfolding from_v1
from_v1-reserved n h = ground arith

from_v1-plain : (n : ℕ) → n ≤ 0xff00 → from_v1 n ≡ n
unfolding from_v1
from_v1-plain n h = ground arith

-- The input port of a standard match is two zero bytes and the 16 bits of the match that it is made
-- from. This is the port number of PortNumber::fromV1 exactly up to 0xff00.
pub standard_match-in_port :
    (w rest : List ℕ) (x y : ℕ)
    → length w ≡ 4
    → x < 256
    → y < 256
    → (field 4 4 (standard_match (w ++ (x ∷ y ∷ rest))) ≡ 0 ∷ 0 ∷ x ∷ y ∷ [])
      × ((field 4 4 (standard_match (w ++ (x ∷ y ∷ rest))) ≡ bytes32 (from_v1 (x * 256 + y)))
          ↔ (x * 256 + y ≤ 0xff00))
standard_match-in_port w rest x y h hx hy =
    let e = in_port_bytes w rest x y h in
    let n : ℕ = x * 256 + y in
    let first : from_v1 n / 2 ^ 24 % 256 ≡ 0 → n ≤ 0xff00 = λ z. elim (dec_le n 0xff00) [
      | yes k ↦ k
      | no k ↦ absurd (omega (arith, z, from_v1-reserved n (omega arith)))
    ] in
    let b0 : n ≤ 0xff00 → n / 2 ^ 24 % 256 ≡ 0 = λ k. omega arith in
    let b1 : n ≤ 0xff00 → n / 2 ^ 16 % 256 ≡ 0 = λ k. omega arith in
    let b2 : n / 256 % 256 ≡ x = omega arith in
    let b3 : n % 256 ≡ y = omega arith in
    rw e (
      refl,
      (
        λ same. first (sym (ap (λ l. get_or l 0 0) same)),
        λ k. rw (from_v1-plain n k, b0 k, b1 k, b2, b3) refl,
      ),
    )
