-- ===== src/Base64/Decoding.antt =====
-- What Base64 promises, by a decoder after RFC 4648, which the program does not have.
use libofp.Base.{
  ℕ, ◌+◌, ◌-◌, ◌*◌, ◌/◌, ◌%◌, Bool, ◌&&◌, not, List, [], ◌∷◌, leb, ◌==◌, if◌then◌else◌,
}
use libofp.Base64.{to_base64}

-- Table 1 of RFC 4648: the values of `A` to `Z`, `a` to `z`, `0` to `9`, `+` and `/`
unfoldable pub value_of : ℕ → ℕ
value_of c =
    if leb 65 c && leb c 90
    then c - 65
    else if leb 97 c && leb c 122
    then c - 97 + 26
    else if leb 48 c && leb c 57
    then c - 48 + 52
    else if c == 43
    then 62
    else 63

-- Four digits for three bytes; one or two padding characters at the end stand for missing bytes.
unfoldable pub decode : List ℕ → List ℕ
decode (p ∷ q ∷ r ∷ s ∷ rest) =
    let first = value_of p * 4 + value_of q / 16 in
    let second = value_of q % 16 * 16 + value_of r / 4 in
    let third = value_of r % 4 * 64 + value_of s in
    let all = first ∷ second ∷ third ∷ decode rest in
    if r == 61 then first ∷ [] else if s == 61 then first ∷ second ∷ [] else all
decode _ = []

abbrev is_digit_for : ℕ → Bool
is_digit_for v = value_of (to_base64 v) == v && not (to_base64 v == 61)
