-- ===== src/Hello/Agreement.antt =====
-- Two sides that exchange Hello messages settle on the same version, if both settle on one.
use libofp.Base.{
  ℕ, zero, suc, ◌+◌, ◌-◌, ◌^◌, ◌≤◌, ◌<◌, ◌≡◌, ◌≢◌, ◌⊎◌, inl, inr, Bool, true, false, ◌&&◌, ◌||◌,
  not, if◌then◌else◌, ltb, leb, ◌==◌, ==→eq, test_bit, test_bit-bit_and, bit_and, arith, refl,
  Bool-cases, none, some, ◌∙◌, sym, dec_le,
}
use libofp.Versions.{
  max_version, version_4, intersection, contains_version, highest_version, highest_from,
  negotiate_version, include_in_hello_msg,
}
use libofp.Versions.Highest.{le-highest, highest_from-congr}
use libofp.Versions.Negotiation.{highest_version-IsHighest, intersection-BestCommon}
use libofp.Hello.{protocol_versions, send, send_version, send_bitmap, hello_of, settle}

intersection_comm :
    (a b : ℕ) → highest_version (intersection a b) ≡ highest_version (intersection b a)
unfolding highest_version
intersection_comm a b =
    highest_from-congr (bit_and a b) (bit_and b a) max_version
      (λ i h. ground (arith, test_bit-bit_and i a b, test_bit-bit_and i b a))

-- The highest common version, where there is one.
record Common (a b v : ℕ) : Type 0 where
  bound : v ≤ max_version
  in_a : test_bit a v ≡ true
  in_b : test_bit b v ≡ true
  highest : (i : ℕ) → i ≤ max_version → test_bit a i ≡ true → test_bit b i ≡ true → i ≤ v

intersection-Common :
    (a b : ℕ)
    → highest_version (intersection a b) ≢ 0
    → Common a b (highest_version (intersection a b))
intersection-Common a b h =
    let t = intersection-BestCommon a b in
    record {
      bound = t.bound;
      in_a = ground (arith, t.member);
      in_b = ground (arith, t.member);
      highest = t.highest;
    }

or_false : (p q : Bool) → (p || q) ≡ true → q ≡ false → p ≡ true
or_false p q h k = ground arith

-- Every bit of the bitmaps that `includeInHelloMsg` leaves out, by evaluation.
all_to : ℕ → (ℕ → Bool) → Bool
all_to zero p = p 0
all_to (suc n) p = p (suc n) && all_to n p

all_to_sound : (n : ℕ) (p : ℕ → Bool) (i : ℕ) → all_to n p ≡ true → i ≤ n → p i ≡ true
unfolding all_to
all_to_sound zero p i h k = let e : i ≡ 0 = omega arith in rw e h
all_to_sound (suc n) p i h k = elim (dec_le i n) [
  | yes q ↦ all_to_sound n p i (ground arith) q
  | no q ↦ let e : i ≡ suc n = omega arith in rw e (ground arith)
]

single_table : all_to 30 (λ v. all_to 30 (λ i. not (test_bit (2 ^ v) i) || i == v)) ≡ true
unfolding all_to
single_table = refl

full_table :
    all_to 30 (λ v. all_to 30 (λ i. test_bit (2 ^ (v + 1) - 2) i || (ltb v i || i == 0))) ≡ true
unfolding all_to
full_table = refl

single_bit : (b v i : ℕ) → b ≡ 2 ^ v → v ≤ 30 → i ≤ 30 → test_bit b i ≡ true → i ≡ v
single_bit b v i d h k f =
    let e : test_bit (2 ^ v) i ≡ true = rw d at f in
    let t : (not (test_bit (2 ^ v) i) || i == v) ≡ true =
      all_to_sound 30 _ i (all_to_sound 30 _ v single_table h) k in
    ==→eq i v (rw e at t)

full_bit : (b v i : ℕ) → b ≡ 2 ^ (v + 1) - 2 → v ≤ 30 → i ≤ v → 0 < i → test_bit b i ≡ true
full_bit b v i d h k p =
    let t : (test_bit (2 ^ (v + 1) - 2) i || (ltb v i || i == 0)) ≡ true =
      all_to_sound 30 _ i (all_to_sound 30 _ v full_table h) (omega arith) in
    let no_more : (ltb v i || i == 0) ≡ false = ground arith in
    rw d (or_false (test_bit (2 ^ (v + 1) - 2) i) _ t no_more)

-- What a side settles on by the version of a header that came with no bitmap.
abbrev by_header : ℕ → ℕ → ℕ
by_header mine version =
    if leb (highest_version mine) version
    then highest_version mine
    else if contains_version mine version
    then version
    else 0

-- A bitmap that is left out of the message can be told from its highest version, from 1.3 on.
abbrev LeftOut : ℕ → Type 0
LeftOut b =
    (highest_version b < version_4)
    ⊎ (b ≡ 2 ^ highest_version b)
    ⊎ (b ≡ 2 ^ (highest_version b + 1) - 2)

left_out : (b : ℕ) → include_in_hello_msg b (highest_version b) ≡ false → LeftOut b
unfolding include_in_hello_msg
left_out b h = ground arith

included_new :
    (b : ℕ) → include_in_hello_msg b (highest_version b) ≡ true → version_4 ≤ highest_version b
unfolding include_in_hello_msg
included_new b h = ground arith

-- One side has no bitmap of the other, which has that of the first.
mixed_agree :
    (a b : ℕ)
    → version_4 ≤ highest_version a
    → LeftOut b
    → by_header a (highest_version b) ≢ 0
    → highest_version (intersection b a) ≢ 0
    → by_header a (highest_version b) ≡ highest_version (intersection b a)
mixed_agree a b ha out na nb =
    let ta = highest_version-IsHighest a in
    let tb = highest_version-IsHighest b in
    let c = intersection-Common b a nb in
    let v = highest_version (intersection b a) in
    let under_a = le-highest a max_version (highest_version a) v ta c.bound c.in_b in
    let under_b = le-highest b max_version (highest_version b) v tb c.bound c.in_a in
    elim (dec_le (highest_version a) (highest_version b)) [
      | yes q ↦ elim out [
        | inl low ↦ absurd (omega arith)
        | inr (inl e) ↦
            let s : v ≡ highest_version b =
              single_bit b (highest_version b) v e tb.bound c.bound c.in_a in
            ground (arith, s, under_a)
        | inr (inr e) ↦
            let full : test_bit b (highest_version a) ≡ true =
              full_bit b (highest_version b) (highest_version a) e tb.bound q (omega arith) in
            let above = c.highest (highest_version a) ta.bound full in
            ground (arith, above, under_a, ta.member)
      ]
      | no q ↦
          let above = c.highest (highest_version b) tb.bound in
          ground (arith, above, under_b, tb.member)
    ]

nonzero : (b : ℕ) → highest_version b ≢ 0 → b ≢ 0
unfolding highest_version highest_from
nonzero b h e = h (rw e refl)

hello_of_lem :
    (b : ℕ)
    → highest_version b ≢ 0
    → hello_of b ≡ record {
      version = highest_version b;
      element = if include_in_hello_msg b (highest_version b) then some b else none;
    }
unfolding hello_of send send_version send_bitmap
hello_of_lem b h = ground (arith, h, nonzero b h)

-- With the other side's bitmap the choice is the highest common version; with none it is made by the
-- version in the header.
settle_cases :
    (a b : ℕ)
    → highest_version b ≢ 0
    → ((version_4 ≤ highest_version b) × (settle a b ≡ highest_version (intersection a b)))
      ⊎ (LeftOut b × (settle a b ≡ by_header a (highest_version b)))
unfolding settle protocol_versions negotiate_version
settle_cases a b h = elim (Bool-cases (include_in_hello_msg b (highest_version b))) [
  | inl e ↦ inl (
    included_new b e,
    rw (settle, hello_of_lem b h, e) (ground (arith, nonzero b h, included_new b e)),
  )
  | inr e ↦ inr (left_out b e, rw (settle, hello_of_lem b h, e) (ground arith))
]

headers_agree :
    (a b : ℕ)
    → by_header a (highest_version b) ≢ 0
    → by_header b (highest_version a) ≢ 0
    → by_header a (highest_version b) ≡ by_header b (highest_version a)
headers_agree a b na nb = ground arith

agree_from :
    (a b : ℕ)
    → highest_version a ≢ 0
    → highest_version b ≢ 0
    → settle a b ≢ 0
    → settle b a ≢ 0
    → settle a b ≡ settle b a
agree_from a b ha hb na nb = elim (settle_cases a b hb) [
  | inl (p, e) ↦ elim (settle_cases b a ha) [
    | inl (q, f) ↦ e ∙ intersection_comm a b ∙ sym f
    | inr (out, f) ↦ e ∙ sym (f ∙ mixed_agree b a p out (rw f at nb) (rw e at na))
  ]
  | inr (out, e) ↦ elim (settle_cases b a ha) [
    | inl (q, f) ↦ e ∙ mixed_agree a b q out (rw e at na) (rw f at nb) ∙ sym f
    | inr (_, f) ↦ e ∙ headers_agree a b (rw e at na) (rw f at nb) ∙ sym f
  ]
]

by_header-member : (a v : ℕ) → by_header a v ≢ 0 → test_bit a (by_header a v) ≡ true
by_header-member a v h = ground (arith, (highest_version-IsHighest a).member)

-- The version that a side settles on is one of its own.
settle-member : (a b : ℕ) → highest_version b ≢ 0 → settle a b ≢ 0 → test_bit a (settle a b) ≡ true
settle-member a b hb na = elim (settle_cases a b hb) [
  | inl (p, e) ↦ rw e ((intersection-Common a b (rw e at na)).in_a)
  | inr (out, e) ↦ rw e (by_header-member a (highest_version b) (rw e at na))
]

-- Two sides, each with a version from 1 to 30 at least, send their Hello messages, with or without
-- the bitmap, and each settles on a version from what it receives. If neither gives up, then they
-- settle on the same version, and both have it.
pub settle_agree :
    (a b : ℕ)
    → highest_version a ≢ 0
    → highest_version b ≢ 0
    → settle a b ≢ 0
    → settle b a ≢ 0
    → (settle a b ≡ settle b a)
      × (contains_version a (settle a b) ≡ true)
      × (contains_version b (settle a b) ≡ true)
settle_agree a b ha hb na nb =
    let same = agree_from a b ha hb na nb in
    (same, settle-member a b hb na, rw same (settle-member b a ha nb))
