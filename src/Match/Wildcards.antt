-- ===== src/Match/Wildcards.antt =====
-- What the conversion of a match of version 1 keeps.
use libofp.Base.{
  ℕ, ◌+◌, ◌-◌, ◌/◌, ◌%◌, ◌^◌, ◌≤◌, ◌≡◌, Bool, true, false, ◌||◌, List, [], ◌∷◌, length, refl, ap,
  sym, ◌∙◌, arith, test_bit, test_bit-bit_or, bit_or, ◌&&◌, ◌==◌, if◌then◌else◌, min, drop, ltb,
  bytes32, big32,
}
use libofp.Match.{
  WildcardInfo, is_set, mapped_wildcards, standard_wildcards, wildcard_map, ofpfw_mpls,
  wildcard_bits, nw_src_mask, nw_dst_mask, dl_mask, ofpfw_dl_src, ofpfw_dl_dst, standard_match,
  standard_fields,
}
use libofp.Memory.Fields.{field, length-flat, length-field, field-flat}
use libofp.Hex.Digits.{all_below, all_below-lt}
use libofp.Address.{mask, prefix_length, leading_bits}

or_false : (b : Bool) → (b || false) ≡ b
or_false true = refl
or_false false = refl

and_false : (b : Bool) → (b && false) ≡ false
and_false true = refl
and_false false = refl

and_true : (b : Bool) → (b && true) ≡ b
and_true true = refl
and_true false = refl

or_assoc : (a b c : Bool) → ((a || b) || c) ≡ (a || (b || c))
or_assoc true b c = refl
or_assoc false b c = refl

test_bit-if :
    (j result standard : ℕ) (b : Bool)
    → test_bit (if b then bit_or result standard else result) j
      ≡ (test_bit result j || (test_bit standard j && b))
test_bit-if j result standard true =
    test_bit-bit_or j result standard
    ∙ ap (λ t. test_bit result j || t) (sym (and_true (test_bit standard j)))
test_bit-if j result standard false =
    sym (or_false (test_bit result j))
    ∙ ap (λ t. test_bit result j || t) (sym (and_false (test_bit standard j)))

-- Some entry of the map has its original bit set, and stands for bit `j`.
abbrev some_entry : ℕ → ℕ → List WildcardInfo → Bool
some_entry wc j [] = false
some_entry wc j (entry ∷ entries) =
    (test_bit entry.standard j && is_set wc entry.original) || some_entry wc j entries

test_bit-mapped_wildcards :
    (wc j : ℕ) (entries : List WildcardInfo) (result : ℕ)
    → test_bit (mapped_wildcards entries wc result) j
      ≡ (test_bit result j || some_entry wc j entries)
unfolding mapped_wildcards
test_bit-mapped_wildcards wc j [] result = sym (or_false (test_bit result j))
test_bit-mapped_wildcards wc j (entry ∷ entries) result =
    let b : Bool = is_set wc entry.original in
    test_bit-mapped_wildcards wc j entries (if b then bit_or result entry.standard else result)
    ∙ ap (λ t. t || some_entry wc j entries) (test_bit-if j result entry.standard b)
    ∙ or_assoc (test_bit result j) (test_bit entry.standard j && b) (some_entry wc j entries)

test_bit-standard_wildcards :
    (wc j : ℕ)
    → test_bit (standard_wildcards wc) j
      ≡ ((test_bit 0 j || some_entry wc j wildcard_map) || test_bit ofpfw_mpls j)
unfolding standard_wildcards
test_bit-standard_wildcards wc j =
    test_bit-bit_or j (mapped_wildcards wildcard_map wc 0) ofpfw_mpls
    ∙ ap (λ t. t || test_bit ofpfw_mpls j) (test_bit-mapped_wildcards wc j wildcard_map 0)

-- A field of the standard match is wildcarded exactly if it is in the original one: in port, VLAN,
-- VLAN priority, Ethernet type, IP ToS, IP protocol, source port and destination port; the MPLS
-- fields always are.
pub standard_wildcards_lem :
    (wc : ℕ)
    → (test_bit (standard_wildcards wc) 0 ≡ is_set wc 1)
      × (test_bit (standard_wildcards wc) 1 ≡ is_set wc 2)
      × (test_bit (standard_wildcards wc) 2 ≡ is_set wc 0x100000)
      × (test_bit (standard_wildcards wc) 3 ≡ is_set wc 0x10)
      × (test_bit (standard_wildcards wc) 4 ≡ is_set wc 0x200000)
      × (test_bit (standard_wildcards wc) 5 ≡ is_set wc 0x20)
      × (test_bit (standard_wildcards wc) 6 ≡ is_set wc 0x40)
      × (test_bit (standard_wildcards wc) 7 ≡ is_set wc 0x80)
      × (test_bit (standard_wildcards wc) 8 ≡ true)
      × (test_bit (standard_wildcards wc) 9 ≡ true)
standard_wildcards_lem wc =
    let t = test_bit-standard_wildcards wc in
    let e = λ (b : Bool). or_false (b || false) ∙ or_false b in
    (
      t 0 ∙ e (is_set wc 1),
      t 1 ∙ e (is_set wc 2),
      t 2 ∙ e (is_set wc 0x100000),
      t 3 ∙ e (is_set wc 0x10),
      t 4 ∙ e (is_set wc 0x200000),
      t 5 ∙ e (is_set wc 0x20),
      t 6 ∙ e (is_set wc 0x40),
      t 7 ∙ e (is_set wc 0x80),
      t 8,
      t 9,
    )

-- Of the mask of each length, the length is found again.
is_mask_of : ℕ → Bool
is_mask_of n = (prefix_length (mask n) == n) && (length (mask n) == 4)

masks_32 : all_below 33 is_mask_of ≡ true
unfolding all_below is_mask_of mask prefix_length leading_bits
masks_32 = refl

pub prefix_length-mask : (n : ℕ) → n ≤ 32 → (prefix_length (mask n) ≡ n) × (length (mask n) ≡ 4)
unfolding is_mask_of
prefix_length-mask n h = ground (arith, all_below-lt 33 is_mask_of n masks_32)

prefix_length-wildcard_bits :
    (wc shift : ℕ)
    → (prefix_length (mask (32 - wildcard_bits wc shift)) ≡ 32 - min 32 (wc / 2 ^ shift % 64))
      × (length (mask (32 - wildcard_bits wc shift)) ≡ 4)
unfolding wildcard_bits
prefix_length-wildcard_bits wc shift =
    let bits : ℕ = wc / 2 ^ shift % 64 in
    let e : (if ltb 32 bits then 32 else bits) ≡ min 32 bits = ground arith in
    rw e (prefix_length-mask (32 - min 32 bits) (omega arith))

length-dl_mask : (wc bit : ℕ) → length (dl_mask wc bit) ≡ 6
unfolding dl_mask
length-dl_mask wc bit = ground arith

-- An OriginalMatch of 40 bytes becomes a StandardMatch of 88 with the standard wildcards. Its masks
-- of IPv4 addresses have as many leading ones as the counts of wildcarded bits leave, where a count
-- past 32 is one of 32.
pub standard_match_lem :
    (match : List ℕ)
    → length match ≡ 40
    → (length (standard_match match) ≡ 88)
      × (field 8 4 (standard_match match) ≡ bytes32 (standard_wildcards (big32 (field 0 4 match))))
      × (prefix_length (field 48 4 (standard_match match))
          ≡ 32 - min 32 (big32 (field 0 4 match) / 2 ^ 8 % 64))
      × (prefix_length (field 56 4 (standard_match match))
          ≡ 32 - min 32 (big32 (field 0 4 match) / 2 ^ 14 % 64))
unfolding standard_match standard_fields
standard_match_lem match h =
    let wc : ℕ = big32 (field 0 4 match) in
    let f = λ (at n : ℕ) (k : at + n ≤ 40). length-field at n match (omega arith) in
    let (src, src_length) = prefix_length-wildcard_bits wc 8 in
    let (dst, dst_length) = prefix_length-wildcard_bits wc 14 in
    let l1 = length-dl_mask wc ofpfw_dl_src in
    let l2 = length-dl_mask wc ofpfw_dl_dst in
    let e4 = f 4 2 (omega arith) in
    let e6 = f 6 6 (omega arith) in
    let e12 = f 12 6 (omega arith) in
    let e18 = f 18 2 (omega arith) in
    let e20 = f 20 1 (omega arith) in
    let e22 = f 22 2 (omega arith) in
    let e24 = f 24 1 (omega arith) in
    let e25 = f 25 1 (omega arith) in
    let e28 = f 28 4 (omega arith) in
    let e32 = f 32 4 (omega arith) in
    let e36 = f 36 2 (omega arith) in
    let e38 = f 38 2 (omega arith) in
    let fs = standard_fields match in
    (
      length-flat fs ∙ omega arith,
      field-flat 2 8 4 (bytes32 (standard_wildcards wc)) (drop 3 fs) fs refl (omega arith) refl,
      ap prefix_length
            (field-flat 14 48 4 (nw_src_mask wc) (drop 15 fs) fs refl (omega arith) src_length)
          ∙ src,
      ap prefix_length
            (field-flat 16 56 4 (nw_dst_mask wc) (drop 17 fs) fs refl (omega arith) dst_length)
          ∙ dst,
    )
