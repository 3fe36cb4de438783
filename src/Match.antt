-- ===== src/Match.antt =====
-- Matches of version 1: src/ofp/originalmatch.cpp and the constructor of src/ofp/standardmatch.cpp
-- that takes one, with the layouts of include/ofp/originalmatch.h and include/ofp/standardmatch.h.
pub mod InPort
pub mod Wildcards
pub mod Tests
use Prim.Native.Nat.{bit_or}
use libofp.Base.{
  ℕ, ◌+◌, ◌-◌, ◌*◌, ◌/◌, ◌%◌, ◌^◌, Bool, true, false, List, [], ◌∷◌, ◌++◌, length, replicate,
  get_or, ltb, if◌then◌else◌, ◌==◌, not, bit_and, bytes32, big32,
}
use libofp.Memory.Fields.{flat, field}
use libofp.Address.{mask}

-- `wildcards & bits`, as a test
abbrev pub is_set : ℕ → ℕ → Bool
is_set wildcards bits = not (bit_and wildcards bits == 0)

abbrev pub ofpfw_dl_src : ℕ
ofpfw_dl_src = 4

abbrev pub ofpfw_dl_dst : ℕ
ofpfw_dl_dst = 8

-- `OFPFW_MPLS_TC | OFPFW_MPLS_LABEL`
abbrev pub ofpfw_mpls : ℕ
ofpfw_mpls = 0x300

-- A bit of the original wildcards, and the bit of the standard wildcards.
pub record WildcardInfo : Type 0 where
  pub original : ℕ
  pub standard : ℕ

abbrev pub info : ℕ → ℕ → WildcardInfo
info original standard = record { original = original; standard = standard }

-- In port, VLAN, Ethernet type, IP protocol, source port, destination port, VLAN priority, IP ToS
abbrev pub wildcard_map : List WildcardInfo
wildcard_map =
    info 1 1
    ∷ info 2 2
    ∷ info 0x10 8
    ∷ info 0x20 0x20
    ∷ info 0x40 0x40
    ∷ info 0x80 0x80
    ∷ info 0x100000 4
    ∷ info 0x200000 0x10
    ∷ []

unfoldable pub mapped_wildcards : List WildcardInfo → ℕ → ℕ → ℕ
mapped_wildcards [] wc result = result
mapped_wildcards (entry ∷ entries) wc result =
    mapped_wildcards entries wc
      (if is_set wc entry.original then bit_or result entry.standard else result)

-- `standardWildcards`
unfoldable pub standard_wildcards : ℕ → ℕ
standard_wildcards wc = bit_or (mapped_wildcards wildcard_map wc 0) ofpfw_mpls

-- The wildcarded bits of an address, for the lowest bit of its count, and the mask.
unfoldable pub wildcard_bits : ℕ → ℕ → ℕ
wildcard_bits wc shift = let bits = wc / 2 ^ shift % 64 in if ltb 32 bits then 32 else bits

abbrev pub nw_src_mask : ℕ → List ℕ
nw_src_mask wc = mask (32 - wildcard_bits wc 8)

abbrev pub nw_dst_mask : ℕ → List ℕ
nw_dst_mask wc = mask (32 - wildcard_bits wc 14)

-- `setAllOnes` or `clear` of a hardware address
unfoldable pub dl_mask : ℕ → ℕ → List ℕ
dl_mask wc bit = if is_set wc bit then replicate 6 0 else replicate 6 0xff

-- The fields of a StandardMatch that is made from the 40 bytes of an OriginalMatch.
unfoldable pub standard_fields : List ℕ → List (List ℕ)
standard_fields match =
    let wc = big32 (field 0 4 match) in
    (0 ∷ 0 ∷ 0 ∷ 88 ∷ [])
    ∷ (0 ∷ 0 ∷ field 4 2 match)
    ∷ bytes32 (standard_wildcards wc)
    ∷ field 6 6 match
    ∷ dl_mask wc ofpfw_dl_src
    ∷ field 12 6 match
    ∷ dl_mask wc ofpfw_dl_dst
    ∷ field 18 2 match
    ∷ field 20 1 match
    ∷ (0 ∷ [])
    ∷ field 22 2 match
    ∷ field 24 1 match
    ∷ field 25 1 match
    ∷ field 28 4 match
    ∷ nw_src_mask wc
    ∷ field 32 4 match
    ∷ nw_dst_mask wc
    ∷ field 36 2 match
    ∷ field 38 2 match
    ∷ replicate 4 0
    ∷ (0 ∷ [])
    ∷ replicate 3 0
    ∷ replicate 8 0
    ∷ replicate 8 0
    ∷ []

unfoldable pub standard_match : List ℕ → List ℕ
standard_match match = flat (standard_fields match)
