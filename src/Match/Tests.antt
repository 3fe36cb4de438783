-- ===== src/Match/Tests.antt =====
-- Runs of the conversion of a match of src/ofp/standardmatch.cpp on sample matches.
use libofp.Base.{
  ℕ, ◌*◌, ◌+◌, ◌-◌, ◌/◌, ◌%◌, ◌^◌, ◌≤◌, ◌≡◌, ◌↔◌, List, [], ◌∷◌, ◌++◌, length, replicate, refl,
  arith, min, bytes32, big32,
}
use libofp.Memory.Fields.{field}
use libofp.Address.{prefix_length}
use libofp.Match.{standard_match, standard_wildcards, mapped_wildcards, wildcard_bits}
use libofp.Match.InPort.{standard_match-in_port}
use libofp.Match.Wildcards.{standard_match_lem}
use libofp.Port.{from_v1}

-- All fields are wildcarded.
all_wildcards : standard_wildcards 0x3820ff ≡ 0x3ff
unfolding standard_wildcards mapped_wildcards
all_wildcards = refl

-- 24 bits of the source address count, and all of the destination.
nw_masks : (wildcard_bits 0x800 8 ≡ 8) × (wildcard_bits 0x800 14 ≡ 0)
unfolding wildcard_bits
nw_masks = (refl, refl)

-- A match of the local port, of the source 10.0.0.0/24 and nothing else.
abbrev sample_match : List ℕ
sample_match =
    0 ∷ 0x38 ∷ 0x28 ∷ 0xfe ∷ 0xff ∷ 0xfe ∷ (replicate 22 0 ++ (10 ∷ 0 ∷ 0 ∷ 1 ∷ replicate 8 0))

standard_match_lem_example :
    (length (standard_match sample_match) ≡ 88)
    × (field 8 4 (standard_match sample_match)
        ≡ bytes32 (standard_wildcards (big32 (field 0 4 sample_match))))
    × (prefix_length (field 48 4 (standard_match sample_match))
        ≡ 32 - min 32 (big32 (field 0 4 sample_match) / 2 ^ 8 % 64))
    × (prefix_length (field 56 4 (standard_match sample_match))
        ≡ 32 - min 32 (big32 (field 0 4 sample_match) / 2 ^ 14 % 64))
standard_match_lem_example = standard_match_lem sample_match refl

standard_match-in_port_example :
    (field 4 4 (standard_match ((0 ∷ 0x38 ∷ 0x28 ∷ 0xfe ∷ []) ++ (0xff ∷ 0xfe ∷ replicate 34 0)))
      ≡ 0 ∷ 0 ∷ 0xff ∷ 0xfe ∷ [])
    × ((field 4 4 (standard_match ((0 ∷ 0x38 ∷ 0x28 ∷ 0xfe ∷ []) ++ (0xff ∷ 0xfe ∷ replicate 34 0)))
          ≡ bytes32 (from_v1 (0xff * 256 + 0xfe)))
        ↔ (0xff * 256 + 0xfe ≤ 0xff00))
standard_match-in_port_example =
    standard_match-in_port (0 ∷ 0x38 ∷ 0x28 ∷ 0xfe ∷ []) (replicate 34 0) 0xff 0xfe refl
      (omega arith) (omega arith)
