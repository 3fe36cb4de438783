-- ===== src/Versions/Negotiation.antt =====
-- `negotiateVersion` with the other side's bitmap.
use libofp.Base.{
  ℕ, ◌≤◌, ◌≡◌, ◌≢◌, ◌⊎◌, Bool, true, ◌&&◌, not, leb, ◌==◌, test_bit-bit_and, arith, ◌∙◌,
}
use libofp.Versions.{
  max_version, version_4, intersection, contains_version, highest_version, negotiate_version,
}
use libofp.Versions.Highest.{IsHighest, highest_from-IsHighest, le-highest}

-- `v` is the highest version that both sets have, or 0 if they have none in common.
pub record BestCommon (mine theirs v : ℕ) : Type 0 where
  pub bound : v ≤ max_version
  pub member : (v ≡ 0) ⊎ ((contains_version mine v ≡ true) × (contains_version theirs v ≡ true))
  pub highest :
      (i : ℕ)
      → i ≤ max_version
      → contains_version mine i ≡ true
      → contains_version theirs i ≡ true
      → i ≤ v

pub highest_version-IsHighest : (bits : ℕ) → IsHighest bits max_version (highest_version bits)
unfolding highest_version
highest_version-IsHighest bits = highest_from-IsHighest bits max_version

both : {p q : Bool} → p ≡ true → q ≡ true → (p && q) ≡ true
both p q = ground arith

pub intersection-BestCommon : (a b : ℕ) → BestCommon a b (highest_version (intersection a b))
intersection-BestCommon a b =
    let v = highest_version (intersection a b) in
    let t = highest_version-IsHighest (intersection a b) in
    record {
      bound = t.bound;
      member = ground (arith, t.member, test_bit-bit_and v a b);
      highest = λ i k p q.
          le-highest (intersection a b) max_version v i t k (test_bit-bit_and i a b ∙ both p q);
    }

-- With a message of version 1.3 or later that has a bitmap, which is not empty, the version chosen is
-- the highest of those that both sides have, and it is 0 exactly if they have none in common.
pub negotiate-BestCommon :
    (mine msg_version msg_versions : ℕ)
    → version_4 ≤ msg_version
    → msg_versions ≢ 0
    → BestCommon mine msg_versions (negotiate_version mine msg_version msg_versions)
unfolding negotiate_version
negotiate-BestCommon mine msg_version msg_versions h k =
    rw (with_bitmap msg_version msg_versions h k) (intersection-BestCommon mine msg_versions)
  where
    with_bitmap : (v b : ℕ) → version_4 ≤ v → b ≢ 0 → (leb version_4 v && not (b == 0)) ≡ true
    with_bitmap v b h k = ground arith
