-- ===== src/Versions/Highest.antt =====
-- The highest version of a set.
use libofp.Base.{
  ℕ, zero, suc, ◌≤◌, ◌<◌, ◌≡◌, ◌⊎◌, inl, inr, true, false, test_bit, arith, refl, Bool-cases,
  dec_le,
}
use libofp.Versions.{highest_from}

-- `v` is the highest of the versions 1 to `n` in the set, or 0 if there is none.
pub record IsHighest (bits n v : ℕ) : Type 0 where
  pub bound : v ≤ n
  pub member : (v ≡ 0) ⊎ (test_bit bits v ≡ true)
  pub none_above : (i : ℕ) → v < i → i ≤ n → test_bit bits i ≡ false

-- Nothing of a set up to `n + 1` lies above, if nothing up to `n` does and `n + 1` is not in it.
none_above-suc :
    (bits n v : ℕ)
    → test_bit bits (suc n) ≡ false
    → ((i : ℕ) → v < i → i ≤ n → test_bit bits i ≡ false)
    → (i : ℕ) → v < i
    → i ≤ suc n
    → test_bit bits i ≡ false
none_above-suc bits n v e h i l k = elim (dec_le i n) [
  | yes q ↦ h i l q
  | no q ↦ let s : i ≡ suc n = omega arith in rw s e
]

pub highest_from-IsHighest : (bits n : ℕ) → IsHighest bits n (highest_from bits n)
unfolding highest_from
highest_from-IsHighest bits zero = record {
  bound = omega arith;
  member = inl refl;
  none_above = λ i h k. absurd (omega arith);
}
highest_from-IsHighest bits (suc n) =
    let ih = highest_from-IsHighest bits n in
    elim (Bool-cases (test_bit bits (suc n))) [
      | inl e ↦
          rw (e, highest_from)
            (record {
              bound = omega arith;
              member = inr e;
              none_above = λ i h k. absurd (omega arith);
            })
      | inr e ↦
          rw (e, highest_from)
            (record {
              bound = omega (arith, ih.bound);
              member = ih.member;
              none_above = none_above-suc bits n (highest_from bits n) e ih.none_above;
            })
    ]

-- Any version of the set is at most the highest.
pub le-highest : (bits n v i : ℕ) → IsHighest bits n v → i ≤ n → test_bit bits i ≡ true → i ≤ v
le-highest bits n v i h k e = elim (dec_le i v) [
  | yes q ↦ q
  | no q ↦ let f = h.none_above i (omega arith) k in cc
]

-- Sets with the same versions up to `n` have the same highest one.
pub highest_from-congr :
    (a b n : ℕ)
    → ((i : ℕ) → i ≤ n → test_bit a i ≡ test_bit b i)
    → highest_from a n ≡ highest_from b n
unfolding highest_from
highest_from-congr a b zero h = refl
highest_from-congr a b (suc n) h =
    rw (h (suc n) (omega arith), highest_from-congr a b n (λ i k. h i (omega arith)))
