-- ===== src/Demux/SegmentCache/Gaps.antt =====
-- SegmentCache::addMissingData: when its loop ends, and when it does not.
use libofp.Base.{
  ℕ, zero, suc, ◌^◌, ◌≡◌, ◌<◌, ◌≤◌, true, false, [], ◌∷◌, ◌++◌, length, is_empty, ltb, replicate,
  length-append, sub32, arith, refl, Option, none, some, Bool-cases, inl, inr,
}
use libofp.Demux.Segment.{Segment, less_than, begin, append}
use libofp.Demux.SegmentCache.{SegmentCache, fill_gaps, fill_front, add_missing_data, cache_size}

-- There is a gap before each segment that is not the first.
abbrev pub Apart : SegmentCache → Type 0
Apart [] = Unit {0}
Apart (first ∷ []) = first.end < 2 ^ 32
Apart (first ∷ second ∷ rest) =
    (first.end < 2 ^ 32) × (less_than first.end (begin second) ≡ true) × Apart (second ∷ rest)

length-replicate : (n : ℕ) → length {A = ℕ} (replicate n 0) ≡ n
length-replicate zero = omega arith
length-replicate (suc n) = omega (arith, length-replicate n)

-- Only the end of the first segment counts.
Apart-congr :
    (a b : Segment) (rest : SegmentCache) → a.end ≡ b.end → Apart (b ∷ rest) → Apart (a ∷ rest)
Apart-congr a b [] e h = omega arith
Apart-congr a b (c ∷ rest) e h = (omega (arith, h.0), rw e h.1, h.2)

Apart-end : (a : Segment) (rest : SegmentCache) → Apart (a ∷ rest) → a.end < 2 ^ 32
Apart-end a [] h = h
Apart-end a (b ∷ rest) h = h.0

-- The first two segments, joined over the gap between them.
abbrev join : Segment → Segment → Segment
join first second =
    append (append first (replicate (sub32 (begin second) first.end) 0) false) second.bytes
      second.final

end-join : (first second : Segment) → second.end < 2 ^ 32 → (join first second).end ≡ second.end
end-join first second h = omega (arith, length-replicate (sub32 (begin second) first.end))

cache_size-join :
    (first second : Segment) (rest : SegmentCache)
    → cache_size (first ∷ second ∷ rest) ≤ cache_size (join first second ∷ rest)
unfolding cache_size
cache_size-join first second rest = omega (
  arith,
  length-append first.bytes (replicate (sub32 (begin second) first.end) 0),
  length-append (first.bytes ++ replicate (sub32 (begin second) first.end) 0) second.bytes,
)

-- What the loop has reached: it has ended, and no byte is lost.
abbrev pub Filled : SegmentCache → Option SegmentCache → Type 0
Filled cache out =
    (result : SegmentCache) × (out ≡ some result) × (cache_size cache ≤ cache_size result)

-- With gaps between all segments, one round of fuel for each segment is enough.
fill_gaps_total :
    (fuel max_missing : ℕ) (cache : SegmentCache)
    → length cache ≤ fuel
    → 0 < fuel
    → Apart cache
    → Filled cache (fill_gaps fuel max_missing cache)
unfolding fill_gaps
fill_gaps_total zero max_missing cache h p a = absurd (omega arith)
fill_gaps_total (suc fuel) max_missing [] h p a = ([], refl, omega arith)
fill_gaps_total (suc fuel) max_missing (first ∷ []) h p a = (first ∷ [], refl, omega arith)
fill_gaps_total (suc fuel) max_missing (first ∷ second ∷ rest) h p a =
    let joined =
      Apart-congr (join first second) second rest
        (end-join first second (Apart-end second rest a.2)) a.2 in
    let (result, e, k) =
      fill_gaps_total fuel max_missing (join first second ∷ rest) (omega arith) (omega arith)
        joined in
    elim (Bool-cases (is_empty second.bytes)) [
      | inl q ↦ rw q (first ∷ second ∷ rest, refl, omega arith)
      | inr q ↦
          rw (q, a.1)
            (elim (Bool-cases (ltb max_missing (sub32 (begin second) first.end))) [
              | inl l ↦ rw l (first ∷ second ∷ rest, refl, omega arith)
              | inr l ↦ rw l (result, e, omega (arith, k, cache_size-join first second rest))
            ])
    ]

-- A second segment with bytes that does not lie behind the first holds the loop up for ever: no fuel
-- is enough.
pub fill_gaps-stuck :
    (fuel max_missing : ℕ) (first second : Segment) (rest : SegmentCache)
    → is_empty second.bytes ≡ false
    → less_than first.end (begin second) ≡ false
    → fill_gaps fuel max_missing (first ∷ second ∷ rest) ≡ none
unfolding fill_gaps
fill_gaps-stuck zero max_missing first second rest q l = refl
fill_gaps-stuck (suc fuel) max_missing first second rest q l =
    rw (q, l) (fill_gaps-stuck fuel max_missing first second rest q l)

fill_front-end :
    (seg : Segment) (end max_missing : ℕ) → (fill_front seg end max_missing).end ≡ seg.end
unfolding fill_front
fill_front-end seg end max_missing = ground arith

cache_size-fill_front :
    (seg : Segment) (end max_missing : ℕ) (rest : SegmentCache)
    → cache_size (seg ∷ rest) ≤ cache_size (fill_front seg end max_missing ∷ rest)
unfolding fill_front cache_size
cache_size-fill_front seg end max_missing rest =
    ground (arith, length-append (replicate (sub32 (begin seg) end) 0) seg.bytes)

-- `addMissingData` ends on a cache with a gap before each segment but the first, whatever gaps it may
-- fill, within as many rounds as there are segments, and it loses no cached byte.
pub add_missing_data_total :
    (end max_missing : ℕ) (cache : SegmentCache)
    → Apart cache
    → Filled cache (add_missing_data (length cache) end max_missing cache)
unfolding add_missing_data
add_missing_data_total end max_missing [] a = ([], refl, omega arith)
add_missing_data_total end max_missing (seg ∷ rest) a =
    let filled = fill_front seg end max_missing in
    let (result, e, k) =
      fill_gaps_total (suc (length rest)) max_missing (filled ∷ rest) (omega arith) (omega arith)
        (Apart-congr filled seg rest (fill_front-end seg end max_missing) a) in
    elim (Bool-cases (is_empty seg.bytes)) [
      | inl q ↦ rw q (seg ∷ rest, refl, omega arith)
      | inr q ↦ rw q (result, e, omega (arith, k, cache_size-fill_front seg end max_missing rest))
    ]

-- On such a cache `addMissingData` does not end.
pub add_missing_data-stuck :
    (fuel end max_missing : ℕ) (first second : Segment) (rest : SegmentCache)
    → is_empty first.bytes ≡ false
    → is_empty second.bytes ≡ false
    → less_than first.end (begin second) ≡ false
    → add_missing_data fuel end max_missing (first ∷ second ∷ rest) ≡ none
unfolding add_missing_data
add_missing_data-stuck fuel end max_missing first second rest p q l =
    let e = fill_front-end first end max_missing in
    rw p
      (fill_gaps-stuck fuel max_missing (fill_front first end max_missing) second rest q (rw e l))
