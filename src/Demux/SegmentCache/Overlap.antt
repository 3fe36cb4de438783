-- ===== src/Demux/SegmentCache/Overlap.antt =====
-- SegmentCache::store with a segment that reaches over more than one cached segment: `update` joins
-- only the next one.
use libofp.Base.{
  ℕ, ◌^◌, ◌≡◌, ◌<◌, Bool, true, false, List, [], ◌∷◌, ◌++◌, length, is_empty, sub32, narrow32,
  arith, refl, none,
}
use libofp.Demux.Segment.{Segment, less_than, begin, append}
use libofp.Demux.SegmentCache.{
  SegmentCache, update, store_from, store, check_invariant, check_from, add_missing_data,
}
use libofp.Demux.SegmentCache.Gaps.{add_missing_data-stuck}

-- A segment that follows `x` and reaches beyond all of `y`, and into `z`.
pub record ReachesPast (x y z : Segment) (end : ℕ) (data' : List ℕ) : Type 0 where
  pub open_end : x.final ≡ false
  pub in_range : end < 2 ^ 32
  pub follows : sub32 end (narrow32 (length data')) ≡ x.end
  pub not_empty : is_empty data' ≡ false
  pub behind_y : less_than (begin y) end ≡ true
  pub past_y : length y.bytes < sub32 end (begin y)
  pub into_z : less_than (begin z) end ≡ true

append-not_empty : (xs ys zs : List ℕ) → is_empty ys ≡ false → is_empty ((xs ++ ys) ++ zs) ≡ false
append-not_empty [] (y ∷ ys) zs h = refl
append-not_empty [] [] zs h = cc
append-not_empty (x ∷ xs) ys zs h = refl

module _ (x y z : Segment) (rest : SegmentCache) (end : ℕ) (data' : List ℕ) where
  reaches-end : (final : Bool) → ReachesPast x y z end data' → (append x data' final).end ≡ end
  reaches-end final h = omega (arith, h.follows, h.in_range)

  update-ReachesPast :
      (final : Bool)
      → ReachesPast x y z end data'
      → update (append x data' final) (y ∷ z ∷ rest)
        ≡ append (append x data' final) [] y.final ∷ z ∷ rest
  unfolding update
  update-ReachesPast final h = rw (reaches-end final h) (ground (arith, h.behind_y, h.past_y))

  store-ReachesPast :
      (final : Bool)
      → ReachesPast x y z end data'
      → store (x ∷ y ∷ z ∷ rest) end data' final
        ≡ append (append x data' final) [] y.final ∷ z ∷ rest
  unfolding store store_from
  store-ReachesPast final h =
      rw (h.not_empty, h.follows) (ground (arith, h.open_end, update-ReachesPast final h))

  -- A segment that reaches from the end of the first of three cached segments over all of the second
  -- into the third, which is not empty, leaves the cache out of order, and filling the gaps in that
  -- cache does not end, whatever the fuel and the size of the gaps to fill.
  pub store_past_two :
      (final : Bool) (fuel from max_missing : ℕ)
      → ReachesPast x y z end data'
      → is_empty z.bytes ≡ false
      → (check_invariant (store (x ∷ y ∷ z ∷ rest) end data' final) ≡ false)
        × (add_missing_data fuel from max_missing (store (x ∷ y ∷ z ∷ rest) end data' final) ≡ none)
  unfolding check_invariant check_from
  store_past_two final fuel from max_missing h q =
      let joined = append (append x data' final) [] y.final in
      let e : joined.end ≡ end = omega (arith, reaches-end final h, h.in_range) in
      let behind : less_than joined.end (begin z) ≡ false = rw e (ground (arith, h.into_z)) in
      rw (store-ReachesPast final h) (
        ground (arith, behind, e, h.into_z),
        add_missing_data-stuck fuel from max_missing joined z rest
            (append-not_empty x.bytes data' [] h.not_empty) q behind,
      )
