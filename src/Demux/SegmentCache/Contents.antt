-- ===== src/Demux/SegmentCache/Contents.antt =====
-- segmentcache.cpp against a stream: what is cached are bytes of the stream, at their places.
use libofp.Base.{
  ℕ, ◌+◌, ◌%◌, ◌^◌, ◌≡◌, ◌<◌, Bool, false, List, [], ◌∷◌, length, take, leb, ◌==◌, All,
  length-append, length-take, length-drop, sub32, narrow32, arith, min, Bool-cases, ==→eq, inl, inr,
}
use libofp.Demux.Segment.{Segment, less_than, safe_byte_range, begin, append, prepend, consume}
use libofp.Demux.Stream.{Stream, Reads, Reads-congr, Reads-append, Reads-take, Reads-drop}
use libofp.Demux.SegmentCache.{
  SegmentCache, new_segment, update, insert, extend_front, extend_back, store_from, store,
  consume_front,
}

-- A segment holds the bytes of the stream from its `begin` on.
pub record Holds (s : Stream) (seg : Segment) : Type 0 where
  pub in_range : seg.end < 2 ^ 32
  pub reads : Reads s (begin seg) seg.bytes

module _ (s : Stream) where
  append-Holds :
      (seg : Segment) (ys : List ℕ) (final : Bool)
      → Holds s seg
      → Reads s seg.end ys
      → Holds s (append seg ys final)
  append-Holds seg ys final h r = record {
    in_range = omega arith;
    reads =
        Reads-append s _ seg.end seg.bytes ys
          (omega (arith, length-append seg.bytes ys, h.in_range))
          (Reads-congr s (begin seg) _ seg.bytes
            (omega (arith, length-append seg.bytes ys, h.in_range)) h.reads)
          r;
  }

  prepend-Holds :
      (seg : Segment) (p : ℕ) (xs : List ℕ)
      → Holds s seg
      → (p + length xs) % 2 ^ 32 ≡ begin seg
      → Reads s p xs
      → Holds s (prepend seg xs)
  prepend-Holds seg p xs h e r = record {
    in_range = h.in_range;
    reads =
        Reads-append s _ (begin seg) xs seg.bytes
          (omega (arith, length-append xs seg.bytes, h.in_range))
          (Reads-congr s p _ xs (omega (arith, length-append xs seg.bytes, h.in_range)) r) h.reads;
  }

  -- What `SafeByteRange` cuts off at `q` reads on from `q`.
  pub safe_byte_range-Reads :
      (p q : ℕ) (xs : List ℕ)
      → q < 2 ^ 32
      → Reads s p xs
      → Reads s q (safe_byte_range xs (sub32 q p))
  safe_byte_range-Reads p q xs h r = elim (Bool-cases (leb (sub32 q p) (length xs))) [
    | inl e ↦ rw e (Reads-drop s p q (sub32 q p) xs (omega arith) r)
    | inr e ↦ rw e tt
  ]

  update-Holds :
      (seg : Segment) (rest : SegmentCache)
      → Holds s seg
      → All (Holds s) rest
      → All (Holds s) (update seg rest)
  unfolding update
  update-Holds seg [] h t = (h, tt)
  update-Holds seg (next ∷ rest) h t = ground (
    arith,
    append-Holds seg next.bytes next.final h,
    t.0.reads,
    append-Holds seg _ next.final h
        (safe_byte_range-Reads (begin next) seg.end next.bytes h.in_range t.0.reads),
  )

  new_segment-Holds :
      (end : ℕ) (xs : List ℕ) (final : Bool)
      → end < 2 ^ 32
      → Reads s (sub32 end (length xs)) xs
      → Holds s (new_segment end xs final)
  new_segment-Holds end xs final h r = record {
    in_range = h;
    reads = Reads-congr s _ _ xs (omega arith) r;
  }

  insert-Holds :
      (end : ℕ) (xs : List ℕ) (final : Bool) (segs : SegmentCache)
      → Holds s (new_segment end xs final)
      → All (Holds s) segs
      → All (Holds s) (insert end xs final segs)
  unfolding insert
  insert-Holds end xs final segs h t = ground arith

  -- Here the positions count: the new segment reaches up to the old one.
  extend_front-Holds :
      (seg : Segment) (end p : ℕ) (xs : List ℕ)
      → end < 2 ^ 32
      → length xs < 2 ^ 32
      → p ≡ sub32 end (length xs)
      → (end == begin seg) ≡ false
      → less_than end (begin seg) ≡ false
      → Holds s seg
      → Reads s p xs
      → Holds s (extend_front seg p xs)
  unfolding extend_front
  extend_front-Holds seg end p xs he hx hp ne nl h r = ground (
    arith,
    prepend-Holds seg p (take (min (length xs) (sub32 (begin seg) p)) xs) h,
    Reads-take s p (min (length xs) (sub32 (begin seg) p)) xs r,
    length-take (min (length xs) (sub32 (begin seg) p)) xs,
  )

  extend_front-end : (seg : Segment) (p : ℕ) (xs : List ℕ) → (extend_front seg p xs).end ≡ seg.end
  unfolding extend_front
  extend_front-end seg p xs = ground arith

  extend_back-Holds :
      (seg : Segment) (p : ℕ) (xs : List ℕ) (final : Bool) (rest : SegmentCache)
      → Holds s seg
      → All (Holds s) rest
      → Reads s p xs
      → All (Holds s) (extend_back seg p xs final rest)
  unfolding extend_back
  extend_back-Holds seg p xs final rest h t r = ground (
    arith,
    update-Holds (append seg (safe_byte_range xs (sub32 seg.end p)) final) rest
        (append-Holds seg _ final h (safe_byte_range-Reads p seg.end xs h.in_range r)) t,
  )

  store_from-Holds :
      (p end : ℕ) (xs : List ℕ) (final : Bool) (segs : SegmentCache)
      → end < 2 ^ 32
      → length xs < 2 ^ 32
      → p ≡ sub32 end (length xs)
      → Reads s p xs
      → All (Holds s) segs
      → All (Holds s) (store_from p end xs final segs)
  unfolding store_from insert
  store_from-Holds p end xs final [] he hx hp r t =
      (new_segment-Holds end xs final he (Reads-congr s p _ xs (omega arith) r), tt)
  store_from-Holds p end xs final (seg ∷ rest) he hx hp r t = elim (Bool-cases (p == seg.end)) [
    | inl e ↦ rw e (
        ground (
          arith,
          update-Holds (append seg xs final) rest
              (append-Holds seg xs final t.0 (rw (← ==→eq p seg.end e) r)) t.1,
        ))
    | inr n0 ↦ rw n0 (elim (Bool-cases (end == begin seg)) [
      | inl e ↦ rw e (
          ground
            (arith, fresh, prepend-Holds seg p xs t.0 (omega (arith, ==→eq end (begin seg) e)) r))
      | inr ne ↦ rw ne (elim (Bool-cases (less_than end (begin seg))) [
        | inl l ↦ rw l (ground (arith, fresh))
        | inr nl ↦ rw nl (
            let front = extend_front-Holds seg end p xs he hx hp ne nl t.0 r in
            ground (
              arith,
              extend_back-Holds (extend_front seg p xs) p xs final rest front t.1 r,
              store_from-Holds p end xs final rest he hx hp r t.1,
            ))
      ])
    ])
  ]
    where
      fresh : Holds s (new_segment end xs final)
      fresh = new_segment-Holds end xs final he (Reads-congr s p _ xs (omega arith) r)

  -- Storing a segment whose bytes are those of the stream keeps all cached bytes those of the stream,
  -- whatever the order and the overlaps.
  pub store-Holds :
      (cache : SegmentCache) (end : ℕ) (xs : List ℕ) (final : Bool)
      → end < 2 ^ 32
      → length xs < 2 ^ 32
      → Reads s (sub32 end (length xs)) xs
      → All (Holds s) cache
      → All (Holds s) (store cache end xs final)
  unfolding store
  store-Holds cache end xs final he hx r t = ground (
    arith,
    store_from-Holds (sub32 end (narrow32 (length xs))) end xs final cache he hx (omega arith)
        (Reads-congr s (sub32 end (length xs)) _ xs (omega arith) r) t,
  )

  -- So does taking bytes off the front of the first segment.
  pub consume_front-Holds :
      (cache : SegmentCache) (len : ℕ)
      → All (Holds s) cache
      → All (Holds s) (consume_front cache len)
  unfolding consume_front
  consume_front-Holds [] len t = tt
  consume_front-Holds (seg ∷ rest) len t = ground (arith, shorter, t.1)
    where
      shorter : len < length seg.bytes → Holds s (consume seg len)
      shorter h = record {
        in_range = t.0.in_range;
        reads =
            Reads-drop s (begin seg) _ len seg.bytes
              (omega (arith, length-drop len seg.bytes, t.0.in_range)) t.0.reads;
      }
