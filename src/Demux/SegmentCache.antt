-- ===== src/Demux/SegmentCache.antt =====
-- SegmentCache of src/ofp/demux/segmentcache.cpp: the vector `segments_` as a list. The loop of
-- `store` over an index is a recursion on the segments left; a branch that ends by `goto DONE` keeps
-- them. Assertions are those of a debug build: they are not run, `check_invariant` is a function.
pub mod Contents
pub mod Overlap
pub mod Gaps
use libofp.Base.{
  ℕ, zero, suc, ◌+◌, ◌-◌, ◌≡◌, ◌≤◌, Bool, true, false, ◌&&◌, ◌||◌, not, List, [], ◌∷◌, ◌++◌, length,
  is_empty, take, drop, replicate, ltb, leb, ◌==◌, if◌then◌else◌, sub32, narrow32, min, Option,
  none, some,
}
use libofp.Demux.Segment.{Segment, less_than, safe_byte_range, begin, append, prepend, consume}

abbrev pub SegmentCache : Type 0
SegmentCache = List Segment

-- The constructor call of `emplace`.
abbrev pub new_segment : ℕ → List ℕ → Bool → Segment
new_segment end data' final = record { end = end; final = final; bytes = data' }

-- `SegmentCache::update` on the segment at `idx` and those behind it.
unfoldable pub update : Segment → SegmentCache → SegmentCache
update seg [] = seg ∷ []
update seg (next ∷ rest) =
    if seg.end == begin next
    then append seg next.bytes next.final ∷ rest
    else if less_than (begin next) seg.end
    then append seg (safe_byte_range next.bytes (sub32 seg.end (begin next))) next.final ∷ rest
    else seg ∷ next ∷ rest

-- `SegmentCache::insert` before the segments from `idx` on; a final segment clears them.
unfoldable pub insert : ℕ → List ℕ → Bool → SegmentCache → SegmentCache
insert end data' final segments =
    if final then new_segment end data' final ∷ [] else new_segment end data' final ∷ segments

-- The part of `store` for a segment that overlaps `seg`: first the bytes before `seg`,
unfoldable pub extend_front : Segment → ℕ → List ℕ → Segment
extend_front seg begin' data' =
    if less_than begin' (begin seg)
    then (let front = take (min (length data') (sub32 (begin seg) begin')) data' in
        if is_empty front then seg else prepend seg front)
    else seg

-- then the bytes behind it.
unfoldable pub extend_back : Segment → ℕ → List ℕ → Bool → SegmentCache → SegmentCache
extend_back seg begin' data' final rest =
    let back = safe_byte_range data' (sub32 seg.end begin') in
    if is_empty back then seg ∷ rest else update (append seg back final) rest

-- The loop of `SegmentCache::store` from `segments_[i]` on, and the `append` behind it.
unfoldable pub store_from : ℕ → ℕ → List ℕ → Bool → SegmentCache → SegmentCache
store_from begin' end data' final [] = new_segment end data' final ∷ []
store_from begin' end data' final (seg ∷ rest) =
    if begin' == seg.end
    then if seg.final then seg ∷ rest else update (append seg data' final) rest
    else if end == begin seg
    then if final then insert end data' final (seg ∷ rest) else prepend seg data' ∷ rest
    else if less_than end (begin seg)
    then insert end data' final (seg ∷ rest)
    else if less_than begin' seg.end
    then extend_back (extend_front seg begin' data') begin' data' final rest
    else if seg.final
    then seg ∷ rest
    else seg ∷ store_from begin' end data' final rest

unfoldable pub store : SegmentCache → ℕ → List ℕ → Bool → SegmentCache
store cache end data' final =
    if is_empty data' && not final
    then cache
    else store_from (sub32 end (narrow32 (length data'))) end data' final cache

unfoldable pub current : SegmentCache → Option Segment
current [] = none
current (seg ∷ rest) = some seg

-- `SegmentCache::consume`
unfoldable pub consume_front : SegmentCache → ℕ → SegmentCache
consume_front [] len = []
consume_front (seg ∷ rest) len = if leb (length seg.bytes) len then rest else consume seg len ∷ rest

-- `SegmentCache::checkInvariant`, from the segment `seg` on.
unfoldable pub check_from : Segment → SegmentCache → Bool
check_from seg [] = true
check_from seg (next ∷ rest) =
    (seg.end == begin next || less_than seg.end (begin next))
    && not (is_empty seg.bytes && not seg.final)
    && not seg.final
    && check_from next rest

unfoldable pub check_invariant : SegmentCache → Bool
check_invariant [] = true
check_invariant (seg ∷ rest) = check_from seg rest

unfoldable pub cache_size : SegmentCache → ℕ
cache_size [] = 0
cache_size (seg ∷ rest) = length seg.bytes + cache_size rest

-- Filling the gap before the first segment.
unfoldable pub fill_front : Segment → ℕ → ℕ → Segment
fill_front seg end max_missing =
    if less_than end (begin seg)
    then (let gap = sub32 (begin seg) end in
        if leb gap max_missing then prepend seg (replicate gap 0) else seg)
    else seg

-- The `while` loop of `addMissingData`, on fuel. `none` means that the fuel ran out: a round that
-- neither breaks nor merges changes nothing.
unfoldable pub fill_gaps : ℕ → ℕ → SegmentCache → Option SegmentCache
fill_gaps zero max_missing cache = none
fill_gaps (suc fuel) max_missing [] = some []
fill_gaps (suc fuel) max_missing (first ∷ []) = some (first ∷ [])
fill_gaps (suc fuel) max_missing (first ∷ second ∷ rest) =
    let gap = sub32 (begin second) first.end in
    let merged =
      fill_gaps fuel max_missing
        (append (append first (replicate gap 0) false) second.bytes second.final ∷ rest) in
    let again = fill_gaps fuel max_missing (first ∷ second ∷ rest) in
    if is_empty second.bytes
    then some (first ∷ second ∷ rest)
    else if less_than first.end (begin second)
    then if ltb max_missing gap then some (first ∷ second ∷ rest) else merged
    else again

unfoldable pub add_missing_data : ℕ → ℕ → ℕ → SegmentCache → Option SegmentCache
add_missing_data fuel end max_missing [] = some []
add_missing_data fuel end max_missing (seg ∷ rest) =
    let filled = fill_gaps fuel max_missing (fill_front seg end max_missing ∷ rest) in
    if is_empty seg.bytes then some (seg ∷ rest) else filled
