-- ===== src/Demux/Segment.antt =====
-- Segment of include/ofp/demux/segmentcache.h: a half-open interval [begin, end) of sequence numbers
-- with its bytes. Sequence numbers are UInt32.
pub mod Order
use libofp.Base.{
  ℕ, ◌+◌, ◌-◌, ◌<◌, ◌≡◌, Bool, true, false, List, ◌++◌, length, is_empty, drop, ltb, leb,
  if◌then◌else◌, add32, sub32, narrow32, arith,
}

pub record Segment : Type 0 where
  pub end : ℕ
  pub final : Bool
  pub bytes : List ℕ

-- `Segment::lessThan`
abbrev pub less_than : ℕ → ℕ → Bool
less_than lhs rhs =
    if ltb lhs rhs
    then ltb (rhs - lhs) 0x80000000
    else if ltb rhs lhs
    then ltb 0x80000000 (lhs - rhs)
    else false

-- `SafeByteRange(data, length, offset)`: the bytes from `offset` on, or nothing.
abbrev pub safe_byte_range : List ℕ → ℕ → List ℕ
safe_byte_range bytes offset = if leb offset (length bytes) then drop offset bytes else List.[]

abbrev pub begin : Segment → ℕ
begin s = sub32 s.end (narrow32 (length s.bytes))

abbrev pub append : Segment → List ℕ → Bool → Segment
append s bytes final = record {
  end = add32 s.end (length bytes);
  final = final;
  bytes = s.bytes ++ bytes;
}

abbrev pub prepend : Segment → List ℕ → Segment
prepend s bytes = record s { bytes = bytes ++ s.bytes }

abbrev pub consume : Segment → ℕ → Segment
consume s len = record s { bytes = drop len s.bytes }
