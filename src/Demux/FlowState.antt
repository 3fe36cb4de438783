-- ===== src/Demux/FlowState.antt =====
-- FlowState and FlowData of src/ofp/demux/flowstate.cpp: one direction of a TCP connection. The
-- pointer `state_` of a FlowData is the field `attached`; `consume` is given the state that it points
-- to. What `receive` writes through `lastSeen` is part of its result.
pub mod Delivery
use libofp.Base.{
  ℕ, zero, suc, ◌+◌, ◌-◌, ◌≡◌, ◌≤◌, Bool, true, false, ◌&&◌, ◌||◌, not, List, [], ◌∷◌, ◌++◌, length,
  is_empty, take, drop, ltb, leb, ◌==◌, if◌then◌else◌, sub32, add32, narrow32, min, Option, none,
  some,
}
use libofp.Demux.Segment.{Segment, less_than, safe_byte_range, begin}
use libofp.Demux.SegmentCache.{SegmentCache, store, current, consume_front, add_missing_data}

pub record FlowData : Type 0 where
  pub attached : Bool
  pub bytes : List ℕ
  pub session_id : ℕ
  pub cached : Bool
  pub final : Bool

-- `FlowData{sessionID}`
abbrev pub no_data : ℕ → FlowData
no_data sid = record {
  attached = false;
  bytes = [];
  session_id = sid;
  cached = false;
  final = false;
}

pub record FlowState : Type 0 where
  pub end : ℕ
  pub started : Bool
  pub finished : Bool
  pub cache : SegmentCache

abbrev pub init : FlowState
init = record { end = 0; started = false; finished = false; cache = [] }

-- `FlowState::finished()`
unfoldable pub is_finished : FlowState → Bool
is_finished st = st.finished && is_empty st.cache

-- `FlowState::latestData`
unfoldable pub latest_data : FlowState → ℕ → FlowData
latest_data st sid = elim (current st.cache) [
  | none ↦ no_data sid
  | some seg ↦
      if begin seg == st.end
      then record {
        attached = true;
        bytes = seg.bytes;
        session_id = sid;
        cached = true;
        final = seg.final;
      }
      else no_data sid
]

-- What `receive` returns: the new state, the data, and whether `*lastSeen = ts` was run.
pub record Received : Type 0 where
  pub state : FlowState
  pub flow : FlowData
  pub seen : Bool

abbrev pub mark_finished : FlowState → Bool → FlowState
mark_finished st final = record st { finished = if final then true else st.finished }

-- The three ends of `receive`: the segment is dropped,
abbrev pub dropped : FlowState → ℕ → Received
dropped st sid = record { state = st; flow = no_data sid; seen = false }

-- is passed on with no copy,
abbrev pub passed_on : FlowState → List ℕ → ℕ → Bool → Received
passed_on st data' sid final = record {
  state = mark_finished st final;
  flow = record { attached = true; bytes = data'; session_id = sid; cached = false; final = final };
  seen = true;
}

-- or is cached, its new part at least.
abbrev pub new_data : FlowState → ℕ → List ℕ → List ℕ
new_data st begin' data' =
    if less_than begin' st.end then safe_byte_range data' (sub32 st.end begin') else data'

abbrev pub cached_state : FlowState → ℕ → ℕ → List ℕ → Bool → FlowState
cached_state st begin' end' data' final = record (mark_finished st final) {
  cache = store st.cache end' (new_data st begin' data') final;
}

-- `FlowState::receive` behind the assignment of `started_`.
unfoldable pub receive_started : FlowState → ℕ → ℕ → List ℕ → ℕ → Bool → Received
receive_started st begin' end' data' sid final =
    let stored = cached_state st begin' end' data' final in
    if is_empty st.cache && st.finished
    then dropped st sid
    else if is_empty st.cache && begin' == st.end
    then passed_on st data' sid final
    else if not (less_than st.end end')
    then dropped st sid
    else record { state = stored; flow = latest_data stored sid; seen = true }

unfoldable pub receive : FlowState → ℕ → List ℕ → ℕ → Bool → Received
receive st end' data' sid final =
    let begin' = sub32 end' (narrow32 (length data')) in
    receive_started (if st.started then st else record st { end = begin'; started = true }) begin'
      end' data' sid final

-- `FlowData::consume(len)`: the state that the data points to, and the data, now detached.
unfoldable pub consume : FlowState → FlowData → ℕ → FlowState × FlowData
consume st d len =
    let end' = add32 st.end len in
    let left = drop len d.bytes in
    let moved = record st { end = end' } in
    let done = record d { attached = false; bytes = [] } in
    if not d.attached
    then (st, d)
    else if d.cached
    then (record moved { cache = consume_front st.cache len }, done)
    else if ltb len (length d.bytes)
    then (
      record moved { cache = store st.cache (add32 end' (narrow32 (length left))) left false },
      done,
    )
    else (moved, done)

-- `FlowState::clear`
unfoldable pub clear : FlowState → FlowState
clear st = init

-- `FlowState::addMissingData`, on the fuel of `SegmentCache::addMissingData`.
unfoldable pub fill_missing : ℕ → FlowState → ℕ → Option FlowState
fill_missing fuel st max_missing = elim (add_missing_data fuel st.end max_missing st.cache) [
  | none ↦ none
  | some cache ↦ some (record st { cache = cache })
]
