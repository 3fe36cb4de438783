-- ===== src/Demux/FlowCache.antt =====
-- FlowCache of src/ofp/demux/flowcache.cpp: the two directions of every TCP connection in one entry,
-- under a key that does not depend on the direction. The unordered map is an association list, in
-- which `cache_[key]` makes an entry that is not there. Logging and `stats` are left out.
pub mod Keys
pub mod Sessions
use libofp.Base.{
  ℕ, zero, suc, ◌+◌, ◌*◌, ◌/◌, ◌%◌, ◌^◌, Bool, true, false, ◌&&◌, ◌||◌, not, List, [], ◌∷◌, ◌++◌,
  length, is_empty, ltb, leb, ◌==◌, if◌then◌else◌, narrow32, Option, none, some,
}
use libofp.Timestamp.{Timestamp, zero_time, nano_units, nanos_since}
use libofp.Demux.Endpoint.{Endpoint, endpoint_eq, endpoint_le}
use libofp.Demux.FlowState.{
  FlowState, FlowData, no_data, is_finished, latest_data, fill_missing, clear,
}
use libofp.Demux.FlowState

pub record FlowCacheKey : Type 0 where
  pub x : Endpoint
  pub y : Endpoint

-- The constructor of FlowCacheKey, with `srcIsX`.
unfoldable pub make_key : Endpoint → Endpoint → FlowCacheKey × Bool
make_key src dst =
    if endpoint_le src dst
    then (record { x = src; y = dst }, true)
    else (record { x = dst; y = src }, false)

unfoldable pub key_eq : FlowCacheKey → FlowCacheKey → Bool
key_eq a b = endpoint_eq a.x b.x && endpoint_eq a.y b.y

pub record FlowCacheEntry : Type 0 where
  pub session_id : ℕ
  pub x : FlowState
  pub y : FlowState
  pub first_seen : Timestamp
  pub last_seen : Timestamp

abbrev pub new_entry : FlowCacheEntry
new_entry = record {
  session_id = 0;
  x = FlowState.init;
  y = FlowState.init;
  first_seen = zero_time;
  last_seen = zero_time;
}

-- `FlowCacheEntry::finished`
unfoldable pub finished : FlowCacheEntry → Bool
finished e = is_finished e.x && is_finished e.y

-- `FlowCacheEntry::reset`
unfoldable pub reset : FlowCacheEntry → Timestamp → ℕ → FlowCacheEntry
reset e ts id = record {
  session_id = id;
  x = clear e.x;
  y = clear e.y;
  first_seen = ts;
  last_seen = zero_time;
}

abbrev pub FlowMap : Type 0
FlowMap = List (FlowCacheKey × FlowCacheEntry)

unfoldable pub lookup : FlowMap → FlowCacheKey → Option FlowCacheEntry
lookup [] key = none
lookup ((k, e) ∷ rest) key = if key_eq k key then some e else lookup rest key

unfoldable pub put : FlowMap → FlowCacheKey → FlowCacheEntry → FlowMap
put [] key entry = (key, entry) ∷ []
put ((k, e) ∷ rest) key entry =
    if key_eq k key then (k, entry) ∷ rest else (k, e) ∷ put rest key entry

pub record FlowCache : Type 0 where
  pub flows : FlowMap
  pub assigned : ℕ

-- The entry that `cache_[key]` refers to.
abbrev pub entry_at : FlowMap → FlowCacheKey → FlowCacheEntry
entry_at flows key = elim (lookup flows key) [ none ↦ new_entry | some e ↦ e ]

-- `FlowCache::assignSessionID`: a UInt64 counter that skips 0.
unfoldable pub assign_session_id : ℕ → ℕ
assign_session_id n = if (n + 1) % 2 ^ 64 == 0 then 1 else (n + 1) % 2 ^ 64

-- A control bit of the TCP header; the enumeration TCPControlBits.
abbrev pub has_flag : ℕ → ℕ → Bool
has_flag flags bit = flags / 2 ^ bit % 2 == 1

abbrev pub tcp_fin : ℕ
tcp_fin = 0

abbrev pub tcp_syn : ℕ
tcp_syn = 1

abbrev pub tcp_rst : ℕ
tcp_rst = 2

abbrev pub tcp_ack : ℕ
tcp_ack = 4

abbrev pub is_final : ℕ → Bool
is_final flags = has_flag flags tcp_fin || has_flag flags tcp_rst

-- `secondsSince(ts) >= kTwoMinuteTimeout`
abbrev pub timed_out : FlowCacheEntry → Timestamp → Bool
timed_out e ts = leb (120 * nano_units) (nanos_since ts e.last_seen)

-- Whether the segment opens a session on the entry, goes to the session that is there, or is late.
pub data Admission : Type 0 where
  opens continues late : Admission

unfoldable pub admit : FlowCacheEntry → Timestamp → ℕ → Admission
admit e ts flags =
    if e.session_id == 0
    then opens
    else if finished e
    then if has_flag flags tcp_syn || timed_out e ts then opens else late
    else if (has_flag flags tcp_syn && not (has_flag flags tcp_ack)) && timed_out e ts
    then opens
    else continues

-- The segment at the side of its sender.
unfoldable pub receive_side :
    FlowCacheEntry → Bool → Timestamp → ℕ → List ℕ → Bool → FlowCacheEntry × FlowData
receive_side e is_x ts end data' final =
    let r = FlowState.receive (if is_x then e.x else e.y) end data' e.session_id final in
    let seen = if r.seen then ts else e.last_seen in
    (
      if is_x
          then record e { x = r.state; last_seen = seen }
          else record e { y = r.state; last_seen = seen },
      r.flow,
    )

-- `FlowCache::receive` behind its checks of the flags.
unfoldable pub receive_segment :
    FlowCache → Timestamp → Endpoint → Endpoint → ℕ → List ℕ → ℕ → FlowCache × FlowData
receive_segment fc ts src dst end data' flags =
    let (key, is_x) = make_key src dst in
    let e = entry_at fc.flows key in
    let id = assign_session_id fc.assigned in
    let on_new = receive_side (reset e ts id) is_x ts end data' (is_final flags) in
    let on_old = receive_side e is_x ts end data' (is_final flags) in
    elim (admit e ts flags) [
      | opens ↦ (record { flows = put fc.flows key on_new.0; assigned = id }, on_new.1)
      | continues ↦ (record fc { flows = put fc.flows key on_old.0 }, on_old.1)
      | late ↦ (record fc { flows = put fc.flows key e }, no_data e.session_id)
    ]

unfoldable pub receive :
    FlowCache → Timestamp → Endpoint → Endpoint → ℕ → List ℕ → ℕ → FlowCache × FlowData
receive fc ts src dst seq data' flags =
    let syn = has_flag flags tcp_syn in
    let end = if syn then (seq + 1) % 2 ^ 32 else (seq + narrow32 (length data')) % 2 ^ 32 in
    if syn && not (is_empty data')
    then (fc, no_data 0)
    else if is_empty data' && not (syn || is_final flags)
    then (fc, no_data 0)
    else receive_segment fc ts src dst end data' flags

-- `FlowCache::lookup`
unfoldable pub find_flow : FlowCache → Endpoint → Endpoint → Option FlowState
find_flow fc src dst =
    let (key, is_x) = make_key src dst in
    elim (lookup fc.flows key) [ none ↦ none | some e ↦ some (if is_x then e.x else e.y) ]

-- `FlowData::consume` on data that `receive` returned for this pair of endpoints.
unfoldable pub consume_flow : FlowCache → Endpoint → Endpoint → FlowData → ℕ → FlowCache
consume_flow fc src dst d len =
    let (key, is_x) = make_key src dst in
    let e = entry_at fc.flows key in
    let e' =
      if is_x
      then record e { x = (FlowState.consume e.x d len).0 }
      else record e { y = (FlowState.consume e.y d len).0 } in
    if d.attached then record fc { flows = put fc.flows key e' } else fc

-- What the callback of `FlowCache::finish` is called with, for one entry; `none` if the filling of
-- gaps does not end.
unfoldable pub finish_entry :
    ℕ → ℕ → FlowCacheKey × FlowCacheEntry → Option (List (Endpoint × Endpoint × FlowData))
finish_entry fuel max_missing (key, e) = elim (fill_missing fuel e.x max_missing) [
  | none ↦ none
  | some x' ↦ elim (fill_missing fuel e.y max_missing) [
    | none ↦ none
    | some y' ↦ some (
        (key.x, key.y, latest_data x' e.session_id)
        ∷ (key.y, key.x, latest_data y' e.session_id)
        ∷ [])
  ]
]

unfoldable pub finish : ℕ → FlowMap → ℕ → Option (List (Endpoint × Endpoint × FlowData))
finish fuel [] max_missing = some []
finish fuel (f ∷ rest) max_missing = elim (finish_entry fuel max_missing f) [
  | none ↦ none
  | some calls ↦ elim (finish fuel rest max_missing) [
    | none ↦ none
    | some more ↦ some (calls ++ more)
  ]
]
