-- ===== src/Normalize.antt =====
-- Normalize of src/ofp/normalize.cpp: messages of earlier versions are rewritten in place to the
-- layout of the latest one. The buffer is the list of its bytes, as SmallBuffer.Operations shows;
-- what insertUninitialized leaves in the new bytes is not known: `fresh` gives them. An access
-- outside the buffer has no result.
pub mod Elements
pub mod Edits
pub mod Endless
pub mod EndlessActions
pub mod PortLists
pub mod PortStats
pub mod Ports
pub mod Messages
pub mod Actions
pub mod SetField
pub mod Queues
pub mod FlowMods
pub mod Dispatch
pub mod QueuePadding
pub mod Layouts
pub mod Replies
pub mod Parts
pub mod Conversion
pub mod Tests
pub mod ActionTests
pub mod DispatchTests
pub mod Statistics
use Prim.Native.Nat.{bit_or}
use libofp.Base.{
  ℕ, zero, suc, ◌+◌, ◌-◌, ◌/◌, ◌%◌, ◌^◌, Bool, true, false, List, [], ◌∷◌, ◌++◌, Option, none, some,
  length, take, drop, replicate, ltb, leb, if◌then◌else◌, ◌==◌, bytes16, bytes32,
}
use libofp.Memory.{◌>>=◌, load, memcpy, memmove}
use libofp.ProtocolRange.{big16}

unfoldable pub insert_at : ℕ → List ℕ → List ℕ → Option (List ℕ)
insert_at at bytes buf =
    if leb at (length buf) then some (take at buf ++ (bytes ++ drop at buf)) else none

-- `markInputTooBig` and `markInputInvalid`: a flag in the version of the header
unfoldable pub mark_version : ℕ → List ℕ → List ℕ
mark_version flag [] = []
mark_version flag (version ∷ buf) = bit_or flag version ∷ buf

abbrev pub mark_input_too_big : List ℕ → List ℕ
mark_input_too_big buf = mark_version 0xe0 buf

abbrev pub mark_input_invalid : List ℕ → List ℕ
mark_input_invalid buf = mark_version 0xf0 buf

-- `header()->length()`
abbrev pub header_length : List ℕ → ℕ
header_length buf = big16 buf 2

-- `normPortNumberV1`, and PortNumber::fromV1: the low half of the constant is empty
unfoldable pub norm_port_number_v1 : ℕ → ℕ
norm_port_number_v1 port = if ltb 0xff00 port then 0xffff0000 + port else port

-- A loop over the elements of a message: what is left in the buffer and where it ended, the point
-- where the rounds ran out, or an access outside the buffer.
pub data Outcome : Type 0 where
  finished : List ℕ → ℕ → Outcome
  unfinished : List ℕ → ℕ → Outcome
  fault : Outcome

-- `while (offset < buf_.size()) step(&offset)`
unfoldable pub each_element : (List ℕ → ℕ → Option (List ℕ × ℕ)) → ℕ → List ℕ → ℕ → Outcome
each_element step zero buf offset = unfinished buf offset
each_element step (suc rounds) buf offset = elim (ltb offset (length buf)) [
  | false ↦ finished buf offset
  | true ↦ elim (step buf offset) [
    | none ↦ fault
    | some (buf', offset') ↦ each_element step rounds buf' offset'
  ]
]

-- `normalizeMPTableStatsReplyV4`
unfoldable pub norm_table_stats_v4 : List ℕ → ℕ → Option (List ℕ × ℕ)
norm_table_stats_v4 buf start =
    if ltb (length buf - start) 24
    then some (mark_input_invalid buf, length buf)
    else (do buf' ← insert_at (start + 4) (replicate 40 0) buf; some (buf', start + 64))

-- `normalizeMPPortOrQueueStatsReplyV1`
unfoldable pub norm_port_or_queue_stats_v1 : ℕ → List ℕ → ℕ → Option (List ℕ × ℕ)
norm_port_or_queue_stats_v1 len buf start =
    if ltb (length buf - start) len then some (buf, length buf) else (do
      port ← load start 2 buf
      ported ← memcpy start (bytes32 (norm_port_number_v1 (big16 port 0))) buf
      buf' ← insert_at (start + len) (replicate 8 0) ported
      some (buf', start + (len + 8)))

-- `normalizeMPPortOrQueueStatsReplyV3`
unfoldable pub norm_port_or_queue_stats_v3 : ℕ → List ℕ → ℕ → Option (List ℕ × ℕ)
norm_port_or_queue_stats_v3 len buf start =
    if ltb (length buf - start) len
    then some (buf, length buf)
    else (do buf' ← insert_at (start + len) (replicate 8 0) buf; some (buf', start + (len + 8)))

-- `normalizeMPGroupStatsReplyV3`
unfoldable pub norm_group_stats_v3 : ℕ → List ℕ → ℕ → Option (List ℕ × ℕ)
norm_group_stats_v3 len buf start =
    if ltb (length buf - start) len then some (buf, length buf) else (do
      stat ← load start 2 buf
      let stat_len = big16 stat 0
      (if ltb (length buf - start) stat_len then some (buf, length buf) else (do
        sized ← memcpy start (bytes16 ((stat_len + 8) % 2 ^ 16)) buf
        buf' ← insert_at (start + len) (replicate 8 0) sized
        some (buf', start + (stat_len + 8)))))

-- The Ethernet property of port statistics, with four counters.
unfoldable pub ethernet_stats : List ℕ → List ℕ
ethernet_stats counters = 0 ∷ 0 ∷ 0 ∷ 40 ∷ 0 ∷ 0 ∷ 0 ∷ 0 ∷ counters

module _ (fresh : ℕ → List ℕ) where
  -- `normalizeMPPortStatsReplyV4`
  unfoldable pub norm_port_stats_v4 : List ℕ → ℕ → Option (List ℕ × ℕ)
  norm_port_stats_v4 buf start =
      if ltb (length buf - start) 112 then some (buf, length buf) else (do
        longer ← insert_at (start + 112) (fresh 8) buf
        port_no ← load start 4 longer
        pad ← load (start + 4) 4 longer
        padded ← memcpy start pad longer
        swapped ← memcpy (start + 4) port_no padded
        counters ← load (start + 72) 32 swapped
        shifted ← memmove (start + 16) (start + 8) 64 swapped
        duration ← load (start + 104) 8 shifted
        timed ← memcpy (start + 8) duration shifted
        complete ← memcpy (start + 80) (ethernet_stats counters) timed
        sized ← memcpy start (bytes16 120) complete
        some (sized, start + 120))

  -- `normalizeMPPortStatsReplyV1`
  unfoldable pub norm_port_stats_v1 : List ℕ → ℕ → Option (List ℕ × ℕ)
  norm_port_stats_v1 buf start =
      if ltb (length buf - start) 104 then some (buf, length buf) else (do
        port ← load start 2 buf
        ported ← memcpy start (bytes32 (norm_port_number_v1 (big16 port 0))) buf
        longer ← insert_at (start + 104) (replicate 8 0) ported
        norm_port_stats_v4 longer start)

  -- `normalizeMPPortStatsReplyV2`
  unfoldable pub norm_port_stats_v2 : List ℕ → ℕ → Option (List ℕ × ℕ)
  norm_port_stats_v2 buf start =
      if ltb (length buf - start) 104 then some (buf, length buf) else (do
        longer ← insert_at (start + 104) (replicate 8 0) buf
        norm_port_stats_v4 longer start)
