-- ===== src/Normalize/Queues.antt =====
-- Replies with queues in src/ofp/normalize.cpp and src/ofp/queue.cpp. From version 3 on the properties
-- of queues are padded to multiples of 8 bytes. Lists of bytes stand for `ptr` and `remaining`, `prop` and `propLeft`.
use libofp.Base.{
  ℕ, zero, suc, ◌+◌, ◌-◌, ◌%◌, ◌^◌, ◌==◌, ◌||◌, List, [], ◌∷◌, ◌++◌, Option, none, some, length,
  take, drop, replicate, ltb, leb, if◌then◌else◌, bytes16, bytes32, get_or,
}
use libofp.Memory.{◌>>=◌, load, memcpy}
use libofp.Normalize.{header_length, mark_input_invalid, mark_input_too_big, norm_port_number_v1}
use libofp.ProtocolRange.{big16, check_range, items}
use libofp.SmallBuffer.{pad_length}

-- The loop over properties. No result stands for the early returns: a property that does not fit, or
-- at most 4 bytes that are left.
unfoldable pub pad_properties : ℕ → List ℕ → Option (List ℕ)
pad_properties zero props = none
pad_properties (suc rounds) props =
    let size = big16 props 2 in
    let rest = pad_properties rounds (drop size props) in
    if leb (length props) 4
    then (if length props == 0 then some [] else none)
    else if ltb (length props) size || ltb size 4
    then none
    else (do
      padded ← rest
      some (take size props ++ (replicate (pad_length size - size) 0 ++ padded)))

-- The loop over queues
unfoldable pub pad_queues : ℕ → List ℕ → Option (List ℕ)
pad_queues zero bytes = none
pad_queues (suc rounds) bytes =
    let queue_len = big16 bytes 8 in
    let rest = pad_queues rounds (drop queue_len bytes) in
    if leb (length bytes) 16
    then (if length bytes == 0 then some [] else none)
    else if ltb (length bytes) queue_len || ltb queue_len 16
    then none
    else (do
      props ← pad_properties (length bytes) (drop 16 (take queue_len bytes))
      padded ← rest
      some (take 16 bytes ++ (props ++ padded)))

-- `normalizeQueueGetConfigReplyV2`
unfoldable pub norm_queue_reply_v2 : List ℕ → List ℕ
norm_queue_reply_v2 buf =
    if ltb (header_length buf) 16
    then buf
    else elim (pad_queues (suc (length (drop 16 buf))) (drop 16 buf)) [
      | none ↦ buf
      | some new_buf ↦
          if ltb (65535 - 16) (length new_buf)
          then mark_input_too_big buf
          else take 16 buf ++ new_buf
    ]

-- The QueueBuilder of a QueueV1, as it is added to a QueueList
unfoldable pub queue_of_v1 : List ℕ → List ℕ
queue_of_v1 queue =
    let props = drop 8 (take (big16 queue 4) queue) in
    take 4 queue
    ++ (bytes32 0 ++ (bytes16 ((16 + length props) % 2 ^ 16) ++ (replicate 6 0 ++ props)))

unfoldable pub convert_queues : List (List ℕ) → List ℕ
convert_queues [] = []
convert_queues (queue ∷ queues) = queue_of_v1 queue ++ convert_queues queues

-- The port of version 1 gets 32 bits.
unfoldable pub queue_reply_port : List ℕ → Option (List ℕ)
queue_reply_port buf =
    if get_or buf 0 0 == 1
    then (do port ← load 8 2 buf; memcpy 8 (bytes32 (norm_port_number_v1 (big16 port 0))) buf)
    else some buf

-- `normalizeQueueGetConfigReplyV1`
unfoldable pub norm_queue_reply_v1 : List ℕ → Option (List ℕ)
norm_queue_reply_v1 buf = if ltb (header_length buf) 16 then some (mark_input_invalid buf) else (do
  ported ← queue_reply_port buf
  let bytes = drop 16 ported
  let new_queues = convert_queues (items (length bytes) 4 8 bytes)
  elim (check_range 8 4 8 0 bytes) [
    | some e ↦ some (mark_input_invalid ported)
    | none ↦
        if ltb (65535 - 16) (length new_queues)
        then some (mark_input_too_big ported)
        else some (take 16 ported ++ new_queues)
  ])
