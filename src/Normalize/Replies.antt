-- ===== src/Normalize/Replies.antt =====
-- Multipart replies of all versions in src/ofp/normalize.cpp. The loops have as many rounds as
-- the message has bytes.
use libofp.Memory.{◌>>=◌, load, memcpy, memmove}
use libofp.Match.{standard_match}
use libofp.Normalize.Actions.{norm_actions}
use libofp.Base.{
  ℕ, ◌+◌, ◌-◌, ◌%◌, ◌^◌, Bool, not, List, ◌++◌, Option, none, some, length, replicate, get_or, ltb,
  ◌==◌, if◌then◌else◌, bytes16,
}
use libofp.Normalize.{
  Outcome, finished, unfinished, fault, each_element, header_length, mark_input_invalid, insert_at,
  norm_port_stats_v1, norm_port_or_queue_stats_v1, norm_table_stats_v4, norm_port_or_queue_stats_v3,
  norm_group_stats_v3, norm_port_stats_v2, norm_port_stats_v4,
}
use libofp.Normalize.Ports.{norm_port_desc_reply_v1, norm_port_desc_reply_v4}
use libofp.ProtocolRange.{big16}

abbrev pub ofpmp_table_stats : ℕ
ofpmp_table_stats = 3

abbrev pub ofpmp_port_stats : ℕ
ofpmp_port_stats = 4

abbrev pub ofpmp_queue_stats : ℕ
ofpmp_queue_stats = 5

abbrev pub ofpmp_group_stats : ℕ
ofpmp_group_stats = 6

abbrev pub ofpmp_port_desc : ℕ
ofpmp_port_desc = 13

-- The end of a conversion without a loop.
abbrev pub whole : Option (List ℕ) → Outcome
whole none = fault
whole (some buf) = finished buf (length buf)

-- `replyType()`
abbrev pub reply_type : List ℕ → ℕ
reply_type buf = big16 buf 8

-- A reply that is shorter than its header is marked.
abbrev pub checked : List ℕ → Outcome → Outcome
checked buf reply =
    if ltb (header_length buf) 16 then finished (mark_input_invalid buf) (length buf) else reply

-- `while (offset < buf_.size())` from the end of the header
abbrev pub each : (List ℕ → ℕ → Option (List ℕ × ℕ)) → List ℕ → Outcome
each step buf = each_element step (length buf) buf 16

module _ (fresh : ℕ → List ℕ) where
  -- `normalizeMultipartReplyV2`
  unfoldable pub norm_multipart_reply_v2 : List ℕ → Outcome
  norm_multipart_reply_v2 buf = checked buf (
      if reply_type buf == ofpmp_port_stats
      then each (norm_port_stats_v2 fresh) buf
      else if reply_type buf == ofpmp_port_desc
      then whole (norm_port_desc_reply_v4 fresh buf)
      else finished buf (length buf))

  -- `normalizeMultipartReplyV3`
  unfoldable pub norm_multipart_reply_v3 : List ℕ → Outcome
  norm_multipart_reply_v3 buf = checked buf (
      if reply_type buf == ofpmp_port_stats
      then each (norm_port_stats_v2 fresh) buf
      else if reply_type buf == ofpmp_queue_stats
      then each (norm_port_or_queue_stats_v3 32) buf
      else if reply_type buf == ofpmp_group_stats
      then each (norm_group_stats_v3 32) buf
      else if reply_type buf == ofpmp_port_desc
      then whole (norm_port_desc_reply_v4 fresh buf)
      else finished buf (length buf))

  -- `normalizeMultipartReplyV4`
  unfoldable pub norm_multipart_reply_v4 : List ℕ → Outcome
  norm_multipart_reply_v4 buf = checked buf (
      if reply_type buf == ofpmp_port_stats
      then each (norm_port_stats_v4 fresh) buf
      else if reply_type buf == ofpmp_port_desc
      then whole (norm_port_desc_reply_v4 fresh buf)
      else if reply_type buf == ofpmp_table_stats
      then each norm_table_stats_v4 buf
      else finished buf (length buf))

-- `normalizeMultipartReplyV5`
unfoldable pub norm_multipart_reply_v5 : List ℕ → Outcome
norm_multipart_reply_v5 buf = checked buf (
    if reply_type buf == ofpmp_table_stats
    then each norm_table_stats_v4 buf
    else finished buf (length buf))

-- The end of `normalizeMPFlowReplyV1` where there are actions: they are normalized, behind the header
-- of an instruction to apply them.
unfoldable pub flow_actions : (ℕ → List ℕ) → Bool → List ℕ → ℕ → ℕ → ℕ → Option (List ℕ × ℕ)
flow_actions fresh little_endian buf start len nw_proto =
    let act_len = len - 88 in
    let begin = start + 144 in
    let version = get_or buf 0 0 in
    elim (norm_actions fresh (length buf) little_endian version nw_proto buf begin
      (begin + act_len)) [
        | finished normalized end ↦ do
          let delta_len = end - begin
          headed ←
              memcpy (start + 136)
                (bytes16 4 ++ (bytes16 ((delta_len + 8) % 2 ^ 16) ++ replicate 4 0)) normalized
          sized ← memcpy start (bytes16 ((len + 56 + delta_len - act_len) % 2 ^ 16)) headed
          some (sized, start + (len + 56 + delta_len - act_len))
        | unfinished rest end ↦ none
        | fault ↦ none
      ]

-- `normalizeMPFlowReplyV1`. No result stands for an access outside the message, or for a loop over the
-- actions that has more rounds than the message has bytes.
unfoldable pub norm_flow_reply_v1 : (ℕ → List ℕ) → Bool → List ℕ → ℕ → Option (List ℕ × ℕ)
norm_flow_reply_v1 fresh little_endian buf start = do
  head ← load start 2 buf
  let len = big16 head 0
  let act_len = len - 88
  (if ltb (length buf) (start + len)
      then some (mark_input_invalid buf, length buf)
      else if ltb len 88
      then some (mark_input_invalid buf, length buf)
      else (do
        match ← load (start + 4) 40 buf
        moved ← memmove (start + 4) (start + 44) 44 buf
        (if not (act_len % 8 == 0) then some (mark_input_invalid moved, length moved) else (do
          longer ← insert_at (start + 48) (fresh (if ltb 0 act_len then 56 else 48)) moved
          matched ← memcpy (start + 48) (standard_match match) longer
          (if act_len == 0
              then (do
                sized ← memcpy start (bytes16 ((len + 48) % 2 ^ 16)) matched
                some (sized, start + (len + 48)))
              else flow_actions fresh little_endian matched start len
                  (get_or (standard_match match) 43 0))))))

-- `normalizeMultipartReplyV1`
unfoldable pub norm_multipart_reply_v1 : (ℕ → List ℕ) → Bool → List ℕ → Outcome
norm_multipart_reply_v1 fresh little_endian buf =
    if ltb (header_length buf) 12
    then finished (mark_input_invalid buf) (length buf)
    else elim (insert_at 12 (replicate 4 0) buf) [
      | none ↦ fault
      | some padded ↦
          if reply_type padded == 1
          then each (norm_flow_reply_v1 fresh little_endian) padded
          else if reply_type padded == ofpmp_port_stats
          then each (norm_port_stats_v1 fresh) padded
          else if reply_type padded == ofpmp_queue_stats
          then each (norm_port_or_queue_stats_v1 32) padded
          else if reply_type padded == ofpmp_port_desc
          then whole (norm_port_desc_reply_v1 fresh padded)
          else finished padded (length padded)
    ]
