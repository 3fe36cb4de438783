-- ===== src/Normalize/Dispatch.antt =====
-- `Normalize::normalize` of src/ofp/normalize.cpp.
use libofp.Base.{
  ℕ, ◌==◌, ◌||◌, ◌&&◌, Bool, List, ◌∷◌, ◌++◌, Option, none, some, length, take, drop, get_or, ltb,
  leb, if◌then◌else◌,
}
use libofp.Handshake.{set_length}
use libofp.Header.{translate_type, ofpt_unsupported}
use libofp.Normalize.{
  Outcome, finished, unfinished, fault, header_length, mark_input_invalid, mark_input_too_big,
}
use libofp.Normalize.FlowMods.{norm_flow_mod_v1, norm_packet_out_v1}
use libofp.Normalize.Messages.{
  norm_experimenter_v1, norm_port_mod_v1, norm_port_mod_v2, norm_flow_removed_v1,
  norm_multipart_request_v1, norm_async_config_v4,
}
use libofp.Normalize.Ports.{
  norm_features_reply_v1, norm_features_reply_v2, norm_port_status_v1, norm_port_status_v2,
}
use libofp.Normalize.Queues.{norm_queue_reply_v1, norm_queue_reply_v2}
use libofp.Normalize.Replies.{
  whole, norm_multipart_reply_v1, norm_multipart_reply_v2, norm_multipart_reply_v3,
  norm_multipart_reply_v4, norm_multipart_reply_v5,
}

-- `setType`
unfoldable pub set_type : ℕ → List ℕ → List ℕ
set_type type buf = take 1 buf ++ (type ∷ drop 2 buf)

-- The header before the message is normalized, for the version that was in it
unfoldable pub prepared : ℕ → List ℕ → List ℕ
prepared type buf =
    let marked = if type == ofpt_unsupported then mark_input_invalid buf else buf in
    let typed = set_type type marked in
    if length buf == header_length buf
    then typed
    else set_length (mark_input_invalid typed) (length typed)

-- The end of `normalize`
unfoldable pub sized : List ℕ → List ℕ
sized buf =
    if ltb 65535 (length buf)
    then set_length (take 65535 (mark_input_too_big buf)) 65535
    else set_length buf (length buf)

module _ (fresh : ℕ → List ℕ) (validate : List ℕ → Bool) (little_endian : Bool) where
  unfoldable pub normalize_v1 : ℕ → List ℕ → Outcome
  normalize_v1 type buf =
      if type == 6
      then whole (norm_features_reply_v1 fresh buf)
      else if type == 14
      then whole (norm_flow_mod_v1 fresh validate little_endian buf)
      else if type == 12
      then whole (norm_port_status_v1 fresh buf)
      else if type == 4
      then whole (norm_experimenter_v1 buf)
      else if type == 13
      then whole (norm_packet_out_v1 fresh validate little_endian buf)
      else if type == 16
      then whole (norm_port_mod_v1 fresh buf)
      else if type == 11
      then whole (norm_flow_removed_v1 fresh buf)
      else if type == 18
      then whole (norm_multipart_request_v1 fresh buf)
      else if type == 19
      then norm_multipart_reply_v1 fresh little_endian buf
      else if type == 23
      then whole (norm_queue_reply_v1 buf)
      else finished buf (length buf)

  -- From version 2 to version 4, which differ in their replies
  unfoldable pub normalize_later :
      (List ℕ → Outcome) → (List ℕ → Option (List ℕ)) → ℕ → List ℕ → Outcome
  normalize_later reply queue_reply type buf =
      if type == 6
      then whole (norm_features_reply_v2 fresh buf)
      else if type == 12
      then whole (norm_port_status_v2 fresh buf)
      else if type == 16
      then whole (norm_port_mod_v2 buf)
      else if type == 19
      then reply buf
      else if type == 23
      then whole (queue_reply buf)
      else finished buf (length buf)

  -- The normalization by version
  unfoldable pub normalize_version : ℕ → ℕ → List ℕ → Outcome
  normalize_version version type buf =
      let padded : List ℕ → Option (List ℕ) = λ b. some (norm_queue_reply_v2 b) in
      if version == 1
      then normalize_v1 type buf
      else if version == 2
      then normalize_later (norm_multipart_reply_v2 fresh) norm_queue_reply_v1 type buf
      else if version == 3
      then normalize_later (norm_multipart_reply_v3 fresh) padded type buf
      else if version == 4
      then (if type == 28 || type == 27
          then whole (norm_async_config_v4 fresh buf)
          else normalize_later (norm_multipart_reply_v4 fresh) padded type buf)
      else if leb 5 version && (type == 19)
      then norm_multipart_reply_v5 buf
      else finished buf (length buf)

  -- `normalize`; no result stands for the end of the process.
  unfoldable pub normalize : List ℕ → Option Outcome
  normalize buf =
      let version = get_or buf 0 0 in
      let type = translate_type version (get_or buf 1 0) 4 in
      if ltb (length buf) 8
      then none
      else some (elim (normalize_version version type (prepared type buf)) [
        | finished buf' end ↦ finished (sized buf') (length (sized buf'))
        | unfinished buf' end ↦ unfinished buf' end
        | fault ↦ fault
      ])
