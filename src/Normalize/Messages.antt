-- ===== src/Normalize/Messages.antt =====
-- Messages of a fixed layout in src/ofp/normalize.cpp.
use libofp.Base.{
  ℕ, ◌+◌, ◌-◌, List, ◌++◌, Option, some, length, replicate, ltb, ◌==◌, not, ◌||◌, if◌then◌else◌,
  bytes16, bytes32, big32,
}
use libofp.Memory.{◌>>=◌, load, memcpy, memset}
use libofp.Normalize.{
  insert_at, header_length, mark_input_invalid, mark_input_too_big, norm_port_number_v1,
}
use libofp.Match.{standard_match}
use libofp.Port.{features_from_v1}
use libofp.ProtocolRange.{big16}

-- `normalizeExperimenterV1`
unfoldable pub norm_experimenter_v1 : List ℕ → Option (List ℕ)
norm_experimenter_v1 buf =
    if ltb (header_length buf) 12
    then some (mark_input_invalid buf)
    else if ltb (65535 - 4) (header_length buf)
    then some (mark_input_too_big buf)
    else insert_at 12 (replicate 4 0) buf

-- `normalizePortModV2`
unfoldable pub norm_port_mod_v2 : List ℕ → Option (List ℕ)
norm_port_mod_v2 buf = if ltb (header_length buf) 40 then some (mark_input_invalid buf) else (do
  advertise ← load 32 4 buf
  typed ← memcpy 32 (bytes32 8) buf
  memcpy 36 (bytes32 (big32 advertise)) typed)

-- `normalizeMPPortStatsRequestV1`
unfoldable pub norm_port_stats_request_v1 : List ℕ → Option (List ℕ)
norm_port_stats_request_v1 buf =
    if not (length buf == 16 + 8)
    then some (mark_input_invalid buf)
    else (do port ← load 16 2 buf; memcpy 16 (bytes32 (norm_port_number_v1 (big16 port 0))) buf)

-- A property of a mask of asynchronous messages.
abbrev pub async_prop : ℕ → List ℕ → List ℕ
async_prop type mask = bytes16 type ++ (bytes16 8 ++ mask)

module _ (fresh : ℕ → List ℕ) where
  -- `normalizePortModV1`
  unfoldable pub norm_port_mod_v1 : List ℕ → Option (List ℕ)
  norm_port_mod_v1 buf = if ltb (header_length buf) 32 then some (mark_input_invalid buf) else (do
    port ← load 8 2 buf
    longer ← insert_at 16 (fresh 8) buf
    hw_addr ← load 10 6 longer
    moved ← memcpy 16 hw_addr longer
    numbered ← memcpy 8 (bytes32 (norm_port_number_v1 (big16 port 0))) moved
    padded ← memset 12 0 4 numbered
    clean ← memset 22 0 2 padded
    advertise ← load 32 4 clean
    typed ← memcpy 32 (bytes32 8) clean
    memcpy 36 (bytes32 (features_from_v1 (big32 advertise))) typed)

  -- `normalizeFlowRemovedV1`
  unfoldable pub norm_flow_removed_v1 : List ℕ → Option (List ℕ)
  norm_flow_removed_v1 buf =
      if not (header_length buf == 88) then some (mark_input_invalid buf) else (do
        match ← load 8 40 buf
        fields ← load 48 40 buf
        moved ← memcpy 8 fields buf
        longer ← insert_at 88 (fresh 48) moved
        memcpy 48 (standard_match match) longer)

  -- `normalizeMPFlowRequestV1`
  unfoldable pub norm_flow_request_v1 : List ℕ → Option (List ℕ)
  norm_flow_request_v1 buf =
      if not (length buf == 16 + 44) then some (mark_input_invalid buf) else (do
        longer ← insert_at 60 (fresh 76) buf
        match ← load 16 40 longer
        out_port ← load 58 2 longer
        table ← load 56 2 longer
        moved ← memcpy 16 table longer
        padded ← memset 18 0 2 moved
        numbered ← memcpy 20 (bytes32 (norm_port_number_v1 (big16 out_port 0))) padded
        clean ← memset 24 0 24 numbered
        memcpy 48 (standard_match match) clean)

  -- `normalizeMultipartRequestV1`, for OFPMP_FLOW_DESC and OFPMP_AGGREGATE_STATS, and for
  -- OFPMP_PORT_STATS and OFPMP_QUEUE_STATS
  unfoldable pub norm_multipart_request_v1 : List ℕ → Option (List ℕ)
  norm_multipart_request_v1 buf =
      if ltb (header_length buf) 12 then some (mark_input_invalid buf) else (do
        padded ← insert_at 12 (replicate 4 0) buf
        let type = big16 padded 8
        (if type == 1 || type == 2
            then norm_flow_request_v1 padded
            else if type == 4 || type == 5
            then norm_port_stats_request_v1 padded
            else some padded))

  -- `normalizeAsyncConfigV4`: the masks are swapped in pairs, and each becomes a property.
  unfoldable pub norm_async_config_v4 : List ℕ → Option (List ℕ)
  norm_async_config_v4 buf =
      if not (header_length buf == 32) then some (mark_input_invalid buf) else (do
        longer ← insert_at (length buf) (fresh 24) buf
        m0 ← load 8 4 longer
        m1 ← load 12 4 longer
        m2 ← load 16 4 longer
        m3 ← load 20 4 longer
        m4 ← load 24 4 longer
        m5 ← load 28 4 longer
        p0 ← memcpy 8 (async_prop 0 m1) longer
        p1 ← memcpy 16 (async_prop 1 m0) p0
        p2 ← memcpy 24 (async_prop 2 m3) p1
        p3 ← memcpy 32 (async_prop 3 m2) p2
        p4 ← memcpy 40 (async_prop 4 m5) p3
        memcpy 48 (async_prop 5 m4) p4)
