-- ===== src/Normalize/Ports.antt =====
-- Messages with ports in src/ofp/normalize.cpp: lists of ports of earlier versions are replaced by
-- those of the latest one.
use libofp.Base.{
  ℕ, zero, suc, ◌+◌, ◌-◌, ◌/◌, ◌%◌, not, List, [], ◌++◌, Option, some, length, take, drop, ltb,
  ◌==◌, if◌then◌else◌,
}
use libofp.Memory.{◌>>=◌, load, memcpy}
use libofp.Normalize.{insert_at, header_length, mark_input_invalid, mark_input_too_big}
use libofp.Port.Layout.{port_of_v1, port_of_v2}

-- The bytes of a PortList that is made from `count` ports, of `size` bytes each.
unfoldable pub convert_ports : ℕ → (List ℕ → List ℕ) → ℕ → List ℕ → List ℕ
convert_ports size convert zero bytes = []
convert_ports size convert (suc count) bytes =
    convert (take size bytes) ++ convert_ports size convert count (drop size bytes)

module _ (fresh : ℕ → List ℕ) where
  -- The ports from byte `at` on, which go to the end of the buffer, are replaced.
  unfoldable pub replace_ports : ℕ → ℕ → List ℕ → List ℕ → Option (List ℕ)
  replace_ports at list_size ports buf = do
    longer ← insert_at (length buf) (fresh (length ports - list_size)) buf
    memcpy at ports longer

  -- `normalizeFeaturesReplyV1` and `normalizeFeaturesReplyV2`, which differ in the structure of a port
  unfoldable pub norm_features_reply : ℕ → (List ℕ → List ℕ) → List ℕ → Option (List ℕ)
  norm_features_reply size convert buf =
      let list_size = header_length buf - 32 in
      if ltb (header_length buf) 32
      then some (mark_input_invalid buf)
      else if not (list_size % size == 0)
      then some (mark_input_invalid buf)
      else (do
        bytes ← load 32 list_size buf
        let ports = convert_ports size convert (list_size / size) bytes
        (if ltb (65535 - 32) (length ports)
            then some (mark_input_too_big buf)
            else replace_ports 32 list_size ports buf))

  unfoldable pub norm_features_reply_v1 : List ℕ → Option (List ℕ)
  norm_features_reply_v1 buf = norm_features_reply 48 port_of_v1 buf

  unfoldable pub norm_features_reply_v2 : List ℕ → Option (List ℕ)
  norm_features_reply_v2 buf = norm_features_reply 64 port_of_v2 buf

  -- `normalizeMPPortDescReplyV1` and `normalizeMPPortDescReplyV4`
  unfoldable pub norm_port_desc_reply : ℕ → (List ℕ → List ℕ) → List ℕ → Option (List ℕ)
  norm_port_desc_reply size convert buf =
      let list_size = length buf - 16 in
      if not (list_size % size == 0) then some (mark_input_invalid buf) else (do
        bytes ← load 16 list_size buf
        replace_ports 16 list_size (convert_ports size convert (list_size / size) bytes) buf)

  unfoldable pub norm_port_desc_reply_v1 : List ℕ → Option (List ℕ)
  norm_port_desc_reply_v1 buf = norm_port_desc_reply 48 port_of_v1 buf

  unfoldable pub norm_port_desc_reply_v4 : List ℕ → Option (List ℕ)
  norm_port_desc_reply_v4 buf = norm_port_desc_reply 64 port_of_v2 buf

  -- `normalizePortStatusV1` and `normalizePortStatusV2`
  unfoldable pub norm_port_status : ℕ → (List ℕ → List ℕ) → List ℕ → Option (List ℕ)
  norm_port_status size convert buf =
      if not (header_length buf == 16 + size) then some (mark_input_invalid buf) else (do
        port ← load 16 size buf
        longer ← insert_at (length buf) (fresh (72 - size)) buf
        memcpy 16 (convert port) longer)

  unfoldable pub norm_port_status_v1 : List ℕ → Option (List ℕ)
  norm_port_status_v1 buf = norm_port_status 48 port_of_v1 buf

  unfoldable pub norm_port_status_v2 : List ℕ → Option (List ℕ)
  norm_port_status_v2 buf = norm_port_status 64 port_of_v2 buf
