-- ===== src/Normalize/FlowMods.antt =====
-- Messages with a list of actions in src/ofp/normalize.cpp. `validate` stands for
-- ActionRange::validateInput on the bytes of the actions; `little_endian` for IsHostLittleEndian.
use libofp.Base.{
  ℕ, ◌+◌, ◌-◌, ◌%◌, ◌^◌, ◌==◌, not, Bool, List, ◌++◌, Option, none, some, length, replicate, get_or,
  ltb, if◌then◌else◌, bytes16, bytes32,
}
use libofp.Memory.{◌>>=◌, load, memcpy, memset}
use libofp.Match.{standard_match}
use libofp.Normalize.{
  finished, unfinished, fault, insert_at, header_length, mark_input_invalid, mark_input_too_big,
  norm_port_number_v1,
}
use libofp.Normalize.Actions.{norm_actions}
use libofp.ProtocolRange.{big16}

module _ (fresh : ℕ → List ℕ) (validate : List ℕ → Bool) (little_endian : Bool) where
  -- The actions are validated, and normalized; `store` puts their new length into the message. No
  -- result stands for an access outside the message, or for more rounds than it has bytes.
  unfoldable pub checked_actions :
      ℕ → ℕ → ℕ → (ℕ → List ℕ → Option (List ℕ)) → List ℕ → Option (List ℕ)
  checked_actions begin act_len ip_proto store buf = do
    actions ← load begin act_len buf
    let end = begin + act_len
    (if not (validate actions)
        then some (mark_input_invalid buf)
        else elim (norm_actions fresh (length buf) little_endian (get_or buf 0 0) ip_proto buf begin
            end) [
              | finished normalized end' ↦ store (end' - begin) normalized
              | unfinished rest end' ↦ none
              | fault ↦ none
            ])

  -- The header of the ApplyActions instruction
  unfoldable pub store_instruction : ℕ → List ℕ → Option (List ℕ)
  store_instruction len buf =
      memcpy 136 (bytes16 4 ++ (bytes16 ((len + 8) % 2 ^ 16) ++ replicate 4 0)) buf

  -- The fields of a FlowMod in front of the match, in the order of the latest version
  unfoldable pub move_fields : List ℕ → Option (List ℕ)
  move_fields buf = do
    out_port ← load 68 2 buf
    cookie ← load 48 8 buf
    with_cookie ← memcpy 8 cookie buf
    masked ← memcpy 16 (replicate 8 255) with_cookie
    fields ← load 56 12 masked
    moved ← memcpy 24 fields masked
    numbered ← memcpy 36 (bytes32 (norm_port_number_v1 (big16 out_port 0))) moved
    grouped ← memset 40 0 4 numbered
    flags ← load 70 2 grouped
    flagged ← memcpy 44 flags grouped
    memset 46 0 2 flagged

  -- `normalizeFlowModV1`
  unfoldable pub norm_flow_mod_v1 : List ℕ → Option (List ℕ)
  norm_flow_mod_v1 buf =
      let act_len = length buf - 72 in
      if ltb (header_length buf) 72
      then some (mark_input_invalid buf)
      else if ltb (65535 - 72) (length buf)
      then some (mark_input_too_big buf)
      else (do
        match ← load 8 40 buf
        moved ← move_fields buf
        (if not (act_len % 8 == 0) then some (mark_input_invalid moved) else (do
          longer ← insert_at 48 (fresh (if ltb 0 act_len then 72 else 64)) moved
          matched ← memcpy 48 (standard_match match) longer
          (if ltb 0 act_len
              then checked_actions 144 act_len (get_or (standard_match match) 43 0)
                  store_instruction matched
              else some matched))))

  -- `normalizePacketOutV1`
  unfoldable pub norm_packet_out_v1 : List ℕ → Option (List ℕ)
  norm_packet_out_v1 buf =
      if ltb (header_length buf) 16
      then some (mark_input_invalid buf)
      else if ltb (65535 - 8) (length buf)
      then some (mark_input_too_big buf)
      else (do
        in_port ← load 12 2 buf
        len ← load 14 2 buf
        let action_len = big16 len 0
        let store = λ (n : ℕ) (l : List ℕ). memcpy 16 (bytes16 (n % 2 ^ 16)) l
        (if not (action_len % 8 == 0)
            then some (mark_input_invalid buf)
            else if ltb (length buf) (16 + action_len)
            then some (mark_input_invalid buf)
            else (do
              longer ← insert_at 12 (fresh 8) buf
              numbered ← memcpy 12 (bytes32 (norm_port_number_v1 (big16 in_port 0))) longer
              padded ← memset 18 0 6 numbered
              (if ltb 0 action_len
                  then checked_actions 24 action_len 0 store padded
                  else store 0 padded))))
