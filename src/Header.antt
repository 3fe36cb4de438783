-- ===== src/Header.antt =====
-- Header of src/ofp/header.cpp: the message header, and the translation of message types between
-- protocol versions. OFPType is the UInt8 of the source.
pub mod Types
use libofp.Base.{ℕ, ◌+◌, ◌-◌, Bool, true, false, ◌&&◌, ◌||◌, not, if◌then◌else◌, ltb, leb, ◌==◌}
use libofp.Versions.{version_1, version_3, version_4, version_max_allowed}

pub record Header : Type 0 where
  pub version : ℕ
  pub type : ℕ
  pub length : ℕ
  pub xid : ℕ

abbrev pub ofpt_hello : ℕ
ofpt_hello = 0

abbrev pub ofpt_error : ℕ
ofpt_error = 1

abbrev pub ofpt_flow_mod : ℕ
ofpt_flow_mod = 14

abbrev pub ofpt_group_mod : ℕ
ofpt_group_mod = 15

abbrev pub ofpt_port_mod : ℕ
ofpt_port_mod = 16

abbrev pub ofpt_table_mod : ℕ
ofpt_table_mod = 17

abbrev pub ofpt_last : ℕ
ofpt_last = 34

abbrev pub ofpt_max_allowed : ℕ
ofpt_max_allowed = 64

abbrev pub ofpt_unsupported : ℕ
ofpt_unsupported = 0xf9

-- `v1::OFPT_PORT_MOD`
abbrev pub v1_port_mod : ℕ
v1_port_mod = 15

-- `MaxTypeByVersion[version]`, for the versions 0 to 4 of the array.
unfoldable pub max_type_by_version : ℕ → ℕ
max_type_by_version version =
    if version == 0
    then 0
    else if version == 1
    then 21
    else if version == 2
    then 23
    else if version == 3
    then 25
    else ofpt_last

-- `translateTypeToVersion`
unfoldable pub translate_type_to_version : ℕ → ℕ → ℕ
translate_type_to_version type version =
    let earlier = if type == ofpt_port_mod then type - 1 else type - 2 in
    let type' = if version == version_1 then earlier else type in
    if version == version_1 && (type == ofpt_group_mod || type == ofpt_table_mod)
    then ofpt_unsupported
    else if ltb (max_type_by_version version) type'
    then ofpt_unsupported
    else type'

-- `translateTypeFromVersion`
unfoldable pub translate_type_from_version : ℕ → ℕ → ℕ
translate_type_from_version type version =
    if ltb (max_type_by_version version) type
    then ofpt_unsupported
    else if version == version_1
    then if type == v1_port_mod
      then ofpt_port_mod
      else if ltb v1_port_mod type
      then type + 2
      else type
    else type

-- `Header::translateType(version, type, newVersion)`
unfoldable pub translate_type : ℕ → ℕ → ℕ → ℕ
translate_type version type new_version =
    if version == 0
    then ofpt_unsupported
    else if version == new_version
    then type
    else if ltb version_4 version || ltb version_4 new_version
    then type
    else if leb type ofpt_flow_mod
    then type
    else if version == version_4
    then translate_type_to_version type new_version
    else if new_version == version_4
    then translate_type_from_version type version
    else ofpt_unsupported

-- `Header::validateInput`
unfoldable pub validate_input : Header → ℕ → Bool
validate_input h negotiated_version =
    if ltb h.length 8
    then false
    else if h.version == 0 || ltb version_max_allowed h.version
    then false
    else if not (negotiated_version == 0) && not (h.version == negotiated_version)
    then false
    else if ltb ofpt_max_allowed h.type
    then false
    else true

-- `Header::validateVersionAndType`
unfoldable pub validate_version_and_type : Header → Bool
validate_version_and_type h =
    if h.version == 0
    then h.type == ofpt_hello || h.type == ofpt_error
    else not (translate_type version_4 h.type h.version == ofpt_unsupported)
