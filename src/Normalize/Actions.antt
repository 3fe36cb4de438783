-- ===== src/Normalize/Actions.antt =====
-- Actions of OpenFlow 1.0 and 1.1 in src/ofp/normalize.cpp and include/ofp/normalize.h. An iterator is
-- its offset in the buffer; the end of the range moves with the bytes. `little_endian` stands for
-- IsHostLittleEndian. The types of fields are those of oxm/oxmfields.tab.
use mathlib.Core.List.{reverse}
use libofp.Base.{
  ℕ, zero, suc, ◌+◌, ◌-◌, ◌*◌, ◌%◌, Bool, true, false, ◌&&◌, ◌||◌, not, List, [], ◌∷◌, ◌++◌, Option,
  none, some, length, take, drop, replicate, ltb, leb, if◌then◌else◌, ◌==◌, max, bytes16, bytes32,
  bytes_eq,
}
use libofp.Memory.{◌>>=◌, load, memcpy}
use libofp.Normalize.{insert_at, norm_port_number_v1, Outcome, finished, unfinished, fault}
use libofp.ProtocolRange.{big16}
use libofp.SmallBuffer.{pad_length}

-- An OXMValue: its type in the buffer, and the size of its value; whether this is a Big16, so that
-- NativeType is an integer of the host.
pub record OxmValue : Type 0 where
  pub type : List ℕ
  pub size : ℕ
  pub is_big16 : Bool

-- A field of the basic class.
abbrev pub basic : ℕ → ℕ → Bool → OxmValue
basic field size is_big16 = record {
  type = 0x80 ∷ 0 ∷ 2 * field ∷ size ∷ [];
  size = size;
  is_big16 = is_big16;
}

-- `memcpy` to a NativeType, of which the value of the field is then made
unfoldable pub native_value : Bool → OxmValue → List ℕ → List ℕ
native_value little_endian field bytes =
    if little_endian && field.is_big16 then reverse bytes else bytes

-- The OXMList with one field, after `pad8(4)`.
unfoldable pub padded_list : Bool → OxmValue → List ℕ → List ℕ
padded_list little_endian field bytes =
    field.type
    ++ (native_value little_endian field bytes
        ++ replicate (pad_length (8 + field.size) - (8 + field.size)) 0)

abbrev pub ofpat_set_field : ℕ
ofpat_set_field = 25

-- `ByteList::remove`
unfoldable pub remove_at : ℕ → ℕ → List ℕ → Option (List ℕ)
remove_at at n buf =
    if leb (at + n) (length buf) then some (take at buf ++ drop (at + n) buf) else none

-- The type in the numbers of version 2: OFPAT_STRIP_VLAN_V1 and OFPAT_ENQUEUE_V1 are far off.
unfoldable pub type_v2 : ℕ → ℕ → ℕ
type_v2 version type =
    if not (version == 1)
    then type
    else if type == 3
    then 0x7ff1
    else if type == 11
    then 0x7ff2
    else if leb 4 type && leb type 8
    then type - 1
    else type

-- The field that an action of version 2 sets, by the protocol for the ports: TCP, UDP or ICMP.
unfoldable pub set_field_of : ℕ → ℕ → Option OxmValue
set_field_of type ip_proto =
    if type == 1
    then some (basic 6 2 false)
    else if type == 2
    then some (basic 7 1 false)
    else if type == 3
    then some (basic 4 6 false)
    else if type == 4
    then some (basic 3 6 false)
    else if type == 5
    then some (basic 11 4 false)
    else if type == 6
    then some (basic 12 4 false)
    else if type == 7
    then some (basic 8 1 false)
    else if type == 8
    then some (basic 9 1 false)
    else if type == 9 && ip_proto == 6
    then some (basic 13 2 true)
    else if type == 9 && ip_proto == 17
    then some (basic 15 2 true)
    else if type == 9 && ip_proto == 1
    then some (basic 19 1 false)
    else if type == 10 && ip_proto == 6
    then some (basic 14 2 true)
    else if type == 10 && ip_proto == 17
    then some (basic 16 2 true)
    else if type == 10 && ip_proto == 1
    then some (basic 20 1 false)
    else none

module _ (fresh : ℕ → List ℕ) where
  -- `buf_` grows behind the header of the action, or shrinks at its beginning; with the new end
  unfoldable pub resize_action : ℕ → ℕ → List ℕ → ℕ → ℕ → Option (List ℕ × ℕ)
  resize_action size new_size buf pos end =
      if ltb size new_size
      then (do
        longer ← insert_at (pos + 4) (fresh (new_size - size)) buf
        some (longer, end + (new_size - size)))
      else if ltb new_size size
      then (do
        shorter ← remove_at pos (size - new_size) buf
        some (shorter, end - (size - new_size)))
      else some (buf, end)

  -- `normSetField`: an action whose size is no multiple of 8 or is too small for the value is left. A
  -- size of 0 gives a value of all the memory behind it.
  unfoldable pub norm_set_field : Bool → OxmValue → List ℕ → ℕ → ℕ → Option (List ℕ × ℕ)
  norm_set_field little_endian field buf pos end = do
    header ← load pos 4 buf
    let size = big16 header 2
    (if not (size % 8 == 0)
        then some (buf, end)
        else if not (size == 0) && ltb (size - 4) field.size
        then some (buf, end)
        else (do
          value ← load (pos + 4) field.size buf
          let list = padded_list little_endian field value
          resized ← resize_action size (4 + length list) buf pos end
          typed ← memcpy pos (bytes16 ofpat_set_field ++ bytes16 (4 + length list)) resized.0
          buf' ← memcpy (pos + 4) list typed
          some (buf', resized.1)))

  -- `normOutput`, for an AT_OUTPUT_V1
  unfoldable pub norm_output : List ℕ → ℕ → ℕ → Option (List ℕ × ℕ)
  norm_output buf pos end = do
    header ← load pos 4 buf
    (if not (bytes_eq header (bytes16 0 ++ bytes16 8)) then some (buf, end) else (do
      port ← load (pos + 4) 2 buf
      max_len ← load (pos + 6) 2 buf
      longer ← insert_at (pos + 4) (fresh 8) buf
      buf' ←
          memcpy pos
            (bytes16 0
              ++ (bytes16 16
                  ++ (bytes32 (norm_port_number_v1 (big16 port 0)) ++ (max_len ++ replicate 6 0))))
            longer
      some (buf', end + 8)))

  -- `normActionV1orV2`
  unfoldable pub norm_action : Bool → ℕ → ℕ → ℕ → List ℕ → ℕ → ℕ → Option (List ℕ × ℕ)
  norm_action little_endian version ip_proto type buf pos end =
      if type_v2 version type == 0
      then norm_output buf pos end
      else elim (set_field_of (type_v2 version type) ip_proto) [
        | none ↦ some (buf, end)
        | some field ↦ norm_set_field little_endian field buf pos end
      ]

  -- The body of the loop of `normActionsV1orV2`, and `++iter`
  unfoldable pub norm_item : Bool → ℕ → ℕ → List ℕ → ℕ → ℕ → Option (List ℕ × ℕ × ℕ)
  norm_item little_endian version ip_proto buf pos end = do
    item ← load pos 4 buf
    let type = big16 item 0
    s ←
        (if leb type 11 || type == 13 || type == 14
          then norm_action little_endian version ip_proto type buf pos end
          else some (buf, end))
    next ← load pos 4 s.0
    some (s.0, pos + pad_length (max 4 (big16 next 2)), s.1)

  -- `normActionsV1orV2`, up to a number of rounds, with the end of the range
  unfoldable pub norm_actions : ℕ → Bool → ℕ → ℕ → List ℕ → ℕ → ℕ → Outcome
  norm_actions zero little_endian version ip_proto buf pos end = unfinished buf end
  norm_actions (suc rounds) little_endian version ip_proto buf pos end = elim (ltb pos end) [
    | false ↦ finished buf end
    | true ↦ elim (norm_item little_endian version ip_proto buf pos end) [
      | none ↦ fault
      | some (buf', pos', end') ↦ norm_actions rounds little_endian version ip_proto buf' pos' end'
    ]
  ]
