-- ===== src/ProtocolRange.antt =====
-- src/ofp/protocoliterator.cpp and include/ofp/protocoliterator.h: ranges of bytes that hold elements
-- of variable size, each with its size in a 16-bit field. A byte behind the end of a range reads as 0
-- here; a range that was checked is not read there.
pub mod Items
pub mod Tests
pub mod Split
use libofp.Base.{
  ℕ, zero, suc, ◌+◌, ◌-◌, ◌*◌, ◌/◌, ◌%◌, Bool, true, false, ◌&&◌, not, List, [], ◌∷◌, length,
  is_empty, take, drop, get_or, ltb, leb, if◌then◌else◌, ◌==◌, Option, none, some, max,
}
use libofp.SmallBuffer.{pad_length}

-- PROTOCOL_ITERATOR_SIZE_FIXED and PROTOCOL_ITERATOR_SIZE_CONDITIONAL
abbrev pub size_fixed : ℕ
size_fixed = 65535

abbrev pub size_conditional : ℕ
size_conditional = 65534

-- `*Big16_cast(ptr + at)`
unfoldable pub big16 : List ℕ → ℕ → ℕ
big16 bytes at = get_or bytes at 0 * 256 + get_or bytes (at + 1) 0

-- The errors that are handed to Validation.
pub data RangeError : Type 0 where
  size_has_improper_alignment : RangeError
  data_has_improper_alignment : RangeError
  element_size_overruns_end : RangeError
  element_size_is_too_small : RangeError
  element_size_has_improper_alignment : RangeError
  size_is_not_multiple_of_element_size : RangeError

-- One round of the loop of IsProtocolRangeValid: how far it jumps.
pub data Round : Type 0 where
  jump : ℕ → Round
  invalid : RangeError → Round

-- `elemSize` where the field can be read
unfoldable pub field_size : ℕ → List ℕ → ℕ
field_size field bytes =
    if field == size_conditional
    then (if big16 bytes 0 == 65535 then 8 else 4)
    else big16 bytes field

unfoldable pub check_element : ℕ → ℕ → ℕ → List ℕ → Round
check_element element_size field alignment bytes =
    let size = field_size field bytes in
    if not (field == size_conditional) && ltb (length bytes) (field + 2)
    then invalid element_size_overruns_end
    else if ltb size 4
    then invalid element_size_is_too_small
    else if ltb size element_size && alignment == 8
    then invalid element_size_is_too_small
    else if not (alignment == 8) && not (size % alignment == 0)
    then invalid element_size_has_improper_alignment
    else let jump_size = if alignment == 8 then pad_length size else size in
      if ltb (length bytes) jump_size then invalid element_size_overruns_end else jump jump_size

-- The while loop; none stands for the end without an error.
unfoldable pub check_from : ℕ → ℕ → ℕ → ℕ → List ℕ → Option RangeError
check_from zero element_size field alignment bytes = none
check_from (suc k) element_size field alignment bytes =
    let after : ℕ → Option RangeError =
      λ n. check_from k element_size field alignment (drop n bytes) in
    if is_empty bytes then none else elim (check_element element_size field alignment bytes) [
      | jump n ↦ after n
      | invalid e ↦ some e
    ]

unfoldable pub check_fixed : ℕ → List ℕ → Option RangeError
check_fixed element_size bytes =
    if length bytes % element_size == 0 then none else some size_is_not_multiple_of_element_size

-- `IsProtocolRangeValid`, for a range at an address; none stands for true.
unfoldable pub check_range : ℕ → ℕ → ℕ → ℕ → List ℕ → Option RangeError
check_range element_size field alignment address bytes =
    if field == size_fixed
    then check_fixed element_size bytes
    else if not (length bytes % alignment == 0)
    then some size_has_improper_alignment
    else if not (address % alignment == 0)
    then some data_has_improper_alignment
    else check_from (length bytes) element_size field alignment bytes

-- `ProtocolElement::size` of the first element
unfoldable pub item_size : ℕ → List ℕ → ℕ
item_size field bytes =
    if field == size_conditional
    then (if big16 bytes 0 == 65535 then 8 else 4)
    else max (field + 2) (big16 bytes field)

-- What `ProtocolIterator::operator++` adds.
unfoldable pub item_jump : ℕ → ℕ → List ℕ → ℕ
item_jump field alignment bytes =
    if alignment == 8 then pad_length (item_size field bytes) else item_size field bytes

-- The loop of ProtocolRangeItemCount
unfoldable pub count_from : ℕ → ℕ → ℕ → List ℕ → ℕ
count_from zero field alignment bytes = 0
count_from (suc k) field alignment bytes =
    let n = item_jump field alignment bytes in
    let rest = suc (count_from k field alignment (drop n bytes)) in
    if is_empty bytes then 0 else if ltb (length bytes) n then 0 else rest

unfoldable pub item_count : ℕ → ℕ → ℕ → List ℕ → ℕ
item_count element_size field alignment bytes =
    if field == size_fixed
    then length bytes / element_size
    else count_from (length bytes) field alignment bytes

-- The elements that an iterator stops at, from `begin` until it equals `end`.
unfoldable pub items : ℕ → ℕ → ℕ → List ℕ → List (List ℕ)
items zero field alignment bytes = []
items (suc k) field alignment bytes =
    let n = item_jump field alignment bytes in
    let rest = take n bytes ∷ items k field alignment (drop n bytes) in
    if is_empty bytes then [] else rest

-- The loop of ProtocolRangeSplitOffset
unfoldable pub split_from : ℕ → ℕ → ℕ → List ℕ → ℕ → ℕ
split_from zero chunk_size field bytes result = result
split_from (suc k) chunk_size field bytes result =
    let n = pad_length (max (field + 2) (big16 bytes field)) in
    let rest = split_from k chunk_size field (drop n bytes) (result + n) in
    if is_empty bytes
    then result
    else if ltb (length bytes) n
    then result
    else if ltb chunk_size (result + n)
    then result
    else rest

-- `ProtocolRangeSplitOffset`; none stands for the end of the process.
unfoldable pub split_offset : ℕ → ℕ → List ℕ → Option ℕ
split_offset chunk_size field bytes =
    if leb (length bytes) chunk_size
    then some (length bytes)
    else let result = split_from (length bytes) chunk_size field bytes 0 in
      if result == 0 then none else some result
