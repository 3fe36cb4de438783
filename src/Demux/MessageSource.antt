-- ===== src/Demux/MessageSource.antt =====
-- MessageSource::submitPayload of src/ofp/demux/messagesource.cpp: OpenFlow messages are cut out of
-- the bytes of a stream by the length in their headers. What is handed to the callback is the list of
-- messages, in order.
pub mod Framing
pub mod Chunks
use libofp.Base.{
  ℕ, zero, suc, ◌+◌, ◌-◌, ◌*◌, ◌≤◌, Bool, true, false, ◌&&◌, List, [], ◌∷◌, length, take, drop,
  get_or, ltb, leb, if◌then◌else◌,
}

-- `sizeof(Header)`
abbrev pub header_size : ℕ
header_size = 8

-- `Big16_unaligned(data + 2)`
abbrev pub message_length : List ℕ → ℕ
message_length bytes = get_or bytes 2 0 * 256 + get_or bytes 3 0

-- The loop on the bytes left, on fuel: the messages, and the bytes that remain.
unfoldable pub frames : ℕ → List ℕ → List (List ℕ) × List ℕ
frames zero bytes = ([], bytes)
frames (suc fuel) bytes =
    let len = message_length bytes in
    let after = frames fuel (drop len bytes) in
    let skipped = frames fuel (drop header_size bytes) in
    if ltb (length bytes) header_size
    then ([], bytes)
    else if leb header_size len && leb len (length bytes)
    then (take len bytes ∷ after.0, after.1)
    else if ltb len header_size
    then skipped
    else ([], bytes)

-- The messages delivered, and the number of bytes used up. Each round uses at least one byte.
unfoldable pub submit_payload : Bool → List ℕ → List (List ℕ) × ℕ
submit_payload skip_payload bytes =
    let (messages, remaining) = frames (length bytes) bytes in
    if skip_payload then ([], length bytes) else (messages, length bytes - length remaining)
