-- ===== src/Lib.antt =====
-- Verification of libofp, the OpenFlow library behind oftr. Paths below are from the repository's
-- root.
--
-- Every file of this library models the code that its first comment names. Numbers are natural
-- numbers; an unsigned word of the source keeps its wrap-around, written out. Byte buffers are
-- lists of bytes. Logging has no model. Assertions belong to debug builds and are not run: where
-- the code relies on one, it is a hypothesis.
--
-- Demux models the TCP reassembly of src/ofp/demux, which decodes captured packets. A Segment is
-- an interval of sequence numbers with its bytes (include/ofp/demux/segmentcache.h). The segment
-- cache (SegmentCache: store, consume_front for consume, add_missing_data for addMissingData)
-- keeps segments that wait for a gap to be filled. A FlowState is one direction of a connection:
-- receive and latest_data return a FlowData, which consume takes back. The flow cache (FlowCache:
-- receive, find_flow for lookup, finish) keeps both directions of each connection in one entry
-- under a key that does not depend on the direction. MessageSource feeds it with TCP segments and
-- cuts messages out of what comes back (submit_payload for submitPayload). The abstract view of a
-- direction is a Stream, a function from sequence numbers to bytes.
--
-- Versions models include/ofp/protocolversions.h and src/ofp/protocolversions.cpp, Hello the
-- version part of src/ofp/hello.cpp, with `settle` the negotiation that
-- src/ofp/sys/defaulthandshake.cpp makes. Header models src/ofp/header.cpp, Timestamp
-- src/ofp/timestamp.cpp.
--
-- SmallBuffer models src/ofp/smallbuffer.cpp, the byte buffer under every message builder, with
-- positions as offsets; what an access outside the block returns is none. Memory has the
-- functions of the C library on blocks of bytes. New memory is a parameter, malloc, of which only
-- the length is known; sizes are below 2 ^ 62, so that no size_t wraps around.
--
-- ProtocolRange models src/ofp/protocoliterator.cpp and the iterator of
-- include/ofp/protocoliterator.h: the check of a range of elements (check_range for
-- IsProtocolRangeValid), the number of elements, and where a range can be split. Its loops have
-- one unit of fuel for each byte; every element takes at least 4.
--
-- Handshake models src/ofp/sys/defaulthandshake.cpp as a state machine: on_message, on_tickle and
-- on_channel_up give the next state, and Step and Reached are the sequences of them, with the
-- messages that were received. The engine's answer to postDatapath is an input.
--
-- RateLimiter models the decision of include/ofp/rpc/ratelimiter.h on one event after another.
--
-- Hex and Base64 model the text functions of src/ofp/types.cpp on lists of character codes;
-- Base64.Decoding has a decoder of its own to compare with.
--
-- Connection models src/ofp/sys/connection.cpp with the shutdown of
-- include/ofp/sys/tcp_connection.ipp, one connection at a time; KeepAlive has the ticks of the
-- timer, with what the listener answers to each. Engine models the registries of
-- src/ofp/sys/engine.cpp with the parts of connection.cpp that refer to other connections.
-- Connections live in a store by their address, so that an access to one that was destroyed
-- fails; addresses can be used again. Engine.Links is the invariant of what they refer to,
-- Engine.Steps the sequences of what can happen. The binary search has a unit of fuel for each
-- connection in the list. Postings of a second datapath to one connection are left out, since the
-- handshake makes only one.
--
-- Oxm models the types of match fields (include/ofp/oxmtype.h), the set of types of
-- src/ofp/oxmtypeset.cpp, and the checks and the insertion of src/ofp/prerequisites.cpp on lists
-- of fields. The table of types with their prerequisites, which a script generates, is the
-- parameter `lookup`.
--
-- Address models parts of src/ofp/ipv4address.cpp and src/ofp/ipv6address.cpp on lists of bytes.
-- The system's reading and printing of addresses and of decimal numbers are parameters, and
-- inet_ntop always has room.
--
-- Normalize models src/ofp/normalize.cpp, which rewrites messages of earlier versions to the
-- layout of the latest one, on the list of the bytes of a message; that a SmallBuffer behaves
-- like this list is shown in SmallBuffer.Operations. Normalize has the steps for one element of a
-- multipart reply and the loop over them (each_element), Ports, Messages and Replies the
-- handlers. Elements, Edits, PortStats, Statistics, Parts and PortLists are the lemmas behind
-- Conversion, Layouts and Endless. Memory.Fields has blocks of memory as fields. The bytes that
-- insertUninitialized leaves are a parameter, fresh. The loops have a round for each byte of the
-- message, more than there are elements; what happens without a bound is in Endless. Actions has
-- the actions of a flow in OpenFlow 1.0, with SetField on those that set a field and
-- EndlessActions on a loop without a bound; whether the host is little-endian is a parameter.
-- FlowMods has FlowMod and PacketOut, for which ActionRange::validateInput is a parameter, Queues
-- the replies with queues, and Dispatch the whole of Normalize::normalize.
--
-- Port models src/ofp/port.cpp and the structures of include/ofp/port.h, as records in Port and
-- as bytes in Port.Layout. Match models the conversion of an OriginalMatch
-- (src/ofp/originalmatch.cpp) to a StandardMatch (src/ofp/standardmatch.cpp).
--
-- Fuel: the while loop of addMissingData has fuel for its rounds as an argument; the loop of
-- submitPayload takes one for each byte.
--
-- Base holds what the files share: Boolean tests on numbers, lists with native lengths, words,
-- bits, and byte strings.
--
-- Not modelled are input and output, the transport over Asio and OpenSSL, the YAML declarations,
-- and printing.
pub mod Base
pub mod Timestamp
pub mod Versions
pub mod Hello
pub mod Header
pub mod Demux
pub mod Memory
pub mod SmallBuffer
pub mod ProtocolRange
pub mod Handshake
pub mod Connection
pub mod Engine
pub mod Oxm
pub mod Address
pub mod Match
pub mod Port
pub mod Normalize
pub mod RateLimiter
pub mod Hex
pub mod Base64
pub mod Tests
