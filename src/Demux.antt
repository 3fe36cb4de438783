-- ===== src/Demux.antt =====
-- src/ofp/demux: TCP reassembly for decoding a packet capture.
pub mod Segment
pub mod Stream
pub mod SegmentCache
pub mod FlowState
pub mod Reassembly
pub mod Endpoint
pub mod FlowCache
pub mod MessageSource
pub mod Tests
