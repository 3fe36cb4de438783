-- ===== src/Demux/Tests.antt =====
-- Runs of the demultiplexer on small inputs, and the theorems at such inputs.
use libofp.Base.{
  ℕ, ◌%◌, ◌⊎◌, inl, inr, ◌≡◌, ◌≢◌, ◌↔◌, ◌<◌, ◌≤◌, true, false, List, [], ◌∷◌, ◌++◌, All, none, some,
  length, drop, refl, sub32, bytes_less, bytes_eq, arith,
}
use libofp.Timestamp.{Timestamp}
use libofp.Demux.Segment.{Segment, less_than}
use libofp.Demux.Segment.Order.{less_than_iff}
use libofp.Demux.Stream.{Stream, Reads}
use libofp.Demux.SegmentCache.{
  SegmentCache, update, insert, extend_front, extend_back, store_from, store, check_invariant,
  add_missing_data, fill_front, fill_gaps, current, consume_front,
}
use libofp.Demux.SegmentCache.Contents.{Holds, store-Holds}
use libofp.Demux.SegmentCache.Overlap.{store_past_two}
use libofp.Demux.FlowState.{FlowState, init, receive_started, latest_data}
use libofp.Demux.FlowState
use libofp.Demux.Reassembly.{Arrival, submit, deliver, deliver-init-Reads}
use libofp.Demux.Endpoint.{Endpoint, endpoint_le}
use libofp.Demux.FlowCache.{FlowCache, make_key, lookup, FlowCacheKey}
use libofp.Demux.FlowCache
use libofp.Demux.FlowCache.Keys.{receive-frame}
use libofp.Demux.MessageSource.{frames, submit_payload}
use libofp.Demux.MessageSource.Framing.{IsMessage, IsPartial}
use libofp.Demux.MessageSource.Chunks.{submit_payload-append, submit_payload_lem}

-- The stream whose byte at a sequence number is its last eight bits.
abbrev counting : Stream
counting n = n % 256

abbrev segment : ℕ → List ℕ → Segment
segment end bytes = record { end = end; final = false; bytes = bytes }

-- Three segments of the stream: the second goes round the end of the numbers, the last fills the gap.
abbrev arrivals : List Arrival
arrivals =
    record { end = 4294967292; bytes = 250 ∷ 251 ∷ []; final = false; wanted = 2 }
    ∷ record { end = 1; bytes = 254 ∷ 255 ∷ 0 ∷ []; final = false; wanted = 9 }
    ∷ record { end = 4294967295; bytes = 251 ∷ 252 ∷ 253 ∷ 254 ∷ []; final = false; wanted = 4 }
    ∷ []

arrives_in_order : deliver init 1 arrivals ≡ 250 ∷ 251 ∷ 252 ∷ 253 ∷ 254 ∷ 255 ∷ []
unfolding deliver submit FlowState.receive receive_started latest_data FlowState.consume current
    store store_from update insert extend_front extend_back consume_front
arrives_in_order = refl

less_than_iff_example :
    (less_than 0xffff_ffff 3 ≡ true)
    ↔ ((0 < sub32 3 0xffff_ffff) × (sub32 3 0xffff_ffff < 2147483648))
less_than_iff_example = less_than_iff 0xffff_ffff 3 (omega arith) (omega arith)

store-Holds_example :
    All (Holds counting) (store (segment 10 (8 ∷ 9 ∷ []) ∷ []) 12 (9 ∷ 10 ∷ 11 ∷ []) false)
store-Holds_example =
    store-Holds counting (segment 10 (8 ∷ 9 ∷ []) ∷ []) 12 (9 ∷ 10 ∷ 11 ∷ []) false (omega arith)
      (omega arith) (omega arith) (record { in_range = omega arith; reads = omega arith }, tt)

-- Two segments with a gap of two bytes between them.
abbrev gapped : SegmentCache
gapped = segment 10 (8 ∷ 9 ∷ []) ∷ segment 14 (12 ∷ 13 ∷ []) ∷ []

gapped_filled :
    add_missing_data 2 8 16 gapped ≡ some (segment 14 (8 ∷ 9 ∷ 0 ∷ 0 ∷ 12 ∷ 13 ∷ []) ∷ [])
unfolding add_missing_data fill_front fill_gaps
gapped_filled = refl

-- [8,10) [12,13) [14,16), and then [10,17).
abbrev three : Segment × Segment × Segment
three = (segment 10 (8 ∷ 9 ∷ []), segment 13 (12 ∷ []), segment 16 (14 ∷ 15 ∷ []))

abbrev long_data : List ℕ
long_data = 10 ∷ 11 ∷ 12 ∷ 13 ∷ 14 ∷ 15 ∷ 16 ∷ []

store_past_two_example :
    (check_invariant (store (three.0 ∷ three.1 ∷ three.2 ∷ []) 17 long_data false) ≡ false)
    × (add_missing_data 1000 8 16 (store (three.0 ∷ three.1 ∷ three.2 ∷ []) 17 long_data false)
        ≡ none)
store_past_two_example =
    store_past_two three.0 three.1 three.2 [] 17 long_data false 1000 8 16
      (record {
        open_end = refl;
        in_range = omega arith;
        follows = refl;
        not_empty = refl;
        behind_y = refl;
        past_y = omega arith;
        into_z = refl;
      })
      refl

deliver-init-Reads_example : Reads counting 4294967290 (deliver init 1 arrivals)
deliver-init-Reads_example =
    deliver-init-Reads counting 1
      (record { end = 4294967292; bytes = 250 ∷ 251 ∷ []; final = false; wanted = 2 })
      (record { end = 1; bytes = 254 ∷ 255 ∷ 0 ∷ []; final = false; wanted = 9 }
        ∷ record { end = 4294967295; bytes = 251 ∷ 252 ∷ 253 ∷ 254 ∷ []; final = false; wanted = 4 }
        ∷ [])
      (record { in_range = omega arith; small = omega arith; reads = omega arith })
      (
        record { in_range = omega arith; small = omega arith; reads = omega arith },
        (record { in_range = omega arith; small = omega arith; reads = omega arith }, tt),
      )

-- The endpoints 10.0.0.1:6653 and 10.0.0.2:40000, shortened to four bytes of address.
abbrev here : Endpoint
here = record { addr = 10 ∷ 0 ∷ 0 ∷ 1 ∷ []; port = 6653 }

abbrev there : Endpoint
there = record { addr = 10 ∷ 0 ∷ 0 ∷ 2 ∷ []; port = 40000 }

abbrev other : Endpoint
other = record { addr = 10 ∷ 0 ∷ 0 ∷ 3 ∷ []; port = 40001 }

here≢there : here ≢ there
here≢there e = cc

abbrev no_flows : FlowCache
no_flows = record { flows = []; assigned = 0 }

abbrev noon : Timestamp
noon = record { seconds = 43200; nanoseconds = 5 }

not_same : ¬ (((other ≡ here) × (here ≡ there)) ⊎ ((other ≡ there) × (here ≡ here)))
not_same (inl e) = cc
not_same (inr e) = cc

receive-frame_example :
    lookup
      (FlowCache.receive no_flows noon here there 7 (1 ∷ 2 ∷ []) 0x10).0.flows
      (make_key other here).0
    ≡ none
unfolding lookup make_key endpoint_le bytes_less bytes_eq
receive-frame_example =
    receive-frame no_flows noon here there 7 (1 ∷ 2 ∷ []) 0x10 other here not_same

-- An echo request of eight bytes, and the first three bytes of another message.
abbrev echo : List ℕ
echo = 4 ∷ 2 ∷ 0 ∷ 8 ∷ 0 ∷ 0 ∷ 0 ∷ 1 ∷ []

submit_payload-append_example :
    submit_payload false ((4 ∷ 2 ∷ 0 ∷ []) ++ (8 ∷ 0 ∷ 0 ∷ 0 ∷ 1 ∷ 4 ∷ 2 ∷ 0 ∷ [])) ≡ (echo ∷ [], 8)
unfolding submit_payload frames
submit_payload-append_example =
    submit_payload-append (4 ∷ 2 ∷ 0 ∷ []) (8 ∷ 0 ∷ 0 ∷ 0 ∷ 1 ∷ 4 ∷ 2 ∷ 0 ∷ [])

submit_payload_lem_example :
    All IsMessage (submit_payload false (echo ++ (4 ∷ 2 ∷ 0 ∷ []))).0
    × ((submit_payload false (echo ++ (4 ∷ 2 ∷ 0 ∷ []))).1 ≤ length (echo ++ (4 ∷ 2 ∷ 0 ∷ [])))
    × IsPartial
        (drop (submit_payload false (echo ++ (4 ∷ 2 ∷ 0 ∷ []))).1 (echo ++ (4 ∷ 2 ∷ 0 ∷ [])))
submit_payload_lem_example = submit_payload_lem (echo ++ (4 ∷ 2 ∷ 0 ∷ []))
