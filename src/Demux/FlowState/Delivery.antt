-- ===== src/Demux/FlowState/Delivery.antt =====
-- flowstate.cpp against a stream: what `receive` returns, and a client consumes, is the stream.
use libofp.Base.{
  ℕ, ◌+◌, ◌%◌, ◌^◌, ◌≡◌, ◌<◌, ◌≤◌, Bool, true, false, List, [], ◌∷◌, length, is_empty, drop, ltb,
  ltb→lt, ap, ◌==◌, ◌&&◌, All, length-drop, sub32, add32, narrow32, arith, refl, Bool-cases, inl,
  inr, ◌⊎◌, none, some,
}
use libofp.Demux.Segment.{Segment, less_than, safe_byte_range}
use libofp.Demux.Stream.{Stream, Reads, Reads-congr, Reads-drop}
use libofp.Demux.SegmentCache.{SegmentCache, store, current}
use libofp.Demux.SegmentCache.Contents.{
  Holds, store-Holds, consume_front-Holds, safe_byte_range-Reads,
}
use libofp.Demux.FlowState.{
  FlowState, FlowData, no_data, passed_on, new_data, cached_state, latest_data, receive_started,
  receive, consume,
}

-- A state whose cache holds bytes of the stream.
pub record Follows (s : Stream) (st : FlowState) : Type 0 where
  pub in_range : st.end < 2 ^ 32
  pub holds : All (Holds s) st.cache

-- Data that reads on from the state's `end`; data that is not attached is empty.
pub record Continues (s : Stream) (st : FlowState) (d : FlowData) : Type 0 where
  pub reads : Reads s st.end d.bytes
  pub detached : d.attached ≡ false → d.bytes ≡ []
  pub small : d.cached ≡ false → length d.bytes < 2 ^ 32

module _ (s : Stream) where
  no_data-Continues : (st : FlowState) (sid : ℕ) → Continues s st (no_data sid)
  no_data-Continues st sid = record { reads = tt; detached = λ _. refl; small = λ _. omega arith }

  current_cases :
      (cache : SegmentCache)
      → All (Holds s) cache
      → (current cache ≡ none) ⊎ ((seg : Segment) × (current cache ≡ some seg) × Holds s seg)
  unfolding current
  current_cases [] t = inl refl
  current_cases (seg ∷ rest) t = inr (seg, refl, t.0)

  latest_data-Continues :
      (st : FlowState) (sid : ℕ) → Follows s st → Continues s st (latest_data st sid)
  unfolding latest_data
  latest_data-Continues st sid h = elim (current_cases st.cache h.holds) [
    | inl e ↦ rw (e, latest_data) (no_data-Continues st sid)
    | inr (seg, e, g) ↦ rw (e, latest_data) (ground (arith, no_data-Continues st sid, g.reads))
  ]

  new_data-Reads :
      (st : FlowState) (p end : ℕ) (xs : List ℕ)
      → st.end < 2 ^ 32
      → end < 2 ^ 32
      → length xs < 2 ^ 32
      → p ≡ sub32 end (length xs)
      → less_than st.end end ≡ true
      → Reads s p xs
      → Reads s (sub32 end (length (new_data st p xs))) (new_data st p xs)
        × (length (new_data st p xs) < 2 ^ 32)
  new_data-Reads st p end xs hs he hx hp l r = elim (Bool-cases (less_than p st.end)) [
    | inl b ↦ rw b (
      Reads-congr s st.end _ (safe_byte_range xs (sub32 st.end p))
          (ground (arith, length-drop (sub32 st.end p) xs))
          (safe_byte_range-Reads s p st.end xs hs r),
      ground (arith, length-drop (sub32 st.end p) xs),
    )
    | inr b ↦ rw b (Reads-congr s p _ xs (omega arith) r, hx)
  ]

  cached_state-Follows :
      (st : FlowState) (p end : ℕ) (xs : List ℕ) (final : Bool)
      → end < 2 ^ 32
      → length xs < 2 ^ 32
      → p ≡ sub32 end (length xs)
      → less_than st.end end ≡ true
      → Reads s p xs
      → Follows s st
      → Follows s (cached_state st p end xs final)
  cached_state-Follows st p end xs final he hx hp l r h =
      let fresh = new_data-Reads st p end xs h.in_range he hx hp l r in
      record {
        in_range = h.in_range;
        holds = store-Holds s st.cache end (new_data st p xs) final he fresh.1 fresh.0 h.holds;
      }

  passed_on-Continues :
      (st : FlowState) (p : ℕ) (xs : List ℕ) (sid : ℕ) (final : Bool)
      → length xs < 2 ^ 32
      → p ≡ st.end
      → Reads s p xs
      → Continues s (passed_on st xs sid final).state (passed_on st xs sid final).flow
  passed_on-Continues st p xs sid final hx e r = record {
    reads = rw (← e) r;
    detached = λ q. cc;
    small = λ _. hx;
  }

  pub receive_started-Follows :
      (st : FlowState) (p end : ℕ) (xs : List ℕ) (sid : ℕ) (final : Bool)
      → end < 2 ^ 32
      → length xs < 2 ^ 32
      → p ≡ sub32 end (length xs)
      → Reads s p xs
      → Follows s st
      → let r = receive_started st p end xs sid final in
        Follows s r.state × Continues s r.state r.flow × (r.state.end ≡ st.end)
  unfolding receive_started
  receive_started-Follows st p end xs sid final he hx hp r h =
      elim (Bool-cases (is_empty st.cache && st.finished)) [
        | inl e ↦ rw e (h, no_data-Continues st sid, refl)
        | inr n ↦ rw n (elim (Bool-cases (is_empty st.cache && p == st.end)) [
          | inl e ↦ rw e (
            record { in_range = h.in_range; holds = h.holds },
            passed_on-Continues st p xs sid final hx (ground arith) r,
            refl,
          )
          | inr m ↦ rw m (elim (Bool-cases (less_than st.end end)) [
            | inl l ↦ rw l (
                let g = cached_state-Follows st p end xs final he hx hp l r h in
                (g, latest_data-Continues _ sid g, refl))
            | inr l ↦ rw l (h, no_data-Continues st sid, refl)
          ])
        ])
      ]

  -- The bytes left behind a partial read go to the cache at their place.
  consume_uncached-Follows :
      (st : FlowState) (xs : List ℕ) (len : ℕ)
      → len < length xs
      → length xs < 2 ^ 32
      → Reads s st.end xs
      → Follows s st
      → All (Holds s) (
          store st.cache
            (add32 (add32 st.end len) (narrow32 (length (drop len xs))))
            (drop len xs)
            false)
  consume_uncached-Follows st xs len hl hx r h =
      store-Holds s st.cache _ (drop len xs) false (omega arith) (omega (arith, length-drop len xs))
        (Reads-drop s st.end _ len xs (omega (arith, length-drop len xs, h.in_range)) r) h.holds

  pub consume-Follows :
      (st : FlowState) (d : FlowData) (len : ℕ)
      → Follows s st
      → Continues s st d
      → Follows s (consume st d len).0
  unfolding consume
  consume-Follows st d len h c = elim (Bool-cases d.attached) [
    | inr e ↦ rw e h
    | inl e ↦ rw e (elim (Bool-cases d.cached) [
      | inl k ↦
          rw k
            (record { in_range = omega arith; holds = consume_front-Holds s st.cache len h.holds })
      | inr k ↦ rw k (elim (Bool-cases (ltb len (length d.bytes))) [
        | inl l ↦ rw l (record {
          in_range = omega arith;
          holds = consume_uncached-Follows st d.bytes len (ltb→lt _ _ l) (c.small k) c.reads h;
        })
        | inr l ↦ rw l (record { in_range = omega arith; holds = h.holds })
      ])
    ])
  ]

  -- `end` moves by the bytes consumed.
  pub end-consume :
      (st : FlowState) (d : FlowData) (len : ℕ)
      → Follows s st
      → Continues s st d
      → len ≤ length d.bytes
      → (consume st d len).0.end % 2 ^ 32 ≡ (st.end + len) % 2 ^ 32
  unfolding consume
  end-consume st d len h c hl = elim (Bool-cases d.attached) [
    | inr e ↦ rw e (omega (arith, ap length (c.detached e)))
    | inl e ↦ rw e (ground arith)
  ]

  -- In a started flow the bytes that `receive` returns are those of the stream from `end` on.
  pub receive-Follows :
      (st : FlowState) (end : ℕ) (xs : List ℕ) (sid : ℕ) (final : Bool)
      → st.started ≡ true
      → end < 2 ^ 32
      → length xs < 2 ^ 32
      → Reads s (sub32 end (length xs)) xs
      → Follows s st
      → let r = receive st end xs sid final in
        Follows s r.state × Continues s r.state r.flow × (r.state.end ≡ st.end)
  unfolding receive
  receive-Follows st end xs sid final up he hx r h = simp up (
      receive_started-Follows st _ end xs sid final he hx (omega arith)
        (Reads-congr s (sub32 end (length xs)) _ xs (omega arith) r) h)

pub started-receive :
    (st : FlowState) (end : ℕ) (xs : List ℕ) (sid : ℕ) (final : Bool)
    → (receive st end xs sid final).state.started ≡ true
unfolding receive receive_started
started-receive st end xs sid final = ground arith

pub started-consume :
    (st : FlowState) (d : FlowData) (len : ℕ) → (consume st d len).0.started ≡ st.started
unfolding consume
started-consume st d len = ground arith
