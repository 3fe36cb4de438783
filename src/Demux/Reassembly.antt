-- ===== src/Demux/Reassembly.antt =====
-- The TCP part of MessageSource in src/ofp/demux/messagesource.cpp, on one direction of a connection:
-- every segment is handed to the flow, and the client takes some of the bytes that come back.
use libofp.Base.{
  ℕ, ◌+◌, ◌%◌, ◌^◌, ◌≡◌, ◌<◌, Bool, true, List, [], ◌∷◌, ◌++◌, length, is_empty, take, Bool-cases,
  inl, inr, if◌then◌else◌, All, length-take, sub32, narrow32, arith, min, refl, ◌∙◌,
}
use libofp.Demux.Stream.{Stream, Reads, Reads-congr, Reads-append, Reads-take}
use libofp.Demux.FlowState.{FlowState, receive, consume, init}
use libofp.Demux.FlowState.Delivery.{
  Follows, receive-Follows, consume-Follows, end-consume, started-receive, started-consume,
}

-- A segment that arrives, with the number of bytes that the client takes of what it then gets.
pub record Arrival : Type 0 where
  pub end : ℕ
  pub bytes : List ℕ
  pub final : Bool
  pub wanted : ℕ

-- A segment of the stream `s`.
pub record IsPart (s : Stream) (a : Arrival) : Type 0 where
  pub in_range : a.end < 2 ^ 32
  pub small : length a.bytes < 2 ^ 32
  pub reads : Reads s (sub32 a.end (length a.bytes)) a.bytes

-- The step of MessageSource::submitTCP on one direction: receive, then consume what the client took,
-- where there is something to take.
-- The result is the new state and the bytes that the client took.
unfoldable pub submit : FlowState → ℕ → Arrival → FlowState × List ℕ
submit st sid a =
    let r = receive st a.end a.bytes sid a.final in
    let n = min a.wanted (length r.flow.bytes) in
    let taken : FlowState × List ℕ = ((consume r.state r.flow n).0, take n r.flow.bytes) in
    if is_empty r.flow.bytes then (r.state, []) else taken

-- All bytes that the client takes, in order.
unfoldable pub deliver : FlowState → ℕ → List Arrival → List ℕ
deliver st sid [] = []
deliver st sid (a ∷ rest) = (submit st sid a).1 ++ deliver (submit st sid a).0 sid rest

module _ (s : Stream) where
  submit-Follows :
      (st : FlowState) (sid : ℕ) (a : Arrival)
      → st.started ≡ true
      → Follows s st
      → IsPart s a
      → let (st', out) = submit st sid a in
        Follows s st'
        × Reads s st.end out
        × (st'.end % 2 ^ 32 ≡ (st.end + length out) % 2 ^ 32)
        × (st'.started ≡ true)
  unfolding submit
  submit-Follows st sid a up h p =
      let r = receive st a.end a.bytes sid a.final in
      let n : ℕ = min a.wanted (length r.flow.bytes) in
      let (g, c, e) =
        receive-Follows s st a.end a.bytes sid a.final up p.in_range p.small p.reads h in
      elim (Bool-cases (is_empty r.flow.bytes)) [
        | inl nothing ↦
            rw nothing (g, tt, omega (arith, e), started-receive st a.end a.bytes sid a.final)
        | inr something ↦ rw something (
          consume-Follows s r.state r.flow n g c,
          Reads-take s st.end n r.flow.bytes (rw e at c.reads),
          omega (
            arith,
            end-consume s r.state r.flow n g c (omega arith),
            e,
            length-take n r.flow.bytes,
          ),
          started-consume r.state r.flow n ∙ started-receive st a.end a.bytes sid a.final,
        )
      ]

  deliver-Reads :
      (st : FlowState) (sid : ℕ) (arrivals : List Arrival)
      → st.started ≡ true
      → Follows s st
      → All (IsPart s) arrivals
      → Reads s st.end (deliver st sid arrivals)
  unfolding deliver
  deliver-Reads st sid [] up h t = tt
  deliver-Reads st sid (a ∷ rest) up h t =
      let (g, r, e, up') = submit-Follows st sid a up h t.0 in
      Reads-append s st.end (submit st sid a).0.end _ _ (omega arith) r
        (deliver-Reads (submit st sid a).0 sid rest up' g t.1)

  -- The bytes that a client takes from a new flow are, in order and without a gap, those of the
  -- stream from the beginning of the first segment on: whatever the order, the overlaps and the
  -- repetitions of the segments, and however much the client takes each time. The segments are parts
  -- of the stream, with fewer than 2 ^ 32 bytes each.
  pub deliver-init-Reads :
      (sid : ℕ) (a : Arrival) (rest : List Arrival)
      → IsPart s a
      → All (IsPart s) rest
      → Reads s (sub32 a.end (length a.bytes)) (deliver init sid (a ∷ rest))
  unfolding deliver submit receive
  deliver-init-Reads sid a rest p t =
      let b = sub32 a.end (narrow32 (length a.bytes)) in
      Reads-congr s b _ _ (omega arith) (
        deliver-Reads (record init { end = b; started = true }) sid (a ∷ rest) refl
          (record { in_range = omega arith; holds = tt }) (p, t))
