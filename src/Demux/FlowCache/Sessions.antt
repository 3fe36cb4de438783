-- ===== src/Demux/FlowCache/Sessions.antt =====
-- The session numbers of the flow cache.
use libofp.Base.{
  ℕ, ◌+◌, ◌%◌, ◌^◌, ◌≤◌, ◌<◌, ◌≡◌, ◌≢◌, inl, inr, Bool, true, false, List, [], ◌∷◌, length,
  narrow32, some, arith, refl, sym, ◌∙◌, All,
}
use libofp.Timestamp.{Timestamp}
use libofp.Demux.Endpoint.{Endpoint}
use libofp.Demux.FlowCache.{
  FlowCacheKey, FlowCacheEntry, FlowCache, FlowMap, opens, make_key, lookup, put, entry_at,
  assign_session_id, admit, reset, receive_side, receive, receive_segment,
}
use libofp.Demux.FlowCache.Keys.{Admission-cases}

abbrev pub ids : FlowMap → List ℕ
ids [] = []
ids ((k, e) ∷ rest) = e.session_id ∷ ids rest

abbrev pub Distinct : List ℕ → Type 0
Distinct [] = Unit {0}
Distinct (n ∷ ns) = All (λ m. m ≢ n) ns × Distinct ns

-- Every session has a number of its own, which is not 0, and was assigned already.
pub record IsNumbered (fc : FlowCache) : Type 0 where
  pub distinct : Distinct (ids fc.flows)
  pub given : All (λ id. (0 < id) × (id ≤ fc.assigned)) (ids fc.flows)

-- The counter never gives 0, and gives the next number until it wraps.
pub assign_session_id_bounds :
    (n : ℕ)
    → (0 < assign_session_id n)
      × (assign_session_id n < 2 ^ 64)
      × (n + 1 < 2 ^ 64 → assign_session_id n ≡ n + 1)
unfolding assign_session_id
assign_session_id_bounds n = (ground arith, ground arith, λ h. ground arith)

-- An entry with the number of the one that it replaces.
ids-put_same :
    (flows : FlowMap) (key : FlowCacheKey) (old e : FlowCacheEntry)
    → lookup flows key ≡ some old
    → e.session_id ≡ old.session_id
    → ids (put flows key e) ≡ ids flows
unfolding lookup put
ids-put_same [] key old e l h = cc
ids-put_same ((k, d) ∷ rest) key old e l h = ground (arith, ids-put_same rest key old e)

-- An entry with a number of its own.
put-All :
    (P : ℕ → Type 0) (flows : FlowMap) (key : FlowCacheKey) (e : FlowCacheEntry)
    → All P (ids flows)
    → P e.session_id
    → All P (ids (put flows key e))
unfolding put
put-All P [] key e t h = (h, tt)
put-All P ((k, d) ∷ rest) key e t h = ground (arith, t.1, put-All P rest key e t.1 h)

put-Distinct :
    (flows : FlowMap) (key : FlowCacheKey) (e : FlowCacheEntry)
    → Distinct (ids flows)
    → All (λ m. m ≢ e.session_id) (ids flows)
    → Distinct (ids (put flows key e))
unfolding put
put-Distinct [] key e d h = (tt, tt)
put-Distinct ((k, c) ∷ rest) key e d h = ground (
  arith,
  d.0,
  d.1,
  h.1,
  put-Distinct rest key e d.1 h.1,
  put-All (λ m. m ≢ c.session_id) rest key e d.0 (λ q. h.0 (sym q)),
)

All-ne : (n : ℕ) (ns : List ℕ) → All (λ id. (0 < id) × (id ≤ n)) ns → All (λ m. m ≢ n + 1) ns
All-ne n [] t = tt
All-ne n (m ∷ ns) t = (omega arith, All-ne n ns t.1)

All-le :
    (n : ℕ) (ns : List ℕ)
    → All (λ id. (0 < id) × (id ≤ n)) ns
    → All (λ id. (0 < id) × (id ≤ n + 1)) ns
All-le n [] t = tt
All-le n (m ∷ ns) t = (omega arith, All-le n ns t.1)

session_id-receive_side :
    (e : FlowCacheEntry) (is_x : Bool) (ts : Timestamp) (end : ℕ) (bytes : List ℕ) (final : Bool)
    → (receive_side e is_x ts end bytes final).0.session_id ≡ e.session_id
unfolding receive_side
session_id-receive_side e true ts end bytes final = refl
session_id-receive_side e false ts end bytes final = refl

session_id-reset : (e : FlowCacheEntry) (ts : Timestamp) (n : ℕ) → (reset e ts n).session_id ≡ n
unfolding reset
session_id-reset e ts n = refl

-- An entry that is not in the map opens a session.
admit_old :
    (flows : FlowMap) (key : FlowCacheKey) (ts : Timestamp) (flags : ℕ)
    → admit (entry_at flows key) ts flags ≢ opens
    → lookup flows key ≡ some (entry_at flows key)
unfolding admit
admit_old flows key ts flags h = ground arith

put_new-IsNumbered :
    (fc : FlowCache) (key : FlowCacheKey) (e : FlowCacheEntry) (n : ℕ)
    → n ≡ fc.assigned + 1
    → e.session_id ≡ fc.assigned + 1
    → IsNumbered fc
    → IsNumbered (record { flows = put fc.flows key e; assigned = n })
put_new-IsNumbered fc key e n hn he v = record {
  distinct =
      put-Distinct fc.flows key e v.distinct (rw he (All-ne fc.assigned (ids fc.flows) v.given));
  given = rw hn (
      put-All (λ id. (0 < id) × (id ≤ fc.assigned + 1)) fc.flows key e
        (All-le fc.assigned (ids fc.flows) v.given) (omega arith));
}

put_same-IsNumbered :
    (fc : FlowCache) (key : FlowCacheKey) (old e : FlowCacheEntry)
    → lookup fc.flows key ≡ some old
    → e.session_id ≡ old.session_id
    → IsNumbered fc
    → IsNumbered (record fc { flows = put fc.flows key e })
put_same-IsNumbered fc key old e l he v =
    let same = ids-put_same fc.flows key old e l he in
    record { distinct = rw same v.distinct; given = rw same v.given }

segment-IsNumbered :
    (fc : FlowCache) (ts : Timestamp) (src dst : Endpoint) (end : ℕ) (bytes : List ℕ) (flags : ℕ)
    → fc.assigned + 1 < 2 ^ 64
    → IsNumbered fc
    → IsNumbered (receive_segment fc ts src dst end bytes flags).0
unfolding receive_segment
segment-IsNumbered fc ts src dst end bytes flags h v =
    let key = (make_key src dst).0 in
    let e = entry_at fc.flows key in
    let n = assign_session_id fc.assigned in
    let next = (assign_session_id_bounds fc.assigned).2 h in
    elim (Admission-cases (admit e ts flags)) [
      | inl a ↦
          rw (a, receive_segment)
            (put_new-IsNumbered fc key _ n next
              (session_id-receive_side (reset e ts n) _ ts end bytes _
                ∙ session_id-reset e ts n
                ∙ next)
              v)
      | inr (inl a) ↦
          rw (a, receive_segment)
            (put_same-IsNumbered fc key e _ (admit_old fc.flows key ts flags (λ o. cc))
              (session_id-receive_side e _ ts end bytes _) v)
      | inr (inr a) ↦
          rw (a, receive_segment)
            (put_same-IsNumbered fc key e e (admit_old fc.flows key ts flags (λ o. cc)) refl v)
    ]

-- A segment keeps every session under a number of its own, which is not 0, as long as fewer than
-- 2 ^ 64 - 1 numbers were assigned.
pub receive-IsNumbered :
    (fc : FlowCache) (ts : Timestamp) (src dst : Endpoint) (seq : ℕ) (bytes : List ℕ) (flags : ℕ)
    → fc.assigned + 1 < 2 ^ 64
    → IsNumbered fc
    → IsNumbered (receive fc ts src dst seq bytes flags).0
unfolding receive
receive-IsNumbered fc ts src dst seq bytes flags h v = ground (
  arith,
  v.distinct,
  v.given,
  segment-IsNumbered fc ts src dst ((seq + 1) % 2 ^ 32) bytes flags h v,
  segment-IsNumbered fc ts src dst ((seq + narrow32 (length bytes)) % 2 ^ 32) bytes flags h v,
)
