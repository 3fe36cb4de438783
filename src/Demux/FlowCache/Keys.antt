-- ===== src/Demux/FlowCache/Keys.antt =====
-- The keys of the flow cache: both directions of a connection meet in one entry.
use libofp.Base.{
  ℕ, ◌+◌, ◌%◌, ◌^◌, inl, inr, narrow32, ◌≡◌, ◌≢◌, ◌↔◌, ◌⊎◌, true, not, if◌then◌else◌, List, [], ◌∷◌,
  length, some, arith, refl,
}
use libofp.Timestamp.{Timestamp}
use libofp.Demux.Endpoint.{Endpoint, endpoint_eq_iff, endpoint_le_total}
use libofp.Demux.FlowCache.{
  FlowCacheKey, FlowCacheEntry, FlowCache, FlowMap, make_key, key_eq, lookup, put, receive,
  receive_segment, admit, entry_at, Admission, opens, continues, late,
}

pub Admission-cases : (a : Admission) → (a ≡ opens) ⊎ (a ≡ continues) ⊎ (a ≡ late)
Admission-cases opens = inl refl
Admission-cases continues = inr (inl refl)
Admission-cases late = inr (inr refl)

-- The key of a connection between different endpoints is the same in both directions, and the two
-- directions are on different sides of it.
pub make_key_swap :
    (src dst : Endpoint)
    → src ≢ dst
    → ((make_key src dst).0 ≡ (make_key dst src).0)
      × ((make_key dst src).1 ≡ not (make_key src dst).1)
unfolding make_key
make_key_swap src dst h = ground (arith, endpoint_le_total src dst)

pub key_eq_iff : (a b : FlowCacheKey) → (key_eq a b ≡ true) ↔ (a ≡ b)
unfolding key_eq
key_eq_iff a b = ground (arith, endpoint_eq_iff a.x b.x, endpoint_eq_iff a.y b.y)

-- Two connections have the same key only if their endpoints are the same, in one order or the other.
pub make_key-injective :
    (src dst src' dst' : Endpoint)
    → (make_key src dst).0 ≡ (make_key src' dst').0
    → ((src ≡ src') × (dst ≡ dst')) ⊎ ((src ≡ dst') × (dst ≡ src'))
unfolding make_key
make_key-injective src dst src' dst' h = ground arith

pub lookup-put :
    (flows : FlowMap) (key k : FlowCacheKey) (e : FlowCacheEntry)
    → lookup (put flows key e) k ≡ (if key_eq key k then some e else lookup flows k)
unfolding lookup put
lookup-put [] key k e = refl
lookup-put ((j, d) ∷ rest) key k e =
    ground (arith, key_eq_iff key k, key_eq_iff j key, key_eq_iff j k, lookup-put rest key k e)

lookup-put_ne :
    (flows : FlowMap) (key k : FlowCacheKey) (e : FlowCacheEntry)
    → k ≢ key
    → lookup (put flows key e) k ≡ lookup flows k
lookup-put_ne flows key k e h = rw (lookup-put flows key k e) (ground (arith, key_eq_iff key k, h))

segment-frame :
    (fc : FlowCache) (ts : Timestamp) (src dst : Endpoint) (end : ℕ) (bytes : List ℕ) (flags : ℕ)
    (k : FlowCacheKey)
    → k ≢ (make_key src dst).0
    → lookup (receive_segment fc ts src dst end bytes flags).0.flows k ≡ lookup fc.flows k
unfolding receive_segment
segment-frame fc ts src dst end bytes flags k h =
    elim (Admission-cases (admit (entry_at fc.flows (make_key src dst).0) ts flags)) [
      | inl e ↦ rw (e, receive_segment) (lookup-put_ne fc.flows _ k _ h)
      | inr (inl e) ↦ rw (e, receive_segment) (lookup-put_ne fc.flows _ k _ h)
      | inr (inr e) ↦ rw (e, receive_segment) (lookup-put_ne fc.flows _ k _ h)
    ]

-- A segment of a connection leaves the entry of a connection between other endpoints as it was.
pub receive-frame :
    (fc : FlowCache) (ts : Timestamp) (src dst : Endpoint) (seq : ℕ) (bytes : List ℕ) (flags : ℕ)
    (src' dst' : Endpoint)
    → ¬ (((src' ≡ src) × (dst' ≡ dst)) ⊎ ((src' ≡ dst) × (dst' ≡ src)))
    → lookup (receive fc ts src dst seq bytes flags).0.flows (make_key src' dst').0
      ≡ lookup fc.flows (make_key src' dst').0
unfolding receive
receive-frame fc ts src dst seq bytes flags src' dst' other =
    let k : FlowCacheKey = (make_key src' dst').0 in
    let h : k ≢ (make_key src dst).0 = λ e. other (make_key-injective src' dst' src dst e) in
    ground (
      arith,
      segment-frame fc ts src dst ((seq + 1) % 2 ^ 32) bytes flags k h,
      segment-frame fc ts src dst ((seq + narrow32 (length bytes)) % 2 ^ 32) bytes flags k h,
    )
