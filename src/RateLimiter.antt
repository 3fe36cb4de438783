-- ===== src/RateLimiter.antt =====
-- RateLimiter of include/ofp/rpc/ratelimiter.h.
pub mod Tests
use libofp.Base.{
  ℕ, ◌+◌, ◌%◌, ◌^◌, ◌≤◌, ◌<◌, ◌-◌, ◌≡◌, Bool, true, false, List, [], ◌∷◌, ltb, leb, if◌then◌else◌,
  All, length, min, arith, not, Bool-cases, inl, inr, refl,
}
use libofp.Timestamp.{Timestamp, time_less, time_eq, infinity, add_time}

pub record RateLimiter : Type 0 where
  pub exp : Timestamp
  pub t : Timestamp
  pub nc : ℕ
  pub n : ℕ
  pub p : ℕ

-- A new cycle, with the interval from a time on
abbrev pub restart : RateLimiter → Timestamp → RateLimiter
restart r time = record r { exp = add_time time r.t; nc = 1 }

-- `allow`: the limiter after the event, and whether the event is allowed
unfoldable pub allow : RateLimiter → Timestamp → RateLimiter × Bool
allow r time =
    let nc : ℕ = (r.nc + 1) % 2 ^ 32 in
    let next : RateLimiter = record r { nc = nc } in
    if not (time_less time r.exp)
    then (restart r time, true)
    else if leb nc r.n
    then (next, true)
    else if leb nc r.p
    then (next, false)
    else if time_eq r.exp infinity
    then (record r { nc = 1 }, true)
    else (restart r time, true)

-- How many of the events at some times are allowed.
unfoldable pub allowed : RateLimiter → List Timestamp → ℕ
allowed r [] = 0
allowed r (time ∷ times) =
    let (next, ok) = allow r time in let rest = allowed next times in if ok then rest + 1 else rest

-- An event before the interval ends, in a cycle of at most `p`
allow_within :
    (r : RateLimiter) (time : Timestamp)
    → time_less time r.exp ≡ true
    → r.nc + 1 ≤ r.p
    → r.p < 2 ^ 32
    → allow r time ≡ (record r { nc = r.nc + 1 }, leb (r.nc + 1) r.n)
unfolding allow
allow_within r time early h k =
    let small : (r.nc + 1) % 2 ^ 32 ≡ r.nc + 1 = omega arith in
    let left : leb (r.nc + 1) r.p ≡ true = ground arith in
    elim (Bool-cases (leb (r.nc + 1) r.n)) [
      | inl e ↦ rw (early, small, e) refl
      | inr e ↦ rw (early, small, e, left) refl
    ]

-- Of the events in a cycle of at most `p` that come before the interval ends, those are allowed that
-- are left of the `n`.
pub allowed-min :
    (r : RateLimiter) (times : List Timestamp)
    → All (λ time. time_less time r.exp ≡ true) times
    → r.nc + length times ≤ r.p
    → r.p < 2 ^ 32
    → allowed r times + min r.n r.nc ≡ min r.n (r.nc + length times)
unfolding allowed
allowed-min r [] a h k = omega arith
allowed-min r (time ∷ times) (early, a) h k =
    let next : RateLimiter = record r { nc = r.nc + 1 } in
    let rest : allowed next times + min r.n (r.nc + 1) ≡ min r.n (r.nc + 1 + length times) =
      allowed-min next times a (omega arith) k in
    rw (allow_within r time early (omega arith) k) (ground (arith, rest))

-- When 2 ^ 32 - 1 events of a cycle were counted, the next one before the interval ends is allowed,
-- and the limiter has all its `n` events before it again.
pub allow_wraps :
    (r : RateLimiter) (time : Timestamp)
    → time_less time r.exp ≡ true
    → r.nc ≡ 2 ^ 32 - 1
    → allow r time ≡ (record r { nc = 0 }, true)
unfolding allow
allow_wraps r time early h =
    let wraps : (r.nc + 1) % 2 ^ 32 ≡ 0 = omega arith in
    let least : leb 0 r.n ≡ true = ground arith in rw (early, wraps, least) refl
