-- ===== src/Demux/Segment/Order.antt =====
-- Segment::lessThan: the order of sequence numbers round the 32-bit circle.
use libofp.Base.{ℕ, ◌^◌, ◌<◌, ◌≡◌, ◌↔◌, true, ltb, sub32, arith}
use libofp.Demux.Segment.{less_than}

-- `lhs` is less than `rhs` exactly when the way up from `lhs` to `rhs`, modulo 2 ^ 32, is shorter
-- than half the circle and not zero.
pub less_than_iff :
    (lhs rhs : ℕ)
    → lhs < 2 ^ 32
    → rhs < 2 ^ 32
    → (less_than lhs rhs ≡ true) ↔ ((0 < sub32 rhs lhs) × (sub32 rhs lhs < 2 ^ 31))
less_than_iff lhs rhs hl hr = ground arith

-- Within a window of half the circle, counted from `base`, it is the order of the distances from
-- `base`.
pub less_than_window :
    (base lhs rhs : ℕ)
    → base < 2 ^ 32
    → lhs < 2 ^ 32
    → rhs < 2 ^ 32
    → sub32 lhs base < 2 ^ 31
    → sub32 rhs base < 2 ^ 31
    → less_than lhs rhs ≡ ltb (sub32 lhs base) (sub32 rhs base)
less_than_window base lhs rhs hb hl hr wl wr = ground arith
