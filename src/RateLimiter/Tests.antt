-- ===== src/RateLimiter/Tests.antt =====
-- The theorems on a limiter of 2 events of 4.
use libofp.Base.{ℕ, List, [], ◌∷◌, ◌≡◌, true, refl}
use libofp.Timestamp.{Timestamp}
use libofp.RateLimiter.{RateLimiter, allow, allow_wraps}

abbrev at : ℕ → Timestamp
at s = record { seconds = s; nanoseconds = 0 }

abbrev two_of_four : RateLimiter
two_of_four = record { exp = at 20; t = at 10; nc = 1; n = 2; p = 4 }

abbrev events : List Timestamp
events = at 11 ∷ at 12 ∷ at 13 ∷ []

abbrev at_the_end : RateLimiter
at_the_end = record { exp = at 20; t = at 10; nc = 0xffff_ffff; n = 5; p = 0xffff_ffff }

allow_wraps_example : allow at_the_end (at 11) ≡ (record at_the_end { nc = 0 }, true)
allow_wraps_example = allow_wraps at_the_end (at 11) refl refl
