-- ===== src/Timestamp.antt =====
-- Timestamp of include/ofp/timestamp.h: seconds (UInt64) and nanoseconds (UInt32, below one second),
-- compared as a pair. A TimeInterval is a Timestamp.
use libofp.Base.{
  ℕ, ◌+◌, ◌-◌, ◌*◌, ◌%◌, ◌^◌, ◌<◌, ◌≡◌, ◌↔◌, Bool, true, ◌&&◌, ◌||◌, ltb, leb, ◌==◌, if◌then◌else◌,
  arith,
}

pub record Timestamp : Type 0 where
  pub seconds : ℕ
  pub nanoseconds : ℕ

abbrev pub nano_units : ℕ
nano_units = 1_000_000_000

abbrev pub zero_time : Timestamp
zero_time = record { seconds = 0; nanoseconds = 0 }

-- `Timestamp::kInfinity`
abbrev pub infinity : Timestamp
infinity = record { seconds = 0xffff_ffff_ffff_ffff; nanoseconds = nano_units - 1 }

abbrev pub time_eq : Timestamp → Timestamp → Bool
time_eq a b = a.seconds == b.seconds && a.nanoseconds == b.nanoseconds

-- `operator<` of the pair
abbrev pub time_less : Timestamp → Timestamp → Bool
time_less a b =
    ltb a.seconds b.seconds || (a.seconds == b.seconds && ltb a.nanoseconds b.nanoseconds)

-- `operator+`, with the carry of a second. The seconds are a UInt64; the nanoseconds do not wrap,
-- since both are below one second.
unfoldable pub add_time : Timestamp → Timestamp → Timestamp
add_time a b =
    let sec = (a.seconds + b.seconds) % 2 ^ 64 in
    let nano = (a.nanoseconds + b.nanoseconds) % 2 ^ 32 in
    if leb nano_units nano
    then record { seconds = (sec + 1) % 2 ^ 64; nanoseconds = nano - nano_units }
    else record { seconds = sec; nanoseconds = nano }

-- `secondsSince` in nanoseconds, without its sign: 0 where the result of the source is negative.
unfoldable pub nanos_since : Timestamp → Timestamp → ℕ
nanos_since now ts =
    if time_less now ts
    then 0
    else (let diff = now.seconds - ts.seconds in
        if leb ts.nanoseconds now.nanoseconds
        then diff * nano_units + (now.nanoseconds - ts.nanoseconds)
        else (diff - 1) * nano_units + (nano_units - ts.nanoseconds + now.nanoseconds))

-- The invariant of the class.
abbrev pub IsTime : Timestamp → Type 0
IsTime t = (t.seconds < 2 ^ 64) × (t.nanoseconds < nano_units)

-- The value of a time in nanoseconds.
abbrev pub nanos : Timestamp → ℕ
nanos t = t.seconds * nano_units + t.nanoseconds

-- Adding an interval adds the values, where the seconds of the sum fit 64 bits, and gives a time.
pub nanos-add_time :
    (a b : Timestamp)
    → IsTime a
    → IsTime b
    → a.seconds + b.seconds + 1 < 2 ^ 64
    → IsTime (add_time a b) × (nanos (add_time a b) ≡ nanos a + nanos b)
unfolding add_time
nanos-add_time a b ha hb h = ground arith

-- The elapsed time is the difference of the values, where it is not negative, and 0 otherwise.
pub nanos_since_lem :
    (now ts : Timestamp) → IsTime now → IsTime ts → nanos_since now ts ≡ nanos now - nanos ts
unfolding nanos_since
nanos_since_lem now ts hn ht = ground arith

-- The comparison is that of the values.
pub time_less_iff :
    (a b : Timestamp) → IsTime a → IsTime b → (time_less a b ≡ true) ↔ (nanos a < nanos b)
time_less_iff a b ha hb = ground arith
