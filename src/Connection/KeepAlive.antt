-- ===== src/Connection/KeepAlive.antt =====
-- What a connection does that is idle: the ticks of the engine's timer, with no read between them. A listener is
-- asked first: it passes a tick, takes it, or shuts the channel down and takes it, as DefaultHandshake
-- does in src/ofp/sys/defaulthandshake.cpp.
use libofp.Base.{
  ℕ, ◌-◌, ◌*◌, ◌<◌, ◌≤◌, ◌≡◌, Bool, true, false, ◌&&◌, ◌||◌, not, List, [], ◌∷◌, ◌++◌, All, arith,
  ltb, leb, if◌then◌else◌, refl, ◌∙◌, ap, sym, append_nil, Bool-cases, inl, inr,
}
use libofp.Connection.{Connection, Event, echo_request, shutdown, tickle}

pub data Answer : Type 0 where
  passes : Answer
  takes : Answer
  shuts_down : Answer

-- A tick, with the answer of the listener's `onTickle`
pub record Tick : Type 0 where
  pub now : ℕ
  pub answer : Answer

-- What the listener does to its channel
unfoldable pub listened : Answer → Connection → Connection
unfolding shutdown
listened passes c = c
listened takes c = c
listened shuts_down c = shutdown false c

unfoldable pub is_taken : Answer → Bool
is_taken passes = false
is_taken takes = true
is_taken shuts_down = true

unfoldable pub tick : Tick → Connection → Connection
unfolding listened tickle
tick t c = tickle (is_taken t.answer) t.now (listened t.answer c)

unfoldable pub tick_all : List Tick → Connection → Connection
tick_all [] c = c
tick_all (t ∷ ticks) c = tick_all ticks (tick t c)

-- Whether a tick comes when the connection was idle for the timeout, and is passed on
unfoldable pub is_due : Connection → Tick → Bool
is_due c t = not (is_taken t.answer) && leb c.keep_alive_timeout (t.now - c.time_read_started)

unfoldable pub reaches_timeout : Connection → List Tick → Bool
unfolding is_due
reaches_timeout c [] = false
reaches_timeout c (t ∷ ticks) = is_due c t || reaches_timeout c ticks

unfoldable pub is_shut_by : Answer → Bool
is_shut_by passes = false
is_shut_by takes = false
is_shut_by shuts_down = true

-- Whether the listener shuts the channel down
unfoldable pub is_shut_by_one : List Tick → Bool
unfolding is_shut_by
is_shut_by_one [] = false
is_shut_by_one (t ∷ ticks) = is_shut_by t.answer || is_shut_by_one ticks

-- A tick changes neither the timer nor the socket, and a connection that was shut down stays so.
record Keeps (c d : Connection) : Type 0 where
  pub started : d.time_read_started ≡ c.time_read_started
  pub timeout : d.keep_alive_timeout ≡ c.keep_alive_timeout
  pub open_kept : d.is_open ≡ c.is_open
  pub version_kept : d.version ≡ c.version

tickle-Keeps : (taken : Bool) (now : ℕ) (c : Connection) → Keeps c (tickle taken now c)
unfolding tickle
tickle-Keeps taken now c = ground arith

listened-Keeps : (answer : Answer) (c : Connection) → Keeps c (listened answer c)
unfolding listened
listened-Keeps passes c = ground arith
listened-Keeps takes c = ground arith
listened-Keeps shuts_down c = ground arith

tick-Keeps : (t : Tick) (c : Connection) → Keeps c (tick t c)
unfolding tick
tick-Keeps t c =
    let k : Keeps c (listened t.answer c) = listened-Keeps t.answer c in
    let l : Keeps (listened t.answer c) (tick t c) =
      tickle-Keeps (is_taken t.answer) t.now (listened t.answer c) in
    record {
      started = l.started ∙ k.started;
      timeout = l.timeout ∙ k.timeout;
      open_kept = l.open_kept ∙ k.open_kept;
      version_kept = l.version_kept ∙ k.version_kept;
    }

last_tick :
    (t : Tick) (c : Connection)
    → t.answer ≡ passes
    → c.is_open ≡ true
    → 2 * c.keep_alive_timeout ≤ t.now - c.time_read_started
    → (tick t c).shutdown_called ≡ true
unfolding tick tickle listened is_taken
last_tick t c p o h = rw p (ground arith)

-- An open connection whose last read began two timeouts before a tick that its listener passes on, or
-- that comes when it has none, is shut down by this tick at the latest, whatever ticks came before and
-- whatever the listener answered.
pub tick_all-IsShutDown :
    (ticks : List Tick) (t : Tick) (c : Connection)
    → t.answer ≡ passes
    → c.is_open ≡ true
    → 2 * c.keep_alive_timeout ≤ t.now - c.time_read_started
    → (tick_all (ticks ++ (t ∷ [])) c).shutdown_called ≡ true
unfolding tick_all
tick_all-IsShutDown [] t c p o h = last_tick t c p o h
tick_all-IsShutDown (s ∷ ticks) t c p o h =
    let k : Keeps c (tick s c) = tick-Keeps s c in
    let e : t.now - (tick s c).time_read_started ≡ t.now - c.time_read_started =
      ap (λ x. t.now - x) k.started in
    tick_all-IsShutDown ticks t (tick s c) p (k.open_kept ∙ o) (omega (arith, h, e, k.timeout))

-- Before two timeouts, a tick sends at most the echo request, and makes the connection idle by it.
abbrev IsTick : Tick → Connection → Connection → Type 0
IsTick t c d =
    (d.shutdown_called ≡ (c.shutdown_called || (c.is_open && is_shut_by t.answer)))
    × (d.channel_idle ≡ (c.channel_idle || is_due c t))
    × (d.events ≡ c.events ++ (if is_due c t && not c.channel_idle then echo_request ∷ [] else []))

or-false : (b : Bool) → b ≡ b || false
or-false true = refl
or-false false = refl

or-and-false : (b o : Bool) → b ≡ b || (o && false)
or-and-false true o = refl
or-and-false false true = refl
or-and-false false false = refl

-- A tick that shuts down, and those behind it
shut_once : (s o a b : Bool) → ((s || (o && a)) || (o && b)) ≡ (s || (o && (a || b)))
shut_once true o a b = refl
shut_once false true a b = refl
shut_once false false a b = refl

-- The request of a tick and that of the ticks behind it
one_request :
    (xs : List Event) (due later idle : Bool)
    → (xs ++ (if due && not idle then echo_request ∷ [] else []))
        ++ (if later && not (idle || due) then echo_request ∷ [] else [])
      ≡ xs ++ (if (due || later) && not idle then echo_request ∷ [] else [])
one_request xs true true true = append_nil (xs ++ [])
one_request xs true false true = append_nil (xs ++ [])
one_request xs true true false = append_nil (xs ++ (echo_request ∷ []))
one_request xs true false false = append_nil (xs ++ (echo_request ∷ []))
one_request xs false later true =
    ap (λ l. l ++ (if later && false then echo_request ∷ [] else [])) (append_nil xs)
one_request xs false later false =
    ap (λ l. l ++ (if later && true then echo_request ∷ [] else [])) (append_nil xs)

-- A tick that the listener takes
taken-IsTick :
    (answer : Answer) (now : ℕ) (c : Connection)
    → is_taken answer ≡ true
    → IsTick
        (record { now = now; answer = answer })
        c
        (tick (record { now = now; answer = answer }) c)
unfolding tick tickle listened is_taken is_due is_shut_by
taken-IsTick passes now c e = absurd cc
taken-IsTick takes now c e =
    (or-and-false c.shutdown_called c.is_open, or-false c.channel_idle, sym (append_nil c.events))
taken-IsTick shuts_down now c e = elim (Bool-cases c.shutdown_called) [
  | inl s ↦ rw s (refl, or-false c.channel_idle, sym (append_nil c.events))
  | inr s ↦ elim (Bool-cases c.is_open) [
    | inl o ↦ rw (s, o) (refl, or-false c.channel_idle, sym (append_nil c.events))
    | inr o ↦ rw (s, o) (refl, or-false c.channel_idle, sym (append_nil c.events))
  ]
]

passed-IsTick :
    (now : ℕ) (c : Connection)
    → 1 ≤ c.version
    → now - c.time_read_started < 2 * c.keep_alive_timeout
    → IsTick
        (record { now = now; answer = passes })
        c
        (tick (record { now = now; answer = passes }) c)
unfolding tick tickle listened is_taken is_due is_shut_by
passed-IsTick now c v h = elim (Bool-cases (leb c.keep_alive_timeout (now - c.time_read_started))) [
  | inr early ↦
      let soon : ltb (now - c.time_read_started) c.keep_alive_timeout ≡ true = ground arith in
      rw (early, soon)
        (
          or-and-false c.shutdown_called c.is_open,
          or-false c.channel_idle,
          sym (append_nil c.events),
        )
  | inl due ↦
      let late : ltb (now - c.time_read_started) c.keep_alive_timeout ≡ false = ground arith in
      let old : ltb c.version 1 ≡ false = ground arith in
      let twice : leb (2 * c.keep_alive_timeout) (now - c.time_read_started) ≡ false =
        ground arith in
      let shut = or-and-false c.shutdown_called c.is_open in
      elim (Bool-cases c.channel_idle) [
        | inl again ↦ rw (due, late, old, twice, again) (shut, refl, sym (append_nil c.events))
        | inr first ↦ rw (due, late, old, twice, first) (shut, refl, refl)
      ]
]

answered-IsTick :
    (answer : Answer) (now : ℕ) (c : Connection)
    → 1 ≤ c.version
    → now - c.time_read_started < 2 * c.keep_alive_timeout
    → IsTick
        (record { now = now; answer = answer })
        c
        (tick (record { now = now; answer = answer }) c)
unfolding is_taken
answered-IsTick passes now c v h = passed-IsTick now c v h
answered-IsTick takes now c v h = taken-IsTick takes now c refl
answered-IsTick shuts_down now c v h = taken-IsTick shuts_down now c refl

tick-IsTick :
    (t : Tick) (c : Connection)
    → 1 ≤ c.version
    → t.now - c.time_read_started < 2 * c.keep_alive_timeout
    → IsTick t c (tick t c)
tick-IsTick t c v h = answered-IsTick t.answer t.now c v h

reaches-Keeps :
    (c d : Connection) (ticks : List Tick)
    → Keeps c d
    → reaches_timeout d ticks ≡ reaches_timeout c ticks
unfolding reaches_timeout is_due
reaches-Keeps c d [] k = refl
reaches-Keeps c d (t ∷ ticks) k = rw (k.started, k.timeout, reaches-Keeps c d ticks k) refl

-- Ticks that all come before a connection of a known version was idle for two timeouts shut it down
-- only where the listener does so, and send one echo request in all, if it was not idle before and a
-- tick that the listener passes on comes when it was idle for the timeout, and nothing otherwise.
pub tick_all-events :
    (ticks : List Tick) (c : Connection)
    → 1 ≤ c.version
    → All (λ t. t.now - c.time_read_started < 2 * c.keep_alive_timeout) ticks
    → ((tick_all ticks c).shutdown_called
        ≡ (c.shutdown_called || (c.is_open && is_shut_by_one ticks)))
      × ((tick_all ticks c).events
          ≡ c.events
            ++ (if reaches_timeout c ticks && not c.channel_idle then echo_request ∷ [] else []))
unfolding tick_all reaches_timeout is_shut_by_one
tick_all-events [] c v h = (or-and-false c.shutdown_called c.is_open, sym (append_nil c.events))
tick_all-events (t ∷ ticks) c v (h, rest) =
    let k : Keeps c (tick t c) = tick-Keeps t c in
    let i : IsTick t c (tick t c) = tick-IsTick t c v h in
    let r : reaches_timeout (tick t c) ticks ≡ reaches_timeout c ticks =
      reaches-Keeps c (tick t c) ticks k in
    let (shut, sent) =
      tick_all-events ticks (tick t c) (omega (arith, k.version_kept))
        (rw (k.started, k.timeout) rest) in
    (
      shut
          ∙ rw (i.0, k.open_kept)
              (shut_once c.shutdown_called c.is_open (is_shut_by t.answer) (is_shut_by_one ticks)),
      sent
          ∙ rw (i.2, i.1, r)
              (one_request c.events (is_due c t) (reaches_timeout c ticks) c.channel_idle),
    )
