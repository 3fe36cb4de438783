-- ===== src/Connection/Tests.antt =====
-- Runs of the connection of src/ofp/sys/connection.cpp on sample inputs.
use libofp.Base.{ℕ, List, ◌++◌, ◌≡◌, true, false, [], ◌∷◌, refl, arith}
use libofp.Connection.{
  Connection, up, down, alerted, echo_request, echo_reply, delivered, new_connection, set_flags,
  come_up, shutdown, tickle, finish_shutdown, update_time_read_started, post_message, request,
  reply,
}
use libofp.Connection.KeepAlive.{
  Tick, passes, takes, shuts_down, tick_all, tick, listened, is_taken, reaches_timeout, is_due,
  is_shut_by_one, is_shut_by, tick_all-IsShutDown, tick_all-events,
}

abbrev sample : Connection
sample = record (new_connection true 7 1 500) { version = 4 }

abbrev passed : ℕ → Tick
passed now = record { now = now; answer = passes }

-- A connection that answers once, and then no more
keep_alive :
    (tick_all
      (passed 13000 ∷ passed 14000 ∷ passed 24000 ∷ [])
      (update_time_read_started 4000 (tick_all (passed 11000 ∷ []) sample))).events
    ≡ echo_request ∷ echo_request ∷ alerted ∷ []
unfolding tick_all tick listened is_taken tickle update_time_read_started new_connection
keep_alive = refl

reset_once :
    (shutdown true (shutdown true (come_up (set_flags 1 3 sample)))).events ≡ up ∷ down ∷ []
unfolding shutdown come_up set_flags new_connection
reset_once = refl

finished : (finish_shutdown (shutdown false sample)).is_open ≡ false
unfolding finish_shutdown shutdown new_connection
finished = refl

echoes :
    (post_message true
      (reply true)
      (post_message true (request true) (post_message true (request false) sample))).events
    ≡ echo_reply ∷ delivered ∷ []
unfolding post_message new_connection
echoes = refl

-- A tick that the handshake takes, and one that is passed on when it is gone
abbrev early : List Tick
early = record { now = 2000; answer = takes } ∷ passed 11000 ∷ []

tick_all-IsShutDown_example :
    (tick_all (early ++ (passed 20500 ∷ [])) sample).shutdown_called ≡ true
unfolding new_connection
tick_all-IsShutDown_example =
    tick_all-IsShutDown early (passed 20500) sample refl refl (omega arith)

tick_all-events_example :
    ((tick_all (early ++ (passed 12000 ∷ [])) sample).shutdown_called ≡ false)
    × ((tick_all (early ++ (passed 12000 ∷ [])) sample).events ≡ echo_request ∷ [])
unfolding new_connection reaches_timeout is_due is_taken is_shut_by_one is_shut_by
tick_all-events_example =
    tick_all-events (early ++ (passed 12000 ∷ [])) sample (omega arith)
      (omega arith, (omega arith, (omega arith, tt)))

timed_out_handshake :
    (tick_all (record { now = 5600; answer = shuts_down } ∷ []) sample).shutdown_called ≡ true
unfolding tick_all tick listened is_taken tickle shutdown new_connection
timed_out_handshake = refl
