-- ===== src/Connection.antt =====
-- Connection of src/ofp/sys/connection.cpp, with the shutdown of
-- include/ofp/sys/tcp_connection.ipp. Pointers to connections are addresses. The flags are fields of
-- their own, and `events` lists what the connection sends and calls, in order. What a listener does
-- when it is called is its own code and has no model but its answers to ticks, in KeepAlive; times
-- are in milliseconds.
pub mod KeepAlive
pub mod Tests
use libofp.Base.{
  ℕ, ◌+◌, ◌-◌, ◌*◌, Bool, true, false, ◌&&◌, ◌||◌, not, List, [], ◌∷◌, ◌++◌, ltb, leb, ◌==◌,
  if◌then◌else◌, bit_and,
}

pub data Event : Type 0 where
  up : Event
  down : Event
  alerted : Event
  echo_request : Event
  echo_reply : Event
  delivered : Event

pub record Connection : Type 0 where
  pub connection_id : ℕ
  pub datapath_id : ℕ
  pub auxiliary_id : ℕ
  pub main_conn : ℕ
  pub aux_list : List ℕ
  pub version : ℕ
  pub time_read_started : ℕ
  pub keep_alive_timeout : ℕ
  pub is_open : Bool
  pub shutdown_called : Bool
  pub manual_delete : Bool
  pub requires_handshake : Bool
  pub channel_up : Bool
  pub shutdown_done : Bool
  pub channel_idle : Bool
  pub permits_auxiliary : Bool
  pub permits_other_versions : Bool
  pub default_controller : Bool
  pub connection_up : Bool
  pub events : List Event

abbrev pub keep_alive_default_timeout : ℕ
keep_alive_default_timeout = 10000

-- The constructor, at the address `this`, with the number that the engine assigned. The socket is
-- open where it was accepted by a server.
unfoldable pub new_connection : Bool → ℕ → ℕ → ℕ → Connection
new_connection is_open this connection_id now = record {
  connection_id = connection_id;
  datapath_id = 0;
  auxiliary_id = 0;
  main_conn = this;
  aux_list = [];
  version = 0;
  time_read_started = now;
  keep_alive_timeout = keep_alive_default_timeout;
  is_open = is_open;
  shutdown_called = false;
  manual_delete = false;
  requires_handshake = false;
  channel_up = false;
  shutdown_done = false;
  channel_idle = false;
  permits_auxiliary = false;
  permits_other_versions = false;
  default_controller = false;
  connection_up = false;
  events = [];
}

-- `setFlags` with the bits of ChannelOptions: FEATURES_REQ 1, AUXILIARY 2 and NO_VERSION_CHECK 4
unfoldable pub set_flags : ℕ → ℕ → Connection → Connection
set_flags security_id options c = record c {
  requires_handshake = c.requires_handshake || not (security_id == 0);
  permits_auxiliary = c.permits_auxiliary || not (bit_and options 2 == 0);
  permits_other_versions = c.permits_other_versions || not (bit_and options 4 == 0);
  default_controller = c.default_controller || not (bit_and options 1 == 0);
}

-- `async_connect` opens the socket of a client.
unfoldable pub open_socket : Connection → Connection
open_socket c = record c { is_open = true }

abbrev pub emit : Event → Connection → Connection
emit event c = record c { events = c.events ++ (event ∷ []) }

-- `channelUp` and `channelDown`
unfoldable pub come_up : Connection → Connection
come_up c = if c.channel_up then c else emit up (record c { channel_up = true })

unfoldable pub go_down : Connection → Connection
go_down c = if c.channel_up then emit down (record c { channel_up = false }) else c

unfoldable pub update_time_read_started : ℕ → Connection → Connection
update_time_read_started now c = record c { time_read_started = now; channel_idle = false }

-- `TCP_Connection::shutdown`, up to the handler that the socket calls later
unfoldable pub shutdown : Bool → Connection → Connection
unfolding go_down
shutdown reset c =
    if c.shutdown_called
    then c
    else if not c.is_open
    then c
    else if reset
    then record (go_down (record c { shutdown_called = true; shutdown_done = true })) {
      is_open = false;
    }
    else record c { shutdown_called = true }

-- The handler of `async_shutdown`
unfoldable pub finish_shutdown : Connection → Connection
finish_shutdown c = record c { shutdown_done = true; is_open = false }

-- `taken` is the answer of the listener's `onTickle`.
unfoldable pub tickle : Bool → ℕ → Connection → Connection
unfolding shutdown
tickle taken now c =
    let age : ℕ = now - c.time_read_started in
    if taken
    then c
    else if ltb age c.keep_alive_timeout
    then c
    else if ltb c.version 1 || leb (2 * c.keep_alive_timeout) age
    then shutdown false (emit alerted c)
    else if not c.channel_idle
    then emit echo_request (record c { channel_idle = true })
    else c

-- The echo messages by their type, and whether they are to be passed through or keep alive, if they
-- are valid
pub data Incoming : Type 0 where
  request : Bool → Incoming
  reply : Bool → Incoming
  other_message : Incoming

unfoldable pub echo_message_handled : Incoming → Connection → Connection × Bool
echo_message_handled (request pass_thru) c =
    if pass_thru then (c, false) else (emit echo_reply c, true)
echo_message_handled (reply keep_alive) c = (c, keep_alive)
echo_message_handled other_message c = (c, false)

-- `postMessage`: a message that is not handled goes to the listener of the main connection, if that
-- has one.
unfoldable pub post_message : Bool → Incoming → Connection → Connection
unfolding echo_message_handled
post_message has_listener message c =
    let handled : Connection × Bool = echo_message_handled message c in
    if leb 1 c.version && handled.1 then handled.0 else if has_listener then emit delivered c else c
