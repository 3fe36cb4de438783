-- ===== src/Handshake.antt =====
-- DefaultHandshake of src/ofp/sys/defaulthandshake.cpp: the listener of a new connection until the
-- version and the features of the peer are known. A message is given with what its class's `cast`
-- makes of it: none if it is not valid. The engine's answer to `postDatapath` comes with the message
-- that asks it. The xid and the keep-alive timeout of the channel are left out.
pub mod Phases
pub mod Tests
pub mod Exchange
pub mod Soundness
use libofp.Base.{
  ℕ, ◌+◌, ◌-◌, ◌/◌, ◌%◌, ◌^◌, Bool, true, false, ◌&&◌, not, List, [], ◌∷◌, ◌++◌, length, is_empty,
  take, drop, leb, ltb, if◌then◌else◌, ◌==◌, ◌≡◌, Option, none, some,
}
use libofp.Versions.{highest_version, negotiate_version}
use libofp.Hello.{Hello, hello_of, protocol_versions}
use libofp.ProtocolRange.{big16}

-- HandshakeState
pub data Phase : Type 0 where
  handshake_init : Phase
  sent_hello : Phase
  sent_features_request : Phase
  sent_port_request : Phase

-- The listener of the channel: the handshake, one of the factory, or none.
pub data Listener : Type 0 where
  handshake : Listener
  installed : Listener
  cleared : Listener

pub data Sent : Type 0 where
  hello : Hello → Sent
  features_request : Sent
  port_desc_request : Sent
  hello_failed : Sent

-- What `postDatapath` and `mainConnection` answer.
pub data Posted : Type 0 where
  refused : Posted
  main_connection : Posted
  auxiliary_connection : Posted

pub data Message : Type 0 where
  hello_message : Option Hello → Message
  features_reply : Option (List ℕ) → Posted → Message
  error : Message
  port_desc_reply : Option (List ℕ) → Message
  other : Message

-- The handshake with the parts of the channel that it sets. `reply` is `featuresReply_`.
pub record Handshake : Type 0 where
  pub wants_features : Bool
  pub auxiliary : Bool
  pub versions : ℕ
  pub has_factory : Bool
  pub phase : Phase
  pub time_started : ℕ
  pub reply : List ℕ
  pub version : ℕ
  pub listener : Listener
  pub sent : List Sent
  pub is_shutdown : Bool

-- A new handshake on a new channel
abbrev pub start : Bool → Bool → ℕ → Bool → Handshake
start wants_features auxiliary versions has_factory = record {
  wants_features = wants_features;
  auxiliary = auxiliary;
  versions = versions;
  has_factory = has_factory;
  phase = handshake_init;
  time_started = 0;
  reply = [];
  version = 0;
  listener = handshake;
  sent = [];
  is_shutdown = false;
}

abbrev pub handshake_timeout : ℕ
handshake_timeout = 5000

-- A message is sent, the phase is set, and the time runs again.
abbrev pub enter : Handshake → Phase → Sent → ℕ → Handshake
enter s phase message now = record s {
  phase = phase;
  sent = s.sent ++ (message ∷ []);
  time_started = now;
}

unfoldable pub send_hello : Handshake → ℕ → Handshake
send_hello s now = enter s sent_hello (hello (hello_of s.versions)) now

unfoldable pub send_features_request : Handshake → ℕ → Handshake
send_features_request s now = enter s sent_features_request features_request now

unfoldable pub send_port_desc_request : Handshake → ℕ → Handshake
send_port_desc_request s now = enter s sent_port_request port_desc_request now

unfoldable pub clear_channel_listener : Handshake → Handshake
clear_channel_listener s = record s { listener = cleared }

unfoldable pub install_new_channel_listener : Handshake → Handshake
unfolding clear_channel_listener
install_new_channel_listener s =
    if s.has_factory then record s { listener = installed } else clear_channel_listener s

unfoldable pub shutdown : Handshake → Handshake
shutdown s = record s { is_shutdown = true }

-- `state_ > kSentHello`
unfoldable pub is_past_hello : Phase → Bool
is_past_hello handshake_init = false
is_past_hello sent_hello = false
is_past_hello sent_features_request = true
is_past_hello sent_port_request = true

unfoldable pub is_sent_features : Phase → Bool
is_sent_features sent_features_request = true
is_sent_features _ = false

unfoldable pub is_sent_port : Phase → Bool
is_sent_port sent_port_request = true
is_sent_port _ = false

-- The branch of `onHello` with no version in common
unfoldable pub refuse_version : Handshake → Handshake
refuse_version s =
    let t : Handshake = record s { version = highest_version s.versions } in
    let u : Handshake =
      if t.wants_features then t else record t { sent = t.sent ++ (hello_failed ∷ []) } in
    shutdown u

-- The branch with a version
unfoldable pub take_version : Handshake → ℕ → ℕ → Handshake
take_version s version now =
    let t : Handshake = record s { version = version } in
    if t.wants_features then send_features_request t now else install_new_channel_listener t

unfoldable pub on_hello : Handshake → Option Hello → ℕ → Handshake
on_hello s message now = if is_past_hello s.phase then s else elim message [
  | none ↦ s
  | some msg ↦
      let version : ℕ = negotiate_version s.versions msg.version (protocol_versions msg) in
      if version == 0 then refuse_version s else take_version s version now
]

-- The branch for a connection that is not auxiliary
unfoldable pub keep_reply : Handshake → List ℕ → ℕ → Handshake
keep_reply s bytes now =
    let t : Handshake = record s { reply = bytes } in
    if ltb 1 t.version then send_port_desc_request t now else install_new_channel_listener t

unfoldable pub on_features_reply : Handshake → Option (List ℕ) → Posted → ℕ → Handshake
on_features_reply s message posted now =
    if not (is_sent_features s.phase) then s else elim message [
      | none ↦ s
      | some bytes ↦ elim posted [
        | refused ↦ shutdown s
        | main_connection ↦ keep_reply s bytes now
        | auxiliary_connection ↦
            if s.auxiliary then clear_channel_listener s else keep_reply s bytes now
      ]
    ]

-- `Header::setLength`, on the bytes of a message
unfoldable pub set_length : List ℕ → ℕ → List ℕ
set_length bytes n = take 2 bytes ++ (n / 256 % 256 ∷ n % 256 ∷ drop 4 bytes)

unfoldable pub append_ports : List ℕ → List ℕ → List ℕ
append_ports reply ports =
    if is_empty ports then reply else set_length reply (big16 reply 2 + length ports) ++ ports

unfoldable pub on_port_desc_reply : Handshake → Option (List ℕ) → Handshake
on_port_desc_reply s message = if not (is_sent_port s.phase) then s else elim message [
  | none ↦ s
  | some ports ↦ install_new_channel_listener (record s { reply = append_ports s.reply ports })
]

unfoldable pub on_message : Handshake → Message → ℕ → Handshake
on_message s (hello_message message) now = on_hello s message now
on_message s (features_reply message posted) now = on_features_reply s message posted now
on_message s error now = s
on_message s (port_desc_reply message) now = on_port_desc_reply s message
on_message s other now = s

unfoldable pub on_channel_up : Handshake → ℕ → Handshake
on_channel_up s now = send_hello s now

unfoldable pub on_tickle : Handshake → ℕ → Handshake
on_tickle s now = if leb handshake_timeout (now - s.time_started) then shutdown s else s

-- What the channel makes of a handshake that is its listener, with the message that it received
pub data Step : Handshake → List Message → Handshake → Type 0 where
  receives :
      {s : Handshake} (m : Message) (now : ℕ)
      → s.listener ≡ handshake
      → Step s (m ∷ []) (on_message s m now)
  ticks : {s : Handshake} (now : ℕ) → s.listener ≡ handshake → Step s [] (on_tickle s now)

-- The states of a handshake after its channel is up, with the messages that it received, the last one
-- first
pub data Reached (wants_features auxiliary : Bool) (versions : ℕ) (has_factory : Bool)
    : List Message → Handshake → Type 0 where
  up :
      (now : ℕ)
      → Reached wants_features auxiliary versions has_factory []
          (on_channel_up (start wants_features auxiliary versions has_factory) now)
  next :
      {ms new : List Message} {s t : Handshake}
      → Reached wants_features auxiliary versions has_factory ms s
      → Step s new t
      → Reached wants_features auxiliary versions has_factory (new ++ ms) t
