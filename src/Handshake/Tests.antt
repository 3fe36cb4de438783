-- ===== src/Handshake/Tests.antt =====
-- The theorems on a controller and on a raw connection.
use libofp.Base.{ℕ, List, [], ◌∷◌, ◌≡◌, true, false, some, refl, arith}
use libofp.Versions.{
  contains_version, highest_version, highest_from, negotiate_version, include_in_hello_msg,
}
use libofp.Hello.{hello_of, settle, send, send_version, send_bitmap, protocol_versions}
use libofp.ProtocolRange.{big16}
use libofp.Handshake.{
  Handshake, start, on_channel_up, on_hello, on_message, send_hello, hello_message, is_past_hello,
  Message, features_reply, port_desc_reply, main_connection, installed, on_features_reply,
  on_port_desc_reply, keep_reply, take_version, send_features_request, send_port_desc_request,
  install_new_channel_listener, is_sent_features, is_sent_port,
}
use libofp.Handshake.Exchange.{on_hello_agree, HasLength}

-- Versions 1.0 and 1.3
abbrev old_and_new : ℕ
old_and_new = 18

-- Versions 1.0 to 1.4
abbrev up_to_5 : ℕ
up_to_5 = 62

abbrev controller : Handshake
controller = on_channel_up (start true true old_and_new true) 1

abbrev switch : Handshake
switch = on_channel_up (start false false up_to_5 true) 2

-- A message of 12 bytes
abbrev features : List ℕ
features = 4 ∷ 6 ∷ 0 ∷ 12 ∷ 0 ∷ 0 ∷ 0 ∷ 1 ∷ 7 ∷ 7 ∷ 7 ∷ 7 ∷ []

abbrev answered : Handshake
answered = on_message controller (hello_message (some (hello_of up_to_5))) 3

-- The features reply of the peer, and its ports: the listener of the factory is installed.
abbrev came : List Message
came =
    port_desc_reply (some (1 ∷ 2 ∷ []))
    ∷ features_reply (some features) main_connection
    ∷ hello_message (some (hello_of up_to_5))
    ∷ []

abbrev asked : Handshake
asked = on_message answered (features_reply (some features) main_connection) 4

abbrev ready : Handshake
ready = on_message asked (port_desc_reply (some (1 ∷ 2 ∷ []))) 5

is_ready : ready.listener ≡ installed
unfolding on_channel_up send_hello on_message on_hello on_features_reply on_port_desc_reply
    keep_reply take_version send_features_request send_port_desc_request
    install_new_channel_listener is_past_hello is_sent_features is_sent_port hello_of send
    send_version send_bitmap protocol_versions negotiate_version highest_version highest_from
    include_in_hello_msg
is_ready = refl

on_hello_agree_example :
    ((on_hello controller (some (hello_of up_to_5)) 3).version
      ≡ (on_hello switch (some (hello_of old_and_new)) 4).version)
    × (contains_version old_and_new (on_hello controller (some (hello_of up_to_5)) 3).version
        ≡ true)
    × (contains_version up_to_5 (on_hello controller (some (hello_of up_to_5)) 3).version ≡ true)
unfolding on_channel_up send_hello is_past_hello settle hello_of send send_version send_bitmap
    protocol_versions negotiate_version highest_version highest_from include_in_hello_msg
on_hello_agree_example =
    on_hello_agree controller switch 3 4 refl refl (omega arith) (omega arith) (omega arith)
      (omega arith)

features-HasLength : HasLength features
unfolding big16
features-HasLength = (omega arith, refl)
