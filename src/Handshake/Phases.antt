-- ===== src/Handshake/Phases.antt =====
-- The phases of a handshake, and what a Hello message does to them.
use libofp.Base.{
  ℕ, ◌≤◌, ◌<◌, ◌≡◌, ◌⊎◌, inl, inr, true, false, List, [], ◌∷◌, ◌++◌, ltb, ◌==◌, Option, none, some,
  arith, refl, ap, Bool-cases,
}
use libofp.Versions.{contains_version, negotiate_version}
use libofp.Versions.Negotiation.{highest_version-IsHighest, intersection-BestCommon}
use libofp.Hello.{Hello, hello_of, protocol_versions}
use libofp.Handshake.{
  Handshake, Phase, handshake_init, sent_hello, sent_features_request, sent_port_request, Listener,
  handshake, installed, cleared, hello, features_request, port_desc_request, on_hello, Message,
  Posted, features_reply, port_desc_reply, append_ports, is_past_hello, is_sent_port, take_version,
  refuse_version, shutdown, send_features_request, install_new_channel_listener,
  clear_channel_listener,
}

pub negotiate-member :
    (mine v set : ℕ)
    → (negotiate_version mine v set ≡ 0)
      ⊎ (contains_version mine (negotiate_version mine v set) ≡ true)
unfolding negotiate_version
negotiate-member mine v set =
    let a = highest_version-IsHighest mine in
    let b = intersection-BestCommon mine set in ground (arith, a.member, b.member)

-- The version of the channel is one of the handshake's own.
abbrev pub HasOwnVersion : Handshake → Type 0
HasOwnVersion s = (1 ≤ s.version) × (contains_version s.versions s.version ≡ true)

-- What was sent, and for what, in each phase of a handshake whose channel is up.
abbrev pub IsInPhase : Phase → Handshake → Type 0
IsInPhase handshake_init s = true ≡ false
IsInPhase sent_hello s = (s.wants_features ≡ false) ⊎ (s.sent ≡ hello (hello_of s.versions) ∷ [])
IsInPhase sent_features_request s =
    (s.wants_features ≡ true)
    × HasOwnVersion s
    × (s.sent ≡ hello (hello_of s.versions) ∷ features_request ∷ [])
IsInPhase sent_port_request s =
    (s.wants_features ≡ true)
    × HasOwnVersion s
    × (1 < s.version)
    × (s.sent ≡ hello (hello_of s.versions) ∷ features_request ∷ port_desc_request ∷ [])

-- A features reply with these bytes was among the messages, of which the last one is the first here.
abbrev pub FeaturesCame : List Message → List ℕ → Type 0
FeaturesCame [] bytes = true ≡ false
FeaturesCame (m ∷ ms) bytes =
    ((posted : Posted) × (m ≡ features_reply (some bytes) posted)) ⊎ FeaturesCame ms bytes

-- A reply with these ports was behind one with these features.
abbrev pub PortsCame : List Message → List ℕ → List ℕ → Type 0
PortsCame [] bytes ports = true ≡ false
PortsCame (m ∷ ms) bytes ports =
    ((m ≡ port_desc_reply (some ports)) × FeaturesCame ms bytes) ⊎ PortsCame ms bytes ports

-- The ports are requested with the features at hand.
abbrev pub IsReady : Phase → List Message → List ℕ → Type 0
IsReady handshake_init ms reply = Unit
IsReady sent_hello ms reply = Unit
IsReady sent_features_request ms reply = Unit
IsReady sent_port_request ms reply = FeaturesCame ms reply

-- The request of the phase was answered, and the features reply is kept, with the ports if they were
-- requested.
abbrev pub IsAnswered : Phase → List Message → List ℕ → Type 0
IsAnswered handshake_init ms reply = true ≡ false
IsAnswered sent_hello ms reply = true ≡ false
IsAnswered sent_features_request ms reply = FeaturesCame ms reply
IsAnswered sent_port_request ms reply =
    (bytes : List ℕ) × (ports : List ℕ) × PortsCame ms bytes ports
    × (reply ≡ append_ports bytes ports)

-- A handshake leaves its place when the version is known and, if it wants features, after they came.
-- It is replaced from version 2 on after the ports came, too.
abbrev pub IsListening : Listener → List Message → Handshake → Type 0
IsListening handshake ms s = IsReady s.phase ms s.reply
IsListening cleared ms s =
    HasOwnVersion s × ((s.wants_features ≡ false) ⊎ ((bytes : List ℕ) × FeaturesCame ms bytes))
IsListening installed ms s =
    (s.has_factory ≡ true)
    × HasOwnVersion s
    × ((s.wants_features ≡ false)
        ⊎ ((is_sent_port s.phase ≡ ltb 1 s.version) × IsAnswered s.phase ms s.reply))

abbrev pub IsSound : List Message → Handshake → Type 0
IsSound ms s = IsInPhase s.phase s × IsListening s.listener ms s

IsReady-more :
    (m : Message) (ms : List Message) (p : Phase) (reply : List ℕ)
    → IsReady p ms reply
    → IsReady p (m ∷ ms) reply
IsReady-more m ms handshake_init reply h = h
IsReady-more m ms sent_hello reply h = h
IsReady-more m ms sent_features_request reply h = h
IsReady-more m ms sent_port_request reply h = inr h

IsAnswered-more :
    (m : Message) (ms : List Message) (p : Phase) (reply : List ℕ)
    → IsAnswered p ms reply
    → IsAnswered p (m ∷ ms) reply
IsAnswered-more m ms handshake_init reply h = h
IsAnswered-more m ms sent_hello reply h = h
IsAnswered-more m ms sent_features_request reply h = inr h
IsAnswered-more m ms sent_port_request reply (bytes, ports, came, e) = (bytes, ports, inr came, e)

keeps_answer :
    (m : Message) (ms : List Message) (s : Handshake)
    → (s.wants_features ≡ false)
      ⊎ ((is_sent_port s.phase ≡ ltb 1 s.version) × IsAnswered s.phase ms s.reply)
    → (s.wants_features ≡ false)
      ⊎ ((is_sent_port s.phase ≡ ltb 1 s.version) × IsAnswered s.phase (m ∷ ms) s.reply)
keeps_answer m ms s (inl e) = inl e
keeps_answer m ms s (inr (e, h)) = inr (e, IsAnswered-more m ms s.phase s.reply h)

keeps_features :
    (m : Message) (ms : List Message) (s : Handshake)
    → (s.wants_features ≡ false) ⊎ ((bytes : List ℕ) × FeaturesCame ms bytes)
    → (s.wants_features ≡ false) ⊎ ((bytes : List ℕ) × FeaturesCame (m ∷ ms) bytes)
keeps_features m ms s (inl e) = inl e
keeps_features m ms s (inr (bytes, h)) = inr (bytes, inr h)

IsListening-more :
    (m : Message) (ms : List Message) (l : Listener) (s : Handshake)
    → IsListening l ms s
    → IsListening l (m ∷ ms) s
IsListening-more m ms handshake s h = IsReady-more m ms s.phase s.reply h
IsListening-more m ms cleared s (own, h) = (own, keeps_features m ms s h)
IsListening-more m ms installed s (f, own, h) = (f, own, keeps_answer m ms s h)

-- What was sound stays so when a message comes that changes nothing.
pub IsSound-more :
    (m : Message) (ms : List Message) (s : Handshake) → IsSound ms s → IsSound (m ∷ ms) s
IsSound-more m ms s (p, l) = (p, IsListening-more m ms s.listener s l)

-- A handshake that waits for the version of the peer.
abbrev pub IsWaiting : Handshake → Type 0
IsWaiting s = (s.phase ≡ sent_hello) × (s.listener ≡ handshake) × IsInPhase sent_hello s

greeted :
    (s : Handshake)
    → s.wants_features ≡ true
    → IsInPhase sent_hello s
    → s.sent ≡ hello (hello_of s.versions) ∷ []
greeted s e (inl h) = absurd cc
greeted s e (inr h) = h

refuse_version-IsSound :
    (ms : List Message) (s : Handshake) → IsWaiting s → IsSound ms (refuse_version s)
unfolding refuse_version shutdown
refuse_version-IsSound ms s (p, l, h) = elim (Bool-cases s.wants_features) [
  | inl e ↦ rw (e, p, l) (inr (greeted s e h), tt)
  | inr e ↦ rw (e, p, l) (inl refl, tt)
]

take_version-IsSound :
    (ms : List Message) (s : Handshake) (version now : ℕ)
    → IsWaiting s
    → 1 ≤ version
    → contains_version s.versions version ≡ true
    → IsSound ms (take_version s version now)
unfolding take_version send_features_request install_new_channel_listener clear_channel_listener
take_version-IsSound ms s version now (p, l, h) n m = elim (Bool-cases s.wants_features) [
  | inl e ↦ rw (e, l) ((refl, (n, m), ap (λ l. l ++ (features_request ∷ [])) (greeted s e h)), tt)
  | inr e ↦ elim (Bool-cases s.has_factory) [
    | inl f ↦ rw (e, f, p) (inl refl, (refl, (n, m), inl refl))
    | inr f ↦ rw (e, f, p) (inl refl, ((n, m), inl refl))
  ]
]

waits :
    (p : Phase) (s : Handshake)
    → is_past_hello p ≡ false
    → IsInPhase p s
    → (p ≡ sent_hello) × IsInPhase sent_hello s
unfolding is_past_hello
waits handshake_init s e h = absurd cc
waits sent_hello s e h = (refl, h)
waits sent_features_request s e h = absurd cc
waits sent_port_request s e h = absurd cc

pub on_hello-IsSound :
    (ms : List Message) (s : Handshake) (m : Option Hello) (now : ℕ)
    → s.listener ≡ handshake
    → IsSound ms s
    → IsSound ms (on_hello s m now)
unfolding on_hello
on_hello-IsSound ms s none now l h = elim (Bool-cases (is_past_hello s.phase)) [
  | inl e ↦ rw e h
  | inr e ↦ rw e h
]
on_hello-IsSound ms s (some msg) now l h =
    let version : ℕ = negotiate_version s.versions msg.version (protocol_versions msg) in
    let own = negotiate-member s.versions msg.version (protocol_versions msg) in
    elim (Bool-cases (is_past_hello s.phase)) [
      | inl e ↦ rw e h
      | inr e ↦
          let (p, greeting) = waits s.phase s e h.0 in
          let waiting : IsWaiting s = (p, l, greeting) in
          elim (Bool-cases (version == 0)) [
            | inl f ↦ rw (e, f) (refuse_version-IsSound ms s waiting)
            | inr f ↦
                rw (e, f)
                  (take_version-IsSound ms s version now waiting (ground arith)
                    (ground (arith, own)))
          ]
    ]
