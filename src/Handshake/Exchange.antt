-- ===== src/Handshake/Exchange.antt =====
-- Two handshakes that receive the Hello message of each other, and the ports behind the features.
use libofp.Base.{
  ℕ, ◌+◌, ◌≤◌, ◌<◌, ◌≡◌, ◌≢◌, inl, inr, true, false, List, [], ◌∷◌, ◌++◌, ◌==◌, some, arith, refl,
  sym, Bool-cases, length, drop, length-append, append_nil,
}
use libofp.Versions.{contains_version, highest_version, negotiate_version}
use libofp.Hello.{hello_of, protocol_versions, settle}
use libofp.Hello.Agreement.{settle_agree}
use libofp.ProtocolRange.{big16}
use libofp.Handshake.{
  Handshake, on_hello, is_past_hello, take_version, send_features_request,
  install_new_channel_listener, clear_channel_listener, append_ports, set_length,
}

take_version-version :
    (s : Handshake) (version now : ℕ) → (take_version s version now).version ≡ version
unfolding take_version send_features_request install_new_channel_listener clear_channel_listener
take_version-version s version now = elim (Bool-cases s.wants_features) [
  | inl e ↦ rw e refl
  | inr e ↦ elim (Bool-cases s.has_factory) [ inl f ↦ rw (e, f) refl | inr f ↦ rw (e, f) refl ]
]

on_hello-version :
    (s : Handshake) (theirs now : ℕ)
    → is_past_hello s.phase ≡ false
    → settle s.versions theirs ≢ 0
    → (on_hello s (some (hello_of theirs)) now).version ≡ settle s.versions theirs
unfolding on_hello settle
on_hello-version s theirs now e n =
    let version : ℕ =
      negotiate_version s.versions (hello_of theirs).version
        (protocol_versions (hello_of theirs)) in
    let f : (version == 0) ≡ false = ground (arith, n) in
    rw (e, f) (take_version-version s version now)

-- Two handshakes that were not past the Hello message, each with a version from 1 to 30 at least,
-- and that can settle on a version, have the same one, and both have it among their own, after each
-- received the other's Hello message.
pub on_hello_agree :
    (s t : Handshake) (now later : ℕ)
    → is_past_hello s.phase ≡ false
    → is_past_hello t.phase ≡ false
    → highest_version s.versions ≢ 0
    → highest_version t.versions ≢ 0
    → settle s.versions t.versions ≢ 0
    → settle t.versions s.versions ≢ 0
    → let v = (on_hello s (some (hello_of t.versions)) now).version in
      (v ≡ (on_hello t (some (hello_of s.versions)) later).version)
      × (contains_version s.versions v ≡ true)
      × (contains_version t.versions v ≡ true)
on_hello_agree s t now later p q hs ht n m =
    let (same, mine, theirs) = settle_agree s.versions t.versions hs ht n m in
    rw (on_hello-version s t.versions now p n, on_hello-version t s.versions later q m)
      (same, mine, theirs)

-- A message whose header has its length
abbrev pub HasLength : List ℕ → Type 0
HasLength bytes = (8 ≤ length bytes) × (big16 bytes 2 ≡ length bytes)

-- Ports that are added to a features reply with its length in its header, of fewer than 65536 bytes
-- in all, stand behind it, and the header has the new length.
pub append_ports-HasLength :
    (reply ports : List ℕ)
    → HasLength reply
    → length reply + length ports < 65536
    → HasLength (append_ports reply ports)
      × (length (append_ports reply ports) ≡ length reply + length ports)
      × (drop 4 (append_ports reply ports) ≡ drop 4 reply ++ ports)
unfolding append_ports set_length big16
append_ports-HasLength reply [] h k = (h, omega arith, sym (append_nil (drop 4 reply)))
append_ports-HasLength (a ∷ b ∷ c ∷ d ∷ rest) (p ∷ ports) h k =
    let total = length-append rest (p ∷ ports) in
    ((omega (arith, total, h.0), omega (arith, total, h.1, k)), omega (arith, total), refl)
append_ports-HasLength (a ∷ b ∷ c ∷ []) (p ∷ ports) h k = absurd (omega (arith, h.0))
append_ports-HasLength (a ∷ b ∷ []) (p ∷ ports) h k = absurd (omega (arith, h.0))
append_ports-HasLength (a ∷ []) (p ∷ ports) h k = absurd (omega (arith, h.0))
append_ports-HasLength [] (p ∷ ports) h k = absurd (omega (arith, h.0))
