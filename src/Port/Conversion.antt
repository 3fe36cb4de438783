-- ===== src/Port/Conversion.antt =====
-- Ports of earlier versions in src/ofp/port.cpp, to the latest version and back.
use libofp.Base.{ℕ, ◌/◌, ◌%◌, ◌^◌, ◌<◌, ◌≡◌, refl, arith}
use libofp.Port.{
  from_v1, to_v1, features_to_v1, features_from_v1, PortV1, PortV2, find_ethernet, builder_of_v1,
  builder_of_v2, v1_of_builder, v2_of_builder,
}

to_v1-from_v1 : (port : ℕ) → port < 2 ^ 16 → to_v1 (from_v1 port) ≡ port
unfolding to_v1 from_v1
to_v1-from_v1 port h = ground arith

-- The flags of version 1: bits 0 to 11, and those from 16 on.
abbrev pub AreFeaturesV1 : ℕ → Type 0
AreFeaturesV1 features = features / 2 ^ 12 % 2 ^ 4 ≡ 0

features_to_v1-from_v1 :
    (features : ℕ) → AreFeaturesV1 features → features_to_v1 (features_from_v1 features) ≡ features
unfolding features_to_v1 features_from_v1
features_to_v1-from_v1 features h = omega arith

-- A port of version 1, with a number of 16 bits and no flags that this version does not have, is
-- the same after it was made a port of the latest version and back.
pub v1_of_builder-of_v1 :
    (port : PortV1)
    → port.port_no < 2 ^ 16
    → AreFeaturesV1 port.curr
    → AreFeaturesV1 port.advertised
    → AreFeaturesV1 port.supported
    → AreFeaturesV1 port.peer
    → v1_of_builder (builder_of_v1 port) ≡ port
unfolding v1_of_builder builder_of_v1 find_ethernet
v1_of_builder-of_v1 port number curr advertised supported peer =
    rw
      (
        to_v1-from_v1 port.port_no number,
        features_to_v1-from_v1 port.curr curr,
        features_to_v1-from_v1 port.advertised advertised,
        features_to_v1-from_v1 port.supported supported,
        features_to_v1-from_v1 port.peer peer,
      )
      refl

pub v2_of_builder-of_v2 : (port : PortV2) → v2_of_builder (builder_of_v2 port) ≡ port
unfolding v2_of_builder builder_of_v2 find_ethernet
v2_of_builder-of_v2 port = refl
