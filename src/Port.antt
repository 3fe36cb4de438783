-- ===== src/Port.antt =====
-- Ports of src/ofp/port.cpp and include/ofp/port.h: the structures of OpenFlow 1.0, of 1.1 to 1.3 and
-- of 1.5, with their Ethernet property. What is only copied stands as its bytes.
pub mod Conversion
pub mod Layout
pub mod Tests
use libofp.Base.{
  ℕ, ◌+◌, ◌*◌, ◌/◌, ◌%◌, ◌^◌, Bool, List, [], ◌∷◌, Option, none, some, ltb, if◌then◌else◌,
}

-- `PortNumber::fromV1`: the low half of the constant is empty
unfoldable pub from_v1 : ℕ → ℕ
from_v1 port = if ltb 0xff00 port then 0xffff0000 + port else port

-- `PortNumber::toV1`
unfoldable pub to_v1 : ℕ → ℕ
to_v1 port = port % 2 ^ 16

-- `OFPPortFeaturesFlagsConvertToV1`: bits 7 to 15 are cleared, and bits 11 to 15 put four bits lower.
unfoldable pub features_to_v1 : ℕ → ℕ
features_to_v1 features =
    features / 2 ^ 16 * 2 ^ 16 + features % 2 ^ 7 + features / 2 ^ 11 % 2 ^ 5 * 2 ^ 7

-- `OFPPortFeaturesFlagsConvertFromV1`: bits 7 to 15 are cleared, and bits 7 to 11 put four bits higher.
unfoldable pub features_from_v1 : ℕ → ℕ
features_from_v1 features =
    features / 2 ^ 16 * 2 ^ 16 + features % 2 ^ 7 + features / 2 ^ 7 % 2 ^ 5 * 2 ^ 11

pub record PortV1 : Type 0 where
  pub port_no : ℕ
  pub hw_addr : List ℕ
  pub name : List ℕ
  pub config : List ℕ
  pub state : List ℕ
  pub curr : ℕ
  pub advertised : ℕ
  pub supported : ℕ
  pub peer : ℕ

pub record PortV2 : Type 0 where
  pub port_no : ℕ
  pub hw_addr : List ℕ
  pub name : List ℕ
  pub config : List ℕ
  pub state : List ℕ
  pub curr : ℕ
  pub advertised : ℕ
  pub supported : ℕ
  pub peer : ℕ
  pub curr_speed : ℕ
  pub max_speed : ℕ

pub record PortPropertyEthernet : Type 0 where
  pub curr : ℕ
  pub advertised : ℕ
  pub supported : ℕ
  pub peer : ℕ
  pub curr_speed : ℕ
  pub max_speed : ℕ

-- A property of a port: the Ethernet property, or one of another type by its bytes.
pub data Property : Type 0 where
  ethernet : PortPropertyEthernet → Property
  other : ℕ → List ℕ → Property

pub record PortBuilder : Type 0 where
  pub port_no : ℕ
  pub hw_addr : List ℕ
  pub name : List ℕ
  pub config : List ℕ
  pub state : List ℕ
  pub properties : List Property

-- `findProperty(PortPropertyEthernet::type())`
unfoldable pub find_ethernet : List Property → Option PortPropertyEthernet
find_ethernet [] = none
find_ethernet (ethernet prop ∷ properties) = some prop
find_ethernet (other type bytes ∷ properties) = find_ethernet properties

-- `PortBuilder(const deprecated::PortV1 &)`
unfoldable pub builder_of_v1 : PortV1 → PortBuilder
builder_of_v1 port = record {
  port_no = from_v1 port.port_no;
  hw_addr = port.hw_addr;
  name = port.name;
  config = port.config;
  state = port.state;
  properties =
      ethernet (record {
        curr = features_from_v1 port.curr;
        advertised = features_from_v1 port.advertised;
        supported = features_from_v1 port.supported;
        peer = features_from_v1 port.peer;
        curr_speed = 0;
        max_speed = 0;
      })
      ∷ [];
}

-- `PortBuilder(const deprecated::PortV2 &)`
unfoldable pub builder_of_v2 : PortV2 → PortBuilder
builder_of_v2 port = record {
  port_no = port.port_no;
  hw_addr = port.hw_addr;
  name = port.name;
  config = port.config;
  state = port.state;
  properties =
      ethernet (record {
        curr = port.curr;
        advertised = port.advertised;
        supported = port.supported;
        peer = port.peer;
        curr_speed = port.curr_speed;
        max_speed = port.max_speed;
      })
      ∷ [];
}

abbrev pub no_ethernet : PortPropertyEthernet
no_ethernet = record {
  curr = 0;
  advertised = 0;
  supported = 0;
  peer = 0;
  curr_speed = 0;
  max_speed = 0;
}

-- The Ethernet property of a port, or one with no flag set.
abbrev pub ethernet_of : PortBuilder → PortPropertyEthernet
ethernet_of builder = elim (find_ethernet builder.properties) [
  | none ↦ no_ethernet
  | some prop ↦ prop
]

-- `PortV1(const PortBuilder &)`
unfoldable pub v1_of_builder : PortBuilder → PortV1
v1_of_builder builder =
    let eth = ethernet_of builder in
    record {
      port_no = to_v1 builder.port_no;
      hw_addr = builder.hw_addr;
      name = builder.name;
      config = builder.config;
      state = builder.state;
      curr = features_to_v1 eth.curr;
      advertised = features_to_v1 eth.advertised;
      supported = features_to_v1 eth.supported;
      peer = features_to_v1 eth.peer;
    }

-- `PortV2(const PortBuilder &)`
unfoldable pub v2_of_builder : PortBuilder → PortV2
v2_of_builder builder =
    let eth = ethernet_of builder in
    record {
      port_no = builder.port_no;
      hw_addr = builder.hw_addr;
      name = builder.name;
      config = builder.config;
      state = builder.state;
      curr = eth.curr;
      advertised = eth.advertised;
      supported = eth.supported;
      peer = eth.peer;
      curr_speed = eth.curr_speed;
      max_speed = eth.max_speed;
    }
