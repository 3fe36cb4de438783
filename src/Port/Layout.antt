-- ===== src/Port/Layout.antt =====
-- The bytes of the ports of include/ofp/port.h and of their Ethernet property.
use libofp.Base.{
  ℕ, ◌+◌, ◌≡◌, List, [], ◌∷◌, ◌++◌, length, replicate, arith, bytes16, bytes32, big32,
}
use libofp.Memory.Fields.{flat, field, length-field, length-flat}
use libofp.Port.{
  PortV1, PortV2, PortBuilder, PortPropertyEthernet, Property, ethernet, other, builder_of_v1,
  builder_of_v2,
}
use libofp.ProtocolRange.{big16}

-- The 48 bytes of a PortV1.
unfoldable pub port_v1 : List ℕ → PortV1
port_v1 bytes = record {
  port_no = big16 (field 0 2 bytes) 0;
  hw_addr = field 2 6 bytes;
  name = field 8 16 bytes;
  config = field 24 4 bytes;
  state = field 28 4 bytes;
  curr = big32 (field 32 4 bytes);
  advertised = big32 (field 36 4 bytes);
  supported = big32 (field 40 4 bytes);
  peer = big32 (field 44 4 bytes);
}

-- The 64 bytes of a PortV2.
unfoldable pub port_v2 : List ℕ → PortV2
port_v2 bytes = record {
  port_no = big32 (field 0 4 bytes);
  hw_addr = field 8 6 bytes;
  name = field 16 16 bytes;
  config = field 32 4 bytes;
  state = field 36 4 bytes;
  curr = big32 (field 40 4 bytes);
  advertised = big32 (field 44 4 bytes);
  supported = big32 (field 48 4 bytes);
  peer = big32 (field 52 4 bytes);
  curr_speed = big32 (field 56 4 bytes);
  max_speed = big32 (field 60 4 bytes);
}

unfoldable pub ethernet_bytes : PortPropertyEthernet → List ℕ
ethernet_bytes eth =
    (0 ∷ 0 ∷ 0 ∷ 32 ∷ [])
    ++ (replicate 4 0
        ++ (bytes32 eth.curr
            ++ (bytes32 eth.advertised
                ++ (bytes32 eth.supported
                    ++ (bytes32 eth.peer ++ (bytes32 eth.curr_speed ++ bytes32 eth.max_speed))))))

unfoldable pub properties_bytes : List Property → List ℕ
properties_bytes [] = []
properties_bytes (ethernet eth ∷ properties) = ethernet_bytes eth ++ properties_bytes properties
properties_bytes (other type bytes ∷ properties) = bytes ++ properties_bytes properties

-- The structure of a port with its properties, as PortList and `copyTo` write it.
unfoldable pub port_bytes : PortBuilder → List ℕ
port_bytes port =
    let properties = properties_bytes port.properties in
    flat (
      bytes32 port.port_no
      ∷ bytes16 (40 + length properties)
      ∷ replicate 2 0
      ∷ port.hw_addr
      ∷ replicate 2 0
      ∷ port.name
      ∷ port.config
      ∷ port.state
      ∷ properties
      ∷ [])

unfoldable pub port_of_v1 : List ℕ → List ℕ
port_of_v1 bytes = port_bytes (builder_of_v1 (port_v1 bytes))

unfoldable pub port_of_v2 : List ℕ → List ℕ
port_of_v2 bytes = port_bytes (builder_of_v2 (port_v2 bytes))

-- A port of an earlier version has 72 bytes in the latest one.
pub length-port_of_v1 : (bytes : List ℕ) → length bytes ≡ 48 → length (port_of_v1 bytes) ≡ 72
unfolding port_of_v1 port_bytes properties_bytes ethernet_bytes builder_of_v1 port_v1
length-port_of_v1 bytes h =
    let l2 = length-field 2 6 bytes (omega arith) in
    let l8 = length-field 8 16 bytes (omega arith) in
    let l24 = length-field 24 4 bytes (omega arith) in
    let l28 = length-field 28 4 bytes (omega arith) in omega (arith, length-flat)

pub length-port_of_v2 : (bytes : List ℕ) → length bytes ≡ 64 → length (port_of_v2 bytes) ≡ 72
unfolding port_of_v2 port_bytes properties_bytes ethernet_bytes builder_of_v2 port_v2
length-port_of_v2 bytes h =
    let l8 = length-field 8 6 bytes (omega arith) in
    let l16 = length-field 16 16 bytes (omega arith) in
    let l32 = length-field 32 4 bytes (omega arith) in
    let l36 = length-field 36 4 bytes (omega arith) in omega (arith, length-flat)
