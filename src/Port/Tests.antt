-- ===== src/Port/Tests.antt =====
-- Runs of the ports of src/ofp/port.cpp on sample ports.
use libofp.Base.{◌≡◌, [], ◌∷◌, ◌++◌, replicate, refl, arith}
use libofp.Memory.Fields.{flat, field}
use libofp.Port.{PortV1, from_v1, features_from_v1, builder_of_v1, v1_of_builder}
use libofp.Port.Conversion.{v1_of_builder-of_v1}
use libofp.Port.Layout.{port_of_v1, port_bytes, port_v1, properties_bytes, ethernet_bytes}
use libofp.ProtocolRange.{big16}
use libofp.Base.{big32}

-- The local port, at 1 GB, with pause frames.
abbrev local_port : PortV1
local_port = record {
  port_no = 0xfffe;
  hw_addr = 2 ∷ 0 ∷ 0 ∷ 0 ∷ 0 ∷ 1 ∷ [];
  name = replicate 16 b'p';
  config = replicate 4 0;
  state = replicate 4 0;
  curr = 0x420;
  advertised = 0xfff;
  supported = 0x20;
  peer = 0;
}

local_number : from_v1 0xfffe ≡ 0xfffffffe
unfolding from_v1
local_number = refl

pause : features_from_v1 0xfff ≡ 0xf87f
unfolding features_from_v1
pause = refl

port_run :
    port_of_v1 (
      0xff
      ∷ 0xfe
      ∷ (replicate 6 2
          ++ (replicate 16 b'p' ++ (replicate 8 0 ++ (0 ∷ 0 ∷ 4 ∷ 32 ∷ replicate 12 0)))))
    ≡ 0xff
      ∷ 0xff
      ∷ 0xff
      ∷ 0xfe
      ∷ 0
      ∷ 72
      ∷ 0
      ∷ 0
      ∷ (replicate 6 2
          ++ (0
              ∷ 0
              ∷ (replicate 16 b'p'
                  ++ (replicate 8 0
                      ++ (0 ∷ 0 ∷ 0 ∷ 32 ∷ 0 ∷ 0 ∷ 0 ∷ 0 ∷ 0 ∷ 0 ∷ 64 ∷ 32 ∷ replicate 20 0)))))
unfolding port_of_v1 port_bytes port_v1 properties_bytes ethernet_bytes builder_of_v1 from_v1
    features_from_v1 flat field big16 big32
port_run = refl

v1_of_builder-of_v1_example : v1_of_builder (builder_of_v1 local_port) ≡ local_port
v1_of_builder-of_v1_example =
    v1_of_builder-of_v1 local_port (omega arith) (omega arith) (omega arith) (omega arith)
      (omega arith)
