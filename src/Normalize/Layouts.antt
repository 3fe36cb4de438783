-- ===== src/Normalize/Layouts.antt =====
-- What the messages of a fixed layout in src/ofp/normalize.cpp become, field by field. None of the
-- bytes that insertUninitialized leaves is in the result.
use libofp.Base.{
  ℕ, ◌≤◌, ◌≡◌, false, List, [], ◌∷◌, some, length, take, drop, replicate, ltb, refl, sym, ap, ◌∙◌,
  arith, bytes32, big32, take-drop, length-take, length-drop,
}
use libofp.Memory.{load, memcpy, memset}
use libofp.Memory.Fields.{flat, memcpy-flat, load-field, load-flat, flat-pair, flat-split}
use libofp.Normalize.{insert_at, header_length, norm_port_number_v1}
use libofp.Normalize.Edits.{insert_at-flat}
use libofp.Normalize.Messages.{norm_port_mod_v1, norm_flow_removed_v1}
use libofp.Match.{standard_match}
use libofp.Match.Wildcards.{standard_match_lem}
use libofp.Port.{features_from_v1}
use libofp.ProtocolRange.{big16}

module _ (fresh : ℕ → List ℕ) (fresh_length : (n : ℕ) → length (fresh n) ≡ n) where
  -- A FlowRemoved of OpenFlow 1.0 of 88 bytes: the fields behind the match stand before it, and the
  -- match is the standard one.
  pub norm_flow_removed_v1_lem :
      (header match fields : List ℕ)
      → length header ≡ 8
      → length match ≡ 40
      → length fields ≡ 40
      → header_length (flat (header ∷ match ∷ fields ∷ [])) ≡ 88
      → norm_flow_removed_v1 fresh (flat (header ∷ match ∷ fields ∷ []))
        ≡ some (flat (header ∷ fields ∷ standard_match match ∷ []))
  unfolding norm_flow_removed_v1
  norm_flow_removed_v1_lem header match fields h hm hf len =
      let std = (standard_match_lem match hm).0 in
      let fs = header ∷ match ∷ fields ∷ [] in
      let s1 : load 8 40 (flat fs) ≡ some match =
        load-field 1 8 40 match (fields ∷ []) fs refl (omega arith) hm in
      let s2 : load 48 40 (flat fs) ≡ some fields =
        load-field 2 48 40 fields [] fs refl (omega arith) hf in
      let s3 : memcpy 8 fields (flat fs) ≡ some (flat (header ∷ fields ∷ fields ∷ [])) =
        memcpy-flat 1 1 8 fields fs (omega arith) (omega arith) in
      let s4 : insert_at 88 (fresh 48) (flat (header ∷ fields ∷ fields ∷ []))
          ≡ some (flat (header ∷ fields ∷ fields ∷ fresh 48 ∷ [])) =
        insert_at-flat 3 88 (fresh 48) (header ∷ fields ∷ fields ∷ []) (omega arith)
          (omega arith) in
      let s5 : memcpy 48 (standard_match match) (flat (header ∷ fields ∷ fields ∷ fresh 48 ∷ []))
          ≡ some (flat (header ∷ fields ∷ standard_match match ∷ [])) =
        memcpy-flat 2 2 48 (standard_match match) (header ∷ fields ∷ fields ∷ fresh 48 ∷ [])
          (omega arith) (omega (arith, fresh_length 48)) in
      rw (len, s1, s2, s3, s4, s5) refl

  -- A PortMod of OpenFlow 1.0, of 32 bytes or more: the port number has 32 bits, padding is zero, and
  -- the advertised features are a property.
  pub norm_port_mod_v1_lem :
      (header port hw_addr config_mask advertise pad rest : List ℕ)
      → length header ≡ 8
      → length port ≡ 2
      → length hw_addr ≡ 6
      → length config_mask ≡ 8
      → length advertise ≡ 4
      → length pad ≡ 4
      → 32
        ≤ header_length (flat (header ∷ port ∷ hw_addr ∷ config_mask ∷ advertise ∷ pad ∷ rest ∷ []))
      → norm_port_mod_v1 fresh
          (flat (header ∷ port ∷ hw_addr ∷ config_mask ∷ advertise ∷ pad ∷ rest ∷ []))
        ≡ some (
            flat (
              header
              ∷ bytes32 (norm_port_number_v1 (big16 port 0))
              ∷ replicate 4 0
              ∷ hw_addr
              ∷ replicate 2 0
              ∷ config_mask
              ∷ bytes32 8
              ∷ bytes32 (features_from_v1 (big32 advertise))
              ∷ rest
              ∷ []))
  unfolding norm_port_mod_v1 memset
  norm_port_mod_v1_lem header port hw_addr config_mask advertise pad rest h hp hh hc ha hd len =
      let tail = config_mask ∷ advertise ∷ pad ∷ rest ∷ [] in
      let a = take 2 hw_addr in
      let b = drop 2 hw_addr in
      let f = take 6 (fresh 8) in
      let g = drop 6 (fresh 8) in
      let la : length a ≡ 2 = omega (arith, length-take 2 hw_addr) in
      let lb : length b ≡ 4 = omega (arith, length-drop 2 hw_addr) in
      let lf : length f ≡ 6 = omega (arith, length-take 6 (fresh 8), fresh_length 8) in
      let lg : length g ≡ 2 = omega (arith, length-drop 6 (fresh 8), fresh_length 8) in
      let number = bytes32 (norm_port_number_v1 (big16 port 0)) in
      let fs = header ∷ port ∷ hw_addr ∷ tail in
      let long : ltb (header_length (flat fs)) 32 ≡ false = ground arith in
      let s1 : load 8 2 (flat fs) ≡ some port =
        load-field 1 8 2 port (hw_addr ∷ tail) fs refl (omega arith) hp in
      let s2 : insert_at 16 (fresh 8) (flat fs)
          ≡ some (flat (header ∷ port ∷ hw_addr ∷ fresh 8 ∷ tail)) =
        insert_at-flat 3 16 (fresh 8) fs (omega arith) (omega arith) in
      let longer = header ∷ port ∷ a ∷ b ∷ f ∷ g ∷ tail in
      let split : flat (header ∷ port ∷ hw_addr ∷ fresh 8 ∷ tail) ≡ flat longer =
        flat-split 2 a b (header ∷ port ∷ hw_addr ∷ fresh 8 ∷ tail) (fresh 8 ∷ tail)
          (ap (λ l. header ∷ port ∷ l ∷ fresh 8 ∷ tail) (sym (take-drop 2 hw_addr)))
        ∙ flat-split 4 f g (header ∷ port ∷ a ∷ b ∷ fresh 8 ∷ tail) tail
            (ap (λ l. header ∷ port ∷ a ∷ b ∷ l ∷ tail) (sym (take-drop 6 (fresh 8)))) in
      let whole : flat (a ∷ b ∷ []) ≡ hw_addr = flat-pair a b ∙ take-drop 2 hw_addr in
      let s3 : load 10 6 (flat longer) ≡ some hw_addr =
        load-flat 2 2 10 6 longer (omega arith) (omega arith) ∙ ap some whole in
      let s4 : memcpy 16 hw_addr (flat longer)
          ≡ some (flat (header ∷ port ∷ a ∷ b ∷ hw_addr ∷ g ∷ tail)) =
        memcpy-flat 4 1 16 hw_addr longer (omega arith) (omega arith) in
      let s5 : memcpy 8 number (flat (header ∷ port ∷ a ∷ b ∷ hw_addr ∷ g ∷ tail))
          ≡ some (flat (header ∷ number ∷ b ∷ hw_addr ∷ g ∷ tail)) =
        memcpy-flat 1 2 8 number (header ∷ port ∷ a ∷ b ∷ hw_addr ∷ g ∷ tail) (omega arith)
          (omega arith) in
      let s6 : memcpy 12 (replicate 4 0) (flat (header ∷ number ∷ b ∷ hw_addr ∷ g ∷ tail))
          ≡ some (flat (header ∷ number ∷ replicate 4 0 ∷ hw_addr ∷ g ∷ tail)) =
        memcpy-flat 2 1 12 (replicate 4 0) (header ∷ number ∷ b ∷ hw_addr ∷ g ∷ tail) (omega arith)
          (omega arith) in
      let clean = header ∷ number ∷ replicate 4 0 ∷ hw_addr ∷ replicate 2 0 ∷ tail in
      let s7 : memcpy 22 (replicate 2 0)
            (flat (header ∷ number ∷ replicate 4 0 ∷ hw_addr ∷ g ∷ tail))
          ≡ some (flat clean) =
        memcpy-flat 4 1 22 (replicate 2 0) (header ∷ number ∷ replicate 4 0 ∷ hw_addr ∷ g ∷ tail)
          (omega arith) (omega arith) in
      let s8 : load 32 4 (flat clean) ≡ some advertise =
        load-field 6 32 4 advertise (pad ∷ rest ∷ []) clean refl (omega arith) ha in
      let typed =
        header
        ∷ number
        ∷ replicate 4 0
        ∷ hw_addr
        ∷ replicate 2 0
        ∷ config_mask
        ∷ bytes32 8
        ∷ pad
        ∷ rest
        ∷ [] in
      let s9 : memcpy 32 (bytes32 8) (flat clean) ≡ some (flat typed) =
        memcpy-flat 6 1 32 (bytes32 8) clean (omega arith) (omega arith) in
      let flags = bytes32 (features_from_v1 (big32 advertise)) in
      let s10 : memcpy 36 flags (flat typed)
          ≡ some (
              flat (
                header
                ∷ number
                ∷ replicate 4 0
                ∷ hw_addr
                ∷ replicate 2 0
                ∷ config_mask
                ∷ bytes32 8
                ∷ flags
                ∷ rest
                ∷ [])) =
        memcpy-flat 7 1 36 flags typed (omega arith) (omega arith) in
      rw (long, s1, s2, split, s3, s4, s5, s6, s7, s8, s9, s10) refl
