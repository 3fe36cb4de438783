-- ===== src/Normalize/PortLists.antt =====
-- Lists of ports in src/ofp/normalize.cpp: each port is converted where it stands.
use mathlib.Core.List.{map}
use libofp.Base.{
  ℕ, suc, ◌+◌, ◌-◌, ◌*◌, ◌/◌, ◌%◌, ◌≤◌, ◌≡◌, false, List, [], ◌∷◌, ◌++◌, some, length, All, ltb,
  if◌then◌else◌, refl, sym, ap, ◌∙◌, arith, length-append, take-append_all, drop-append_more,
}
use libofp.Memory.{load, memcpy}
use libofp.Memory.Fields.{flat, memcpy-flat, load-field, flat-pair}
use libofp.Normalize.{insert_at, header_length, mark_input_too_big}
use libofp.Normalize.Edits.{insert_at-flat}
use libofp.Normalize.Ports.{
  convert_ports, replace_ports, norm_features_reply, norm_port_desc_reply, norm_features_reply_v1,
  norm_features_reply_v2, norm_port_desc_reply_v1, norm_port_desc_reply_v4,
}
use libofp.Port.Layout.{port_of_v1, port_of_v2, length-port_of_v1, length-port_of_v2}

-- All elements have this length.
abbrev pub HaveLength : ℕ → List (List ℕ) → Type 0
HaveLength n rs = All (λ r. length r ≡ n) rs

length-flat_even : (n : ℕ) (rs : List (List ℕ)) → HaveLength n rs → length (flat rs) ≡ length rs * n
unfolding flat
length-flat_even n [] h = omega arith
length-flat_even n (r ∷ rs) (hr, hs) =
    grind (arith, length-append r (flat rs), length-flat_even n rs hs)

convert_ports-flat :
    (n : ℕ) (convert : List ℕ → List ℕ) (rs : List (List ℕ))
    → HaveLength n rs
    → convert_ports n convert (length rs) (flat rs) ≡ flat (map convert rs)
unfolding convert_ports flat
convert_ports-flat n convert [] h = refl
convert_ports-flat n convert (r ∷ rs) (hr, hs) =
    rw
      (
        take-append_all n r (flat rs) (sym hr),
        drop-append_more n 0 r (flat rs) (omega arith),
        convert_ports-flat n convert rs hs,
      )
      refl

map-HaveLength :
    (m n : ℕ) (convert : List ℕ → List ℕ)
    → ((r : List ℕ) → length r ≡ m → length (convert r) ≡ n)
    → (rs : List (List ℕ)) → HaveLength m rs
    → HaveLength n (map convert rs)
map-HaveLength m n convert h [] hs = tt
map-HaveLength m n convert h (r ∷ rs) (hr, hs) = (h r hr, map-HaveLength m n convert h rs hs)

length-map : (convert : List ℕ → List ℕ) (rs : List (List ℕ)) → length (map convert rs) ≡ length rs
length-map convert [] = refl
length-map convert (r ∷ rs) = ap suc (length-map convert rs)

module _ (fresh : ℕ → List ℕ) (fresh_length : (n : ℕ) → length (fresh n) ≡ n) where
  replace_ports-fields :
      (at : ℕ) (pre bytes ports : List ℕ)
      → length pre ≡ at
      → length bytes ≤ length ports
      → replace_ports fresh at (length bytes) ports (pre ++ bytes) ≡ some (pre ++ ports)
  unfolding replace_ports
  replace_ports-fields at pre bytes ports h k =
      let more = fresh (length ports - length bytes) in
      let more_length = fresh_length (length ports - length bytes) in
      let end : length (pre ++ bytes) ≡ length pre + length bytes = length-append pre bytes in
      let s1 : insert_at (length (pre ++ bytes)) more (pre ++ bytes)
          ≡ some (flat (pre ∷ bytes ∷ more ∷ [])) =
        ap (insert_at (length (pre ++ bytes)) more) (sym (flat-pair pre bytes))
        ∙ insert_at-flat 2 (length (pre ++ bytes)) more (pre ∷ bytes ∷ []) (omega arith)
            (omega arith) in
      let s2 : memcpy at ports (flat (pre ∷ bytes ∷ more ∷ [])) ≡ some (flat (pre ∷ ports ∷ [])) =
        memcpy-flat 1 2 at ports (pre ∷ bytes ∷ more ∷ []) (omega arith) (omega arith) in
      rw (s1, s2, flat-pair pre ports) refl

  module _ (size : ℕ) (convert : List ℕ → List ℕ)
      (divided : (n : ℕ) → (n * size / size ≡ n) × (n * size % size ≡ 0)) (small : size ≤ 72)
      (seventy_two : (r : List ℕ) → length r ≡ size → length (convert r) ≡ 72) where
    converted_length :
        (rs : List (List ℕ)) → HaveLength size rs → length (flat (map convert rs)) ≡ length rs * 72
    converted_length rs h =
        length-flat_even 72 (map convert rs) (map-HaveLength size 72 convert seventy_two rs h)
        ∙ ap (λ n. n * 72) (length-map convert rs)

    grows :
        (rs : List (List ℕ))
        → HaveLength size rs
        → length (flat rs) ≤ length (flat (map convert rs))
    grows rs h = grind (arith, length-flat_even size rs h, converted_length rs h, small)

    load_ports :
        (at : ℕ) (pre : List ℕ) (rs : List (List ℕ))
        → length pre ≡ at
        → load at (length (flat rs)) (pre ++ flat rs) ≡ some (flat rs)
    load_ports at pre rs h =
        ap (load at (length (flat rs))) (sym (flat-pair pre (flat rs)))
        ∙ load-field 1 at (length (flat rs)) (flat rs) [] (pre ∷ flat rs ∷ []) refl (omega arith)
            refl

    even :
        (rs : List (List ℕ))
        → HaveLength size rs
        → (length (flat rs) % size ≡ 0) × (length (flat rs) / size ≡ length rs)
    even rs h = let n = length rs in rw (length-flat_even size rs h) ((divided n).1, (divided n).0)

    norm_features_reply_lem :
        (pre : List ℕ) (rs : List (List ℕ))
        → length pre ≡ 32
        → header_length (pre ++ flat rs) ≡ length (pre ++ flat rs)
        → HaveLength size rs
        → norm_features_reply fresh size convert (pre ++ flat rs) ≡ (
            if ltb 65503 (length rs * 72)
            then some (mark_input_too_big (pre ++ flat rs))
            else some (pre ++ flat (map convert rs)))
    unfolding norm_features_reply
    norm_features_reply_lem pre rs h len hs =
        let whole : header_length (pre ++ flat rs) ≡ 32 + length (flat rs) =
          omega (arith, len, length-append pre (flat rs)) in
        let list : 32 + length (flat rs) - 32 ≡ length (flat rs) = omega arith in
        let long : ltb (32 + length (flat rs)) 32 ≡ false = ground arith in
        let (even_size, count) = even rs hs in
        rw
          (
            whole,
            list,
            long,
            even_size,
            load_ports 32 pre rs h,
            count,
            convert_ports-flat size convert rs hs,
            converted_length rs hs,
            replace_ports-fields 32 pre (flat rs) (flat (map convert rs)) h (grows rs hs),
          )
          refl

    norm_port_desc_reply_lem :
        (pre : List ℕ) (rs : List (List ℕ))
        → length pre ≡ 16
        → HaveLength size rs
        → norm_port_desc_reply fresh size convert (pre ++ flat rs)
          ≡ some (pre ++ flat (map convert rs))
    unfolding norm_port_desc_reply
    norm_port_desc_reply_lem pre rs h hs =
        let list : length (pre ++ flat rs) - 16 ≡ length (flat rs) =
          omega (arith, length-append pre (flat rs)) in
        let (even_size, count) = even rs hs in
        rw
          (
            list,
            even_size,
            load_ports 16 pre rs h,
            count,
            convert_ports-flat size convert rs hs,
            replace_ports-fields 16 pre (flat rs) (flat (map convert rs)) h (grows rs hs),
          )
          refl

  -- A FeaturesReply of OpenFlow 1.0 with whole ports, as long as its header says, has the ports of
  -- the latest version behind the same 32 bytes, or is marked where these are more than a message
  -- can hold.
  pub norm_features_reply_v1_lem :
      (pre : List ℕ) (rs : List (List ℕ))
      → length pre ≡ 32
      → header_length (pre ++ flat rs) ≡ length (pre ++ flat rs)
      → HaveLength 48 rs
      → norm_features_reply_v1 fresh (pre ++ flat rs) ≡ (
          if ltb 65503 (length rs * 72)
          then some (mark_input_too_big (pre ++ flat rs))
          else some (pre ++ flat (map port_of_v1 rs)))
  unfolding norm_features_reply_v1
  norm_features_reply_v1_lem =
      norm_features_reply_lem 48 port_of_v1 (λ n. (omega arith, omega arith)) (omega arith)
        length-port_of_v1

  pub norm_features_reply_v2_lem :
      (pre : List ℕ) (rs : List (List ℕ))
      → length pre ≡ 32
      → header_length (pre ++ flat rs) ≡ length (pre ++ flat rs)
      → HaveLength 64 rs
      → norm_features_reply_v2 fresh (pre ++ flat rs) ≡ (
          if ltb 65503 (length rs * 72)
          then some (mark_input_too_big (pre ++ flat rs))
          else some (pre ++ flat (map port_of_v2 rs)))
  unfolding norm_features_reply_v2
  norm_features_reply_v2_lem =
      norm_features_reply_lem 64 port_of_v2 (λ n. (omega arith, omega arith)) (omega arith)
        length-port_of_v2

  pub norm_port_desc_reply_v1_lem :
      (pre : List ℕ) (rs : List (List ℕ))
      → length pre ≡ 16
      → HaveLength 48 rs
      → norm_port_desc_reply_v1 fresh (pre ++ flat rs) ≡ some (pre ++ flat (map port_of_v1 rs))
  unfolding norm_port_desc_reply_v1
  norm_port_desc_reply_v1_lem =
      norm_port_desc_reply_lem 48 port_of_v1 (λ n. (omega arith, omega arith)) (omega arith)
        length-port_of_v1

  pub norm_port_desc_reply_v4_lem :
      (pre : List ℕ) (rs : List (List ℕ))
      → length pre ≡ 16
      → HaveLength 64 rs
      → norm_port_desc_reply_v4 fresh (pre ++ flat rs) ≡ some (pre ++ flat (map port_of_v2 rs))
  unfolding norm_port_desc_reply_v4
  norm_port_desc_reply_v4_lem =
      norm_port_desc_reply_lem 64 port_of_v2 (λ n. (omega arith, omega arith)) (omega arith)
        length-port_of_v2
