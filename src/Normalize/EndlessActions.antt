-- ===== src/Normalize/EndlessActions.antt =====
-- The loop over the actions of a flow in src/ofp/normalize.cpp, where they were not validated.
use libofp.Base.{
  ℕ, zero, suc, ◌+◌, ◌*◌, ◌≡◌, ◌<◌, Bool, false, List, [], ◌∷◌, ◌++◌, some, length, refl, sym, ap,
  ◌∙◌, arith, length-append, append_assoc,
}
use libofp.Memory.{load, memcpy}
use libofp.Normalize.{unfinished, insert_at}
use libofp.Normalize.Actions.{
  basic, padded_list, resize_action, norm_set_field, type_v2, set_field_of, norm_action, norm_item,
  norm_actions,
}
use libofp.Normalize.Edits.{insert_at-within, memcpy-head, memcpy-behind, load-head, load-within}
use libofp.Normalize.SetField.{length-padded_list}
use libofp.ProtocolRange.{big16}
use libofp.SmallBuffer.{pad_length}

-- Two actions that set the VLAN of OpenFlow 1.0, without a length.
abbrev pub no_length : List ℕ
no_length = 0 ∷ 1 ∷ 0 ∷ 0 ∷ 0 ∷ 1 ∷ 0 ∷ 0 ∷ []

abbrev set_vlan : Bool → List ℕ
set_vlan little_endian =
    (0 ∷ 25 ∷ 0 ∷ 16 ∷ []) ++ padded_list little_endian (basic 6 2 false) (0 ∷ 1 ∷ [])

norm_actions-more :
    (fresh : ℕ → List ℕ) (rounds : ℕ) (little_endian : Bool) (ip_proto : ℕ) (buf : List ℕ)
    (pos end : ℕ) (buf' : List ℕ) (pos' end' : ℕ)
    → pos < end
    → norm_item fresh little_endian 1 ip_proto buf pos end ≡ some (buf', pos', end')
    → norm_actions fresh (suc rounds) little_endian 1 ip_proto buf pos end
      ≡ norm_actions fresh rounds little_endian 1 ip_proto buf' pos' end'
unfolding norm_actions
norm_actions-more fresh rounds little_endian ip_proto buf pos end buf' pos' end' h e = ground arith

module _ (fresh : ℕ → List ℕ) (before : List ℕ) (twelve : length before ≡ 12)
    (left : fresh 16 ≡ before ++ (0 ∷ 1 ∷ 0 ∷ 0 ∷ [])) (little_endian : Bool) where
  length-set_vlan : length (set_vlan little_endian) ≡ 16
  length-set_vlan = omega (
    arith,
    length-padded_list little_endian (basic 6 2 false) (0 ∷ 1 ∷ []) refl (omega arith) (omega arith)
        refl,
  )

  -- One action gets on by its 16 new bytes, and two without a length stand behind it again.
  set_field_again :
      (pre rest : List ℕ) (end : ℕ)
      → norm_set_field fresh little_endian
          (basic 6 2 false)
          (pre ++ (no_length ++ rest))
          (length pre)
          end
        ≡ some (pre ++ (set_vlan little_endian ++ (no_length ++ rest)), end + 16)
  unfolding norm_set_field resize_action big16
  set_field_again pre rest end =
      let list = padded_list little_endian (basic 6 2 false) (0 ∷ 1 ∷ []) in
      let size : length list ≡ 12 =
        length-padded_list little_endian (basic 6 2 false) (0 ∷ 1 ∷ []) refl (omega arith)
          (omega arith) refl in
      let s1 : load (length pre) 4 (pre ++ (no_length ++ rest)) ≡ some (0 ∷ 1 ∷ 0 ∷ 0 ∷ []) =
        load-head pre no_length rest 4 (omega arith) in
      let s2 : load (length pre + 4) 2 (pre ++ (no_length ++ rest)) ≡ some (0 ∷ 1 ∷ []) =
        load-within pre no_length rest 4 2 (omega arith) in
      let longer = (0 ∷ 1 ∷ 0 ∷ 0 ∷ []) ++ before in
      let order : (0 ∷ 1 ∷ 0 ∷ 0 ∷ []) ++ (fresh 16 ++ (0 ∷ 1 ∷ 0 ∷ 0 ∷ [])) ≡ longer ++ no_length =
        rw left (
          ap (λ l. 0 ∷ 1 ∷ 0 ∷ 0 ∷ l)
            (append_assoc before (0 ∷ 1 ∷ 0 ∷ 0 ∷ []) (0 ∷ 1 ∷ 0 ∷ 0 ∷ []))) in
      let s3 : insert_at (length pre + 4) (fresh 16) (pre ++ (no_length ++ rest))
          ≡ some (pre ++ (longer ++ (no_length ++ rest))) =
        insert_at-within pre no_length rest (fresh 16) 4 (omega arith)
        ∙ ap (λ l. some (pre ++ (l ++ rest))) order
        ∙ ap (λ l. some (pre ++ l)) (append_assoc longer no_length rest) in
      let s4 : memcpy (length pre) (0 ∷ 25 ∷ 0 ∷ 16 ∷ []) (pre ++ (longer ++ (no_length ++ rest)))
          ≡ some (pre ++ (((0 ∷ 25 ∷ 0 ∷ 16 ∷ []) ++ before) ++ (no_length ++ rest))) =
        memcpy-head pre longer (no_length ++ rest) (0 ∷ 25 ∷ 0 ∷ 16 ∷ []) 4 refl (omega arith) in
      let s5 : memcpy (length pre + 4) list
            (pre ++ (((0 ∷ 25 ∷ 0 ∷ 16 ∷ []) ++ before) ++ (no_length ++ rest)))
          ≡ some (pre ++ (set_vlan little_endian ++ (no_length ++ rest))) =
        memcpy-behind pre (0 ∷ 25 ∷ 0 ∷ 16 ∷ []) before (no_length ++ rest) list 4 refl
          (omega (arith, size)) in
      rw (s1, s2, size, s3, s4, s5) refl

  item_again :
      (pre rest : List ℕ) (ip_proto end : ℕ)
      → norm_item fresh little_endian 1 ip_proto (pre ++ (no_length ++ rest)) (length pre) end
        ≡ some (pre ++ (set_vlan little_endian ++ (no_length ++ rest)), length pre + 16, end + 16)
  unfolding norm_item norm_action type_v2 set_field_of pad_length big16
  item_again pre rest ip_proto end =
      let after = no_length ++ rest in
      let s1 : load (length pre) 4 (pre ++ (no_length ++ rest)) ≡ some (0 ∷ 1 ∷ 0 ∷ 0 ∷ []) =
        load-head pre no_length rest 4 (omega arith) in
      let s2 : load (length pre) 4 (pre ++ (set_vlan little_endian ++ after))
          ≡ some (0 ∷ 25 ∷ 0 ∷ 16 ∷ []) =
        load-head pre (set_vlan little_endian) after 4 (omega (arith, length-set_vlan)) in
      rw (s1, set_field_again pre rest end, s2) refl

  -- Where new memory ends with the header of an action that sets the VLAN and has the length 0, as
  -- where insertUninitialized leaves the old bytes in place, the loop over actions without a length has
  -- no end: after any number of rounds the end of the range has moved on by 16 bytes for each.
  pub norm_actions_endless :
      (rounds ip_proto end : ℕ) (pre rest : List ℕ)
      → length pre < end
      → (buf : List ℕ) × (norm_actions fresh rounds little_endian 1 ip_proto
            (pre ++ (no_length ++ rest))
            (length pre)
            end
          ≡ unfinished buf (end + 16 * rounds))
  unfolding norm_actions
  norm_actions_endless zero ip_proto end pre rest h =
      let e : end ≡ end + 16 * 0 = omega arith in
      (pre ++ (no_length ++ rest), ap (λ k. unfinished (pre ++ (no_length ++ rest)) k) e)
  norm_actions_endless (suc rounds) ip_proto end pre rest h =
      let pre' = pre ++ set_vlan little_endian in
      let place : length pre' ≡ length pre + 16 =
        omega (arith, length-append pre (set_vlan little_endian), length-set_vlan) in
      let (buf, e) = norm_actions_endless rounds ip_proto (end + 16) pre' rest (omega arith) in
      let moved : pre ++ (set_vlan little_endian ++ (no_length ++ rest))
          ≡ pre' ++ (no_length ++ rest) =
        sym (append_assoc pre (set_vlan little_endian) (no_length ++ rest)) in
      let item = item_again pre rest ip_proto end in
      let far : end + 16 + 16 * rounds ≡ end + 16 * suc rounds = omega arith in
      (
        buf,
        norm_actions-more fresh rounds little_endian ip_proto (pre ++ (no_length ++ rest))
              (length pre) end (pre ++ (set_vlan little_endian ++ (no_length ++ rest)))
              (length pre + 16) (end + 16) h item
            ∙ ap
                (λ l.
                  norm_actions fresh rounds little_endian 1 ip_proto l (length pre + 16) (end + 16))
                moved
            ∙ ap
                (λ k.
                  norm_actions fresh rounds little_endian 1 ip_proto (pre' ++ (no_length ++ rest)) k
                    (end + 16))
                (sym place)
            ∙ e
            ∙ ap (λ k. unfinished buf k) far,
      )
