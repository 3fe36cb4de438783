-- ===== src/Normalize/SetField.antt =====
-- Actions that set a field in src/ofp/normalize.cpp: what one becomes.
use mathlib.Core.List.{reverse, reverse_aux}
use libofp.Base.{
  ℕ, ◌+◌, ◌-◌, ◌*◌, ◌/◌, ◌%◌, ◌≤◌, ◌<◌, ◌≡◌, Bool, true, false, ◌&&◌, List, [], ◌∷◌, ◌++◌, some,
  length, take, drop, replicate, ltb, leb, if◌then◌else◌, ◌==◌, bytes16, refl, sym, ap, ◌∙◌, arith,
  length-append, length-take, length-drop, drop-append, Bool-cases, inl, inr, append_nil, ltb→lt,
  take-append_more, drop-append_more,
}
use libofp.Memory.{load, memcpy, length-replicate}
use libofp.Normalize.Actions.{
  OxmValue, native_value, padded_list, remove_at, resize_action, norm_set_field, norm_action,
  type_v2, set_field_of, basic,
}
use libofp.Normalize.Edits.{insert_at-within, memcpy-head, load-head, load-within, memcpy-behind}
use libofp.ProtocolRange.{big16}
use libofp.SmallBuffer.{pad_length}

-- A removal inside of an action.
remove_at-head :
    (pre r rest : List ℕ) (n : ℕ)
    → n ≤ length r
    → remove_at (length pre) n (pre ++ (r ++ rest)) ≡ some (pre ++ (drop n r ++ rest))
unfolding remove_at
remove_at-head pre r rest n h =
    let inside : leb (length pre + n) (length (pre ++ (r ++ rest))) ≡ true =
      ground (arith, length-append pre (r ++ rest), length-append r rest) in
    let before : take (length pre) (pre ++ (r ++ rest)) ≡ pre =
      take-append_more (length pre) 0 pre (r ++ rest) (omega arith) ∙ append_nil pre in
    let behind : drop (length pre + n) (pre ++ (r ++ rest)) ≡ drop n r ++ rest =
      drop-append_more (length pre + n) n pre (r ++ rest) refl ∙ drop-append n r rest h in
    rw (inside, before, behind) refl

length-reverse_aux : (xs ys : List ℕ) → length (reverse_aux xs ys) ≡ length xs + length ys
length-reverse_aux [] ys = omega arith
length-reverse_aux (x ∷ xs) ys = omega (arith, length-reverse_aux xs (x ∷ ys))

length-native_value :
    (little_endian : Bool) (field : OxmValue) (bytes : List ℕ)
    → length (native_value little_endian field bytes) ≡ length bytes
unfolding native_value
length-native_value little_endian field bytes =
    elim (Bool-cases (little_endian && field.is_big16)) [
      | inl y ↦ rw y (omega (arith, length-reverse_aux bytes []))
      | inr n ↦ rw n refl
    ]

-- The list with one field of the basic class has 12 bytes.
pub length-padded_list :
    (little_endian : Bool) (field : OxmValue) (bytes : List ℕ)
    → length field.type ≡ 4
    → 1 ≤ field.size
    → field.size ≤ 8
    → length bytes ≡ field.size
    → length (padded_list little_endian field bytes) ≡ 12
unfolding padded_list pad_length
length-padded_list little_endian field bytes ht lo hi h =
    let native = native_value little_endian field bytes in
    let zeros : List ℕ = replicate (8 * ((8 + field.size + 7) / 8) - (8 + field.size)) 0 in
    omega (
      arith,
      length-append field.type (native ++ zeros),
      length-append native zeros,
      length-native_value little_endian field bytes,
      length-replicate (8 * ((8 + field.size + 7) / 8) - (8 + field.size)) 0,
    )

-- The bytes of the list, for a field of at most 8 bytes
padded_list_lem :
    (little_endian : Bool) (field : OxmValue) (bytes : List ℕ)
    → 1 ≤ field.size
    → field.size ≤ 8
    → padded_list little_endian field bytes
      ≡ field.type
        ++ ((if little_endian && field.is_big16 then reverse bytes else bytes)
            ++ replicate (8 - field.size) 0)
unfolding padded_list native_value pad_length
padded_list_lem little_endian field bytes lo hi =
    let e : 8 * ((8 + field.size + 7) / 8) - (8 + field.size) ≡ 8 - field.size = omega arith in
    rw e refl

-- An action of any size becomes one of 16 bytes, of which only the size is of interest.
module _ (fresh : ℕ → List ℕ) (fresh_length : (n : ℕ) → length (fresh n) ≡ n) where
  resize_action-length :
      (pre r rest : List ℕ) (end : ℕ)
      → 4 ≤ length r
      → length r ≤ end
      → (r' : List ℕ) × (end' : ℕ) × (resize_action fresh
            (length r)
            16
            (pre ++ (r ++ rest))
            (length pre)
            end
          ≡ some (pre ++ (r' ++ rest), end'))
        × (length r' ≡ 16)
        × (end' + length r ≡ end + 16)
  unfolding resize_action
  resize_action-length pre r rest end h k = elim (Bool-cases (ltb (length r) 16)) [
    | inl shorter ↦
        let n : ℕ = 16 - length r in
        (
          take 4 r ++ (fresh n ++ drop 4 r),
          end + n,
          rw (shorter, insert_at-within pre r rest (fresh n) 4 h) refl,
          omega (
            arith,
            length-append (take 4 r) (fresh n ++ drop 4 r),
            length-append (fresh n) (drop 4 r),
            length-take 4 r,
            length-drop 4 r,
            fresh_length n,
            ltb→lt (length r) 16 shorter,
          ),
          omega (arith, ltb→lt (length r) 16 shorter),
        )
    | inr other ↦ elim (Bool-cases (ltb 16 (length r))) [
      | inl longer ↦
          let n : ℕ = length r - 16 in
          (
            drop n r,
            end - n,
            rw (other, longer, remove_at-head pre r rest n (omega arith)) refl,
            omega (arith, length-drop n r, ltb→lt 16 (length r) longer),
            omega (arith, ltb→lt 16 (length r) longer),
          )
      | inr same ↦
          let e : length r ≡ 16 = ground arith in
          (r, end, rw (other, same) refl, e, omega (arith, e))
    ]
  ]

  -- An action that sets a field, of a size that is a multiple of 8, with a value of at least the size of
  -- the field, becomes a SET_FIELD action of 16 bytes with the type of the field, the first bytes of the
  -- value, and zeros. Where the host is little-endian and the field is a Big16 these bytes are reversed.
  -- The bytes behind the action stay, and the end of the range moves with them.
  pub norm_set_field_lem :
      (little_endian : Bool) (field : OxmValue) (pre value rest : List ℕ) (t u end : ℕ)
      → length field.type ≡ 4
      → 1 ≤ field.size
      → field.size ≤ 8
      → field.size ≤ length value
      → (4 + length value) % 8 ≡ 0
      → 4 + length value < 65536
      → 4 + length value ≤ end
      → norm_set_field fresh little_endian field
          (pre ++ ((t ∷ u ∷ (bytes16 (4 + length value) ++ value)) ++ rest))
          (length pre)
          end
        ≡ some (
          pre
              ++ (((bytes16 25 ++ bytes16 16)
                    ++ (field.type
                        ++ ((if little_endian && field.is_big16
                              then reverse (take field.size value)
                              else take field.size value)
                            ++ replicate (8 - field.size) 0)))
                  ++ rest),
          end + 16 - (4 + length value),
        )
  unfolding norm_set_field big16
  norm_set_field_lem little_endian field pre value rest t u end ht lo hi fits even small inside =
      let n : ℕ = 4 + length value in
      let r = t ∷ u ∷ (bytes16 n ++ value) in
      let whole : length r ≡ n = omega arith in
      let size : n / 256 % 256 * 256 + n % 256 ≡ n = omega arith in
      let multiple : (n % 8 == 0) ≡ true = ground (arith, even) in
      let filled : (n == 0) ≡ false = ground arith in
      let wide : ltb (n - 4) field.size ≡ false = ground arith in
      let list = padded_list little_endian field (take field.size value) in
      let twelve : length list ≡ 12 =
        length-padded_list little_endian field (take field.size value) ht lo hi
          (omega (arith, length-take field.size value)) in
      let (r', end', e, sixteen, moved) =
        resize_action-length pre r rest end (omega arith) (omega arith) in
      let s1 : load (length pre) 4 (pre ++ (r ++ rest)) ≡ some (t ∷ u ∷ bytes16 n) =
        load-head pre r rest 4 (omega arith) in
      let s2 : load (length pre + 4) field.size (pre ++ (r ++ rest))
          ≡ some (take field.size value) =
        load-within pre r rest 4 field.size (omega arith) in
      let s3 : resize_action fresh n 16 (pre ++ (r ++ rest)) (length pre) end
          ≡ some (pre ++ (r' ++ rest), end') =
        ap (λ k. resize_action fresh k 16 (pre ++ (r ++ rest)) (length pre) end) (sym whole) ∙ e in
      let head = bytes16 25 ++ bytes16 16 in
      let s4 : memcpy (length pre) head (pre ++ (r' ++ rest))
          ≡ some (pre ++ ((head ++ drop 4 r') ++ rest)) =
        memcpy-head pre r' rest head 4 refl (omega arith) in
      let s5 : memcpy (length pre + 4) list (pre ++ ((head ++ drop 4 r') ++ rest))
          ≡ some (pre ++ ((head ++ list) ++ rest)) =
        memcpy-behind pre head (drop 4 r') rest list 4 refl
          (omega (arith, length-drop 4 r', twelve)) in
      let there : end' ≡ end + 16 - n = omega arith in
      let bytes = padded_list_lem little_endian field (take field.size value) lo hi in
      rw (s1, size, multiple, filled, wide, s2, twelve, s3, s4, s5, there, bytes) refl

  -- An action of OpenFlow 1.0 of 8 bytes that sets the TCP source port becomes a SET_FIELD action of 16
  -- bytes. On a little-endian host the two bytes of the port are swapped; on others they are not.
  pub norm_action-tp_src :
      (little_endian : Bool) (pre rest : List ℕ) (a b c d end : ℕ)
      → 8 ≤ end
      → norm_action fresh little_endian 1 6 9
          (pre ++ ((0 ∷ 9 ∷ 0 ∷ 8 ∷ a ∷ b ∷ c ∷ d ∷ []) ++ rest))
          (length pre)
          end
        ≡ some (
          pre
              ++ ((0
                    ∷ 25
                    ∷ 0
                    ∷ 16
                    ∷ 0x80
                    ∷ 0
                    ∷ 26
                    ∷ 2
                    ∷ (if little_endian then b else a)
                    ∷ (if little_endian then a else b)
                    ∷ replicate 6 0)
                  ++ rest),
          end + 8,
        )
  unfolding norm_action type_v2 set_field_of
  norm_action-tp_src true pre rest a b c d end h =
      let e : end + 16 - (4 + 4) ≡ end + 8 = omega arith in
      norm_set_field_lem true (basic 13 2 true) pre (a ∷ b ∷ c ∷ d ∷ []) rest 0 9 end refl
        (omega arith) (omega arith) (omega arith) refl (omega arith) h
      ∙ rw e refl
  norm_action-tp_src false pre rest a b c d end h =
      let e : end + 16 - (4 + 4) ≡ end + 8 = omega arith in
      norm_set_field_lem false (basic 13 2 true) pre (a ∷ b ∷ c ∷ d ∷ []) rest 0 9 end refl
        (omega arith) (omega arith) (omega arith) refl (omega arith) h
      ∙ rw e refl
