-- ===== src/Normalize/Endless.antt =====
-- The loop over group statistics in src/ofp/normalize.cpp, where a length field is zero.
use libofp.Base.{
  ℕ, zero, suc, ◌+◌, ◌-◌, ◌*◌, ◌≡◌, List, [], ◌∷◌, ◌++◌, some, length, ltb, refl, ap, ◌∙◌, arith,
  replicate, false, length-append, append_assoc,
}
use libofp.Normalize.{unfinished, each_element, norm_group_stats_v3, insert_at}
use libofp.Normalize.Elements.{each_element-more}
use libofp.Normalize.Edits.{insert_at-behind, memcpy-head, load-head}
use libofp.Memory.{load, memcpy}
use libofp.ProtocolRange.{big16}

-- 32 bytes in four slots of eight that each begin with a zero of 16 bits.
abbrev pub slots : List ℕ → List ℕ → List ℕ → List ℕ → List ℕ
slots a b c d = (0 ∷ 0 ∷ a) ++ ((0 ∷ 0 ∷ b) ++ ((0 ∷ 0 ∷ c) ++ (0 ∷ 0 ∷ d)))

slots_length :
    (a b c d : List ℕ)
    → length a ≡ 6
    → length b ≡ 6
    → length c ≡ 6
    → length d ≡ 6
    → length (slots a b c d) ≡ 32
slots_length a b c d ha hb hc hd = omega (
  arith,
  length-append a ((0 ∷ 0 ∷ b) ++ ((0 ∷ 0 ∷ c) ++ (0 ∷ 0 ∷ d))),
  length-append b ((0 ∷ 0 ∷ c) ++ (0 ∷ 0 ∷ d)),
  length-append c (0 ∷ 0 ∷ d),
)

-- A round gets on by eight bytes, and puts eight zeros behind the slots.
round :
    (pre a b c d rest : List ℕ)
    → length a ≡ 6
    → length b ≡ 6
    → length c ≡ 6
    → length d ≡ 6
    → norm_group_stats_v3 32 (pre ++ (slots a b c d ++ rest)) (length pre)
      ≡ some (
        (pre ++ (0 ∷ 8 ∷ a)) ++ (slots b c d (replicate 6 0) ++ rest),
        length (pre ++ (0 ∷ 8 ∷ a)),
      )
unfolding norm_group_stats_v3 big16
round pre a b c d rest ha hb hc hd =
    let r = slots a b c d in
    let more = (0 ∷ 0 ∷ b) ++ ((0 ∷ 0 ∷ c) ++ (0 ∷ 0 ∷ d)) in
    let size : length r ≡ 32 = slots_length a b c d ha hb hc hd in
    let whole : length (pre ++ (r ++ rest)) ≡ length pre + (32 + length rest) =
      omega (arith, length-append pre (r ++ rest), length-append r rest) in
    let room : ltb (length (pre ++ (r ++ rest)) - length pre) 32 ≡ false = ground arith in
    let fits : ltb (length (pre ++ (r ++ rest)) - length pre) 0 ≡ false = ground arith in
    let s1 : load (length pre) 2 (pre ++ (r ++ rest)) ≡ some (0 ∷ 0 ∷ []) =
      load-head pre r rest 2 (omega arith) in
    let s2 : memcpy (length pre) (0 ∷ 8 ∷ []) (pre ++ (r ++ rest))
        ≡ some (pre ++ (((0 ∷ 8 ∷ a) ++ more) ++ rest)) =
      memcpy-head pre r rest (0 ∷ 8 ∷ []) 2 refl (omega arith) in
    let s3 : insert_at (length pre + 32) (replicate 8 0) (pre ++ (((0 ∷ 8 ∷ a) ++ more) ++ rest))
        ≡ some (pre ++ ((((0 ∷ 8 ∷ a) ++ more) ++ replicate 8 0) ++ rest)) =
      insert_at-behind pre ((0 ∷ 8 ∷ a) ++ more) rest (replicate 8 0) 32 (omega arith) in
    let place : length (pre ++ (0 ∷ 8 ∷ a)) ≡ length pre + 8 =
      omega (arith, length-append pre (0 ∷ 8 ∷ a)) in
    let order : pre ++ ((((0 ∷ 8 ∷ a) ++ more) ++ replicate 8 0) ++ rest)
        ≡ (pre ++ (0 ∷ 8 ∷ a)) ++ (slots b c d (replicate 6 0) ++ rest) =
      simp append_assoc in
    rw (room, s1, fits, s2, s3, order, place) refl

-- Such statistics have no end: after any number of rounds there are eight more bytes for each, and
-- as much is left as before.
pub group_stats_v3_endless :
    (rounds : ℕ) (pre a b c d rest : List ℕ)
    → length a ≡ 6
    → length b ≡ 6
    → length c ≡ 6
    → length d ≡ 6
    → (buf : List ℕ) × (each_element
          (norm_group_stats_v3 32)
          rounds
          (pre ++ (slots a b c d ++ rest))
          (length pre)
        ≡ unfinished buf (length pre + 8 * rounds))
      × (length buf ≡ length (pre ++ (slots a b c d ++ rest)) + 8 * rounds)
unfolding each_element
group_stats_v3_endless zero pre a b c d rest ha hb hc hd = (
  pre ++ (slots a b c d ++ rest),
  ap (λ k. unfinished (pre ++ (slots a b c d ++ rest)) k) (omega arith),
  omega arith,
)
group_stats_v3_endless (suc rounds) pre a b c d rest ha hb hc hd =
    let pre' = pre ++ (0 ∷ 8 ∷ a) in
    let z : List ℕ = replicate 6 0 in
    let before : length (pre ++ (slots a b c d ++ rest)) ≡ length pre + (32 + length rest) = omega (
      arith,
      length-append pre (slots a b c d ++ rest),
      length-append (slots a b c d) rest,
      slots_length a b c d ha hb hc hd,
    ) in
    let after : length (pre' ++ (slots b c d z ++ rest)) ≡ length pre + (40 + length rest) = omega (
      arith,
      length-append pre' (slots b c d z ++ rest),
      length-append pre (0 ∷ 8 ∷ a),
      length-append (slots b c d z) rest,
      slots_length b c d z hb hc hd refl,
    ) in
    let place : length pre' ≡ length pre + 8 = omega (arith, length-append pre (0 ∷ 8 ∷ a)) in
    let (buf, e, size) = group_stats_v3_endless rounds pre' b c d z rest hb hc hd refl in
    let there : length pre' + 8 * rounds ≡ length pre + 8 * suc rounds = omega arith in
    (
      buf,
      each_element-more (norm_group_stats_v3 32) rounds (pre ++ (slots a b c d ++ rest))
            (length pre) (pre' ++ (slots b c d z ++ rest)) (length pre') (omega arith)
            (round pre a b c d rest ha hb hc hd)
          ∙ e
          ∙ ap (λ k. unfinished buf k) there,
      omega arith,
    )
