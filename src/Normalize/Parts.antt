-- ===== src/Normalize/Parts.antt =====
-- The loops of src/ofp/normalize.cpp over elements of one length, with a part of an element at the end.
use mathlib.Core.List.{map}
use libofp.Base.{
  ℕ, suc, ◌+◌, ◌-◌, ◌<◌, ◌≡◌, List, [], ◌∷◌, ◌++◌, Option, some, length, ltb, true, refl, sym, ap,
  ◌∙◌, arith, length-append,
}
use libofp.Memory.Fields.{flat}
use libofp.Normalize.{
  finished, each_element, mark_version, mark_input_invalid, norm_table_stats_v4,
  norm_port_or_queue_stats_v3, norm_port_stats_v2, norm_port_stats_v4,
}
use libofp.Normalize.Elements.{each_element-flat, last_nothing, last_part}
use libofp.Normalize.PortLists.{HaveLength}

-- The loop over elements of one length, with a part of an element at the end.
module _ (step : List ℕ → ℕ → Option (List ℕ × ℕ)) (convert : List ℕ → List ℕ) (len : ℕ)
    (filled : 0 < len)
    (one : (pre r rest : List ℕ)
      → length r ≡ len
      → step (pre ++ (r ++ rest)) (length pre)
        ≡ some (pre ++ (convert r ++ rest), length pre + length (convert r)))
    (ended : List ℕ → List ℕ → List ℕ) (nothing : (buf : List ℕ) → ended [] buf ≡ buf)
    (part : (pre left : List ℕ)
      → 0 < length left
      → length left < len
      → (step (pre ++ left) (length pre) ≡ some (ended left (pre ++ left), length (pre ++ left)))
        × (length (ended left (pre ++ left)) ≡ length (pre ++ left))) where
  last_of :
      (left : List ℕ)
      → length left < len
      → (rounds : ℕ) (pre : List ℕ)
      → each_element step (suc (suc rounds)) (pre ++ left) (length pre)
        ≡ finished (ended left (pre ++ left)) (length (pre ++ left))
  last_of [] h rounds pre = last_nothing step (ended []) rounds pre (nothing (pre ++ []))
  last_of (x ∷ left) h rounds pre =
      let (e, size) = part pre (x ∷ left) (omega arith) h in
      last_part step (ended (x ∷ left)) rounds pre (x ∷ left) (omega arith) e size

  rounds_enough :
      (pre : List ℕ) (rs : List (List ℕ)) (left : List ℕ)
      → length pre ≡ 16
      → HaveLength len rs
      → suc (length rs) < length (pre ++ (flat rs ++ left))
  unfolding flat
  rounds_enough pre [] left h hs = omega (arith, length-append pre left)
  rounds_enough pre (r ∷ rs) left h (hr, hs) = omega (
    arith,
    rounds_enough pre rs left h hs,
    length-append pre ((r ++ flat rs) ++ left),
    length-append (r ++ flat rs) left,
    length-append r (flat rs),
    length-append pre (flat rs ++ left),
    length-append (flat rs) left,
  )

  pub each_of :
      (pre : List ℕ) (rs : List (List ℕ)) (left : List ℕ)
      → length pre ≡ 16
      → HaveLength len rs
      → length left < len
      → each_element step (length (pre ++ (flat rs ++ left))) (pre ++ (flat rs ++ left)) 16
        ≡ finished
            (ended left (pre ++ (flat (map convert rs) ++ left)))
            (length (pre ++ (flat (map convert rs) ++ left)))
  each_of pre rs left h hs hl =
      ap (each_element step (length (pre ++ (flat rs ++ left))) (pre ++ (flat rs ++ left))) (sym h)
      ∙ each_element-flat step convert (λ r. length r ≡ len) (λ r e. omega arith) one left
          (ended left) (last_of left hl) (length (pre ++ (flat rs ++ left))) pre rs hs
          (rounds_enough pre rs left h hs)

-- A part of port statistics is left as it is.
pub part_of_port_stats_v4 :
    (fresh : ℕ → List ℕ) (pre left : List ℕ)
    → 0 < length left
    → length left < 112
    → (norm_port_stats_v4 fresh (pre ++ left) (length pre)
        ≡ some (pre ++ left, length (pre ++ left)))
      × (length (pre ++ left) ≡ length (pre ++ left))
unfolding norm_port_stats_v4
part_of_port_stats_v4 fresh pre left h k =
    let short : ltb (length (pre ++ left) - length pre) 112 ≡ true =
      ground (arith, length-append pre left) in
    (rw short refl, refl)

pub part_of_port_stats_v2 :
    (fresh : ℕ → List ℕ) (pre left : List ℕ)
    → 0 < length left
    → length left < 104
    → (norm_port_stats_v2 fresh (pre ++ left) (length pre)
        ≡ some (pre ++ left, length (pre ++ left)))
      × (length (pre ++ left) ≡ length (pre ++ left))
unfolding norm_port_stats_v2
part_of_port_stats_v2 fresh pre left h k =
    let short : ltb (length (pre ++ left) - length pre) 104 ≡ true =
      ground (arith, length-append pre left) in
    (rw short refl, refl)

pub part_of_queue_stats_v3 :
    (pre left : List ℕ)
    → 0 < length left
    → length left < 32
    → (norm_port_or_queue_stats_v3 32 (pre ++ left) (length pre)
        ≡ some (pre ++ left, length (pre ++ left)))
      × (length (pre ++ left) ≡ length (pre ++ left))
unfolding norm_port_or_queue_stats_v3
part_of_queue_stats_v3 pre left h k =
    let short : ltb (length (pre ++ left) - length pre) 32 ≡ true =
      ground (arith, length-append pre left) in
    (rw short refl, refl)

-- A part of table statistics marks the message.
abbrev pub marked_if_left : List ℕ → List ℕ → List ℕ
marked_if_left [] buf = buf
marked_if_left (x ∷ left) buf = mark_input_invalid buf

pub length-mark_version : (flag : ℕ) (buf : List ℕ) → length (mark_version flag buf) ≡ length buf
unfolding mark_version
length-mark_version flag [] = refl
length-mark_version flag (version ∷ buf) = refl

pub part_of_table_stats_v4 :
    (pre left : List ℕ)
    → 0 < length left
    → length left < 24
    → (norm_table_stats_v4 (pre ++ left) (length pre)
        ≡ some (marked_if_left left (pre ++ left), length (pre ++ left)))
      × (length (marked_if_left left (pre ++ left)) ≡ length (pre ++ left))
unfolding norm_table_stats_v4
part_of_table_stats_v4 pre [] h k = absurd (omega arith)
part_of_table_stats_v4 pre (x ∷ left) h k =
    let short : ltb (length (pre ++ (x ∷ left)) - length pre) 24 ≡ true =
      ground (arith, length-append pre (x ∷ left)) in
    (rw short refl, length-mark_version 0xf0 (pre ++ (x ∷ left)))
