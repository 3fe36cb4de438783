-- ===== src/Normalize/Elements.antt =====
-- The loops of src/ofp/normalize.cpp over the elements of a message, whatever is done to each.
use mathlib.Core.List.{map}
use libofp.Base.{
  ℕ, zero, suc, ◌+◌, ◌-◌, ◌≤◌, ◌<◌, ◌≡◌, List, [], ◌∷◌, ◌++◌, Option, some, length, All, sym, ap,
  ◌∙◌, arith, length-append, append_assoc, append_nil, dec_lt,
}
use libofp.Memory.Fields.{flat}
use libofp.Normalize.{finished, each_element}

module _ (step : List ℕ → ℕ → Option (List ℕ × ℕ)) where
  pub each_element-done :
      (rounds : ℕ) (buf : List ℕ) (offset : ℕ)
      → length buf ≤ offset
      → each_element step (suc rounds) buf offset ≡ finished buf offset
  unfolding each_element
  each_element-done rounds buf offset h = ground arith

  pub each_element-more :
      (rounds : ℕ) (buf : List ℕ) (offset : ℕ) (buf' : List ℕ) (offset' : ℕ)
      → offset < length buf
      → step buf offset ≡ some (buf', offset')
      → each_element step (suc rounds) buf offset ≡ each_element step rounds buf' offset'
  unfolding each_element
  each_element-more rounds buf offset buf' offset' h e = ground arith

-- A loop that converts each element where it stands converts them all, and then deals with what is
-- left behind them.
module _ (step : List ℕ → ℕ → Option (List ℕ × ℕ)) (convert : List ℕ → List ℕ) (P : List ℕ → Type 0)
    (filled : (r : List ℕ) → P r → 0 < length r)
    (one : (pre r rest : List ℕ)
      → P r
      → step (pre ++ (r ++ rest)) (length pre)
        ≡ some (pre ++ (convert r ++ rest), length pre + length (convert r)))
    (left : List ℕ) (ended : List ℕ → List ℕ)
    (last : (rounds : ℕ) (pre : List ℕ)
      → each_element step (suc (suc rounds)) (pre ++ left) (length pre)
        ≡ finished (ended (pre ++ left)) (length (pre ++ left))) where
  pub each_element-flat :
      (rounds : ℕ) (pre : List ℕ) (rs : List (List ℕ))
      → All P rs
      → suc (length rs) < rounds
      → each_element step rounds (pre ++ (flat rs ++ left)) (length pre)
        ≡ finished
            (ended (pre ++ (flat (map convert rs) ++ left)))
            (length (pre ++ (flat (map convert rs) ++ left)))
  unfolding each_element flat
  each_element-flat zero pre rs h k = absurd (omega arith)
  each_element-flat (suc zero) pre rs h k = absurd (omega arith)
  each_element-flat (suc (suc rounds)) pre [] h k = last rounds pre
  each_element-flat (suc (suc rounds)) pre (r ∷ rs) (hr, hs) k =
      let rest = flat rs ++ left in
      let after = flat (map convert rs) ++ left in
      let inside : length pre < length (pre ++ (r ++ rest)) =
        omega (arith, length-append pre (r ++ rest), length-append r rest, filled r hr) in
      let next : each_element step (suc rounds) ((pre ++ convert r) ++ rest)
            (length (pre ++ convert r))
          ≡ finished (ended ((pre ++ convert r) ++ after)) (length ((pre ++ convert r) ++ after)) =
        each_element-flat (suc rounds) (pre ++ convert r) rs hs (omega arith) in
      let here : each_element step (suc (suc rounds)) (pre ++ (r ++ rest)) (length pre)
          ≡ each_element step (suc rounds) (pre ++ (convert r ++ rest))
              (length pre + length (convert r)) =
        each_element-more step (suc rounds) (pre ++ (r ++ rest)) (length pre)
          (pre ++ (convert r ++ rest)) (length pre + length (convert r)) inside
          (one pre r rest hr) in
      ap (λ l. each_element step (suc (suc rounds)) (pre ++ l) (length pre))
        (append_assoc r (flat rs) left)
      ∙ here
      ∙ rw (sym (append_assoc pre (convert r) rest), sym (length-append pre (convert r))) next
      ∙ ap (λ l. finished (ended l) (length l)) (append_assoc pre (convert r) after)
      ∙ ap (λ l. finished (ended (pre ++ l)) (length (pre ++ l)))
          (sym (append_assoc (convert r) (flat (map convert rs)) left))

-- What is left is nothing, or a part of an element, at which the step goes to the end.
pub last_nothing :
    (step : List ℕ → ℕ → Option (List ℕ × ℕ)) (ended : List ℕ → List ℕ) (rounds : ℕ) (pre : List ℕ)
    → ended (pre ++ []) ≡ pre ++ []
    → each_element step (suc (suc rounds)) (pre ++ []) (length pre)
      ≡ finished (ended (pre ++ [])) (length (pre ++ []))
last_nothing step ended rounds pre e =
    let behind : length (pre ++ []) ≡ length pre = ap (λ l. length l) (append_nil pre) in
    each_element-done step (suc rounds) (pre ++ []) (length pre) (omega (arith, behind))
    ∙ ap (λ k. finished (pre ++ []) k) (sym behind)
    ∙ ap (λ l. finished l (length (pre ++ []))) (sym e)

pub last_part :
    (step : List ℕ → ℕ → Option (List ℕ × ℕ)) (ended : List ℕ → List ℕ) (rounds : ℕ)
    (pre left : List ℕ)
    → 0 < length left
    → step (pre ++ left) (length pre) ≡ some (ended (pre ++ left), length (pre ++ left))
    → length (ended (pre ++ left)) ≡ length (pre ++ left)
    → each_element step (suc (suc rounds)) (pre ++ left) (length pre)
      ≡ finished (ended (pre ++ left)) (length (pre ++ left))
last_part step ended rounds pre left h e size =
    each_element-more step (suc rounds) (pre ++ left) (length pre) (ended (pre ++ left))
      (length (pre ++ left)) (omega (arith, length-append pre left)) e
    ∙ each_element-done step rounds (ended (pre ++ left)) (length (pre ++ left))
        (omega (arith, size))

-- A loop ends where each round leaves less behind the offset than it found, and gets on.
module _ (step : List ℕ → ℕ → Option (List ℕ × ℕ))
    (gets_on : (buf : List ℕ) (start : ℕ)
      → start < length buf
      → (buf' : List ℕ) × (start' : ℕ) × (step buf start ≡ some (buf', start'))
        × (start' ≤ length buf')
        × (length buf' - start' < length buf - start)) where
  pub each_element_total :
      (rounds : ℕ) (buf : List ℕ) (offset : ℕ)
      → offset ≤ length buf
      → length buf - offset < rounds
      → (buf' : List ℕ) × (each_element step rounds buf offset ≡ finished buf' (length buf'))
  unfolding each_element
  each_element_total zero buf offset h k = absurd (omega arith)
  each_element_total (suc rounds) buf offset h k = elim (dec_lt offset (length buf)) [
    | yes more ↦
        let (buf', start', e, inside, less) = gets_on buf offset more in
        let (final, p) = each_element_total rounds buf' start' inside (omega arith) in
        (final, each_element-more step rounds buf offset buf' start' more e ∙ p)
    | no done ↦
        let e : offset ≡ length buf = omega arith in
        (buf, each_element-done step rounds buf offset (omega arith) ∙ ap (λ o. finished buf o) e)
  ]
