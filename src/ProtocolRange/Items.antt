-- ===== src/ProtocolRange/Items.antt =====
-- The elements of a range that was checked.
use mathlib.Core.List.{flatten}
use libofp.Base.{
  ℕ, zero, suc, ◌+◌, ◌≤◌, ◌<◌, ◌≡◌, ◌⊎◌, inl, inr, false, List, [], ◌∷◌, ◌++◌, All, length, take,
  drop, ltb, ◌==◌, none, arith, refl, ap, sym, ◌∙◌, length-drop, length-take, take-drop,
}
use libofp.SmallBuffer.{pad_length}
use libofp.ProtocolRange.{
  check_element, check_from, check_range, Round, jump, invalid, item_jump, item_size, items,
  item_count, count_from, field_size, size_conditional, size_fixed, RangeError,
}

-- The sizes that the classes of elements have: a field inside of the element and padding to 8 bytes,
-- or the size by the first field, without padding.
abbrev pub IsLayout : ℕ → ℕ → ℕ → Type 0
IsLayout element_size field alignment =
    ((field < 32) × (field + 2 ≤ element_size) × (alignment ≡ 8))
    ⊎ ((field ≡ size_conditional) × (element_size ≤ 4) × (alignment ≡ 4))

pub check_element-jump :
    (element_size field alignment : ℕ) (bytes : List ℕ) (n : ℕ)
    → IsLayout element_size field alignment
    → check_element element_size field alignment bytes ≡ jump n
    → (n ≡ item_jump field alignment bytes) × (4 ≤ n) × (element_size ≤ n) × (n ≤ length bytes)
unfolding check_element item_jump item_size field_size pad_length
check_element-jump element_size field alignment bytes n (inl l) h = ground arith
check_element-jump element_size field alignment bytes n (inr l) h = ground arith

ltb-false : {m n : ℕ} → m ≤ n → ltb n m ≡ false
ltb-false h = ground arith

pub Round-cases : (r : Round) → ((n : ℕ) × (r ≡ jump n)) ⊎ ((e : RangeError) × (r ≡ invalid e))
Round-cases (jump n) = inl (n, refl)
Round-cases (invalid e) = inr (e, refl)

-- A round of a loop that ends without an error.
pub check_from-round :
    (k element_size field alignment x : ℕ) (xs : List ℕ)
    → check_from (suc k) element_size field alignment (x ∷ xs) ≡ none
    → (n : ℕ) × (check_element element_size field alignment (x ∷ xs) ≡ jump n)
      × (check_from k element_size field alignment (drop n (x ∷ xs)) ≡ none)
unfolding check_from
check_from-round k element_size field alignment x xs h =
    elim (Round-cases (check_element element_size field alignment (x ∷ xs))) [
      | inl (n, e) ↦ (n, e, (let g = rw e at h in g))
      | inr (r, e) ↦ absurd (let g = rw e at h in cc)
    ]

-- What an iterator sees of bytes.
abbrev pub AreItems : ℕ → ℕ → ℕ → ℕ → List ℕ → Type 0
AreItems f element_size field alignment bytes =
    (flatten (items f field alignment bytes) ≡ bytes)
    × (length (items f field alignment bytes) ≡ count_from f field alignment bytes)
    × All (λ e. element_size ≤ length e) (items f field alignment bytes)

check_from-AreItems :
    (f element_size field alignment : ℕ) (bytes : List ℕ)
    → IsLayout element_size field alignment
    → length bytes ≤ f
    → check_from f element_size field alignment bytes ≡ none
    → AreItems f element_size field alignment bytes
unfolding items count_from flatten
check_from-AreItems zero element_size field alignment [] l k h = (refl, refl, tt)
check_from-AreItems zero element_size field alignment (x ∷ xs) l k h = absurd (omega arith)
check_from-AreItems (suc f) element_size field alignment [] l k h = (refl, refl, tt)
check_from-AreItems (suc f) element_size field alignment (x ∷ xs) l k h =
    let (n, e, rest) = check_from-round f element_size field alignment x xs h in
    let (same, least, fits, inside) =
      check_element-jump element_size field alignment (x ∷ xs) n l e in
    let (all, count, sizes) =
      check_from-AreItems f element_size field alignment (drop n (x ∷ xs)) l
        (omega (arith, length-drop n (x ∷ xs))) rest in
    let one : length (take n (x ∷ xs)) ≡ n = omega (arith, length-take n (x ∷ xs)) in
    rw (sym same, ltb-false inside)
      (
        ap (λ l. take n (x ∷ xs) ++ l) all ∙ take-drop n (x ∷ xs),
        ap suc count,
        (omega (arith, one), sizes),
      )

not_fixed :
    {element_size field alignment : ℕ}
    → IsLayout element_size field alignment
    → (field == size_fixed) ≡ false
not_fixed (inl l) = ground arith
not_fixed (inr l) = ground arith

check_range-loop :
    (element_size field alignment address : ℕ) (bytes : List ℕ)
    → (field == size_fixed) ≡ false
    → check_range element_size field alignment address bytes ≡ none
    → check_from (length bytes) element_size field alignment bytes ≡ none
unfolding check_range
check_range-loop element_size field alignment address bytes e h = ground arith

-- In a range that passes the check, an iterator gets exactly to the end: the elements that it stops
-- at are the bytes of the range, none is shorter than the class of elements, and their number is the
-- item count.
pub check_range-AreItems :
    (element_size field alignment address : ℕ) (bytes : List ℕ)
    → IsLayout element_size field alignment
    → check_range element_size field alignment address bytes ≡ none
    → let found = items (length bytes) field alignment bytes in
      (flatten found ≡ bytes)
      × (length found ≡ item_count element_size field alignment bytes)
      × All (λ e. element_size ≤ length e) found
unfolding item_count
check_range-AreItems element_size field alignment address bytes l h =
    let e : (field == size_fixed) ≡ false = not_fixed l in
    rw e (
      check_from-AreItems (length bytes) element_size field alignment bytes l (omega arith)
        (check_range-loop element_size field alignment address bytes e h))
