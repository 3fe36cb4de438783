-- ===== src/ProtocolRange/Split.antt =====
-- ProtocolRangeSplitOffset cuts a range that was checked in two such ranges.
use libofp.Base.{
  ℕ, zero, suc, ◌+◌, ◌≤◌, ◌<◌, ◌≡◌, ◌⊎◌, inl, inr, false, List, [], ◌∷◌, length, take, drop, ltb,
  leb, ◌==◌, none, some, arith, refl, sym, ◌∙◌, length-drop, length-take, Bool-cases, get_or-take,
  take-drop_comm, drop-drop, max, take_length, drop_length, leb→le,
}
use libofp.SmallBuffer.{pad_length}
use libofp.ProtocolRange.{
  check_element, check_from, jump, item_jump, item_size, field_size, big16, split_from,
  split_offset,
}
use libofp.ProtocolRange.Items.{IsLayout, check_element-jump, check_from-round, Round-cases}

module _ (element_size field : ℕ) (offset : field < 32) (within : field + 2 ≤ element_size) where
  layout : IsLayout element_size field 8
  layout = inl (offset, within, refl)

  -- The range without an error, whatever its address.
  abbrev pub IsChecked : List ℕ → Type 0
  IsChecked bytes = check_from (length bytes) element_size field 8 bytes ≡ none

  pub check_from_enough :
      (f g : ℕ) (bytes : List ℕ)
      → length bytes ≤ f
      → length bytes ≤ g
      → check_from f element_size field 8 bytes ≡ check_from g element_size field 8 bytes
  unfolding check_from
  check_from_enough zero zero bytes h k = refl
  check_from_enough zero (suc g) [] h k = refl
  check_from_enough zero (suc g) (x ∷ bytes) h k = absurd (omega arith)
  check_from_enough (suc f) zero [] h k = refl
  check_from_enough (suc f) zero (x ∷ bytes) h k = absurd (omega arith)
  check_from_enough (suc f) (suc g) [] h k = refl
  check_from_enough (suc f) (suc g) (x ∷ xs) h k =
      elim (Round-cases (check_element element_size field 8 (x ∷ xs))) [
        | inl (n, e) ↦
            let (same, least, fits, inside) =
              check_element-jump element_size field 8 (x ∷ xs) n layout e in
            let shorter : length (drop n (x ∷ xs)) ≤ length xs =
              omega (arith, length-drop n (x ∷ xs)) in
            rw e (
              check_from_enough f g (drop n (x ∷ xs)) (omega (arith, shorter))
                (omega (arith, shorter)))
        | inr (r, e) ↦ rw e refl
      ]

  big16-take : (m at : ℕ) (bytes : List ℕ) → at + 2 ≤ m → big16 (take m bytes) at ≡ big16 bytes at
  unfolding big16
  big16-take m at bytes h =
      omega (
        arith,
        get_or-take m bytes at 0 (omega arith),
        get_or-take m bytes (at + 1) 0 (omega arith),
      )

  check_element-take :
      (n m : ℕ) (bytes : List ℕ)
      → check_element element_size field 8 bytes ≡ jump n
      → n ≤ m
      → m ≤ length bytes
      → check_element element_size field 8 (take m bytes) ≡ jump n
  unfolding check_element field_size pad_length
  check_element-take n m bytes e h k = ground (
    arith,
    big16-take m field bytes,
    length-take m bytes,
    check_element-jump element_size field 8 bytes n layout e,
    within,
    offset,
  )

  -- A whole element and a checked rest
  IsChecked-cons :
      (n : ℕ) (bytes : List ℕ)
      → check_element element_size field 8 bytes ≡ jump n
      → IsChecked (drop n bytes)
      → IsChecked bytes
  unfolding check_from
  IsChecked-cons n [] e h = refl
  IsChecked-cons n (x ∷ xs) e h =
      let (same, least, fits, inside) =
        check_element-jump element_size field 8 (x ∷ xs) n layout e in
      let shorter : length (drop n (x ∷ xs)) ≤ length xs = omega (arith, length-drop n (x ∷ xs)) in
      rw e (
        check_from_enough (length xs) (length (drop n (x ∷ xs))) (drop n (x ∷ xs)) shorter
          (omega arith)
        ∙ h)

  jump_size :
      (n : ℕ) (bytes : List ℕ)
      → check_element element_size field 8 bytes ≡ jump n
      → pad_length (max (field + 2) (big16 bytes field)) ≡ n
  unfolding item_jump item_size
  jump_size n bytes e =
      ground (arith, check_element-jump element_size field 8 bytes n layout e, offset)

  -- The loop stops between two elements.
  abbrev pub IsCut : ℕ → ℕ → ℕ → List ℕ → Type 0
  IsCut n chunk_size result bytes =
      (m : ℕ) × (n ≡ result + m)
      × (m ≤ length bytes)
      × (n ≤ max chunk_size result)
      × IsChecked (take m bytes)
      × IsChecked (drop m bytes)

  IsCut-here :
      (chunk_size result : ℕ) (bytes : List ℕ)
      → IsChecked bytes
      → IsCut result chunk_size result bytes
  unfolding check_from
  IsCut-here chunk_size result bytes h = (0, omega arith, omega arith, omega arith, refl, h)

  split_from-IsCut :
      (k chunk_size result : ℕ) (bytes : List ℕ)
      → length bytes ≤ k
      → IsChecked bytes
      → IsCut (split_from k chunk_size field bytes result) chunk_size result bytes
  unfolding split_from
  split_from-IsCut zero chunk_size result bytes h c = IsCut-here chunk_size result bytes c
  split_from-IsCut (suc k) chunk_size result [] h c = IsCut-here chunk_size result [] c
  split_from-IsCut (suc k) chunk_size result (x ∷ xs) h c =
      let (n, e, rest) = check_from-round (length xs) element_size field 8 x xs c in
      let (same, least, fits, inside) =
        check_element-jump element_size field 8 (x ∷ xs) n layout e in
      let shorter : length (drop n (x ∷ xs)) ≤ length xs = omega (arith, length-drop n (x ∷ xs)) in
      let tail : IsChecked (drop n (x ∷ xs)) =
        check_from_enough (length (drop n (x ∷ xs))) (length xs) (drop n (x ∷ xs)) (omega arith)
          shorter
        ∙ rest in
      let whole : ltb (length (x ∷ xs)) n ≡ false = ground arith in
      elim (Bool-cases (ltb chunk_size (result + n))) [
        | inl over ↦
            rw (jump_size n (x ∷ xs) e, whole, over) (IsCut-here chunk_size result (x ∷ xs) c)
        | inr under ↦
            let (m, end, short, below, first, second) =
              split_from-IsCut k chunk_size (result + n) (drop n (x ∷ xs)) (omega (arith, shorter))
                tail in
            let most : n + m ≤ length (x ∷ xs) = omega (arith, length-drop n (x ∷ xs)) in
            let room : result + n ≤ chunk_size = ground arith in
            rw (jump_size n (x ∷ xs) e, whole, under)
              (
                n + m,
                omega arith,
                most,
                omega (arith, room),
                IsChecked-cons n (take (n + m) (x ∷ xs))
                    (check_element-take n (n + m) (x ∷ xs) e (omega arith) most)
                    (rw (take-drop_comm m n (x ∷ xs)) first),
                rw (sym (drop-drop m n (x ∷ xs))) second,
              )
      ]

  -- What splitting a checked range gives is at most a chunk and inside of the range, and both parts
  -- are checked ranges.
  pub split_offset-IsChecked :
      (chunk_size : ℕ) (bytes : List ℕ) (n : ℕ)
      → IsChecked bytes
      → split_offset chunk_size field bytes ≡ some n
      → (n ≤ chunk_size) × (n ≤ length bytes) × IsChecked (take n bytes) × IsChecked (drop n bytes)
  unfolding split_offset check_from
  split_offset-IsChecked chunk_size bytes n c h =
      elim (Bool-cases (leb (length bytes) chunk_size)) [
        | inl e ↦
            let all : length bytes ≡ n = ground arith in
            rw (sym all, take_length bytes, drop_length bytes) (leb→le _ _ e, omega arith, c, refl)
        | inr e ↦
            let (m, end, short, below, first, second) =
              split_from-IsCut (length bytes) chunk_size 0 bytes (omega arith) c in
            let all : split_from (length bytes) chunk_size field bytes 0 ≡ n = ground arith in
            let same : m ≡ n = omega arith in rw (sym same) (omega arith, short, first, second)
      ]

  split_from_grows :
      (k chunk_size result : ℕ) (bytes : List ℕ)
      → result ≤ split_from k chunk_size field bytes result
  unfolding split_from
  split_from_grows zero chunk_size result bytes = omega arith
  split_from_grows (suc k) chunk_size result bytes =
      let n : ℕ = pad_length (max (field + 2) (big16 bytes field)) in
      ground (arith, split_from_grows k chunk_size (result + n) (drop n bytes))

  moves_on :
      (chunk_size x : ℕ) (xs : List ℕ) (n : ℕ)
      → check_element element_size field 8 (x ∷ xs) ≡ jump n
      → n ≤ chunk_size
      → n ≤ split_from (length (x ∷ xs)) chunk_size field (x ∷ xs) 0
  unfolding split_from
  moves_on chunk_size x xs n e h =
      let (same, least, fits, inside) =
        check_element-jump element_size field 8 (x ∷ xs) n layout e in
      let whole : ltb (length (x ∷ xs)) n ≡ false = ground arith in
      let under : ltb chunk_size (0 + n) ≡ false = ground arith in
      rw (jump_size n (x ∷ xs) e, whole, under)
        (omega (arith, split_from_grows (length xs) chunk_size (0 + n) (drop n (x ∷ xs))))

  -- A checked range whose first element fits a chunk is split, and not at its beginning, unless it is
  -- empty.
  pub split_offset_total :
      (chunk_size : ℕ) (bytes : List ℕ)
      → IsChecked bytes
      → item_jump field 8 bytes ≤ chunk_size
      → (n : ℕ) × (split_offset chunk_size field bytes ≡ some n) × ((bytes ≡ []) ⊎ (0 < n))
  unfolding split_offset
  split_offset_total chunk_size [] c h = (0, ground arith, inl refl)
  split_offset_total chunk_size (x ∷ xs) c h =
      let (n, e, rest) = check_from-round (length xs) element_size field 8 x xs c in
      let (same, least, fits, inside) =
        check_element-jump element_size field 8 (x ∷ xs) n layout e in
      let far : n ≤ split_from (length (x ∷ xs)) chunk_size field (x ∷ xs) 0 =
        moves_on chunk_size x xs n e (omega arith) in
      elim (Bool-cases (leb (length (x ∷ xs)) chunk_size)) [
        | inl f ↦ rw f (length (x ∷ xs), refl, inr (omega arith))
        | inr f ↦
            let some_way : (split_from (length (x ∷ xs)) chunk_size field (x ∷ xs) 0 == 0) ≡ false =
              ground arith in
            rw (f, some_way)
              (
                split_from (length (x ∷ xs)) chunk_size field (x ∷ xs) 0,
                refl,
                inr (omega (arith, far)),
              )
      ]
