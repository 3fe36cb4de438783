-- ===== src/Oxm/TypeSet.antt =====
-- What the set of types of src/ofp/oxmtypeset.cpp contains, and the duplicates that it detects.
use libofp.Base.{
  ℕ, suc, ◌+◌, ◌<◌, ◌≤◌, ◌≡◌, Bool, true, false, ◌&&◌, ◌||◌, not, List, [], ◌∷◌, length, ltb, arith,
  ◌==◌, if◌then◌else◌, refl, ◌∙◌, ap, sym, Bool-cases, inl, inr, ◌⊎◌,
}
use libofp.Oxm.{
  oxm_class, oxm_field, OxmTypeSet, max_oxm_classes, find, set_bit, add_from, add, duplicates_from,
  duplicate_fields_detected,
}

-- Two types of the same field, whatever their masks and sizes
abbrev pub same_field : ℕ → ℕ → Bool
same_field a b = (oxm_class a == oxm_class b) && (oxm_field a == oxm_field b)

abbrev any_of : (ℕ → Bool) → List ℕ → Bool
any_of p [] = false
any_of p (x ∷ xs) = p x || any_of p xs

-- Whether a field occurs twice
abbrev pub has_duplicates : List ℕ → Bool
has_duplicates [] = false
has_duplicates (type ∷ types) = any_of (same_field type) types || has_duplicates types

abbrev has_class : ℕ → OxmTypeSet → Bool
has_class c [] = false
has_class c (entry ∷ rest) = (entry.entry_class == c) || has_class c rest

abbrev mentions : ℕ → List ℕ → Bool
mentions c [] = false
mentions c (k ∷ ks) = (k == c) || mentions c ks

-- The number of classes of some types that are not among those given
abbrev pub new_classes : List ℕ → List ℕ → ℕ
new_classes known [] = 0
new_classes known (type ∷ types) =
    if mentions (oxm_class type) known
    then new_classes known types
    else suc (new_classes (oxm_class type ∷ known) types)

-- The class of a type with a bit set, or in a set in which the other classes differ
entry_find :
    (type u k : ℕ) (fields : ℕ → Bool) (others : Bool)
    → (k == oxm_class type) ≡ true
    → (if k == oxm_class u then set_bit (oxm_field type) fields (oxm_field u) else others)
      ≡ (same_field type u || (if k == oxm_class u then fields (oxm_field u) else others))
entry_find type u k fields others e = elim (Bool-cases (k == oxm_class u)) [
  | inl y ↦
      let c : (oxm_class type == oxm_class u) ≡ true = ground arith in
      elim (Bool-cases (oxm_field type == oxm_field u)) [
        | inl z ↦ rw (y, c, z) refl
        | inr z ↦ rw (y, c, z) refl
      ]
  | inr y ↦ let c : (oxm_class type == oxm_class u) ≡ false = ground arith in rw (y, c) refl
]

present :
    (type u k : ℕ) (fields : ℕ → Bool) (others : Bool)
    → (k == oxm_class type) ≡ true
    → fields (oxm_field type) ≡ true
    → (if k == oxm_class u then fields (oxm_field u) else others)
      ≡ (same_field type u || (if k == oxm_class u then fields (oxm_field u) else others))
present type u k fields others e b = elim (Bool-cases (same_field type u)) [
  | inr z ↦ rw z refl
  | inl z ↦
      let y : (k == oxm_class u) ≡ true = ground arith in
      let f : oxm_field type ≡ oxm_field u = ground arith in
      let t : fields (oxm_field u) ≡ true = ap fields (sym f) ∙ b in rw (z, y, t) refl
]

-- Adding says whether the type was new, and afterwards its field is found besides the others.
add_from-find :
    (count : ℕ) (set : OxmTypeSet) (type : ℕ)
    → (has_class (oxm_class type) set ≡ true) ⊎ (count + length set < max_oxm_classes)
    → ((add_from count set type).1 ≡ not (find set type))
      × ((u : ℕ) → find (add_from count set type).0 u ≡ (same_field type u || find set u))
unfolding find add_from
add_from-find count [] type (inl h) = cc
add_from-find count [] type (inr h) =
    let room : ltb count max_oxm_classes ≡ true = ground arith in
    rw room (
      refl,
      λ u. elim (Bool-cases (oxm_class type == oxm_class u)) [
        | inl c ↦ elim (Bool-cases (oxm_field type == oxm_field u)) [
          | inl z ↦ rw (c, z) refl
          | inr z ↦ rw (c, z) refl
        ]
        | inr c ↦ rw c refl
      ],
    )
add_from-find count (entry ∷ rest) type room =
    elim (Bool-cases (entry.entry_class == oxm_class type)) [
      | inl e ↦ elim (Bool-cases (entry.fields (oxm_field type))) [
        | inl b ↦
            rw (e, b) (refl, λ u. present type u entry.entry_class entry.fields (find rest u) e b)
        | inr b ↦
            rw (e, b) (refl, λ u. entry_find type u entry.entry_class entry.fields (find rest u) e)
      ]
      | inr e ↦
          let r = add_from-find (suc count) rest type (room_behind room e) in
          rw e (
            r.0,
            λ u. elim (Bool-cases (entry.entry_class == oxm_class u)) [
              | inl y ↦
                  let c : (oxm_class type == oxm_class u) ≡ false = ground arith in rw (y, c) refl
              | inr y ↦ rw y (r.1 u)
            ],
          )
    ]
  where
    room_behind :
        (has_class (oxm_class type) (entry ∷ rest) ≡ true)
          ⊎ (count + length (entry ∷ rest) < max_oxm_classes)
        → (entry.entry_class == oxm_class type) ≡ false
        → (has_class (oxm_class type) rest ≡ true) ⊎ (suc count + length rest < max_oxm_classes)
    room_behind (inl h) e = inl (rw e at h)
    room_behind (inr h) e = inr (omega arith)

or_false : (b : Bool) → (b || false) ≡ b
or_false true = refl
or_false false = refl

or_swap : (a b d : Bool) → ((a || b) || d) ≡ (b || (a || d))
or_swap true true d = refl
or_swap true false d = refl
or_swap false b d = refl

or_assoc : (a b c : Bool) → ((a || b) || c) ≡ (a || (b || c))
or_assoc true b c = refl
or_assoc false b c = refl

or_comm : (a b : Bool) → (a || b) ≡ (b || a)
or_comm true true = refl
or_comm true false = refl
or_comm false true = refl
or_comm false false = refl

-- A type of a class that a set has changes neither its classes nor their number.
add_from-known :
    (count : ℕ) (set : OxmTypeSet) (type c : ℕ)
    → has_class (oxm_class type) set ≡ true
    → (has_class c (add_from count set type).0 ≡ has_class c set)
      × (length (add_from count set type).0 ≡ length set)
unfolding add_from
add_from-known count [] type c h = cc
add_from-known count (entry ∷ rest) type c h =
    elim (Bool-cases (entry.entry_class == oxm_class type)) [
      | inl e ↦ elim (Bool-cases (entry.fields (oxm_field type))) [
        | inl b ↦ rw (e, b) (refl, refl)
        | inr b ↦ rw (e, b) (refl, refl)
      ]
      | inr e ↦
          let r = add_from-known (suc count) rest type c (rw e at h) in
          rw (e, r.0, r.1) (refl, refl)
    ]

-- A type of another class adds its class, while there is room.
add_from-new :
    (count : ℕ) (set : OxmTypeSet) (type c : ℕ)
    → has_class (oxm_class type) set ≡ false
    → count + length set < max_oxm_classes
    → (has_class c (add_from count set type).0 ≡ (has_class c set || (oxm_class type == c)))
      × (length (add_from count set type).0 ≡ suc (length set))
unfolding add_from
add_from-new count [] type c h room =
    let lt : ltb count max_oxm_classes ≡ true = ground arith in
    rw lt (or_false (oxm_class type == c), refl)
add_from-new count (entry ∷ rest) type c h room =
    elim (Bool-cases (entry.entry_class == oxm_class type)) [
      | inl e ↦ let there : true ≡ false = rw e at h in cc
      | inr e ↦
          let r = add_from-new (suc count) rest type c (rw e at h) (omega arith) in
          rw (e, r.0, r.1)
            (sym (or_assoc (entry.entry_class == c) (has_class c rest) (oxm_class type == c)), refl)
    ]

any_of-cong : (p q : ℕ → Bool) (xs : List ℕ) → ((x : ℕ) → p x ≡ q x) → any_of p xs ≡ any_of q xs
any_of-cong p q [] h = refl
any_of-cong p q (x ∷ xs) h = rw (h x, any_of-cong p q xs h) refl

any_of-or :
    (p q : ℕ → Bool) (xs : List ℕ) → any_of (λ x. p x || q x) xs ≡ (any_of p xs || any_of q xs)
any_of-or p q [] = refl
any_of-or p q (x ∷ xs) = rw (any_of-or p q xs) (swap_or (p x) (q x) (any_of p xs) (any_of q xs))
  where
    swap_or : (a b c d : Bool) → ((a || b) || (c || d)) ≡ ((a || c) || (b || d))
    swap_or true b c d = refl
    swap_or false true true d = refl
    swap_or false false true d = refl
    swap_or false b false d = refl

-- What is detected from a set on, when all classes fit
duplicates_from_lem :
    (set : OxmTypeSet) (types known : List ℕ)
    → ((c : ℕ) → has_class c set ≡ mentions c known)
    → length set + new_classes known types ≤ max_oxm_classes
    → duplicates_from set types ≡ (any_of (find set) types || has_duplicates types)
unfolding duplicates_from
duplicates_from_lem set [] known h room = refl
duplicates_from_lem set (type ∷ types) known h room =
    elim (Bool-cases (mentions (oxm_class type) known)) [
      | inl m ↦
          let there : has_class (oxm_class type) set ≡ true = h (oxm_class type) ∙ m in
          let room' : length set + new_classes known types ≤ max_oxm_classes = rw m at room in
          let k = λ (c : ℕ). add_from-known 0 set type c there in
          step (add_from-find 0 set type (inl there)) (
            duplicates_from_lem (add set type).0 types known (λ c. (k c).0 ∙ h c)
              (omega (arith, (k 0).1)))
      | inr m ↦
          let absent : has_class (oxm_class type) set ≡ false = h (oxm_class type) ∙ m in
          let room' : length set + suc (new_classes (oxm_class type ∷ known) types)
              ≤ max_oxm_classes =
            rw m at room in
          let k = λ (c : ℕ). add_from-new 0 set type c absent (omega arith) in
          step (add_from-find 0 set type (inr (omega arith))) (
            duplicates_from_lem (add set type).0 types (oxm_class type ∷ known)
              (λ c.
                (k c).0
                ∙ or_comm (has_class c set) (oxm_class type == c)
                ∙ ap (λ b. (oxm_class type == c) || b) (h c))
              (omega (arith, (k 0).1)))
    ]
  where
    set' : OxmTypeSet
    set' = (add set type).0

    step :
        ((add set type).1 ≡ not (find set type))
          × ((u : ℕ) → find set' u ≡ (same_field type u || find set u))
        → duplicates_from set' types ≡ (any_of (find set') types || has_duplicates types)
        → (if (add set type).1 then duplicates_from set' types else true) ≡ (
            (find set type || any_of (find set) types)
            || (any_of (same_field type) types || has_duplicates types))
    step (new, found) ih =
        let all : any_of (find set') types
            ≡ (any_of (same_field type) types || any_of (find set) types) =
          any_of-cong (find set') (λ u. same_field type u || find set u) types found
          ∙ any_of-or (same_field type) (find set) types in
        elim (Bool-cases (find set type)) [
          | inl y ↦ rw (new, y) refl
          | inr n ↦
              rw (new, n)
                (ih
                  ∙ rw all (
                      or_swap (any_of (same_field type) types) (any_of (find set) types)
                        (has_duplicates types)))
        ]

nothing : (types : List ℕ) → any_of (find []) types ≡ false
unfolding find
nothing [] = refl
nothing (x ∷ xs) = nothing xs

-- A list of fields of at most ten classes has a duplicate exactly when one is detected.
pub duplicate_fields_detected_lem :
    (types : List ℕ)
    → new_classes [] types ≤ max_oxm_classes
    → duplicate_fields_detected types ≡ has_duplicates types
duplicate_fields_detected_lem types room =
    duplicates_from_lem [] types [] (λ c. refl) (omega arith)
    ∙ ap (λ b. b || has_duplicates types) (nothing types)
