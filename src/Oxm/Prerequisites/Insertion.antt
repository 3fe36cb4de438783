-- ===== src/Oxm/Prerequisites/Insertion.antt =====
-- What insert of src/ofp/prerequisites.cpp makes of a list of fields.
use libofp.Base.{
  ℕ, ◌≡◌, Bool, true, false, ◌||◌, List, [], ◌∷◌, ◌++◌, Option, none, some, ◌==◌, refl, ◌∙◌, ap,
  sym, Bool-cases, inl, inr, ◌⊎◌, append_assoc, append_nil,
}
use libofp.Oxm.{has_mask, with_mask, make_type}
use libofp.Oxm.Prerequisites.{
  Field, check_preq_masked, check_preq_value, check, signal, run_of, added_for, insert_from, insert,
  masked_prereq_signal, value_prereq_signal, poison_prereq_signal,
}
use libofp.Oxm.Prerequisites.Meeting.{
  meets_one, any_field, meets, masks_differ, any_field_mono, check_preq_masked_lem,
  check_preq_value_lem, or_true, check_lem,
}

abbrev pub is_poisoned : List Field → Bool
is_poisoned items = any_field (λ item. item.type == poison_prereq_signal) items

any_field-append :
    (p : Field → Bool) (xs ys : List Field)
    → any_field p (xs ++ ys) ≡ (any_field p xs || any_field p ys)
any_field-append p [] ys = refl
any_field-append p (x ∷ xs) ys = elim (Bool-cases (p x)) [
  | inl y ↦ rw y refl
  | inr n ↦ rw n (any_field-append p xs ys)
]

or_left : (a b : Bool) → a ≡ true → (a || b) ≡ true
or_left a b h = rw h refl

-- Inserting only adds fields at the end.
insert_from-append :
    (skipped : Option ℕ) (preqs items : List Field)
    → (more : List Field) × (insert_from skipped preqs items ≡ (items ++ more))
unfolding insert_from
insert_from-append skipped [] items = ([], sym (append_nil items))
insert_from-append none (preq ∷ preqs) items =
    let r = insert_from-append (some preq.type) preqs (items ++ added_for preq preqs items) in
    (added_for preq preqs items ++ r.0, r.1 ∙ append_assoc items (added_for preq preqs items) r.0)
insert_from-append (some type) (preq ∷ preqs) items = elim (Bool-cases (preq.type == type)) [
  | inl y ↦ let r = insert_from-append (some type) preqs items in (r.0, rw y r.1)
  | inr n ↦
      let r = insert_from-append (some preq.type) preqs (items ++ added_for preq preqs items) in
      (
        added_for preq preqs items ++ r.0,
        rw n (r.1 ∙ append_assoc items (added_for preq preqs items) r.0),
      )
]

List-cases : (xs : List Field) → (xs ≡ []) ⊎ ((x : Field) × (ys : List Field) × (xs ≡ x ∷ ys))
List-cases [] = inl refl
List-cases (x ∷ ys) = inr (x, ys, refl)

module _ (preq : Field) (preqs items : List Field) where
  -- What is added meets the prerequisite.
  meets-added :
      (added : List Field)
      → added_for preq preqs items ≡ added
      → any_field (meets_one preq) added ≡ true
      → meets (preq ∷ preqs) (items ++ added_for preq preqs items) ≡ true
  meets-added added e h =
      let there : any_field (meets_one preq) (items ++ added_for preq preqs items) ≡ true =
        any_field-append (meets_one preq) items (added_for preq preqs items)
        ∙ ap (λ l. any_field (meets_one preq) items || any_field (meets_one preq) l) e
        ∙ ap (λ b. any_field (meets_one preq) items || b) h
        ∙ or_true (any_field (meets_one preq) items) in
      or_left (any_field (meets_one preq) (items ++ added_for preq preqs items))
        (meets preqs (items ++ added_for preq preqs items)) there

  -- Nothing is added, and some field meets a prerequisite already.
  meets-found :
      added_for preq preqs items ≡ []
      → meets (preq ∷ preqs) items ≡ true
      → meets (preq ∷ preqs) (items ++ added_for preq preqs items) ≡ true
  meets-found e h =
      ap (λ l. meets (preq ∷ preqs) (items ++ l)) e
      ∙ ap (meets (preq ∷ preqs)) (append_nil items)
      ∙ h

  poison_there :
      added_for preq preqs items ≡ signal poison_prereq_signal ∷ []
      → is_poisoned (items ++ added_for preq preqs items) ≡ true
  unfolding make_type with_mask
  poison_there e =
      ap (λ l. is_poisoned (items ++ l)) e
      ∙ any_field-append (λ item. item.type == poison_prereq_signal) items
          (signal poison_prereq_signal ∷ [])
      ∙ or_true (is_poisoned items)

  -- With what is added for a prerequisite, some field meets it or one behind it, or there is poison.
  added_for-meets :
      meets_one preq preq ≡ true
      → is_poisoned (items ++ added_for preq preqs items) ≡ false
      → meets (preq ∷ preqs) (items ++ added_for preq preqs items) ≡ true
  unfolding added_for
  added_for-meets self clean = elim (Bool-cases (has_mask preq.type)) [
    | inl m ↦ elim (Bool-cases (check_preq_masked preq items)) [
      | inl y ↦ meets-found (rw (added_for, m, y) refl) (
          or_left (any_field (meets_one preq) items) (meets preqs items)
            (sym (check_preq_masked_lem preq items m) ∙ y))
      | inr n ↦
          meets-added (signal masked_prereq_signal ∷ preq ∷ []) (rw (added_for, m, n) refl)
            (rw self (or_true (meets_one preq (signal masked_prereq_signal))))
    ]
    | inr m ↦ elim (Bool-cases (check_preq_value preq.type (preq ∷ preqs) items).0) [
      | inl y ↦ meets-found (rw (added_for, m, y) refl) (
          sym (check_preq_value_lem preq preqs items m)
          ∙ or_left (check_preq_value preq.type (preq ∷ preqs) items).0 (meets preqs items) y)
      | inr n ↦ elim (List-cases (run_of preq.type preqs)) [
        | inr (next, more, r) ↦
            meets-added (signal value_prereq_signal ∷ preq ∷ next ∷ more)
              (rw (added_for, m, n, r) refl)
              (rw self (or_true (meets_one preq (signal value_prereq_signal))))
        | inl r ↦ elim (Bool-cases (check_preq_value preq.type (preq ∷ preqs) items).1) [
          | inr calm ↦ meets-added (preq ∷ []) (rw (added_for, m, n, r, calm) refl) (rw self refl)
          | inl conflict ↦
              let poisoned : is_poisoned (items ++ added_for preq preqs items) ≡ true =
                poison_there (rw (added_for, m, n, r, conflict) refl) in
              let both : true ≡ false = sym poisoned ∙ clean in cc
        ]
      ]
    ]
  ]

meets-more :
    (preqs items more : List Field) → meets preqs items ≡ true → meets preqs (items ++ more) ≡ true
meets-more preqs items more h =
    any_field_mono (λ preq. any_field (meets_one preq) items)
      (λ preq. any_field (meets_one preq) (items ++ more)) preqs
      (λ preq e.
        any_field-append (meets_one preq) items more
        ∙ or_left (any_field (meets_one preq) items) (any_field (meets_one preq) more) e)
      h

or_clean : (a b : Bool) → (a || b) ≡ false → a ≡ false
or_clean true b h = h
or_clean false b h = refl

-- Prerequisites of which those with masks differ from the next one, and the first of which a field
-- with its type and value meets, pass their check after they were inserted, if no poison is in the list.
pub check-insert :
    (preq : Field) (preqs items : List Field)
    → masks_differ (preq ∷ preqs) ≡ true
    → meets_one preq preq ≡ true
    → is_poisoned (insert (preq ∷ preqs) items) ≡ false
    → check (preq ∷ preqs) (insert (preq ∷ preqs) items) ≡ true
unfolding insert_from
check-insert preq preqs items d self clean =
    let first : List Field = items ++ added_for preq preqs items in
    let r = insert_from-append (some preq.type) preqs first in
    let calm : is_poisoned first ≡ false = or_clean (is_poisoned first) (is_poisoned r.0) (
      sym (any_field-append (λ item. item.type == poison_prereq_signal) first r.0)
      ∙ ap is_poisoned (sym r.1)
      ∙ clean) in
    check_lem (preq ∷ preqs) (insert (preq ∷ preqs) items) d
    ∙ ap (meets (preq ∷ preqs)) r.1
    ∙ meets-more (preq ∷ preqs) first r.0 (added_for-meets preq preqs items self calm)
