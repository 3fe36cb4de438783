-- ===== src/Oxm/Prerequisites/Meeting.antt =====
-- What the checks of src/ofp/prerequisites.cpp say: whether a field meets a prerequisite.
use libofp.Base.{
  ℕ, ◌≡◌, Bool, true, false, ◌&&◌, ◌||◌, not, List, [], ◌∷◌, ◌++◌, Option, none, some, arith, ◌==◌,
  if◌then◌else◌, refl, ◌∙◌, ap, sym, Bool-cases, Option-cases, inl, inr, ==→eq,
}
use libofp.Oxm.{oxm_size, has_mask, with_mask, without_mask, is_illegal, is_experimenter}
use libofp.Oxm.Prerequisites.{
  Field, match_value_with_mask, match_mask_with_mask, match_value_with_value, match_mask_with_value,
  check_preq_masked, try_values, check_preq_value, check_from, check, check_all, check_all_from,
  FailureReason,
}

-- A field meets one prerequisite.
abbrev pub meets_one : Field → Field → Bool
meets_one preq item =
    if has_mask preq.type
    then ((item.type == without_mask preq.type)
        && match_value_with_mask (oxm_size (without_mask preq.type)) item preq)
      || (not (item.type == without_mask preq.type)
          && (item.type == preq.type)
          && match_mask_with_mask (oxm_size (without_mask preq.type)) item preq)
    else ((item.type == preq.type) && match_value_with_value (oxm_size preq.type) item preq)
      || (not (item.type == preq.type)
          && (item.type == with_mask preq.type)
          && match_mask_with_value (oxm_size preq.type) item preq)

abbrev pub any_field : (Field → Bool) → List Field → Bool
any_field p [] = false
any_field p (x ∷ xs) = p x || any_field p xs

-- Some field meets some prerequisite.
abbrev pub meets : List Field → List Field → Bool
meets preqs items = any_field (λ preq. any_field (meets_one preq) items) preqs

-- Prerequisites with masks that follow one another are of different types.
abbrev pub masks_differ : List Field → Bool
masks_differ [] = true
masks_differ (preq ∷ []) = true
masks_differ (preq ∷ next ∷ preqs) =
    not (has_mask preq.type && (next.type == preq.type)) && masks_differ (next ∷ preqs)

pub or_true : (b : Bool) → (b || true) ≡ true
or_true true = refl
or_true false = refl

pub any_field_mono :
    (p q : Field → Bool) (xs : List Field)
    → ((x : Field) → p x ≡ true → q x ≡ true)
    → any_field p xs ≡ true
    → any_field q xs ≡ true
any_field_mono p q [] h e = e
any_field_mono p q (x ∷ xs) h e = elim (Bool-cases (p x)) [
  | inl y ↦ rw (h x y) refl
  | inr n ↦ rw (any_field_mono p q xs h (rw n at e)) (or_true (q x))
]

exchange :
    (R : Field → Field → Bool) (ps items : List Field)
    → any_field (λ i. any_field (λ p. R p i) ps) items ≡ true
    → any_field (λ p. any_field (λ i. R p i) items) ps ≡ true
exchange R ps [] h = cc
exchange R ps (i ∷ items) h = elim (Bool-cases (any_field (λ p. R p i) ps)) [
  | inl y ↦
      any_field_mono (λ p. R p i) (λ p. R p i || any_field (λ j. R p j) items) ps (λ p e. rw e refl)
        y
  | inr n ↦
      any_field_mono (λ p. any_field (λ j. R p j) items)
        (λ p. R p i || any_field (λ j. R p j) items) ps (λ p e. rw e (or_true (R p i)))
        (exchange R ps items (rw n at h))
]

-- Some field meets some prerequisite, from the side of the fields.
met-field :
    (preqs items : List Field)
    → any_field (λ item. any_field (λ preq. meets_one preq item) preqs) items ≡ true
    → meets preqs items ≡ true
met-field preqs items h = exchange meets_one preqs items h

pub check_preq_masked_lem :
    (preq : Field) (items : List Field)
    → has_mask preq.type ≡ true
    → check_preq_masked preq items ≡ any_field (meets_one preq) items
unfolding check_preq_masked
check_preq_masked_lem preq [] m = refl
check_preq_masked_lem preq (pos ∷ items) m =
    elim (Bool-cases (pos.type == without_mask preq.type)) [
      | inl a ↦
          elim (Bool-cases (match_value_with_mask (oxm_size (without_mask preq.type)) pos preq)) [
            | inl y ↦ rw (a, y, m) refl
            | inr n ↦ rw (a, n, m) (check_preq_masked_lem preq items m)
          ]
      | inr a ↦ elim (Bool-cases (pos.type == preq.type)) [
        | inl b ↦
            elim (Bool-cases (match_mask_with_mask (oxm_size (without_mask preq.type)) pos preq)) [
              | inl y ↦ rw (a, b, y, m) refl
              | inr n ↦ rw (a, b, n, m) (check_preq_masked_lem preq items m)
            ]
        | inr b ↦ rw (a, b, m) (check_preq_masked_lem preq items m)
      ]
    ]

-- A field that matches the first of the prerequisites is taken.
try_values-first :
    (pos preq : Field) (preqs : List Field)
    → has_mask preq.type ≡ false
    → meets_one preq pos ≡ true
    → (try_values preq.type pos (preq ∷ preqs)).0 ≡ true
unfolding try_values
try_values-first pos preq preqs m h =
    let self : (preq.type == preq.type) ≡ true = ground arith in
    elim (Bool-cases (pos.type == preq.type)) [
      | inl a ↦ elim (Bool-cases (match_value_with_value (oxm_size preq.type) pos preq)) [
        | inl y ↦ rw (self, a, y) refl
        | inr n ↦ let none_met : false ≡ true = rw (m, a, n) at h in cc
      ]
      | inr a ↦ elim (Bool-cases (pos.type == with_mask preq.type)) [
        | inr b ↦ let none_met : false ≡ true = rw (m, a, b) at h in cc
        | inl b ↦ elim (Bool-cases (match_mask_with_value (oxm_size preq.type) pos preq)) [
          | inl y ↦ rw (self, a, b, y) refl
          | inr n ↦ let none_met : false ≡ true = rw (m, a, b, n) at h in cc
        ]
      ]
    ]

-- What is taken meets one of the prerequisites.
try_values-IsMet :
    (type : ℕ) (pos : Field) (preqs : List Field)
    → has_mask type ≡ false
    → (try_values type pos preqs).0 ≡ true
    → any_field (λ preq. meets_one preq pos) preqs ≡ true
unfolding try_values
try_values-IsMet type pos [] m h = h
try_values-IsMet type pos (preq ∷ preqs) m h = elim (Bool-cases (preq.type == type)) [
  | inr t ↦ let none_met : false ≡ true = rw t at h in cc
  | inl t ↦
      let e : preq.type ≡ type = ==→eq preq.type type t in
      let m' : has_mask preq.type ≡ false = ap has_mask e ∙ m in
      let others : List Field → Bool = any_field (λ p. meets_one p pos) in
      elim (Bool-cases (pos.type == type)) [
        | inl a ↦
            let a' : (pos.type == preq.type) ≡ true = ap (λ x. pos.type == x) e ∙ a in
            elim (Bool-cases (match_value_with_value (oxm_size type) pos preq)) [
              | inl y ↦
                  let y' : match_value_with_value (oxm_size preq.type) pos preq ≡ true =
                    ap (λ x. match_value_with_value (oxm_size x) pos preq) e ∙ y in
                  rw (m', a', y') refl
              | inr n ↦
                  rw (try_values-IsMet type pos preqs m (rw (t, a, n) at h))
                    (or_true (meets_one preq pos))
            ]
        | inr a ↦
            let a' : (pos.type == preq.type) ≡ false = ap (λ x. pos.type == x) e ∙ a in
            elim (Bool-cases (pos.type == with_mask type)) [
              | inr b ↦ let none_met : false ≡ true = rw (t, a, b) at h in cc
              | inl b ↦
                  let b' : (pos.type == with_mask preq.type) ≡ true =
                    ap (λ x. pos.type == with_mask x) e ∙ b in
                  elim (Bool-cases (match_mask_with_value (oxm_size type) pos preq)) [
                    | inl y ↦
                        let y' : match_mask_with_value (oxm_size preq.type) pos preq ≡ true =
                          ap (λ x. match_mask_with_value (oxm_size x) pos preq) e ∙ y in
                        rw (m', a', b', y') refl
                    | inr n ↦
                        rw (try_values-IsMet type pos preqs m (rw (t, a, b, n) at h))
                          (or_true (meets_one preq pos))
                  ]
            ]
      ]
]

check_preq_value-any :
    (type : ℕ) (preqs items : List Field)
    → (check_preq_value type preqs items).0 ≡ any_field (λ pos. (try_values type pos preqs).0) items
unfolding check_preq_value
check_preq_value-any type preqs [] = refl
check_preq_value-any type preqs (pos ∷ items) = elim (Bool-cases (try_values type pos preqs).0) [
  | inl y ↦ rw (y, y) refl
  | inr n ↦ rw n (check_preq_value-any type preqs items)
]

implied_both : (a b : Bool) → (a ≡ true → b ≡ true) → (b ≡ true → a ≡ true) → a ≡ b
implied_both true b h k = sym (h refl)
implied_both false true h k = k refl
implied_both false false h k = refl

-- What the check of a prerequisite without a mask and those behind it comes to
pub check_preq_value_lem :
    (preq : Field) (preqs items : List Field)
    → has_mask preq.type ≡ false
    → ((check_preq_value preq.type (preq ∷ preqs) items).0 || meets preqs items)
      ≡ meets (preq ∷ preqs) items
check_preq_value_lem preq preqs items m =
    implied_both ((check_preq_value preq.type (preq ∷ preqs) items).0 || meets preqs items)
      (meets (preq ∷ preqs) items)
      (λ h. elim (Bool-cases (check_preq_value preq.type (preq ∷ preqs) items).0) [
        | inl y ↦ met-field (preq ∷ preqs) items (
            any_field_mono (λ pos. (try_values preq.type pos (preq ∷ preqs)).0)
              (λ pos. any_field (λ p. meets_one p pos) (preq ∷ preqs)) items
              (λ pos. try_values-IsMet preq.type pos (preq ∷ preqs) m)
              (sym (check_preq_value-any preq.type (preq ∷ preqs) items) ∙ y))
        | inr n ↦ rw (rw n at h) (or_true (any_field (meets_one preq) items))
      ])
      (λ h. elim (Bool-cases (any_field (meets_one preq) items)) [
        | inl y ↦
            let taken : (check_preq_value preq.type (preq ∷ preqs) items).0 ≡ true =
              check_preq_value-any preq.type (preq ∷ preqs) items
              ∙ any_field_mono (meets_one preq) (λ pos. (try_values preq.type pos (preq ∷ preqs)).0)
                  items (λ pos. try_values-first pos preq preqs m) y in
            rw taken refl
        | inr n ↦ rw (rw n at h) (or_true (check_preq_value preq.type (preq ∷ preqs) items).0)
      ])

and_right : (a b : Bool) → (a && b) ≡ true → b ≡ true
and_right true b h = h
and_right false b h = cc

if_or : (a b : Bool) → (if a then true else b) ≡ (a || b)
if_or true b = refl
if_or false b = refl

differ_behind :
    (preq : Field) (preqs : List Field)
    → masks_differ (preq ∷ preqs) ≡ true
    → masks_differ preqs ≡ true
differ_behind preq [] h = refl
differ_behind preq (next ∷ preqs) h =
    and_right (not (has_mask preq.type && (next.type == preq.type))) (masks_differ (next ∷ preqs)) h

-- Nothing is skipped behind a prerequisite with a mask.
check_from-skipped :
    (preq : Field) (preqs items : List Field)
    → has_mask preq.type ≡ true
    → masks_differ (preq ∷ preqs) ≡ true
    → check_from (some preq.type) preqs items ≡ check_from none preqs items
unfolding check_from
check_from-skipped preq [] items m d = refl
check_from-skipped preq (next ∷ preqs) items m d = elim (Bool-cases (next.type == preq.type)) [
  | inl same ↦ let none_left : false ≡ true = rw (m, same) at d in cc
  | inr other ↦ rw other refl
]

-- Prerequisites of which those with masks differ from the next one are checked one by one: the check
-- succeeds exactly if some field meets some prerequisite.
pub check_lem :
    (preqs items : List Field) → masks_differ preqs ≡ true → check preqs items ≡ meets preqs items
unfolding check_from
check_lem [] items d = refl
check_lem (preq ∷ preqs) items d = elim (Bool-cases (has_mask preq.type)) [
  | inr m ↦
      let taken : Bool = (check_preq_value preq.type (preq ∷ preqs) items).0 in
      let rest : check_from none preqs items ≡ meets preqs items =
        check_lem preqs items (differ_behind preq preqs d) in
      rw m (
        if_or taken (check_from none preqs items)
        ∙ ap (λ b. taken || b) rest
        ∙ check_preq_value_lem preq preqs items m)
  | inl m ↦
      let rest : check_from (some preq.type) preqs items ≡ meets preqs items =
        check_from-skipped preq preqs items m d
        ∙ check_lem preqs items (differ_behind preq preqs d) in
      rw m (
        if_or (check_preq_masked preq items) (check_from (some preq.type) preqs items)
        ∙ ap (λ b. check_preq_masked preq items || b) rest
        ∙ ap (λ b. b || meets preqs items) (check_preq_masked_lem preq items m))
]

-- Fields are legal, and each but experimenters' and those without prerequisites comes behind one that
-- meets one of its prerequisites.
abbrev pub all_met : (ℕ → Option (List Field)) → List Field → List Field → Bool
all_met lookup before [] = true
all_met lookup before (item ∷ items) =
    not (is_illegal item.type)
    && (is_experimenter item.type
        || (elim (lookup item.type) [ none ↦ true | some preqs ↦ meets preqs before ]))
    && all_met lookup (before ++ (item ∷ [])) items

abbrev pub is_passed : Option FailureReason → Bool
is_passed none = true
is_passed (some reason) = false

check_all_from_lem :
    (lookup : ℕ → Option (List Field)) (before items : List Field)
    → ((type : ℕ) (preqs : List Field) → lookup type ≡ some preqs → masks_differ preqs ≡ true)
    → is_passed (check_all_from lookup before items) ≡ all_met lookup before items
unfolding check_all_from
check_all_from_lem lookup before [] d = refl
check_all_from_lem lookup before (item ∷ items) d = elim (Bool-cases (is_illegal item.type)) [
  | inl i ↦ rw i refl
  | inr i ↦
      let rest = check_all_from_lem lookup (before ++ (item ∷ [])) items d in
      elim (Bool-cases (is_experimenter item.type)) [
        | inl e ↦ rw (i, e) rest
        | inr e ↦ elim (Option-cases (lookup item.type)) [
          | inl n ↦ rw (i, e, n) rest
          | inr (preqs, found) ↦
              let met = check_lem preqs before (d item.type preqs found) in
              elim (Bool-cases (meets preqs before)) [
                | inl y ↦ rw (i, e, found, met, y) rest
                | inr n ↦ rw (i, e, found, met, n) refl
              ]
        ]
      ]
]

-- With a table of prerequisites of which those with masks differ from the next one, checkAll passes
-- exactly the lists in which every type is legal and every field that is not an experimenter's, and
-- has prerequisites, comes behind a field that meets one of them.
pub check_all_lem :
    (lookup : ℕ → Option (List Field)) (items : List Field)
    → ((type : ℕ) (preqs : List Field) → lookup type ≡ some preqs → masks_differ preqs ≡ true)
    → is_passed (check_all lookup items) ≡ all_met lookup [] items
check_all_lem lookup items d = check_all_from_lem lookup [] items d
