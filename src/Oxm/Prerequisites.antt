-- ===== src/Oxm/Prerequisites.antt =====
-- Prerequisites of match fields: check and checkAll of src/ofp/prerequisites.cpp on lists of fields.
-- The iterators of the source go through the bytes of such lists.
pub mod Meeting
pub mod Insertion
use libofp.Base.{
  ℕ, zero, suc, ◌+◌, ◌*◌, ◌^◌, Bool, true, false, ◌&&◌, ◌||◌, not, List, [], ◌∷◌, ◌++◌, Option,
  none, some, take, drop, ◌==◌, if◌then◌else◌, bit_and,
}
use libofp.Oxm.{make_type, oxm_size, has_mask, with_mask, without_mask, is_illegal, is_experimenter}

-- A field with its value, behind which its mask stands if it has one
pub record Field : Type 0 where
  pub type : ℕ
  pub value : List ℕ

-- Byte for byte: the value under the mask is that of the prerequisite.
unfoldable pub under_mask : ℕ → List ℕ → List ℕ → List ℕ → Bool
under_mask zero value mask expected = true
under_mask (suc n) (v ∷ value) (m ∷ mask) (x ∷ expected) =
    (bit_and v m == x) && under_mask n value mask expected
under_mask (suc n) value mask expected = false

unfoldable pub match_value_with_mask : ℕ → Field → Field → Bool
unfolding under_mask
match_value_with_mask length pos preq =
    under_mask length pos.value (drop length preq.value) preq.value

-- Byte for byte: the value under its own mask and that of the prerequisite is that of the prerequisite.
unfoldable pub under_masks : ℕ → List ℕ → List ℕ → List ℕ → List ℕ → Bool
under_masks zero value own mask expected = true
under_masks (suc n) (v ∷ value) (w ∷ own) (m ∷ mask) (x ∷ expected) =
    (bit_and (bit_and v w) m == x) && under_masks n value own mask expected
under_masks (suc n) value own mask expected = false

unfoldable pub match_mask_with_mask : ℕ → Field → Field → Bool
unfolding under_masks
match_mask_with_mask length pos preq =
    under_masks length pos.value (drop length pos.value) (drop length preq.value) preq.value

-- `memcmp`
unfoldable pub same_bytes : ℕ → List ℕ → List ℕ → Bool
same_bytes zero xs ys = true
same_bytes (suc n) (x ∷ xs) (y ∷ ys) = (x == y) && same_bytes n xs ys
same_bytes (suc n) xs ys = false

unfoldable pub match_value_with_value : ℕ → Field → Field → Bool
unfolding same_bytes
match_value_with_value length pos preq = same_bytes length pos.value preq.value

-- All bits of the mask are set, and the values are the same.
unfoldable pub exact : ℕ → List ℕ → List ℕ → List ℕ → Bool
exact zero value mask expected = true
exact (suc n) (v ∷ value) (m ∷ mask) (x ∷ expected) =
    (m == 0xff) && (v == x) && exact n value mask expected
exact (suc n) value mask expected = false

unfoldable pub match_mask_with_value : ℕ → Field → Field → Bool
unfolding exact
match_mask_with_value length pos preq = exact length pos.value (drop length pos.value) preq.value

unfoldable pub check_preq_masked : Field → List Field → Bool
check_preq_masked preq [] = false
check_preq_masked preq (pos ∷ items) =
    let rest = check_preq_masked preq items in
    let length : ℕ = oxm_size (without_mask preq.type) in
    if pos.type == without_mask preq.type
    then (if match_value_with_mask length pos preq then true else rest)
    else if pos.type == preq.type
    then (if match_mask_with_mask length pos preq then true else rest)
    else rest

-- The inner loop of `checkPreqValue` for one field: whether it matches one of the prerequisites that
-- follow one another with the type of the first, and `*conflict`.
unfoldable pub try_values : ℕ → Field → List Field → Bool × Bool
try_values type pos [] = (false, false)
try_values type pos (preq ∷ preqs) =
    let rest : Bool × Bool = try_values type pos preqs in
    let missed : Bool × Bool = (rest.0, true) in
    if not (preq.type == type)
    then (false, false)
    else if pos.type == type
    then (if match_value_with_value (oxm_size type) pos preq then (true, false) else missed)
    else if pos.type == with_mask type
    then (if match_mask_with_value (oxm_size type) pos preq then (true, false) else missed)
    else (false, false)

unfoldable pub check_preq_value : ℕ → List Field → List Field → Bool × Bool
unfolding try_values
check_preq_value type preqs [] = (false, false)
check_preq_value type preqs (pos ∷ items) =
    let one : Bool × Bool = try_values type pos preqs in
    let rest : Bool × Bool = check_preq_value type preqs items in
    if one.0 then one else (rest.0, one.1 || rest.1)

-- `check`, where `skipped` is the type that `advancePreq` skips
unfoldable pub check_from : Option ℕ → List Field → List Field → Bool
check_from skipped [] items = false
check_from skipped (preq ∷ preqs) items =
    let same = check_from skipped preqs items in
    let skip = check_from (some preq.type) preqs items in
    let next = check_from none preqs items in
    let tried =
      if has_mask preq.type
      then (if check_preq_masked preq items then true else skip)
      else if (check_preq_value preq.type (preq ∷ preqs) items).0
      then true
      else next in
    elim skipped [ none ↦ tried | some type ↦ if preq.type == type then same else tried ]

abbrev pub check : List Field → List Field → Bool
check preqs items = check_from none preqs items

-- `kMaskedPrereqSignal`, `kValuePrereqSignal` and `kPoisonPrereqSignal`
abbrev pub masked_prereq_signal : ℕ
masked_prereq_signal = with_mask (make_type 0x7ff1 0 0 false)

abbrev pub value_prereq_signal : ℕ
value_prereq_signal = with_mask (make_type 0x7ff2 0 0 false)

abbrev pub poison_prereq_signal : ℕ
poison_prereq_signal = with_mask (make_type 0x7ff3 0 0 false)

pub data FailureReason : Type 0 where
  unspecified : FailureReason
  unresolved_ambiguity : FailureReason
  conflicting_prerequisites : FailureReason
  missing_prerequisite : FailureReason

unfoldable pub illegal_reason : ℕ → FailureReason
unfolding with_mask
illegal_reason type =
    if (type == value_prereq_signal) || (type == masked_prereq_signal)
    then unresolved_ambiguity
    else if type == poison_prereq_signal
    then conflicting_prerequisites
    else unspecified

-- `checkAll`, with the fields before: none if it succeeds. `lookup` gives the prerequisites of a type
-- from the table of types, if it is known and has some.
unfoldable pub check_all_from :
    (ℕ → Option (List Field)) → List Field → List Field → Option FailureReason
check_all_from lookup before [] = none
check_all_from lookup before (item ∷ items) =
    let rest = check_all_from lookup (before ++ (item ∷ [])) items in
    if is_illegal item.type
    then some (illegal_reason item.type)
    else if is_experimenter item.type
    then rest
    else elim (lookup item.type) [
      | none ↦ rest
      | some preqs ↦ if not (check preqs before) then some missing_prerequisite else rest
    ]

abbrev pub check_all : (ℕ → Option (List Field)) → List Field → Option FailureReason
check_all lookup items = check_all_from lookup [] items

-- A field that is only a type
abbrev pub signal : ℕ → Field
signal type = record { type = type; value = [] }

-- The fields at the beginning that have a type
abbrev pub run_of : ℕ → List Field → List Field
run_of type [] = []
run_of type (preq ∷ preqs) = if preq.type == type then preq ∷ run_of type preqs else []

-- What `insertPreqMasked` and `insertPreqValue` add to the list for the first prerequisite and those of
-- its type behind it
unfoldable pub added_for : Field → List Field → List Field → List Field
added_for preq preqs items =
    let run : List Field = run_of preq.type preqs in
    let checked : Bool × Bool = check_preq_value preq.type (preq ∷ preqs) items in
    if has_mask preq.type
    then (if check_preq_masked preq items then [] else signal masked_prereq_signal ∷ preq ∷ [])
    else if checked.0
    then []
    else elim run [
      | next ∷ more ↦ signal value_prereq_signal ∷ preq ∷ next ∷ more
      | [] ↦ if not checked.1 then preq ∷ [] else signal poison_prereq_signal ∷ []
    ]

-- `insert`, where `skipped` is the type of the prerequisites that were passed
unfoldable pub insert_from : Option ℕ → List Field → List Field → List Field
insert_from skipped [] items = items
insert_from skipped (preq ∷ preqs) items =
    let same = insert_from skipped preqs items in
    let next = insert_from (some preq.type) preqs (items ++ added_for preq preqs items) in
    elim skipped [ none ↦ next | some type ↦ if preq.type == type then same else next ]

abbrev pub insert : List Field → List Field → List Field
insert preqs items = insert_from none preqs items
