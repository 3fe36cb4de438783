-- ===== src/Oxm.antt =====
-- Match fields by their 32-bit types: OXMType of include/ofp/oxmtype.h and the set of types of
-- src/ofp/oxmtypeset.cpp. A type is the number that `oxmNative` gives.
pub mod TypeSet
pub mod Prerequisites
pub mod Tests
use libofp.Base.{
  ℕ, zero, suc, ◌+◌, ◌-◌, ◌*◌, ◌/◌, ◌%◌, ◌^◌, Bool, true, false, ◌&&◌, ◌||◌, not, List, [], ◌∷◌,
  ◌++◌, length, ltb, ◌==◌, if◌then◌else◌,
}

-- `make`: the size may reach into the bit of the mask.
unfoldable pub make_type : ℕ → ℕ → ℕ → Bool → ℕ
make_type oxm_class oxm_field oxm_size mask =
    oxm_class * 2 ^ 16
    + (oxm_field % 128) * 2 ^ 9
    + (if mask || not (oxm_size / 256 % 2 == 0) then 256 else 0)
    + oxm_size % 256

unfoldable pub oxm_class : ℕ → ℕ
oxm_class type = type / 2 ^ 16

unfoldable pub oxm_field : ℕ → ℕ
oxm_field type = type / 2 ^ 9 % 128

unfoldable pub oxm_size : ℕ → ℕ
oxm_size type = type % 256

unfoldable pub has_mask : ℕ → Bool
has_mask type = not (type / 256 % 2 == 0)

unfoldable pub is_illegal : ℕ → Bool
unfolding has_mask oxm_size
is_illegal type = has_mask type && (oxm_size type == 0)

unfoldable pub is_experimenter : ℕ → Bool
unfolding oxm_class
is_experimenter type = oxm_class type == 0xffff

unfoldable pub exp_size : ℕ → ℕ
unfolding is_experimenter
exp_size type = if is_experimenter type then 4 else 0

-- The size behind an experimenter id; below that of the id, an 8-bit subtraction in `int` is negative,
-- and no field has such a size.
unfoldable pub with_mask : ℕ → ℕ
unfolding has_mask make_type oxm_class oxm_field oxm_size exp_size
with_mask type =
    if has_mask type
    then type
    else make_type (oxm_class type) (oxm_field type)
        ((oxm_size type - exp_size type) * 2 + exp_size type) true

unfoldable pub without_mask : ℕ → ℕ
unfolding has_mask make_type oxm_class oxm_field oxm_size exp_size
without_mask type =
    if has_mask type
    then make_type (oxm_class type) (oxm_field type)
        ((oxm_size type - exp_size type) / 2 + exp_size type) false
    else type

-- `fields` is the bit set of a class.
pub record ClassEntry : Type 0 where
  pub fields : ℕ → Bool
  pub entry_class : ℕ

abbrev pub max_oxm_classes : ℕ
max_oxm_classes = 10

-- A set is the list of its classes, as many as are in use.
abbrev pub OxmTypeSet : Type 0
OxmTypeSet = List ClassEntry

unfoldable pub find : OxmTypeSet → ℕ → Bool
find [] type = false
find (entry ∷ rest) type =
    let later = find rest type in
    if entry.entry_class == oxm_class type then entry.fields (oxm_field type) else later

abbrev pub set_bit : ℕ → (ℕ → Bool) → ℕ → Bool
set_bit field fields i = if field == i then true else fields i

-- The loop of `add`, where `count` classes stand before the rest, and what follows it
unfoldable pub add_from : ℕ → OxmTypeSet → ℕ → OxmTypeSet × Bool
add_from count [] type =
    if ltb count max_oxm_classes
    then (
      record { fields = set_bit (oxm_field type) (λ i. false); entry_class = oxm_class type } ∷ [],
      true,
    )
    else ([], true)
add_from count (entry ∷ rest) type =
    let later : OxmTypeSet × Bool = add_from (suc count) rest type in
    if entry.entry_class == oxm_class type
    then (if not (entry.fields (oxm_field type))
        then (record entry { fields = set_bit (oxm_field type) entry.fields } ∷ rest, true)
        else (entry ∷ rest, false))
    else (entry ∷ later.0, later.1)

abbrev pub add : OxmTypeSet → ℕ → OxmTypeSet × Bool
add set type = add_from 0 set type

-- `duplicateFieldsDetected`, from a set on
unfoldable pub duplicates_from : OxmTypeSet → List ℕ → Bool
duplicates_from set [] = false
duplicates_from set (type ∷ types) =
    let rest = duplicates_from (add set type).0 types in if (add set type).1 then rest else true

abbrev pub duplicate_fields_detected : List ℕ → Bool
duplicate_fields_detected types = duplicates_from [] types
