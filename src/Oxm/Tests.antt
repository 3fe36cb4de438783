-- ===== src/Oxm/Tests.antt =====
-- Runs of src/ofp/oxmtypeset.cpp and src/ofp/prerequisites.cpp on sample inputs.
use libofp.Base.{
  ℕ, ◌≡◌, Bool, true, false, List, [], ◌∷◌, Option, none, some, refl, arith, ◌==◌, if◌then◌else◌,
  if_rule, ap, sym, ◌∙◌,
}
use libofp.Oxm.{
  with_mask, without_mask, oxm_class, add_from, duplicates_from, duplicate_fields_detected,
  is_illegal, is_experimenter, has_mask, oxm_field,
}
use libofp.Oxm.TypeSet.{has_duplicates, duplicate_fields_detected_lem}
use libofp.Oxm.Prerequisites.{
  Field, insert, insert_from, added_for, poison_prereq_signal, check, check_from, check_preq_masked,
  check_preq_value, check_all, check_all_from, match_value_with_mask, match_value_with_value,
  missing_prerequisite, unresolved_ambiguity, illegal_reason, value_prereq_signal,
}
use libofp.Oxm.Prerequisites.Insertion.{check-insert}
use libofp.Oxm.Prerequisites.Meeting.{is_passed, all_met, masks_differ, check_all_lem}

-- OFB_ETH_TYPE, OFB_VLAN_VID and OFB_IP_PROTO
abbrev eth_type : ℕ
eth_type = 0x80000a02

abbrev vlan_vid : ℕ
vlan_vid = 0x80000c02

abbrev ip_proto : ℕ
ip_proto = 0x80001401

masked_type : with_mask vlan_vid ≡ 0x80000d04
unfolding with_mask
masked_type = refl

unmasked_type : without_mask 0x80000d04 ≡ vlan_vid
unfolding without_mask
unmasked_type = refl

-- The prerequisites of IP_PROTO: ETH_TYPE is 0x0800 or 0x86dd.
abbrev ip_types : List Field
ip_types =
    record { type = eth_type; value = 0x08 ∷ 0x00 ∷ [] }
    ∷ record { type = eth_type; value = 0x86 ∷ 0xdd ∷ [] }
    ∷ []

abbrev ipv6 : Field
ipv6 = record { type = eth_type; value = 0x86 ∷ 0xdd ∷ [] }

abbrev arp : Field
arp = record { type = eth_type; value = 0x08 ∷ 0x06 ∷ [] }

abbrev proto : Field
proto = record { type = ip_proto; value = 6 ∷ [] }

abbrev lookup : ℕ → Option (List Field)
lookup type = if type == ip_proto then some ip_types else none

behind_ipv6 : check_all lookup (ipv6 ∷ proto ∷ []) ≡ none
unfolding check_all_from check_from check_preq_value is_illegal is_experimenter
    match_value_with_value
behind_ipv6 = refl

behind_arp : check_all lookup (arp ∷ proto ∷ []) ≡ some missing_prerequisite
unfolding check_all_from check_from check_preq_value is_illegal is_experimenter
    match_value_with_value
behind_arp = refl

signal :
    check_all lookup (record { type = value_prereq_signal; value = [] } ∷ [])
    ≡ some unresolved_ambiguity
unfolding check_all_from illegal_reason is_illegal
signal = refl

-- A tag is present if bit 12 of VLAN_VID is set, whatever else is.
tagged :
    check
      (record { type = with_mask vlan_vid; value = 0x10 ∷ 0x00 ∷ 0x10 ∷ 0x00 ∷ [] } ∷ [])
      (record { type = vlan_vid; value = 0x10 ∷ 0x05 ∷ [] } ∷ [])
    ≡ true
unfolding check_from check_preq_masked with_mask without_mask match_value_with_mask
tagged = refl

-- Types with one field of each of the classes 1 to 11, and one more of the class 11
abbrev eleven_classes : List ℕ
eleven_classes =
    0x10002 ∷ 0x20002 ∷ 0x30002 ∷ 0x40002 ∷ 0x50002 ∷ 0x60002 ∷ 0x70002 ∷ 0x80002 ∷ 0x90002
    ∷ 0xa0002 ∷ 0xb0002 ∷ 0xb0002 ∷ []

eleven_missed : duplicate_fields_detected eleven_classes ≡ false
unfolding duplicates_from add_from oxm_class
eleven_missed = refl

eleven_repeated : has_duplicates eleven_classes ≡ true
unfolding oxm_class oxm_field
eleven_repeated = refl

duplicate_fields_detected_lem_example :
    duplicate_fields_detected (eth_type ∷ vlan_vid ∷ 0x80000d04 ∷ [])
    ≡ has_duplicates (eth_type ∷ vlan_vid ∷ 0x80000d04 ∷ [])
unfolding oxm_class
duplicate_fields_detected_lem_example =
    duplicate_fields_detected_lem (eth_type ∷ vlan_vid ∷ 0x80000d04 ∷ []) (omega arith)

lookup-differ :
    (type : ℕ) (preqs : List Field) → lookup type ≡ some preqs → masks_differ preqs ≡ true
unfolding has_mask
lookup-differ type preqs h =
    let differ : Option (List Field) → Bool =
      λ o. elim o [ none ↦ true | some q ↦ masks_differ q ] in
    sym (ap differ h) ∙ if_rule (λ o. differ o ≡ true) (type == ip_proto) (λ _. refl) (λ _. refl)

check_all_lem_example :
    is_passed (check_all lookup (ipv6 ∷ proto ∷ [])) ≡ all_met lookup [] (ipv6 ∷ proto ∷ [])
check_all_lem_example = check_all_lem lookup (ipv6 ∷ proto ∷ []) lookup-differ

-- Both values are inserted behind a signal where none is met.
inserted_both :
    insert ip_types (record { type = vlan_vid; value = 0x10 ∷ 0x05 ∷ [] } ∷ [])
    ≡ record { type = vlan_vid; value = 0x10 ∷ 0x05 ∷ [] }
      ∷ record { type = value_prereq_signal; value = [] }
      ∷ ip_types
unfolding insert_from added_for check_preq_value has_mask with_mask
inserted_both = refl

-- One value in conflict with the list is poison.
inserted_poison :
    insert (ipv6 ∷ []) (arp ∷ []) ≡ arp ∷ record { type = poison_prereq_signal; value = [] } ∷ []
unfolding insert_from added_for check_preq_value match_value_with_value has_mask with_mask
inserted_poison = refl

check-insert_example :
    check ip_types (insert ip_types (record { type = vlan_vid; value = 0x10 ∷ 0x05 ∷ [] } ∷ []))
    ≡ true
unfolding insert_from added_for check_preq_value match_value_with_value has_mask with_mask
check-insert_example =
    check-insert (record { type = eth_type; value = 0x08 ∷ 0x00 ∷ [] }) (ipv6 ∷ [])
      (record { type = vlan_vid; value = 0x10 ∷ 0x05 ∷ [] } ∷ []) refl refl refl
