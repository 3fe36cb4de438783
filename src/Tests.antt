-- ===== src/Tests.antt =====
-- Runs of the version negotiation, the headers and the times, and the theorems at such inputs.
use libofp.Base.{ℕ, ◌≡◌, true, refl, arith, none}
use libofp.Timestamp.{Timestamp}
use libofp.Versions.{
  contains_version, highest_from, highest_version, negotiate_version, include_in_hello_msg,
  version_4,
}
use libofp.Hello.{hello_of, settle, send, send_version, send_bitmap, protocol_versions}
use libofp.Hello.Agreement.{settle_agree}
use libofp.Header.{
  translate_type, translate_type_from_version, translate_type_to_version, max_type_by_version,
}
use libofp.Header.Types.{translate_type-from_to}

-- Versions 1.0 and 1.3, and versions 1.0 to 1.4.
abbrev old_and_new : ℕ
old_and_new = 18

abbrev up_to_5 : ℕ
up_to_5 = 62

settles : (settle old_and_new up_to_5 ≡ 4) × (settle up_to_5 old_and_new ≡ 4)
unfolding settle hello_of send send_version send_bitmap protocol_versions negotiate_version
    highest_version highest_from include_in_hello_msg
settles = (refl, refl)

-- All versions up to the highest need no bitmap.
sends : (hello_of up_to_5).element ≡ none
unfolding hello_of send send_version send_bitmap highest_version highest_from include_in_hello_msg
sends = refl

settle_agree_example :
    (settle old_and_new up_to_5 ≡ settle up_to_5 old_and_new)
    × (contains_version old_and_new (settle old_and_new up_to_5) ≡ true)
    × (contains_version up_to_5 (settle old_and_new up_to_5) ≡ true)
unfolding settle hello_of send send_version send_bitmap protocol_versions negotiate_version
    highest_version highest_from include_in_hello_msg
settle_agree_example =
    settle_agree old_and_new up_to_5 (omega arith) (omega arith) (omega arith) (omega arith)

-- A statistics request of version 1.0.
translate_type-from_to_example : translate_type version_4 (translate_type 1 16 version_4) 1 ≡ 16
unfolding translate_type translate_type_from_version translate_type_to_version max_type_by_version
translate_type-from_to_example =
    translate_type-from_to 1 16 (omega arith) (omega arith) (omega arith)

abbrev noon : Timestamp
noon = record { seconds = 43200; nanoseconds = 900_000_000 }

abbrev half_second : Timestamp
half_second = record { seconds = 0; nanoseconds = 500_000_000 }
