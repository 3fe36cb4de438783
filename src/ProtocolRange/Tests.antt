-- ===== src/ProtocolRange/Tests.antt =====
-- The theorems on a range of two elements with 8 and 12 bytes, the second one padded.
use mathlib.Core.List.{flatten}
use libofp.Base.{
  ℕ, List, [], ◌∷◌, All, ◌≡◌, ◌≤◌, ◌⊎◌, ◌<◌, inl, length, some, none, refl, arith, take, drop,
}
use libofp.SmallBuffer.{pad_length}
use libofp.ProtocolRange.{
  check_range, check_from, check_element, field_size, big16, items, item_count, split_offset,
  split_from, item_jump, item_size,
}
use libofp.ProtocolRange.Items.{check_range-AreItems}
use libofp.ProtocolRange.Split.{split_offset-IsChecked, split_offset_total, IsChecked}

abbrev sample : List ℕ
sample =
    0 ∷ 1 ∷ 0 ∷ 8 ∷ 9 ∷ 9 ∷ 9 ∷ 9 ∷ 0 ∷ 2 ∷ 0 ∷ 12 ∷ 7 ∷ 7 ∷ 7 ∷ 7 ∷ 7 ∷ 7 ∷ 7 ∷ 7 ∷ 0 ∷ 0 ∷ 0 ∷ 0
    ∷ []

sample_passes : check_range 8 2 8 0 sample ≡ none
unfolding check_range check_from check_element field_size big16 pad_length
sample_passes = refl

sample-IsChecked : IsChecked 8 2 (omega arith) (omega arith) sample
unfolding check_from check_element field_size big16 pad_length
sample-IsChecked = refl

sample_splits : split_offset 16 2 sample ≡ some 8
unfolding split_offset split_from big16 pad_length
sample_splits = refl

first_fits : item_jump 2 8 sample ≤ 16
unfolding item_jump item_size big16 pad_length
first_fits = omega arith

check_range-AreItems_example :
    let found = items 24 2 8 sample in
    (flatten found ≡ sample)
    × (length found ≡ item_count 8 2 8 sample)
    × All (λ e. 8 ≤ length e) found
check_range-AreItems_example =
    check_range-AreItems 8 2 8 0 sample (inl (omega arith, omega arith, refl)) sample_passes

split_offset-IsChecked_example :
    (8 ≤ 16)
    × (8 ≤ 24)
    × IsChecked 8 2 (omega arith) (omega arith) (take 8 sample)
    × IsChecked 8 2 (omega arith) (omega arith) (drop 8 sample)
split_offset-IsChecked_example =
    split_offset-IsChecked 8 2 (omega arith) (omega arith) 16 sample 8 sample-IsChecked
      sample_splits

split_offset_total_example :
    (n : ℕ) × (split_offset 16 2 sample ≡ some n) × ((sample ≡ []) ⊎ (0 < n))
split_offset_total_example =
    split_offset_total 8 2 (omega arith) (omega arith) 16 sample sample-IsChecked first_fits
