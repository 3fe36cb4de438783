-- ===== src/SmallBuffer/Tests.antt =====
-- The theorems on a SmallBuffer at concrete buffers.
use libofp.Base.{ℕ, List, [], ◌∷◌, ◌≡◌, length, replicate, none, some, refl, arith}
use libofp.Memory.{length-replicate}
use libofp.SmallBuffer.{SmallBuffer, contents, insert, replace, replace_uninitialized}
use libofp.SmallBuffer.Splice.{splice}
use libofp.SmallBuffer.Growth.{IsBuffer, Becomes}
use libofp.SmallBuffer.Operations.{insert-Becomes, replace-Becomes}
use libofp.SmallBuffer.Overflow.{replace_uninitialized_overruns}

-- New memory is filled with one byte.
abbrev filled : ℕ → List ℕ
filled n = replicate n 165

filled-length : (n : ℕ) → length (filled n) ≡ n
filled-length n = length-replicate n 165

abbrev near_full : SmallBuffer
near_full = record { intrinsic = replicate 64 7; heap = none; size = 62 }

near_full-IsBuffer : IsBuffer near_full
near_full-IsBuffer = (refl, tt, omega arith)

insert-Becomes_example :
    Becomes
      (insert filled near_full 10 (1 ∷ 2 ∷ 3 ∷ []))
      (splice 10 10 (1 ∷ 2 ∷ 3 ∷ []) (contents near_full))
insert-Becomes_example =
    insert-Becomes filled filled-length near_full 10 (1 ∷ 2 ∷ 3 ∷ []) near_full-IsBuffer
      (omega arith)

replace-Becomes_example :
    Becomes
      (replace filled near_full 10 12 (1 ∷ 2 ∷ 3 ∷ 4 ∷ 5 ∷ []))
      (splice 10 12 (1 ∷ 2 ∷ 3 ∷ 4 ∷ 5 ∷ []) (contents near_full))
replace-Becomes_example =
    replace-Becomes filled filled-length near_full 10 12 (1 ∷ 2 ∷ 3 ∷ 4 ∷ 5 ∷ []) near_full-IsBuffer
      (omega arith) (omega arith)

replace_uninitialized_overruns_example :
    replace_uninitialized filled
      (record { intrinsic = replicate 64 7; heap = some (replicate 1024 9); size = 1000 })
      0
      8
      100
    ≡ none
replace_uninitialized_overruns_example =
    replace_uninitialized_overruns filled filled-length (replicate 64 7) (replicate 1024 9) 1000 0 8
      100 (length-replicate 1024 9) (omega arith) (omega arith) (omega arith) (omega arith)
      (omega arith)
