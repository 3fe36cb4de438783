-- ===== src/Memory.antt =====
-- Blocks of memory as lists of bytes, with the functions of the C library that the code calls on
-- them. An access outside a block has no result.
pub mod Fields
use libofp.Base.{
  ℕ, ◌+◌, ◌≤◌, ◌≡◌, List, ◌++◌, length, take, drop, leb, if◌then◌else◌, ◌==◌, Option, false, refl,
  take-drop, some, none, arith, length-append, length-take, length-drop, replicate, zero, suc,
}

infixl 5 ◌>>=◌
abbrev pub ◌>>=◌ {ℓ κ} : {A : Type ℓ} {B : Type κ} → Option A → (A → Option B) → Option B
some a >>= f = f a
none >>= f = none

-- The bytes from an offset on.
unfoldable pub load : ℕ → ℕ → List ℕ → Option (List ℕ)
load at n block = if leb (at + n) (length block) then some (take n (drop at block)) else none

-- `memcpy` to an offset of a block, from bytes outside it
unfoldable pub memcpy : ℕ → List ℕ → List ℕ → Option (List ℕ)
memcpy at bytes block =
    if leb (at + length bytes) (length block)
    then some (take at block ++ (bytes ++ drop (at + length bytes) block))
    else none

-- `memmove` inside a block, from an offset to another; no bytes are moved from anywhere
unfoldable pub memmove : ℕ → ℕ → ℕ → List ℕ → Option (List ℕ)
memmove to from n block =
    if n == 0 then some block else (do bytes ← load from n block; memcpy to bytes block)

unfoldable pub memset : ℕ → ℕ → ℕ → List ℕ → Option (List ℕ)
memset at byte n block = memcpy at (replicate n byte) block

pub length-replicate : (n x : ℕ) → length (replicate n x) ≡ n
length-replicate zero x = omega arith
length-replicate (suc n) x = omega (arith, length-replicate n x)

-- What a block is after a copy.
abbrev pub patched : ℕ → List ℕ → List ℕ → List ℕ
patched at bytes block = take at block ++ (bytes ++ drop (at + length bytes) block)

pub memcpy_fits :
    (at : ℕ) (bytes block : List ℕ)
    → at + length bytes ≤ length block
    → memcpy at bytes block ≡ some (patched at bytes block)
unfolding memcpy
memcpy_fits at bytes block h = ground arith

pub load_fits :
    (at n : ℕ) (block : List ℕ)
    → at + n ≤ length block
    → load at n block ≡ some (take n (drop at block))
unfolding load
load_fits at n block h = ground arith

pub length-patched :
    (at : ℕ) (bytes block : List ℕ)
    → at + length bytes ≤ length block
    → length (patched at bytes block) ≡ length block
length-patched at bytes block h =
    let size : length (take at block ++ (bytes ++ drop (at + length bytes) block)) ≡ length block =
      omega (
        arith,
        length-append (take at block) (bytes ++ drop (at + length bytes) block),
        length-append bytes (drop (at + length bytes) block),
        length-take at block,
        length-drop (at + length bytes) block,
      ) in
    size

pub memmove_fits :
    (to from n : ℕ) (block : List ℕ)
    → to + n ≤ length block
    → from + n ≤ length block
    → memmove to from n block ≡ some (patched to (take n (drop from block)) block)
unfolding memmove
memmove_fits to from zero block h k =
    let at : to + 0 ≡ to = omega arith in rw (at, take-drop to block) refl
memmove_fits to from (suc m) block h k =
    let n : ℕ = suc m in
    let moves : (n == 0) ≡ false = ground arith in
    let size : length (take n (drop from block)) ≡ n =
      omega (arith, length-take n (drop from block), length-drop from block) in
    rw (moves, load_fits from n block k)
      (memcpy_fits to (take n (drop from block)) block (omega arith))
