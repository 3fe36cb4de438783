-- ===== src/SmallBuffer/Overflow.antt =====
-- replaceUninitialized asks increaseCapacity for the bytes to add, without those it has.
use libofp.Base.{
  ℕ, ◌+◌, ◌-◌, ◌≤◌, ◌<◌, ◌≡◌, List, length, none, some, arith, refl, length-take, length-drop, drop,
  lt→ltb,
}
use libofp.Memory.{load, memcpy, memmove}
use libofp.SmallBuffer.{block, increase_capacity, replace_uninitialized, realloc, compute_capacity}
use libofp.SmallBuffer.Growth.{length-realloc}

memmove_outside :
    (to from n : ℕ) (block : List ℕ)
    → 1 ≤ n
    → length block < to + n
    → memmove to from n block ≡ none
unfolding memmove memcpy load
memmove_outside to from n block some_bytes h =
    ground (arith, length-take n (drop from block), length-drop from block)

least_capacity : (n : ℕ) → n ≤ 1024 → compute_capacity n ≡ 1024
unfolding compute_capacity
least_capacity n h = ground arith

module _ (malloc : ℕ → List ℕ) (allocates : (n : ℕ) → length (malloc n) ≡ n) where
  -- On a block of 1024 bytes, with at most 1024 new bytes for a part of the bytes that does not go to
  -- their end, so that they are more than 1024 in all: bytes outside the block are accessed, since the
  -- capacity stays 1024.
  pub replace_uninitialized_overruns :
      (intrinsic bytes : List ℕ) (size pos pos_end n : ℕ)
      → length bytes ≡ 1024
      → size ≤ 1024
      → pos ≤ pos_end
      → pos_end < size
      → n ≤ 1024
      → 1024 < size + n - (pos_end - pos)
      → replace_uninitialized malloc
          (record { intrinsic = intrinsic; heap = some bytes; size = size })
          pos
          pos_end
          n
        ≡ none
  unfolding replace_uninitialized increase_capacity
  replace_uninitialized_overruns intrinsic bytes size pos pos_end n e k o i l over =
      let more : ℕ = n - (pos_end - pos) in
      let x : List ℕ = realloc malloc bytes 1024 in
      let long : length x ≡ 1024 = length-realloc malloc allocates bytes 1024 (omega arith) in
      rw
        (
          lt→ltb (pos_end - pos) n (omega arith),
          lt→ltb (length bytes - size) more (omega arith),
          least_capacity more (omega arith),
          memmove_outside (pos_end + more) pos_end (size - pos_end) x (omega arith) (omega arith),
        )
        refl
