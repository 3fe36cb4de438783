-- ===== src/SmallBuffer/Growth.antt =====
-- SmallBuffer::assertInvariant, and what increaseCapacity does.
use libofp.Base.{
  ℕ, ◌+◌, ◌≤◌, ◌<◌, ◌%◌, ◌≡◌, List, length, take, drop, ltb, Option, none, some, arith, refl, ap,
  sym, ◌∙◌, Bool-cases, inl, inr, length-append, length-take, length-drop, take-append_all,
  take-append, take-take, ltb→lt, if◌then◌else◌,
}
use libofp.Memory.{memcpy_fits, load_fits, patched, length-patched}
use libofp.SmallBuffer.{
  SmallBuffer, block, capacity, remaining, contents, set_block, compute_capacity, pad_length,
  increase_capacity, make_room, realloc, intrinsic_buf_size,
}

abbrev pub IsBlock : Option (List ℕ) → Type 0
IsBlock none = Unit
IsBlock (some bytes) = (0 < length bytes) × (length bytes % 8 ≡ 0)

-- What `assertInvariant` asserts.
abbrev pub IsBuffer : SmallBuffer → Type 0
IsBuffer b = (length b.intrinsic ≡ intrinsic_buf_size) × IsBlock b.heap × (b.size ≤ capacity b)

-- `assert(newCapacity > capacity())` holds when more than the capacity is asked for.
pub compute_capacity_bounds : (n : ℕ) → (n ≤ compute_capacity n) × (compute_capacity n % 8 ≡ 0)
unfolding compute_capacity pad_length
compute_capacity_bounds n = ground arith

pub block-set_block :
    (b : SmallBuffer) (bytes : List ℕ) (n : ℕ) → block (set_block b bytes n) ≡ bytes
unfolding set_block
block-set_block b bytes n = ground arith

pub set_block-IsBuffer :
    (b : SmallBuffer) (bytes : List ℕ) (n : ℕ)
    → IsBuffer b
    → length bytes ≡ capacity b
    → n ≤ length bytes
    → IsBuffer (set_block b bytes n)
unfolding set_block
set_block-IsBuffer b bytes n h e k = ground arith

-- A result, what holds of it, and its bytes.
abbrev pub Becomes : Option SmallBuffer → List ℕ → Type 0
Becomes o xs = (c : SmallBuffer) × (o ≡ some c) × IsBuffer c × (contents c ≡ xs)

module _ (malloc : ℕ → List ℕ) (allocates : (n : ℕ) → length (malloc n) ≡ n) where
  pub length-realloc : (old : List ℕ) (n : ℕ) → length old ≤ n → length (realloc malloc old n) ≡ n
  unfolding realloc
  length-realloc old n h = omega (
    arith,
    length-append (take n old) (drop (length old) (malloc n)),
    length-take n old,
    length-drop (length old) (malloc n),
    allocates n,
  )

  take-realloc :
      (old : List ℕ) (n s : ℕ)
      → length old ≤ n
      → s ≤ length old
      → take s (realloc malloc old n) ≡ take s old
  unfolding realloc
  take-realloc old n s h k =
      take-append s (take n old) (drop (length old) (malloc n)) (omega (arith, length-take n old))
      ∙ take-take s n old (omega arith)

  -- Room for more, the same bytes.
  abbrev pub Grown : SmallBuffer → ℕ → SmallBuffer → Type 0
  Grown b n c = IsBuffer c × (n ≤ capacity c) × (c.size ≡ b.size) × (contents c ≡ contents b)

  increase_by_case :
      (i : List ℕ) (heap : Option (List ℕ)) (s n : ℕ)
      → let b : SmallBuffer = record { intrinsic = i; heap = heap; size = s } in
        IsBuffer b
        → capacity b < n
        → (c : SmallBuffer) × (increase_capacity malloc b n ≡ some c) × Grown b n c
  unfolding increase_capacity
  increase_by_case i none s n h k =
      let (enough, aligned) = compute_capacity_bounds n in
      let new : List ℕ = malloc (compute_capacity n) in
      let bytes : List ℕ = take s (drop 0 i) in
      let long : length bytes ≡ s = omega (arith, h.2, length-take s i) in
      let room : 0 + length bytes ≤ length new = omega (arith, allocates (compute_capacity n), h) in
      let size : length (patched 0 bytes new) ≡ length new = length-patched 0 bytes new room in
      (
        record { intrinsic = i; heap = some (patched 0 bytes new); size = s },
        rw (load_fits 0 s i (omega (arith, h.2)), memcpy_fits 0 bytes new room) refl,
        (
          (
            h.0,
            (
              omega (arith, size, allocates (compute_capacity n), h),
              ap (λ m. m % 8) (size ∙ allocates (compute_capacity n)) ∙ aligned,
            ),
            omega (arith, size, room, long),
          ),
          omega (arith, size, allocates (compute_capacity n)),
          refl,
          take-append_all s bytes (drop (0 + length bytes) new) (sym long),
        ),
      )
  increase_by_case i (some old) s n h k =
      let (enough, aligned) = compute_capacity_bounds n in
      let size : length (realloc malloc old (compute_capacity n)) ≡ compute_capacity n =
        length-realloc old (compute_capacity n) (omega arith) in
      (
        record { intrinsic = i; heap = some (realloc malloc old (compute_capacity n)); size = s },
        refl,
        (
          (h.0, (omega (arith, size), ap (λ m. m % 8) size ∙ aligned), omega (arith, size, h)),
          omega (arith, size),
          refl,
          take-realloc old (compute_capacity n) s (omega arith) h.2,
        ),
      )

  pub increase_capacity-Grown :
      (b : SmallBuffer) (n : ℕ)
      → IsBuffer b
      → capacity b < n
      → (c : SmallBuffer) × (increase_capacity malloc b n ≡ some c) × Grown b n c
  increase_capacity-Grown b n h k = increase_by_case b.intrinsic b.heap b.size n h k

  -- The guard `if (n > capacity())` and the growth after it.
  pub guarded-Grown :
      (b : SmallBuffer) (n : ℕ)
      → IsBuffer b
      → (c : SmallBuffer) × ((if ltb (capacity b) n then increase_capacity malloc b n else some b)
          ≡ some c)
        × Grown b n c
  guarded-Grown b n h = elim (Bool-cases (ltb (capacity b) n)) [
    | inl e ↦ rw e (increase_capacity-Grown b n h (ltb→lt _ _ e))
    | inr e ↦ rw e (b, refl, (h, ground arith, refl, refl))
  ]

  pub make_room-Grown :
      (b : SmallBuffer) (n : ℕ)
      → IsBuffer b
      → (c : SmallBuffer) × (make_room malloc b n ≡ some c) × Grown b (b.size + n) c
  unfolding make_room
  make_room-Grown b n h = elim (Bool-cases (ltb (remaining b) n)) [
    | inl e ↦ rw e (increase_capacity-Grown b (b.size + n) h (omega (arith, ltb→lt _ _ e, h.2)))
    | inr e ↦ rw e (b, refl, (h, ground (arith, h.2), refl, refl))
  ]
