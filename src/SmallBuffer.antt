-- ===== src/SmallBuffer.antt =====
-- SmallBuffer of include/ofp/smallbuffer.h and src/ofp/smallbuffer.cpp: a byte buffer that uses an
-- array inside the object until it needs more. Positions are offsets from `begin_`. The bytes of new
-- memory are not known: `malloc` gives a block of a size. Sizes are below 2^62, so that no size_t
-- wraps around.
pub mod Splice
pub mod Tests
pub mod Overflow
pub mod Operations
pub mod Growth
use libofp.Base.{
  ℕ, ◌+◌, ◌-◌, ◌*◌, ◌/◌, Bool, true, false, ◌&&◌, List, ◌++◌, length, take, drop, ltb, leb,
  if◌then◌else◌, ◌==◌, Option, none, some, bytes_eq,
}
use libofp.Memory.{◌>>=◌, load, memcpy, memmove, memset}

-- `buf_`, the malloc'ed block (none while `begin_ == buf_`), and `end_ - begin_`
pub record SmallBuffer : Type 0 where
  pub intrinsic : List ℕ
  pub heap : Option (List ℕ)
  pub size : ℕ

abbrev pub intrinsic_buf_size : ℕ
intrinsic_buf_size = 64

-- The bytes from `begin_` to `capacity_`.
abbrev pub block : SmallBuffer → List ℕ
block b = elim b.heap [ none ↦ b.intrinsic | some bytes ↦ bytes ]

abbrev pub is_small : SmallBuffer → Bool
is_small b = elim b.heap [ none ↦ true | some bytes ↦ false ]

abbrev pub capacity : SmallBuffer → ℕ
capacity b = length (block b)

abbrev pub remaining : SmallBuffer → ℕ
remaining b = capacity b - b.size

-- The bytes from `begin_` to `end_`.
abbrev pub contents : SmallBuffer → List ℕ
contents b = take b.size (block b)

-- The bytes of the block are written and `end_` is set.
unfoldable pub set_block : SmallBuffer → List ℕ → ℕ → SmallBuffer
set_block b bytes size = elim b.heap [
  | none ↦ record { intrinsic = bytes; heap = none; size = size }
  | some old ↦ record { intrinsic = b.intrinsic; heap = some bytes; size = size }
]

unfoldable pub init : SmallBuffer → SmallBuffer
init b = record { intrinsic = b.intrinsic; heap = none; size = 0 }

unfoldable pub equal : SmallBuffer → SmallBuffer → Bool
equal a b = a.size == b.size && bytes_eq (contents a) (contents b)

-- `PadLength` of include/ofp/padding.h
unfoldable pub pad_length : ℕ → ℕ
pad_length n = 8 * ((n + 7) / 8)

unfoldable pub compute_capacity : ℕ → ℕ
unfolding pad_length
compute_capacity n =
    if leb n 1024
    then 1024
    else if leb n 8192
    then 8192
    else if leb n 65536
    then 65536
    else if leb n 524288
    then 524288
    else if leb n 4194304
    then 4194304
    else 2 * pad_length n

unfoldable pub remove : SmallBuffer → ℕ → ℕ → Option SmallBuffer
remove b pos pos_end = do
  let less = pos_end - pos
  bytes ← memmove (pos_end - less) pos_end (b.size - pos_end) (block b)
  some (set_block b bytes (b.size - less))

unfoldable pub clear : SmallBuffer → SmallBuffer
clear b = set_block b (block b) 0

module _ (malloc : ℕ → List ℕ) where
  -- The bytes that fit are kept.
  unfoldable pub realloc : List ℕ → ℕ → List ℕ
  realloc old n = take n old ++ drop (length old) (malloc n)

  unfoldable pub increase_capacity : SmallBuffer → ℕ → Option SmallBuffer
  increase_capacity b new_length =
      let new_capacity = compute_capacity new_length in
      elim b.heap [
        | none ↦ do
          bytes ← load 0 b.size b.intrinsic
          new_buf ← memcpy 0 bytes (malloc new_capacity)
          some (record { intrinsic = b.intrinsic; heap = some new_buf; size = b.size })
        | some old ↦ some (record {
          intrinsic = b.intrinsic;
          heap = some (realloc old new_capacity);
          size = b.size;
        })
      ]

  -- `if (length > remaining()) increaseCapacity(size() + length)`
  unfoldable pub make_room : SmallBuffer → ℕ → Option SmallBuffer
  make_room b n = if ltb (remaining b) n then increase_capacity b (b.size + n) else some b

  unfoldable pub assign : SmallBuffer → List ℕ → Option SmallBuffer
  assign b data' = do
    c ← if ltb (capacity b) (length data') then increase_capacity b (length data') else some b
    bytes ← memcpy 0 data' (block c)
    some (set_block c bytes (length data'))

  unfoldable pub add : SmallBuffer → List ℕ → Option SmallBuffer
  add b data' = do
    c ← make_room b (length data')
    bytes ← memcpy c.size data' (block c)
    some (set_block c bytes (c.size + length data'))

  unfoldable pub insert : SmallBuffer → ℕ → List ℕ → Option SmallBuffer
  insert b pos data' = do
    c ← make_room b (length data')
    moved ← memmove (pos + length data') pos (c.size - pos) (block c)
    bytes ← memcpy pos data' moved
    some (set_block c bytes (c.size + length data'))

  unfoldable pub replace : SmallBuffer → ℕ → ℕ → List ℕ → Option SmallBuffer
  replace b pos pos_end data' =
      let pos_len = pos_end - pos in
      let more = length data' - pos_len in
      let less = pos_len - length data' in
      let longer = (do
        c ← make_room b more
        moved ← memmove (pos_end + more) pos_end (c.size - pos_end) (block c)
        bytes ← memcpy pos data' moved
        some (set_block c bytes (c.size + more))) in
      let shorter = (do
        moved ← memmove (pos_end - less) pos_end (b.size - pos_end) (block b)
        bytes ← memcpy pos data' moved
        some (set_block b bytes (b.size - less))) in
      if ltb pos_len (length data') then longer else shorter

  unfoldable pub resize : SmallBuffer → ℕ → Option SmallBuffer
  resize b n = do
    c ← if ltb (capacity b) n then increase_capacity b n else some b
    some (set_block c (block c) n)

  unfoldable pub reset : SmallBuffer → ℕ → SmallBuffer
  reset b n =
      if leb n intrinsic_buf_size
      then record { intrinsic = b.intrinsic; heap = none; size = n }
      else record { intrinsic = b.intrinsic; heap = some (malloc (pad_length n)); size = n }

  -- The functions whose name ends in Uninitialized return the position of the new bytes, which is
  -- `end_` before the call, or `pos`.
  unfoldable pub add_uninitialized : SmallBuffer → ℕ → Option SmallBuffer
  add_uninitialized b n = do c ← make_room b n; some (set_block c (block c) (c.size + n))

  unfoldable pub insert_uninitialized : SmallBuffer → ℕ → ℕ → Option SmallBuffer
  insert_uninitialized b pos n = do
    c ← make_room b n
    moved ← memmove (pos + n) pos (c.size - pos) (block c)
    some (set_block c moved (c.size + n))

  unfoldable pub replace_uninitialized : SmallBuffer → ℕ → ℕ → ℕ → Option SmallBuffer
  replace_uninitialized b pos pos_end n =
      let pos_len = pos_end - pos in
      let more = n - pos_len in
      let less = pos_len - n in
      let longer = (do
        c ← if ltb (remaining b) more then increase_capacity b more else some b
        moved ← memmove (pos_end + more) pos_end (c.size - pos_end) (block c)
        some (set_block c moved (c.size + more))) in
      let shorter = (do
        moved ← memmove (pos_end - less) pos_end (b.size - pos_end) (block b)
        some (set_block b moved (b.size - less))) in
      if ltb pos_len n then longer else shorter

  -- `memset` of the new bytes to 0
  unfoldable pub zeros_at : ℕ → ℕ → SmallBuffer → Option SmallBuffer
  zeros_at pos n b = do bytes ← memset pos 0 n (block b); some (set_block b bytes b.size)

  unfoldable pub add_zeros : SmallBuffer → ℕ → Option SmallBuffer
  add_zeros b n = do c ← add_uninitialized b n; zeros_at b.size n c

  unfoldable pub insert_zeros : SmallBuffer → ℕ → ℕ → Option SmallBuffer
  insert_zeros b pos n = do c ← insert_uninitialized b pos n; zeros_at pos n c

  unfoldable pub replace_zeros : SmallBuffer → ℕ → ℕ → ℕ → Option SmallBuffer
  replace_zeros b pos pos_end n = do c ← replace_uninitialized b pos pos_end n; zeros_at pos n c

  unfoldable pub copy_from : SmallBuffer → SmallBuffer → Option SmallBuffer
  copy_from b other = assign b (contents other)

  -- `operator=(SmallBuffer &&)`: the buffer, and the other one that was moved from
  unfoldable pub move_from : SmallBuffer → SmallBuffer → Option (SmallBuffer × SmallBuffer)
  move_from b other = elim other.heap [
    | none ↦ do c ← assign b (contents other); some (c, init other)
    | some bytes ↦
        let c : SmallBuffer = record {
          intrinsic = b.intrinsic;
          heap = other.heap;
          size = other.size;
        } in
        some (c, init other)
  ]
