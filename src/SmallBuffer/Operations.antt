-- ===== src/SmallBuffer/Operations.antt =====
-- Each operation of a SmallBuffer as an operation on the list of its bytes.
use libofp.Base.{
  ℕ, ◌+◌, ◌-◌, ◌≤◌, ◌<◌, ◌≡◌, List, [], ◌++◌, length, take, drop, ltb, Option, some, arith, refl,
  ap, ◌∙◌, Bool-cases, inl, inr, length-take, length-drop, take-append_all, ltb→lt,
  take-append_more,
}
use libofp.Memory.{◌>>=◌, memcpy, memmove, memcpy_fits, patched, length-patched}
use libofp.SmallBuffer.{
  SmallBuffer, block, capacity, contents, set_block, assign, add, insert, replace, remove,
  insert_uninitialized,
}
use libofp.SmallBuffer.Splice.{splice, memmove-Opened, Opened-memcpy, Opened-contents}
use libofp.SmallBuffer.Growth.{
  IsBuffer, Becomes, guarded-Grown, make_room-Grown, set_block-IsBuffer,
}

contents-set_block : (b : SmallBuffer) (x : List ℕ) (n : ℕ) → contents (set_block b x n) ≡ take n x
unfolding set_block
contents-set_block b x n = ground arith

-- The block is written and the end is set.
Becomes-set_block :
    (b : SmallBuffer) (x xs : List ℕ) (n : ℕ)
    → IsBuffer b
    → length x ≡ capacity b
    → n ≤ length x
    → take n x ≡ xs
    → Becomes (some (set_block b x n)) xs
Becomes-set_block b x xs n h e k same =
    (set_block b x n, refl, set_block-IsBuffer b x n h e k, contents-set_block b x n ∙ same)

Becomes-eq : {o : Option SmallBuffer} {xs ys : List ℕ} → Becomes o xs → xs ≡ ys → Becomes o ys
Becomes-eq (c, e, i, same) h = (c, e, i, same ∙ h)

-- The tail is moved, then the new bytes are copied to the gap.
splice_in_place :
    (c : SmallBuffer) (pos pos_end to n : ℕ) (bytes : List ℕ)
    → IsBuffer c
    → pos ≤ pos_end
    → pos_end ≤ c.size
    → to ≡ pos + length bytes
    → n ≡ pos + length bytes + (c.size - pos_end)
    → n ≤ capacity c
    → Becomes
        (do
          moved ← memmove to pos_end (c.size - pos_end) (block c)
          x ← memcpy pos bytes moved
          some (set_block c x n))
        (splice pos pos_end bytes (contents c))
splice_in_place c pos pos_end to n bytes h o i e f room =
    let (x, moves, opened) =
      memmove-Opened pos pos_end (length bytes) c.size (block c) o i h.2 (omega arith) in
    let fits : pos + length bytes ≤ length x = omega (arith, opened.0) in
    let size : length (patched pos bytes x) ≡ length x = length-patched pos bytes x fits in
    rw (e, moves, memcpy_fits pos bytes x fits)
      (Becomes-set_block c (patched pos bytes x) (splice pos pos_end bytes (contents c)) n h
        (size ∙ opened.0) (omega (arith, size, opened.0))
        (ap (λ m. take m (patched pos bytes x)) f
          ∙ Opened-memcpy pos pos_end (length bytes) c.size bytes (block c) x o i h.2 refl opened))

-- For positions in order inside of a buffer: no byte outside the block is accessed, the invariant
-- is kept, and the bytes before the first position and from the second on are left.
pub remove-Becomes :
    (b : SmallBuffer) (pos pos_end : ℕ)
    → IsBuffer b
    → pos ≤ pos_end
    → pos_end ≤ b.size
    → Becomes (remove b pos pos_end) (splice pos pos_end [] (contents b))
unfolding remove
remove-Becomes b pos pos_end h o k =
    let (x, moves, opened) =
      memmove-Opened pos pos_end 0 b.size (block b) o k h.2 (omega (arith, h.2)) in
    let to : pos_end - (pos_end - pos) ≡ pos + 0 = omega arith in
    let end : b.size - (pos_end - pos) ≡ pos + 0 + (b.size - pos_end) = omega arith in
    rw (to, moves)
      (Becomes-set_block b x (splice pos pos_end [] (contents b)) (b.size - (pos_end - pos)) h
        opened.0 (omega (arith, opened.0, h.2))
        (ap (λ m. take m x) end
          ∙ Opened-contents pos pos_end 0 b.size (block b) x o k h.2 (omega (arith, h.2)) opened))

module _ (malloc : ℕ → List ℕ) (allocates : (n : ℕ) → length (malloc n) ≡ n) where
  pub assign-Becomes :
      (b : SmallBuffer) (bytes : List ℕ) → IsBuffer b → Becomes (assign malloc b bytes) bytes
  unfolding assign
  assign-Becomes b bytes h =
      let (c, grows, (i, room, size, same)) = guarded-Grown malloc allocates b (length bytes) h in
      let long : length (patched 0 bytes (block c)) ≡ capacity c =
        length-patched 0 bytes (block c) (omega arith) in
      rw (grows, memcpy_fits 0 bytes (block c) (omega arith))
        (Becomes-set_block c (patched 0 bytes (block c)) bytes (length bytes) i long
          (omega (arith, long))
          (take-append_all (length bytes) bytes (drop (0 + length bytes) (block c)) refl))

  -- For a position inside of a buffer: no byte outside the block is accessed, the invariant is kept,
  -- and the bytes are those before the position, the new ones, and those behind.
  pub insert-Becomes :
      (b : SmallBuffer) (pos : ℕ) (bytes : List ℕ)
      → IsBuffer b
      → pos ≤ b.size
      → Becomes (insert malloc b pos bytes) (splice pos pos bytes (contents b))
  unfolding insert
  insert-Becomes b pos bytes h k =
      let (c, grows, (i, room, size, same)) = make_room-Grown malloc allocates b (length bytes) h in
      rw grows (
        Becomes-eq
          (splice_in_place c pos pos (pos + length bytes) (c.size + length bytes) bytes i
            (omega arith) (omega (arith, size)) refl (omega (arith, size)) (omega (arith, size)))
          (ap (splice pos pos bytes) same))

  -- For positions in order inside of a buffer: no byte outside the block is accessed, the invariant
  -- is kept, and the bytes are those before the first position, the new ones, and those from the
  -- second position on.
  pub replace-Becomes :
      (b : SmallBuffer) (pos pos_end : ℕ) (bytes : List ℕ)
      → IsBuffer b
      → pos ≤ pos_end
      → pos_end ≤ b.size
      → Becomes (replace malloc b pos pos_end bytes) (splice pos pos_end bytes (contents b))
  unfolding replace
  replace-Becomes b pos pos_end bytes h o k =
      let more : ℕ = length bytes - (pos_end - pos) in
      let less : ℕ = pos_end - pos - length bytes in
      let (c, grows, (i, room, size, same)) = make_room-Grown malloc allocates b more h in
      elim (Bool-cases (ltb (pos_end - pos) (length bytes))) [
        | inl e ↦
            let lt : pos_end - pos < length bytes = ltb→lt _ _ e in
            rw (e, grows)
              (Becomes-eq
                (splice_in_place c pos pos_end (pos_end + more) (c.size + more) bytes i o
                  (omega (arith, size)) (omega arith) (omega (arith, size)) (omega (arith, size)))
                (ap (splice pos pos_end bytes) same))
        | inr e ↦
            let le : length bytes ≤ pos_end - pos = ground arith in
            rw e (
              splice_in_place b pos pos_end (pos_end - less) (b.size - less) bytes h o k
                (omega arith) (omega arith) (omega (arith, h.2)))
      ]

  -- No byte outside the block is accessed, the invariant is kept, and the new bytes stand behind.
  add-Becomes :
      (b : SmallBuffer) (bytes : List ℕ)
      → IsBuffer b
      → Becomes (add malloc b bytes) (contents b ++ bytes)
  unfolding add
  add-Becomes b bytes h =
      let (c, grows, (i, room, size, same)) = make_room-Grown malloc allocates b (length bytes) h in
      let fits : c.size + length bytes ≤ capacity c = omega (arith, size) in
      let long : length (patched c.size bytes (block c)) ≡ capacity c =
        length-patched c.size bytes (block c) fits in
      let rest : List ℕ = drop (c.size + length bytes) (block c) in
      let short : length (contents c) ≡ c.size = omega (arith, length-take c.size (block c), i.2) in
      rw (grows, memcpy_fits c.size bytes (block c) fits)
        (Becomes-set_block c (patched c.size bytes (block c)) (contents b ++ bytes)
          (c.size + length bytes) i long (omega (arith, long))
          (take-append_more (c.size + length bytes) (length bytes) (contents c) (bytes ++ rest)
              (omega (arith, short))
            ∙ ap (λ l. contents c ++ l) (take-append_all (length bytes) bytes rest refl)
            ∙ ap (λ l. l ++ bytes) same))

  -- For a position inside of a buffer: no byte outside the block is accessed, the invariant is kept,
  -- and a gap of `n` bytes, which are any, opens at the position.
  pub insert_uninitialized-Becomes :
      (b : SmallBuffer) (pos n : ℕ)
      → IsBuffer b
      → pos ≤ b.size
      → (gap : List ℕ) × (length gap ≡ n)
        × Becomes (insert_uninitialized malloc b pos n) (splice pos pos gap (contents b))
  unfolding insert_uninitialized
  insert_uninitialized-Becomes b pos n h k =
      let (c, grows, (i, room, size, same)) = make_room-Grown malloc allocates b n h in
      let fits : pos + n + (c.size - pos) ≤ capacity c = omega (arith, size) in
      let inside : pos ≤ c.size = omega (arith, size) in
      let (x, moves, opened) =
        memmove-Opened pos pos n c.size (block c) (omega arith) inside i.2 fits in
      let end : c.size + n ≡ pos + n + (c.size - pos) = omega (arith, size) in
      (
        take n (drop pos x),
        omega (arith, opened.0, length-take n (drop pos x), length-drop pos x),
        rw (grows, moves)
            (Becomes-set_block c x (splice pos pos (take n (drop pos x)) (contents b)) (c.size + n)
              i opened.0 (omega (arith, opened.0, size))
              (ap (λ m. take m x) end
                ∙ Opened-contents pos pos n c.size (block c) x (omega arith) inside i.2 fits opened
                ∙ ap (splice pos pos (take n (drop pos x))) same)),
      )
