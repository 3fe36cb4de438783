-- ===== src/Normalize/Edits.antt =====
-- Changes of a message at the bytes of one element, in the buffer of src/ofp/normalize.cpp.
use libofp.Base.{
  drop-append, drop_length, length-drop, ℕ, ◌+◌, ◌≤◌, ◌≡◌, List, [], ◌∷◌, ◌++◌, some, length, take,
  drop, leb, refl, sym, ap, ◌∙◌, arith, true, append_nil, length-append, length-take, take-append,
  append_assoc, take-drop, get_or-take, drop-append_more,
}
use libofp.Memory.{load, load_fits, memcpy}
use libofp.Memory.Fields.{flat, total, length-flat, memcpy-flat, take-flat, drop-flat, flat-append}
use libofp.Normalize.{insert_at}
use libofp.ProtocolRange.{big16}

pub insert_at-flat :
    (i at : ℕ) (bytes : List ℕ) (fs : List (List ℕ))
    → total (take i fs) ≡ at
    → at ≤ total fs
    → insert_at at bytes (flat fs) ≡ some (flat (take i fs ++ (bytes ∷ drop i fs)))
unfolding insert_at flat
insert_at-flat i at bytes fs e h =
    let inside : leb at (length (flat fs)) ≡ true = ground (arith, length-flat fs) in
    rw
      (
        inside,
        take-flat i at fs e,
        drop-flat i at fs e,
        flat-append (take i fs) (bytes ∷ drop i fs),
      )
      refl

-- Bytes behind an element, a copy over its first bytes, and the number at its beginning.
pub insert_at-behind :
    (pre r rest bytes : List ℕ) (n : ℕ)
    → length r ≡ n
    → insert_at (length pre + n) bytes (pre ++ (r ++ rest)) ≡ some (pre ++ ((r ++ bytes) ++ rest))
unfolding flat
insert_at-behind pre r rest bytes n h =
    let start : pre ++ (r ++ rest) ≡ flat (pre ∷ r ∷ rest ∷ []) = rw (append_nil rest) refl in
    let end : flat (pre ∷ r ∷ bytes ∷ rest ∷ []) ≡ pre ++ ((r ++ bytes) ++ rest) =
      rw (append_nil rest, append_assoc r bytes rest) refl in
    ap (insert_at (length pre + n) bytes) start
    ∙ insert_at-flat 2 (length pre + n) bytes (pre ∷ r ∷ rest ∷ []) (omega arith) (omega arith)
    ∙ ap some end

pub insert_at-within :
    (pre r rest bytes : List ℕ) (n : ℕ)
    → n ≤ length r
    → insert_at (length pre + n) bytes (pre ++ (r ++ rest))
      ≡ some (pre ++ ((take n r ++ (bytes ++ drop n r)) ++ rest))
insert_at-within pre r rest bytes n h =
    let before : length (take n r) ≡ n = omega (arith, length-take n r) in
    let parts : r ++ rest ≡ take n r ++ (drop n r ++ rest) =
      ap (λ l. l ++ rest) (sym (take-drop n r)) ∙ append_assoc (take n r) (drop n r) rest in
    let end : (take n r ++ bytes) ++ (drop n r ++ rest)
        ≡ (take n r ++ (bytes ++ drop n r)) ++ rest =
      rw
        (
          append_assoc (take n r) bytes (drop n r ++ rest),
          append_assoc (take n r) (bytes ++ drop n r) rest,
          append_assoc bytes (drop n r) rest,
        )
        refl in
    ap (λ l. insert_at (length pre + n) bytes (pre ++ l)) parts
    ∙ insert_at-behind pre (take n r) (drop n r ++ rest) bytes n before
    ∙ ap (λ l. some (pre ++ l)) end

pub memcpy-head :
    (pre r rest bytes : List ℕ) (n : ℕ)
    → length bytes ≡ n
    → n ≤ length r
    → memcpy (length pre) bytes (pre ++ (r ++ rest)) ≡ some (pre ++ ((bytes ++ drop n r) ++ rest))
unfolding flat
memcpy-head pre r rest bytes n h k =
    let parts : r ≡ take n r ++ drop n r = sym (take-drop n r) in
    let start : pre ++ (r ++ rest) ≡ flat (pre ∷ take n r ∷ drop n r ∷ rest ∷ []) =
      ap (λ l. pre ++ (l ++ rest)) parts
      ∙ rw (append_nil rest, append_assoc (take n r) (drop n r) rest) refl in
    let end : flat (pre ∷ bytes ∷ drop n r ∷ rest ∷ []) ≡ pre ++ ((bytes ++ drop n r) ++ rest) =
      rw (append_nil rest, append_assoc bytes (drop n r) rest) refl in
    ap (memcpy (length pre) bytes) start
    ∙ memcpy-flat 1 1 (length pre) bytes (pre ∷ take n r ∷ drop n r ∷ rest ∷ []) (omega arith)
        (omega (arith, length-take n r))
    ∙ ap some end

pub load-head :
    (pre r rest : List ℕ) (n : ℕ)
    → n ≤ length r
    → load (length pre) n (pre ++ (r ++ rest)) ≡ some (take n r)
load-head pre r rest n h =
    load_fits (length pre) n (pre ++ (r ++ rest))
      (omega (arith, length-append pre (r ++ rest), length-append r rest))
    ∙ ap (λ l. some (take n l)) (drop-append_more (length pre) 0 pre (r ++ rest) (omega arith))
    ∙ ap some (take-append n r rest h)

pub big16-head : (r : List ℕ) → big16 (take 2 r) 0 ≡ big16 r 0
unfolding big16
big16-head r =
    let e : 0 + 1 ≡ 1 = omega arith in
    rw (e, get_or-take 2 r 0 0 (omega arith), get_or-take 2 r 1 0 (omega arith)) refl

pub load-within :
    (pre r rest : List ℕ) (k n : ℕ)
    → k + n ≤ length r
    → load (length pre + k) n (pre ++ (r ++ rest)) ≡ some (take n (drop k r))
load-within pre r rest k n h =
    load_fits (length pre + k) n (pre ++ (r ++ rest))
      (omega (arith, length-append pre (r ++ rest), length-append r rest))
    ∙ ap (λ l. some (take n l)) (drop-append_more (length pre + k) k pre (r ++ rest) refl)
    ∙ ap (λ l. some (take n l)) (drop-append k r rest (omega arith))
    ∙ ap some (take-append n (drop k r) rest (omega (arith, length-drop k r)))

-- Two copies that fill an element one behind the other.
pub memcpy-behind :
    (pre head d rest bytes : List ℕ) (n : ℕ)
    → length head ≡ n
    → length bytes ≡ length d
    → memcpy (length pre + n) bytes (pre ++ ((head ++ d) ++ rest))
      ≡ some (pre ++ ((head ++ bytes) ++ rest))
memcpy-behind pre head d rest bytes n h k =
    let place : length (pre ++ head) ≡ length pre + n = omega (arith, length-append pre head) in
    let there = λ (l : List ℕ).
      ap (λ m. pre ++ m) (append_assoc head l rest) ∙ sym (append_assoc pre head (l ++ rest)) in
    let none_left : drop (length d) d ≡ [] = drop_length d in
    ap (memcpy (length pre + n) bytes) (there d)
    ∙ ap (λ m. memcpy m bytes ((pre ++ head) ++ (d ++ rest))) (sym place)
    ∙ memcpy-head (pre ++ head) d rest bytes (length d) k (omega arith)
    ∙ ap (λ l. some ((pre ++ head) ++ ((bytes ++ l) ++ rest))) none_left
    ∙ ap (λ l. some ((pre ++ head) ++ (l ++ rest))) (append_nil bytes)
    ∙ ap some (sym (there bytes))
