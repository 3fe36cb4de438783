-- ===== src/Memory/Fields.antt =====
-- Blocks of memory as the fields that make them up: a copy to or from whole fields replaces or
-- reads these fields.
use libofp.Base.{
  ℕ, zero, suc, false, ◌==◌, ◌+◌, ◌≤◌, ◌≡◌, List, [], ◌∷◌, ◌++◌, length, take, drop, some, refl, ap,
  ◌∙◌, arith, length-append, append_assoc, take-append_more, drop-append_more, take-append_all,
  append_nil, drop-drop, take-drop, take-drop_comm, take-take, length-take, length-drop, sym,
  take_length,
}
use libofp.Memory.{load, load_fits, memcpy, memcpy_fits, memmove}

-- The bytes of fields that stand one behind the other.
unfoldable pub flat : List (List ℕ) → List ℕ
flat [] = []
flat (f ∷ fs) = f ++ flat fs

-- The number of their bytes.
abbrev pub total : List (List ℕ) → ℕ
total [] = 0
total (f ∷ fs) = length f + total fs

pub length-flat : (fs : List (List ℕ)) → length (flat fs) ≡ total fs
unfolding flat
length-flat [] = refl
length-flat (f ∷ fs) = omega (arith, length-append f (flat fs), length-flat fs)

pub flat-append : (fs gs : List (List ℕ)) → flat (fs ++ gs) ≡ flat fs ++ flat gs
unfolding flat
flat-append [] gs = refl
flat-append (f ∷ fs) gs =
    let e : flat (fs ++ gs) ≡ flat fs ++ flat gs = flat-append fs gs in
    rw (e, append_assoc f (flat fs) (flat gs)) refl

-- The first `i` fields are skipped where they have `at` bytes.
pub drop-flat :
    (i at : ℕ) (fs : List (List ℕ)) → total (take i fs) ≡ at → drop at (flat fs) ≡ flat (drop i fs)
unfolding flat
drop-flat zero at fs e = let none_skipped : at ≡ 0 = omega (arith, e) in rw none_skipped refl
drop-flat (suc i) at [] e = let none_skipped : at ≡ 0 = omega (arith, e) in rw none_skipped refl
drop-flat (suc i) at (f ∷ fs) e =
    drop-append_more at (total (take i fs)) f (flat fs) (omega (arith, e))
    ∙ drop-flat i (total (take i fs)) fs refl

pub take-flat :
    (i at : ℕ) (fs : List (List ℕ)) → total (take i fs) ≡ at → take at (flat fs) ≡ flat (take i fs)
unfolding flat
take-flat zero at fs e = let none_skipped : at ≡ 0 = omega (arith, e) in rw none_skipped refl
take-flat (suc i) at [] e = let none_skipped : at ≡ 0 = omega (arith, e) in rw none_skipped refl
take-flat (suc i) at (f ∷ fs) e =
    take-append_more at (total (take i fs)) f (flat fs) (omega (arith, e))
    ∙ ap (λ l. f ++ l) (take-flat i (total (take i fs)) fs refl)

total-take-drop : (i : ℕ) (fs : List (List ℕ)) → total (take i fs) + total (drop i fs) ≡ total fs
total-take-drop zero fs = omega arith
total-take-drop (suc i) [] = omega arith
total-take-drop (suc i) (f ∷ fs) = omega (arith, total-take-drop i fs)

total-take_more :
    (i k : ℕ) (fs : List (List ℕ))
    → total (take (i + k) fs) ≡ total (take i fs) + total (take k (drop i fs))
total-take_more zero k fs = let e : 0 + k ≡ k = omega arith in rw e (omega arith)
total-take_more (suc i) k [] =
    let e : suc i + k ≡ suc (i + k) = omega arith in
    let f : total (take k []) ≡ 0 = omega (arith, total-take-drop k []) in rw (e, f) refl
total-take_more (suc i) k (f ∷ fs) =
    let e : suc i + k ≡ suc (i + k) = omega arith in rw e (omega (arith, total-take_more i k fs))

-- The fields from number `i` on that end before number `i + k`.
fields_fit :
    (i k at n : ℕ) (fs : List (List ℕ))
    → total (take i fs) ≡ at
    → total (take k (drop i fs)) ≡ n
    → at + n ≤ length (flat fs)
fields_fit i k at n fs e e' =
    omega (arith, length-flat fs, total-take-drop i fs, total-take-drop k (drop i fs), e, e')

-- A copy over `k` fields replaces them by one.
pub memcpy-flat :
    (i k at : ℕ) (bytes : List ℕ) (fs : List (List ℕ))
    → total (take i fs) ≡ at
    → total (take k (drop i fs)) ≡ length bytes
    → memcpy at bytes (flat fs) ≡ some (flat (take i fs ++ (bytes ∷ drop (i + k) fs)))
unfolding flat
memcpy-flat i k at bytes fs e e' =
    let behind : drop (at + length bytes) (flat fs) ≡ flat (drop (i + k) fs) =
      drop-flat (i + k) (at + length bytes) fs (omega (arith, total-take_more i k fs, e, e')) in
    let before : take at (flat fs) ≡ flat (take i fs) = take-flat i at fs e in
    memcpy_fits at bytes (flat fs) (fields_fit i k at (length bytes) fs e e')
    ∙ rw (before, behind, flat-append (take i fs) (bytes ∷ drop (i + k) fs)) refl

pub load-flat :
    (i k at n : ℕ) (fs : List (List ℕ))
    → total (take i fs) ≡ at
    → total (take k (drop i fs)) ≡ n
    → load at n (flat fs) ≡ some (flat (take k (drop i fs)))
load-flat i k at n fs e e' =
    load_fits at n (flat fs) (fields_fit i k at n fs e e')
    ∙ ap (λ l. some (take n l)) (drop-flat i at fs e)
    ∙ ap some (take-flat k n (drop i fs) e')

-- `n` bytes from an offset on, where the block has them.
unfoldable pub field : ℕ → ℕ → List ℕ → List ℕ
field at n block = take n (drop at block)

pub length-field :
    (at n : ℕ) (block : List ℕ) → at + n ≤ length block → length (field at n block) ≡ n
unfolding field
length-field at n block h = omega (arith, length-take n (drop at block), length-drop at block)

-- A block cut into fields of these lengths, from an offset on.
unfoldable pub cut : ℕ → List ℕ → List ℕ → List (List ℕ)
cut at [] block = []
cut at (n ∷ ns) block = field at n block ∷ cut (at + n) ns block

abbrev pub sum : List ℕ → ℕ
sum [] = 0
sum (n ∷ ns) = n + sum ns

pub field-append :
    (at m n : ℕ) (block : List ℕ)
    → field at m block ++ field (at + m) n block ≡ field at (m + n) block
unfolding field
field-append at m n block =
    ap (λ l. take m (drop at block) ++ take n l) (sym (drop-drop m at block))
    ∙ ap (λ l. take m (drop at block) ++ l) (sym (take-drop_comm n m (drop at block)))
    ∙ ap (λ l. l ++ drop m (take (m + n) (drop at block)))
        (sym (take-take m (m + n) (drop at block) (omega arith)))
    ∙ take-drop m (take (m + n) (drop at block))

flat-cut_from : (at : ℕ) (ns block : List ℕ) → flat (cut at ns block) ≡ field at (sum ns) block
unfolding flat cut field
flat-cut_from at [] block = refl
flat-cut_from at (n ∷ ns) block =
    ap (λ l. field at n block ++ l) (flat-cut_from (at + n) ns block)
    ∙ field-append at n (sum ns) block

-- A block is the fields it is cut into.
pub flat-cut : (ns block : List ℕ) → sum ns ≡ length block → flat (cut 0 ns block) ≡ block
unfolding field
flat-cut ns block e = flat-cut_from 0 ns block ∙ ap (λ n. take n block) e ∙ take_length block

pub memmove-flat :
    (i k from n j l to : ℕ) (fs : List (List ℕ))
    → 1 ≤ n
    → total (take i fs) ≡ from
    → total (take k (drop i fs)) ≡ n
    → total (take j fs) ≡ to
    → total (take l (drop j fs)) ≡ n
    → memmove to from n (flat fs)
      ≡ some (flat (take j fs ++ (flat (take k (drop i fs)) ∷ drop (j + l) fs)))
unfolding memmove
memmove-flat i k from n j l to fs some_bytes e e' d d' =
    let moves : (n == 0) ≡ false = ground arith in
    let moved : length (flat (take k (drop i fs))) ≡ n =
      omega (arith, length-flat (take k (drop i fs)), e') in
    rw (moves, load-flat i k from n fs e e')
      (memcpy-flat j l to (flat (take k (drop i fs))) fs d (omega (arith, d', moved)))

-- A block that stands between two others, by its fields.
pub flat-between :
    (pre rest : List ℕ) (fs : List (List ℕ))
    → flat (pre ∷ (fs ++ (rest ∷ []))) ≡ pre ++ (flat fs ++ rest)
unfolding flat
flat-between pre rest fs = rw (flat-append fs (rest ∷ []), append_nil rest) refl

pub cut-between :
    (pre rest ns r : List ℕ)
    → sum ns ≡ length r
    → pre ++ (r ++ rest) ≡ flat (pre ∷ (cut 0 ns r ++ (rest ∷ [])))
cut-between pre rest ns r e =
    sym (flat-between pre rest (cut 0 ns r) ∙ ap (λ l. pre ++ (l ++ rest)) (flat-cut ns r e))

pub load-field :
    (i at n : ℕ) (f : List ℕ) (post fs : List (List ℕ))
    → drop i fs ≡ f ∷ post
    → total (take i fs) ≡ at
    → length f ≡ n
    → load at n (flat fs) ≡ some f
unfolding flat
load-field i at n f post fs here e h =
    let one : take 1 (drop i fs) ≡ f ∷ [] = ap (λ l. take 1 l) here in
    let size : total (take 1 (drop i fs)) ≡ n = rw one (omega (arith, h)) in
    load-flat i 1 at n fs e size ∙ rw (one, append_nil f) refl

pub flat-pair : (f g : List ℕ) → flat (f ∷ g ∷ []) ≡ f ++ g
unfolding flat
flat-pair f g = ap (λ l. f ++ l) (append_nil g)

-- Two fields for the one that they make up.
pub flat-split :
    (i : ℕ) (f g : List ℕ) (fs gs : List (List ℕ))
    → fs ≡ take i fs ++ ((f ++ g) ∷ gs)
    → flat fs ≡ flat (take i fs ++ (f ∷ g ∷ gs))
unfolding flat
flat-split i f g fs gs e =
    ap flat e
    ∙ flat-append (take i fs) ((f ++ g) ∷ gs)
    ∙ ap (λ l. flat (take i fs) ++ l) (append_assoc f g (flat gs))
    ∙ sym (flat-append (take i fs) (f ∷ g ∷ gs))

pub field-flat :
    (i at n : ℕ) (f : List ℕ) (post fs : List (List ℕ))
    → drop i fs ≡ f ∷ post
    → total (take i fs) ≡ at
    → length f ≡ n
    → field at n (flat fs) ≡ f
unfolding field flat
field-flat i at n f post fs here e h =
    ap (λ l. take n l) (drop-flat i at fs e ∙ ap flat here)
    ∙ take-append_all n f (flat post) (omega (arith, h))
