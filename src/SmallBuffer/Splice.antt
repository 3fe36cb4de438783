-- ===== src/SmallBuffer/Splice.antt =====
-- What the moves and copies of the buffer functions do to a block.
use libofp.Base.{
  ℕ, ◌+◌, ◌-◌, ◌≤◌, ◌≡◌, List, ◌++◌, length, take, drop, some, arith, refl, ap, sym, ◌∙◌,
  length-take, length-drop, take-append, take-append_more, drop-append_more, take-append_all,
  take-take, drop-take, drop-drop, take-drop,
}
use libofp.Memory.{memmove, patched, memmove_fits, length-patched}

-- The bytes from `pos` to `pos_end` are replaced.
abbrev pub splice : ℕ → ℕ → List ℕ → List ℕ → List ℕ
splice pos pos_end bytes xs = take pos xs ++ (bytes ++ drop pos_end xs)

module _ (at : ℕ) (bytes block : List ℕ) (fits : at ≤ length block) where
  pub take-patched : (k : ℕ) → k ≤ at → take k (patched at bytes block) ≡ take k block
  take-patched k h =
      take-append k (take at block) (bytes ++ drop (at + length bytes) block)
        (omega (arith, length-take at block))
      ∙ take-take k at block h

  pub drop-patched : drop at (patched at bytes block) ≡ bytes ++ drop (at + length bytes) block
  drop-patched =
      drop-append_more at 0 (take at block) (bytes ++ drop (at + length bytes) block)
        (omega (arith, length-take at block))

-- The first bytes of three pieces and a rest
pub take_pieces :
    (n : ℕ) (p d t r : List ℕ)
    → n ≡ length p + (length d + length t)
    → take n (p ++ (d ++ (t ++ r))) ≡ p ++ (d ++ t)
take_pieces n p d t r e =
    take-append_more n (length d + length t) p (d ++ (t ++ r)) e
    ∙ ap (λ l. p ++ l) (take-append_more (length d + length t) (length t) d (t ++ r) refl)
    ∙ ap (λ l. p ++ (d ++ l)) (take-append_all (length t) t r refl)

-- After the bytes from `pos_end` on moved to `pos + n`: the block keeps its length and what stands
-- before `pos`, and has them behind `n` bytes that are any.
abbrev pub Opened : ℕ → ℕ → ℕ → ℕ → List ℕ → List ℕ → Type 0
Opened pos pos_end n size block x =
    (length x ≡ length block)
    × (take pos x ≡ take pos (take size block))
    × (rest : List ℕ) × (drop (pos + n) x ≡ drop pos_end (take size block) ++ rest)

module _ (pos pos_end n size : ℕ) (block : List ℕ) (ordered : pos ≤ pos_end)
    (inside : pos_end ≤ size) (fits : size ≤ length block)
    (room : pos + n + (size - pos_end) ≤ length block) where
  pub memmove-Opened :
      (x : List ℕ) × (memmove (pos + n) pos_end (size - pos_end) block ≡ some x)
      × Opened pos pos_end n size block x
  memmove-Opened =
      let tail : List ℕ = take (size - pos_end) (drop pos_end block) in
      let long : length tail ≡ size - pos_end =
        omega
          (arith, length-take (size - pos_end) (drop pos_end block), length-drop pos_end block) in
      (
        patched (pos + n) tail block,
        memmove_fits (pos + n) pos_end (size - pos_end) block room (omega arith),
        (
          length-patched (pos + n) tail block (omega arith),
          take-patched (pos + n) tail block (omega arith) pos (omega arith)
              ∙ sym (take-take pos size block (omega arith)),
          drop (pos + n + length tail) block,
          drop-patched (pos + n) tail block (omega arith)
              ∙ ap (λ l. l ++ drop (pos + n + length tail) block)
                  (sym (drop-take pos_end size block)),
        ),
      )

-- The bytes up to the new end, after the gap is written over.
pub Opened-memcpy :
    (pos pos_end n size : ℕ) (bytes block x : List ℕ)
    → pos ≤ pos_end
    → pos_end ≤ size
    → size ≤ length block
    → length bytes ≡ n
    → Opened pos pos_end n size block x
    → take (pos + n + (size - pos_end)) (patched pos bytes x)
      ≡ splice pos pos_end bytes (take size block)
Opened-memcpy pos pos_end n size bytes block x h k f e (same, before, rest, after) =
    let tail : List ℕ = drop pos_end (take size block) in
    let long : length tail ≡ size - pos_end =
      omega (arith, length-drop pos_end (take size block), length-take size block) in
    let short : length (take pos (take size block)) ≡ pos =
      omega (arith, length-take pos (take size block), length-take size block) in
    let behind : drop (pos + length bytes) x ≡ tail ++ rest =
      ap (λ m. drop (pos + m) x) e ∙ after in
    ap (λ p. take (pos + n + (size - pos_end)) (p ++ (bytes ++ drop (pos + length bytes) x))) before
    ∙ ap (λ t. take (pos + n + (size - pos_end)) (take pos (take size block) ++ (bytes ++ t)))
        behind
    ∙ take_pieces (pos + n + (size - pos_end)) (take pos (take size block)) bytes tail rest
        (omega arith)

as_pieces : (pos n : ℕ) (x : List ℕ) → pos + n ≤ length x → patched pos (take n (drop pos x)) x ≡ x
as_pieces pos n x h =
    let size : length (take n (drop pos x)) ≡ n =
      omega (arith, length-take n (drop pos x), length-drop pos x) in
    ap (λ m. take pos x ++ (take n (drop pos x) ++ drop (pos + m) x)) size
    ∙ ap (λ t. take pos x ++ (take n (drop pos x) ++ t)) (sym (drop-drop n pos x))
    ∙ ap (λ t. take pos x ++ t) (take-drop n (drop pos x))
    ∙ take-drop pos x

-- The bytes up to the new end, with the gap as it is.
pub Opened-contents :
    (pos pos_end n size : ℕ) (block x : List ℕ)
    → pos ≤ pos_end
    → pos_end ≤ size
    → size ≤ length block
    → pos + n + (size - pos_end) ≤ length block
    → Opened pos pos_end n size block x
    → take (pos + n + (size - pos_end)) x
      ≡ splice pos pos_end (take n (drop pos x)) (take size block)
Opened-contents pos pos_end n size block x h k f r o =
    let gap : length (take n (drop pos x)) ≡ n =
      omega (arith, o.0, length-take n (drop pos x), length-drop pos x) in
    ap (take (pos + n + (size - pos_end))) (sym (as_pieces pos n x (omega (arith, o.0))))
    ∙ Opened-memcpy pos pos_end n size (take n (drop pos x)) block x h k f gap o
