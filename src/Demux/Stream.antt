-- ===== src/Demux/Stream.antt =====
-- The abstract view of a TCP direction: a function from sequence numbers to bytes. `Reads s p bytes`
-- says that `bytes` are those of the stream `s` from sequence number `p` on, going round at 2 ^ 32.
use libofp.Base.{
  ℕ, zero, suc, ◌+◌, ◌%◌, ◌^◌, ◌≡◌, sym, ap, ◌∙◌, List, [], ◌∷◌, ◌++◌, length, take, drop, arith,
}

abbrev pub Stream : Type 0
Stream = ℕ → ℕ

abbrev pub Reads : Stream → ℕ → List ℕ → Type 0
Reads s p [] = Unit {0}
Reads s p (x ∷ xs) = (s (p % 2 ^ 32) ≡ x) × Reads s (p + 1) xs

module _ (s : Stream) where
  -- Only the position modulo 2 ^ 32 matters.
  pub Reads-congr : (p q : ℕ) (xs : List ℕ) → p % 2 ^ 32 ≡ q % 2 ^ 32 → Reads s p xs → Reads s q xs
  Reads-congr p q [] e r = tt
  Reads-congr p q (x ∷ xs) e r =
      (ap s (sym e) ∙ r.0, Reads-congr (p + 1) (q + 1) xs (omega arith) r.1)

  pub Reads-append :
      (p q : ℕ) (xs ys : List ℕ)
      → (p + length xs) % 2 ^ 32 ≡ q % 2 ^ 32
      → Reads s p xs
      → Reads s q ys
      → Reads s p (xs ++ ys)
  Reads-append p q [] ys e r t = Reads-congr q p ys (omega arith) t
  Reads-append p q (x ∷ xs) ys e r t = (r.0, Reads-append (p + 1) q xs ys (omega arith) r.1 t)

  pub Reads-take : (p n : ℕ) (xs : List ℕ) → Reads s p xs → Reads s p (take n xs)
  Reads-take p zero xs r = tt
  Reads-take p (suc n) [] r = tt
  Reads-take p (suc n) (x ∷ xs) r = (r.0, Reads-take (p + 1) n xs r.1)

  pub Reads-drop :
      (p q n : ℕ) (xs : List ℕ)
      → (p + n) % 2 ^ 32 ≡ q % 2 ^ 32
      → Reads s p xs
      → Reads s q (drop n xs)
  Reads-drop p q zero xs e r = Reads-congr p q xs (omega arith) r
  Reads-drop p q (suc n) [] e r = tt
  Reads-drop p q (suc n) (x ∷ xs) e r = Reads-drop (p + 1) q n xs (omega arith) r.1
