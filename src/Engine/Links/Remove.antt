-- ===== src/Engine/Links/Remove.antt =====
-- The end of a connection, in the store and in the list of src/ofp/sys/engine.cpp.
use libofp.Base.{
  ℕ, zero, suc, ◌<◌, ◌≤◌, ◌≡◌, ◌≢◌, List, [], ◌∷◌, Option, none, some, arith, ◌==◌, ◌∙◌, ap, sym,
  Bool-cases, inl, inr, get_or, length,
}
use libofp.Engine.{put, remove_at}
use libofp.Engine.Links.{Links, View, count, IsLinked, same_links, put-other, Ascending}

put-none : (V : View) (a b : ℕ) (l : Links) → put a none V b ≡ some l → (a ≢ b) × (V b ≡ some l)
put-none V a b l h = elim (Bool-cases (a == b)) [
  | inl e ↦ absurd (ground arith)
  | inr e ↦ (λ p. ground arith, ground arith)
]

module _ (V : View) (a : ℕ) (l : Links) (e : V a ≡ some l) where
  -- What the view holds at another address stays.
  other_links : (b : ℕ) (k : Links) → V b ≡ some k → k.id ≢ l.id → put a none V b ≡ some k
  other_links b k f n =
      put-other a none V b (λ p. n (ap (λ z. z.id) (sym (same_links V p e f)))) ∙ f

  Ascending-behind :
      (lo from : ℕ) (xs : List ℕ)
      → Ascending V from xs
      → l.id ≤ from
      → lo ≤ from
      → Ascending (put a none V) lo xs
  Ascending-behind lo from [] h le low = tt
  Ascending-behind lo from (x ∷ xs) (k, f, lt, h) le low = (
    k,
    other_links x k f (λ q. omega arith),
    omega arith,
    Ascending-behind k.id k.id xs h (omega arith) (omega arith),
  )

  Ascending-get :
      (lo i : ℕ) (xs : List ℕ) → Ascending V lo xs → i < length xs → get_or xs i 0 ≡ a → lo < l.id
  Ascending-get lo i [] h lt g = absurd (omega arith)
  Ascending-get lo zero (x ∷ xs) (k, f, low, h) lt g =
      omega (arith, ap (λ z. z.id) (same_links V g f e))
  Ascending-get lo (suc i) (x ∷ xs) (k, f, low, h) lt g =
      omega (arith, Ascending-get k.id i xs h (omega arith) g)

  pub Ascending-remove_at :
      (lo i : ℕ) (xs : List ℕ)
      → Ascending V lo xs
      → i < length xs
      → get_or xs i 0 ≡ a
      → Ascending (put a none V) lo (remove_at i xs)
  Ascending-remove_at lo i [] h lt g = absurd (omega arith)
  Ascending-remove_at lo zero (x ∷ xs) (k, f, low, h) lt g =
      let o : k ≡ l = same_links V g f e in
      Ascending-behind lo k.id xs h (omega (arith, ap (λ z. z.id) o)) (omega arith)
  Ascending-remove_at lo (suc i) (x ∷ xs) (k, f, low, h) lt g =
      let later : k.id < l.id = Ascending-get k.id i xs h (omega arith) g in
      (
        k,
        other_links x k f (λ q. omega arith),
        low,
        Ascending-remove_at k.id i xs h (omega arith) g,
      )

  pub Ascending-unlisted :
      (lo : ℕ) (xs : List ℕ)
      → Ascending V lo xs
      → ((j : ℕ) (k : Links) → j < length xs → V (get_or xs j 0) ≡ some k → k.id ≢ l.id)
      → Ascending (put a none V) lo xs
  Ascending-unlisted lo [] h n = tt
  Ascending-unlisted lo (x ∷ xs) (k, f, low, h) n = (
    k,
    other_links x k f (n 0 k (omega arith) f),
    low,
    Ascending-unlisted k.id xs h (λ j k' lt. n (suc j) k' (omega arith)),
  )

  -- A connection that nothing refers to ceases to exist.
  pub removed-IsLinked :
      {last : ℕ} {list : List ℕ} {map : ℕ → Option ℕ} (list' : List ℕ)
      → IsLinked V last list map
      → l.main ≡ a
      → l.auxs ≡ []
      → ((d : ℕ) → map d ≢ some a)
      → Ascending (put a none V) 0 list'
      → IsLinked (put a none V) last list' map
  removed-IsLinked {map} list' i own bare unmapped listed = record {
    ids = λ b k f. i.ids b k (put-none V a b k f).1;
    unique = λ b c k m f g. i.unique b c k m (put-none V a b k f).1 (put-none V a c m g).1;
    listed = listed;
    mapped = λ d p f.
        let r = i.mapped d p f in
        let n : a ≢ p = λ h. unmapped d (rw h f) in
        (r.0, put-other a none V p n ∙ r.1, r.2, r.3, r.4, r.5);
    member = λ b c k f h.
        let (n, g) = put-none V a b k f in
        let r = i.member b c k g h in
        let o : a ≢ c = λ z. n (sym own ∙ ap (λ u. u.main) (same_links V z e r.1) ∙ r.2) in
        (r.0, put-other a none V c o ∙ r.1, r.2, r.3, r.4);
    attached = λ b k f h.
        let (n, g) = put-none V a b k f in
        let r = i.attached b k g h in
        let o : a ≢ k.main = λ z.
          omega (arith, ap (λ u. count b u.auxs) (same_links V z e r.1), ap (count b) bare, r.2) in
        (r.0, put-other a none V k.main o ∙ r.1, r.2, r.3);
    unposted = λ b k f. i.unposted b k (put-none V a b k f).1;
  }
