-- ===== src/Engine/Links/Detach.antt =====
-- How the destructor of src/ofp/sys/connection.cpp changes what connections refer to.
use libofp.Base.{
  ℕ, suc, ◌-◌, ◌<◌, ◌≤◌, ◌≡◌, ◌≢◌, false, List, [], ◌∷◌, Option, some, arith, ◌==◌, refl, ◌∙◌, ap,
  sym, Bool-cases, ==→eq, inl, inr,
}
use libofp.Engine.{put, without}
use libofp.Engine.Links.{
  Links, View, count, IsLinked, put_self, same_links, put-other, put-some, KeepsIds, KeepsIds-put,
  KeepsIds-trans, Ascending-kept, ids-kept, unique-kept,
}

count-without_self : (b : ℕ) (xs : List ℕ) → count b (without b xs) ≡ count b xs - 1
count-without_self b [] = omega arith
count-without_self b (x ∷ xs) = elim (Bool-cases (b == x)) [
  | inl e ↦ rw e (omega arith)
  | inr e ↦ rw (e, e) (count-without_self b xs)
]

count-without : (b c : ℕ) (xs : List ℕ) → (b == c) ≡ false → count c (without b xs) ≡ count c xs
count-without b c [] h = refl
count-without b c (x ∷ xs) h = elim (Bool-cases (b == x)) [
  | inl e ↦ let o : (c == x) ≡ false = ground arith in rw (e, o) refl
  | inr e ↦ rw e (elim (Bool-cases (c == x)) [
    | inl o ↦ rw o (ap suc (count-without b c xs h))
    | inr o ↦ rw o (count-without b c xs h)
  ])
]

module _ {V : View} {last : ℕ} {list : List ℕ} {map : ℕ → Option ℕ} (i : IsLinked V last list map)
    (a : ℕ) (l : Links) (e : V a ≡ some l) where
  -- An auxiliary connection that becomes its own main connection
  pub detached-IsLinked :
      (b : ℕ) (k : Links)
      → V b ≡ some k
      → 0 < count b l.auxs
      → IsLinked
          (put b
            (some (record k { main = b }))
            (put a (some (record l { auxs = without b l.auxs })) V))
          last
          list
          map
  detached-IsLinked b k f listed = record {
    ids = ids-kept i s;
    unique = unique-kept i s;
    listed = Ascending-kept 0 list s i.listed;
    mapped = λ d p g.
        let r = i.mapped d p g in
        let not_aux : b ≢ p =
          λ h. n (h ∙ sym r.4 ∙ ap (λ z. z.main) (same_links V (sym h) r.1 f) ∙ sub) in
        elim (Bool-cases (a == p)) [
          | inl h ↦
              let o : l ≡ r.0 = same_links V (==→eq a p h) e r.1 in
              (
                v,
                put-other b (some w) W p not_aux ∙ ap W (sym (==→eq a p h)) ∙ put_self a (some v) V,
                ap (λ z. z.dpid) o ∙ r.2,
                ap (λ z. z.aux) o ∙ r.3,
                ap (λ z. z.main) o ∙ r.4,
                r.5,
              )
          | inr h ↦ (r.0, elsewhere p not_aux (λ y. ground arith) ∙ r.1, r.2, r.3, r.4, r.5)
        ];
    member = λ x c t g h. elim (put-some W b w x t g) [
      | inl (p, q) ↦ absurd (omega (arith, ap (λ y. count c y.auxs) q, ap (count c) bare))
      | inr (p, q) ↦ elim (put-some V a v x t q) [
        | inl (p', q') ↦ elim (Bool-cases (b == c)) [
          | inl y ↦
              let cb : b ≡ c = ==→eq b c y in
              absurd (
                omega (
                  arith,
                  ap (λ u. count c u.auxs) q',
                  ap (λ u. count u (without b l.auxs)) cb,
                  gone,
                ))
          | inr y ↦
              let same : count c t.auxs ≡ count c l.auxs =
                sym (ap (λ u. count c u.auxs) q') ∙ count-without b c l.auxs y in
              let r = i.member a c l e (omega (arith, same)) in
              (
                r.0,
                elsewhere c (λ z. ground arith) (λ z. r.3 (sym z)) ∙ r.1,
                r.2 ∙ p',
                λ z. r.3 (z ∙ sym p'),
                omega (arith, same, r.4),
              )
        ]
        | inr (p', q') ↦
            let r = i.member x c t q' h in
            (
              r.0,
              elsewhere c (λ z. p' (sym sub ∙ ap (λ u. u.main) (same_links V z f r.1) ∙ r.2))
                    (λ z. p' (sym own ∙ ap (λ u. u.main) (same_links V z e r.1) ∙ r.2))
                  ∙ r.1,
              r.2,
              r.3,
              r.4,
            )
      ]
    ];
    attached = λ x t g h. elim (put-some W b w x t g) [
      | inl (p, q) ↦ absurd (h (ap (λ z. z.main) (sym q) ∙ p))
      | inr (p, q) ↦ elim (put-some V a v x t q) [
        | inl (p', q') ↦ absurd (h (ap (λ z. z.main) (sym q') ∙ own ∙ p'))
        | inr (p', q') ↦
            let r = i.attached x t q' h in
            let not_b : b ≢ t.main = λ z.
              omega
                (arith, ap (λ u. count x u.auxs) (same_links V z f r.1), ap (count x) bare, r.2) in
            elim (Bool-cases (a == t.main)) [
              | inl y ↦
                  let o : l ≡ r.0 = same_links V (==→eq a t.main y) e r.1 in
                  (
                    v,
                    put-other b (some w) W t.main not_b
                        ∙ ap W (sym (==→eq a t.main y))
                        ∙ put_self a (some v) V,
                    omega (
                      arith,
                      count-without b x l.auxs (ground arith),
                      ap (λ u. count x u.auxs) o,
                      r.2,
                    ),
                    r.3,
                  )
              | inr y ↦ (r.0, elsewhere t.main not_b (λ z. ground arith) ∙ r.1, r.2, r.3)
            ]
      ]
    ];
    unposted = λ x t g h. elim (put-some W b w x t g) [
      | inl (p, q) ↦ (ap (λ z. z.main) (sym q) ∙ p, ap (λ z. z.auxs) (sym q) ∙ bare)
      | inr (p, q) ↦ elim (put-some V a v x t q) [
        | inl (p', q') ↦
            absurd
              (omega (arith, listed, ap (count b) (i.unposted a l e (ap (λ z. z.dpid) q' ∙ h)).1))
        | inr (p', q') ↦ i.unposted x t q' h
      ]
    ];
  }
    where
      v : Links
      v = record l { auxs = without b l.auxs }

      w : Links
      w = record k { main = b }

      W : View
      W = put a (some v) V

      known : (k' : Links) × (V b ≡ some k') × (k'.main ≡ a) × (b ≢ a) × (count b l.auxs ≤ 1)
      known = i.member a b l e listed

      n : b ≢ a
      n = known.3

      sub : k.main ≡ a
      sub = ap (λ z. z.main) (same_links V refl f known.1) ∙ known.2

      bare : k.auxs ≡ []
      bare = (i.attached b k f (λ h. n (sym h ∙ sub))).3

      own : l.main ≡ a
      own = elim (Bool-cases (l.main == a)) [
        | inl h ↦ ==→eq l.main a h
        | inr h ↦
            let r = i.attached a l e (λ z. ground arith) in
            absurd (omega (arith, listed, ap (count b) r.3))
      ]

      f' : W b ≡ some k
      f' = put-other a (some v) V b (λ z. n (sym z)) ∙ f

      s : KeepsIds V (put b (some w) W)
      s = KeepsIds-trans (KeepsIds-put V a l v e refl refl) (KeepsIds-put W b k w f' refl refl)

      gone : count b (without b l.auxs) ≡ 0
      gone = omega (arith, count-without_self b l.auxs, known.4)

      -- What the change leaves elsewhere
      elsewhere : (c : ℕ) → b ≢ c → a ≢ c → put b (some w) W c ≡ V c
      elsewhere c p q = put-other b (some w) W c p ∙ put-other a (some v) V c q
