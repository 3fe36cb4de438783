-- ===== src/Engine/Links/Attach.antt =====
-- How postDatapath of src/ofp/sys/connection.cpp changes what connections refer to.
use libofp.Base.{
  ℕ, zero, suc, ◌+◌, ◌<◌, ◌≡◌, ◌≢◌, true, List, [], ◌∷◌, ◌++◌, Option, none, some, arith, ◌==◌,
  refl, ◌∙◌, ap, sym, Bool-cases, ==→eq, inl, inr,
}
use libofp.Engine.{put}
use libofp.Engine.Links.{
  Links, View, count, IsLinked, put_self, same_links, put-other, put-some, KeepsIds, KeepsIds-put,
  KeepsIds-trans, Ascending-kept, ids-kept, unique-kept,
}

count-snoc : (b a : ℕ) (xs : List ℕ) → count b (xs ++ (a ∷ [])) ≡ count b xs + count b (a ∷ [])
count-snoc b a [] = omega arith
count-snoc b a (x ∷ xs) = elim (Bool-cases (b == x)) [
  | inl e ↦ rw e (omega (arith, count-snoc b a xs))
  | inr e ↦ rw e (count-snoc b a xs)
]

module _ {V : View} {last : ℕ} {list : List ℕ} {map : ℕ → Option ℕ} (i : IsLinked V last list map)
    (a : ℕ) (l : Links) (e : V a ≡ some l) where
  -- A datapath for a connection that had none
  pub posted-IsLinked :
      (d x : ℕ)
      → l.dpid ≡ 0
      → d ≢ 0
      → IsLinked (put a (some (record l { dpid = d; aux = x })) V) last list map
  posted-IsLinked d x z n = record {
    ids = ids-kept i s;
    unique = unique-kept i s;
    listed = Ascending-kept 0 list s i.listed;
    mapped = λ k p f.
        let r = i.mapped k p f in
        let q : a ≢ p = λ h. r.5 (ground arith) in
        (r.0, put-other a (some v) V p q ∙ r.1, r.2, r.3, r.4, r.5);
    member = λ b c k f h. elim (put-some V a v b k f) [
      | inl (p, q) ↦ absurd (omega (arith, ap (λ w. count c w.auxs) q, ap (count c) u.1))
      | inr (p, q) ↦
          let r = i.member b c k q h in
          let o : a ≢ c = λ y. p (sym u.0 ∙ ap (λ z. z.main) (same_links V y e r.1) ∙ r.2) in
          (r.0, put-other a (some v) V c o ∙ r.1, r.2, r.3, r.4)
    ];
    attached = λ b k f h. elim (put-some V a v b k f) [
      | inl (p, q) ↦ absurd (h (ap (λ z. z.main) (sym q) ∙ u.0 ∙ p))
      | inr (p, q) ↦
          let r = i.attached b k q h in
          let o : a ≢ k.main = λ y.
            omega (arith, ap (λ z. count b z.auxs) (same_links V y e r.1), ap (count b) u.1, r.2) in
          (r.0, put-other a (some v) V k.main o ∙ r.1, r.2, r.3)
    ];
    unposted = λ b k f h. ground (arith, i.unposted b k);
  }
    where
      v : Links
      v = record l { dpid = d; aux = x }

      s : KeepsIds V (put a (some v) V)
      s = KeepsIds-put V a l v e refl refl

      u : (l.main ≡ a) × (l.auxs ≡ [])
      u = i.unposted a l e z

  -- A connection that gets a main connection, which has a datapath, and is listed there
  pub attached-IsLinked :
      (m : ℕ) (k : Links) (x : ℕ)
      → V m ≡ some k
      → a ≢ m
      → l.main ≡ a
      → l.auxs ≡ []
      → l.aux ≢ 0
      → k.main ≡ m
      → k.dpid ≢ 0
      → IsLinked
          (put m
            (some (record k { auxs = k.auxs ++ (a ∷ []) }))
            (put a (some (record l { main = m; dpid = k.dpid; aux = x })) V))
          last
          list
          map
  attached-IsLinked m k x f n own bare notmain top posted = record {
    ids = ids-kept i s;
    unique = unique-kept i s;
    listed = Ascending-kept 0 list s i.listed;
    mapped = λ d p g.
        let r = i.mapped d p g in
        let q : a ≢ p = λ h. notmain (ground arith) in
        elim (Bool-cases (m == p)) [
          | inl h ↦
              let o : k ≡ r.0 = ground arith in
              (w, ground arith, ground arith, ground arith, ground arith, r.5)
          | inr h ↦ (r.0, elsewhere p (λ y. ground arith) q ∙ r.1, r.2, r.3, r.4, r.5)
        ];
    member = λ b c t g h. elim (put-some W m w b t g) [
      | inl (p, q) ↦
          let sum : count c t.auxs ≡ count c k.auxs + count c (a ∷ []) =
            sym (ap (λ y. count c y.auxs) q) ∙ count-snoc c a k.auxs in
          elim (Bool-cases (c == a)) [
            | inl y ↦
                let ca : c ≡ a = ==→eq c a y in
                let only : count c (a ∷ []) ≡ 1 = rw y refl in
                let fresh : count c k.auxs ≡ 0 =
                  ap (λ z. count z k.auxs) ca ∙ unlisted (count a k.auxs) refl in
                (
                  v,
                  ap (put m (some w) W) ca
                      ∙ put-other m (some w) W a (λ z. n (sym z))
                      ∙ put_self a (some v) V,
                  p,
                  λ z. n (sym ca ∙ z ∙ sym p),
                  omega (arith, sum, only, fresh),
                )
            | inr y ↦
                let not : count c (a ∷ []) ≡ 0 = rw y refl in
                let r = i.member m c k f (omega (arith, sum, not)) in
                (
                  r.0,
                  elsewhere c (λ z. r.3 (sym z)) (λ z. ground arith) ∙ r.1,
                  r.2 ∙ p,
                  λ z. r.3 (z ∙ sym p),
                  omega (arith, sum, not, r.4),
                )
          ]
      | inr (p, q) ↦ elim (put-some V a v b t q) [
        | inl (p', q') ↦ absurd (omega (arith, ap (λ y. count c y.auxs) q', ap (count c) bare))
        | inr (p', q') ↦
            let r = i.member b c t q' h in
            (
              r.0,
              elsewhere c (λ z. p (sym top ∙ ap (λ z. z.main) (same_links V z f r.1) ∙ r.2))
                    (λ z. p' (sym own ∙ ap (λ z. z.main) (same_links V z e r.1) ∙ r.2))
                  ∙ r.1,
              r.2,
              r.3,
              r.4,
            )
      ]
    ];
    attached = λ b t g h. elim (put-some W m w b t g) [
      | inl (p, q) ↦ absurd (h (ground arith))
      | inr (p, q) ↦ elim (put-some V a v b t q) [
        | inl (p', q') ↦ (
          w,
          ap (put m (some w) W) (ap (λ z. z.main) (sym q')) ∙ put_self m (some w) W,
          listed_there b p',
          ap (λ z. z.auxs) (sym q') ∙ bare,
        )
        | inr (p', q') ↦
            let r = i.attached b t q' h in
            elim (Bool-cases (m == t.main)) [
              | inl y ↦ (
                w,
                ground arith,
                omega (
                  arith,
                  count-snoc b a k.auxs,
                  ap (λ z. count b z.auxs) (same_links V (==→eq m t.main y) f r.1),
                  r.2,
                ),
                r.3,
              )
              | inr y ↦ (
                r.0,
                elsewhere t.main (λ z. ground arith)
                      (λ z. omega (
                        arith,
                        ap (λ u. count b u.auxs) (same_links V z e r.1),
                        ap (count b) bare,
                        r.2,
                      ))
                    ∙ r.1,
                r.2,
                r.3,
              )
            ]
      ]
    ];
    unposted = λ b t g h. elim (put-some W m w b t g) [
      | inl (p, q) ↦ absurd (posted (ap (λ z. z.dpid) q ∙ h))
      | inr (p, q) ↦ elim (put-some V a v b t q) [
        | inl (p', q') ↦ absurd (posted (ap (λ z. z.dpid) q' ∙ h))
        | inr (p', q') ↦ i.unposted b t q' h
      ]
    ];
  }
    where
      v : Links
      v = record l { main = m; dpid = k.dpid; aux = x }

      w : Links
      w = record k { auxs = k.auxs ++ (a ∷ []) }

      W : View
      W = put a (some v) V

      f' : W m ≡ some k
      f' = put-other a (some v) V m n ∙ f

      s : KeepsIds V (put m (some w) W)
      s = KeepsIds-trans (KeepsIds-put V a l v e refl refl) (KeepsIds-put W m k w f' refl refl)

      unlisted : (j : ℕ) → count a k.auxs ≡ j → count a k.auxs ≡ 0
      unlisted zero h = h
      unlisted (suc j) h =
          let r = i.member m a k f (omega (arith, h)) in
          absurd (n (sym own ∙ ap (λ z. z.main) (same_links V refl e r.1) ∙ r.2))

      listed_there : (b : ℕ) → a ≡ b → 0 < count b (k.auxs ++ (a ∷ []))
      listed_there b p =
          let one : (b == a) ≡ true = ground arith in
          let only : count b (a ∷ []) ≡ 1 = rw one refl in
          omega (arith, count-snoc b a k.auxs, only)

      -- What the change leaves elsewhere
      elsewhere : (b : ℕ) → m ≢ b → a ≢ b → put m (some w) W b ≡ V b
      elsewhere b p q = put-other m (some w) W b p ∙ put-other a (some v) V b q

module _ {V : View} {last : ℕ} {list : List ℕ} {map : ℕ → Option ℕ}
    (i : IsLinked V last list map) where
  -- A connection that comes under its datapath as the main one
  pub mapped-IsLinked :
      (a d : ℕ) (l : Links)
      → V a ≡ some l
      → l.dpid ≡ d
      → l.aux ≡ 0
      → l.main ≡ a
      → d ≢ 0
      → IsLinked V last list (put d (some a) map)
  mapped-IsLinked a d l e dp ax own n = record {
    ids = i.ids;
    unique = i.unique;
    listed = i.listed;
    member = i.member;
    attached = i.attached;
    unposted = i.unposted;
    mapped = λ k p f. elim (Bool-cases (d == k)) [
      | inl y ↦
          let q : d ≡ k = ==→eq d k y in
          let o : a ≡ p = ground arith in (l, ap V (sym o) ∙ e, dp ∙ q, ax, own ∙ o, λ z. n (q ∙ z))
      | inr y ↦ i.mapped k p (ground arith)
    ];
  }

  -- A datapath that is taken out of the map
  pub unmapped-IsLinked : (d : ℕ) → IsLinked V last list (put d none map)
  unmapped-IsLinked d = record {
    ids = i.ids;
    unique = i.unique;
    listed = i.listed;
    member = i.member;
    attached = i.attached;
    unposted = i.unposted;
    mapped = λ k p f. elim (Bool-cases (d == k)) [
      | inl y ↦ absurd (ground arith)
      | inr y ↦ i.mapped k p (ground arith)
    ];
  }
