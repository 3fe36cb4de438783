-- ===== src/Engine/Posting.antt =====
-- postDatapath of src/ofp/sys/connection.cpp with registerDatapath of src/ofp/sys/engine.cpp.
use mathlib.Core.Path.{subst}
use libofp.Base.{
  ℕ, ◌<◌, ◌≡◌, ◌≢◌, Bool, true, false, List, [], ◌∷◌, ◌++◌, Option, none, some, arith, ◌==◌, refl,
  ◌∙◌, ap, sym, Bool-cases, if_rule, Option-cases, ==→eq, inl, inr,
}
use libofp.Connection.{Connection}
use libofp.Engine.{
  Engine, put, shut, find_aux, set_main_connection, register_datapath, post_datapath,
}
use libofp.Engine.Links.{Links, View, IsLinked, count, put_self, put-other}
use libofp.Engine.Links.Attach.{posted-IsLinked, attached-IsLinked, mapped-IsLinked}
use libofp.Engine.Search.{links_of, view, view-some, view-of}
use libofp.Engine.Validity.{IsValid, Alike, Alike-IsValid, modify_lem, shut-Alike, view-put}

listed_first : (b : ℕ) (bs : List ℕ) → 0 < count b (b ∷ bs)
listed_first b bs = let self : (b == b) ≡ true = ground arith in rw self (omega arith)

listed_later : (d b : ℕ) (bs : List ℕ) → 0 < count d bs → 0 < count d (b ∷ bs)
listed_later d b bs h = if_rule (λ n. 0 < n) (d == b) (λ _. omega arith) (λ _. h)

some-injective : {a b : ℕ} → some a ≡ some b → a ≡ b
some-injective h = ground arith

-- Auxiliary connections that exist are searched through, and one of them is found, or none.
find_aux_total :
    (store : ℕ → Option Connection) (aux_id : ℕ) (bs : List ℕ)
    → ((b : ℕ) → 0 < count b bs → (l : Links) × (view store b ≡ some l))
    → (o : Option ℕ) × (find_aux store aux_id bs ≡ some o) × ((b : ℕ) → o ≡ some b → 0 < count b bs)
unfolding find_aux
find_aux_total store aux_id [] live = (none, refl, λ b h. cc)
find_aux_total store aux_id (b ∷ bs) live =
    let here : 0 < count b (b ∷ bs) = listed_first b bs in
    let l = live b here in
    let c = view-some store b l.0 l.1 in
    elim (Bool-cases (c.0.auxiliary_id == aux_id)) [
      | inl e ↦ (
        some b,
        rw (find_aux, c.1, e) refl,
        λ d h. subst (λ x. 0 < count x (b ∷ bs)) (some-injective h) here,
      )
      | inr e ↦
          let r = find_aux_total store aux_id bs (λ d h. live d (listed_later d b bs h)) in
          (r.0, rw (find_aux, c.1, e) r.1, λ d h. listed_later d b bs (r.2 d h))
    ]

-- The auxiliary connection with the same number, if there is one, is shut down.
replace_aux :
    (o : Option ℕ) (e : Engine)
    → ((b : ℕ) → o ≡ some b → (l : Links) × (view e.store b ≡ some l))
    → (f : Engine) × ((elim o as (λ _. Option Engine) [ none ↦ some e | some b ↦ shut false b e ])
        ≡ some f)
      × Alike e f
replace_aux none e live =
    (e, refl, record { views = refl; last = refl; listed = refl; mapped = refl })
replace_aux (some b) e live = let l = live b refl in shut-Alike false b e l.0 l.1

put-exists :
    (V : View) (a : ℕ) (v : Links) (b : ℕ) (l : Links)
    → V b ≡ some l
    → (k : Links) × (put a (some v) V b ≡ some k)
put-exists V a v b l h = elim (Bool-cases (a == b)) [
  | inl e ↦ (v, ground arith)
  | inr e ↦ (l, ground arith)
]

same_connection :
    (store : ℕ → Option Connection) {a b : ℕ} {c d : Connection}
    → a ≡ b
    → store a ≡ some c
    → store b ≡ some d
    → c ≡ d
same_connection store {c = c} h e f =
    ap (λ o. elim o as (λ _. Connection) [ none ↦ c | some x ↦ x ]) (sym e ∙ ap store h ∙ f)

module _ (e : Engine) (i : IsValid e) (a : ℕ) (c : Connection) (at : e.store a ≡ some c) where
  -- A connection of its own becomes auxiliary to a main connection with a datapath.
  set_main_connection-IsValid :
      (main aux_id : ℕ) (k : Links)
      → view e.store main ≡ some k
      → a ≢ main
      → c.main_conn ≡ a
      → c.aux_list ≡ []
      → c.auxiliary_id ≢ 0
      → k.main ≡ main
      → k.dpid ≢ 0
      → (f : Engine) × (set_main_connection a main aux_id e ≡ some f) × IsValid f
  unfolding set_main_connection
  set_main_connection-IsValid main aux_id k m n own bare notmain top posted =
      let d = view-some e.store main k m in
      let v : Connection = record c {
        main_conn = main;
        datapath_id = d.0.datapath_id;
        auxiliary_id = aux_id;
      } in
      let e1 : Engine = record e { store = put a (some v) e.store } in
      let p : view e1.store ≡ put a (some (links_of v)) (view e.store) = view-put e.store a v in
      let e_main : view e1.store main ≡ some k =
        ap (λ V. V main) p ∙ put-other a (some (links_of v)) (view e.store) main n ∙ m in
      let live : (b : ℕ) → 0 < count b d.0.aux_list → (l : Links) × (view e1.store b ≡ some l) =
        λ b h.
          let r = i.member main b k m (subst (λ z. 0 < count b z.auxs) d.2 h) in
          subst (λ V. (l : Links) × (V b ≡ some l)) (sym p)
            (put-exists (view e.store) a (links_of v) b r.0 r.1) in
      let found = find_aux_total e1.store aux_id d.0.aux_list live in
      let e2 = replace_aux found.0 e1 (λ b h. live b (found.2 b h)) in
      let d2 = view-some e2.0.store main k (ap (λ V. V main) e2.2.views ∙ e_main) in
      let w : Connection = record d2.0 { aux_list = d2.0.aux_list ++ (a ∷ []) } in
      let q : view (put main (some w) e2.0.store)
          ≡ put main (some (record k { auxs = k.auxs ++ (a ∷ []) })) (
              put a (some (record (links_of c) { main = main; dpid = k.dpid; aux = aux_id }))
                (view e.store)) =
        view-put e2.0.store main w
        ∙ ap (put main (some (links_of w))) (e2.2.views ∙ p)
        ∙ ap
            (λ z.
              put main (some (record z { auxs = z.auxs ++ (a ∷ []) }))
                (put a (some (links_of v)) (view e.store)))
            d2.2
        ∙ ap
            (λ z. put main (some (record k { auxs = k.auxs ++ (a ∷ []) })) (
              put a (some (record (links_of c) { main = main; dpid = z.dpid; aux = aux_id }))
                (view e.store)))
            d.2 in
      (
        record e2.0 { store = put main (some w) e2.0.store },
        rw
            (
              d.1,
              modify_lem a
                  (λ c'. record c' {
                    main_conn = main;
                    datapath_id = d.0.datapath_id;
                    auxiliary_id = aux_id;
                  })
                  e c at,
              found.1,
              e2.1,
            )
            (modify_lem main (λ c'. record c' { aux_list = c'.aux_list ++ (a ∷ []) }) e2.0 d2.0
              d2.1),
        rw (e2.2.last, e2.2.listed, e2.2.mapped)
            (subst (λ V. IsLinked V e.last_conn_id e.conn_list e.dpid_map) (sym q)
              (attached-IsLinked i a (links_of c) (view-of e.store a c at) main k aux_id m n own
                bare notmain top posted)),
      )

  -- A connection of its own that was given a datapath is registered, or refused.
  register_datapath-IsValid :
      c.datapath_id ≢ 0
      → c.main_conn ≡ a
      → c.aux_list ≡ []
      → (r : Engine × Bool) × (register_datapath a e ≡ some r) × IsValid r.0
  unfolding register_datapath
  register_datapath-IsValid n own bare = elim (Bool-cases (c.auxiliary_id == 0)) [
    | inl z ↦
        let f : Engine = record e { dpid_map = put c.datapath_id (some a) e.dpid_map } in
        let j : IsValid f =
          mapped-IsLinked i a c.datapath_id (links_of c) (view-of e.store a c at) refl
            (==→eq c.auxiliary_id 0 z) own n in
        elim (Option-cases (e.dpid_map c.datapath_id)) [
          | inl free ↦ ((f, true), rw (at, z, free) refl, j)
          | inr (old, taken) ↦ elim (Bool-cases (old == a)) [
            | inl same ↦ ((e, true), rw (at, z, taken, same) refl, i)
            | inr other ↦
                let r = i.mapped c.datapath_id old taken in
                let s = shut-Alike true old f r.0 r.1 in
                ((s.0, true), rw (at, z, taken, other, s.1) refl, Alike-IsValid f s.0 s.2 j)
          ]
        ]
    | inr z ↦ elim (Option-cases (e.dpid_map c.datapath_id)) [
      | inl none_there ↦ ((e, false), rw (at, z, none_there) refl, i)
      | inr (main, there) ↦
          let r = i.mapped c.datapath_id main there in
          let d = view-some e.store main r.0 r.1 in
          elim (Bool-cases d.0.permits_auxiliary) [
            | inr refused ↦ ((e, false), rw (at, z, there, d.1, refused) refl, i)
            | inl permitted ↦
                let not_main : a ≢ main = λ h.
                  let o : c ≡ d.0 = same_connection e.store h at d.1 in
                  let k : d.0.auxiliary_id ≡ 0 = ap (λ y. y.aux) d.2 ∙ r.3 in ground arith in
                let s =
                  set_main_connection-IsValid main c.auxiliary_id r.0 r.1 not_main own bare
                    (ground arith) r.4 (λ h. n (sym r.2 ∙ h)) in
                ((s.0, true), rw (at, z, there, d.1, permitted, s.1) refl, s.2)
          ]
    ]
  ]

-- A connection that has no datapath yet is given one: no access fails, and the invariant is kept.
pub post_datapath-IsValid :
    (e : Engine) (a d aux_id : ℕ) (c : Connection)
    → IsValid e
    → e.store a ≡ some c
    → c.datapath_id ≡ 0
    → (r : Engine × Bool) × (post_datapath a d aux_id e ≡ some r) × IsValid r.0
unfolding post_datapath
post_datapath-IsValid e a d aux_id c i at new = elim (Bool-cases (d == 0)) [
  | inl z ↦ ((e, false), rw z refl, i)
  | inr z ↦
      let v : Connection = record c { datapath_id = d; auxiliary_id = aux_id } in
      let e1 : Engine = record e { store = put a (some v) e.store } in
      let l : Links = links_of c in
      let n : d ≢ 0 = λ h. ground arith in
      let own = i.unposted a l (view-of e.store a c at) new in
      let j : IsValid e1 =
        subst (λ V. IsLinked V e.last_conn_id e.conn_list e.dpid_map) (sym (view-put e.store a v))
          (posted-IsLinked i a l (view-of e.store a c at) d aux_id new n) in
      let r = register_datapath-IsValid e1 j a v (put_self a (some v) e.store) n own.0 own.1 in
      (
        r.0,
        rw (z, modify_lem a (λ y. record y { datapath_id = d; auxiliary_id = aux_id }) e c at) r.1,
        r.2,
      )
]
