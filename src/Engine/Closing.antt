-- ===== src/Engine/Closing.antt =====
-- The destructor of src/ofp/sys/connection.cpp.
use mathlib.Core.Path.{subst}
use libofp.Base.{
  ℕ, suc, ◌<◌, ◌≡◌, ◌≢◌, true, false, List, [], ◌∷◌, Option, none, some, arith, ◌==◌, refl, ◌∙◌, ap,
  sym, Bool-cases, Option-cases, ==→eq, inl, inr,
}
use libofp.Memory.{◌>>=◌}
use libofp.Connection.{Connection}
use libofp.Engine.{
  Engine, put, modify, shut, each, without, release_datapath, release_connection, destroy_within,
  let_go,
}
use libofp.Engine.Links.{Links, View, IsLinked, same_links, count, put_self, put-other}
use libofp.Engine.Links.Attach.{unmapped-IsLinked}
use libofp.Engine.Links.Detach.{detached-IsLinked}
use libofp.Engine.Search.{links_of, view, view-some, view-of}
use libofp.Engine.Leaving.{IsLeaving, leave-IsValid, put-put, put_comm}
use libofp.Engine.Validity.{IsValid, modify_lem, shut-Alike, view-put, put-same}

-- The same two changes in another order
changes_meet :
    (V W : View) (a b : ℕ) (l v v' w w' : Links)
    → a ≢ b
    → v' ≡ v
    → w' ≡ w
    → W ≡ put b (some w) V
    → put b (some w') (put a (some v') (put a (some l) V)) ≡ put a (some v) W
changes_meet V W a b l v v' w w' n ev ew q =
    rw (ev, ew, q)
      (ap (put b (some w)) (put-put a (some v) (some l) V)
        ∙ sym (put_comm a b (some v) (some w) V n))

let_go_lem :
    (delete : ℕ → Engine → Option Engine) (b : ℕ) (e3 e4 e5 : Engine) (d : Connection)
    → modify b (λ x. record x { main_conn = b }) e3 ≡ some e4
    → shut false b e4 ≡ some e5
    → e5.store b ≡ some d
    → d.manual_delete ≡ false
    → let_go delete b e3 ≡ some e5
unfolding let_go
let_go_lem delete b e3 e4 e5 d h1 h2 h3 h4 = rw (h1, h2, h3, h4) refl

let_go-Leaves :
    (delete : ℕ → Engine → Option Engine) (a b : ℕ) (bs : List ℕ) (e : Engine) (l : Links)
    → l.auxs ≡ b ∷ bs
    → IsLinked (put a (some l) (view e.store)) e.last_conn_id e.conn_list e.dpid_map
    → (f : Engine) × (let_go delete b e ≡ some f)
      × IsLinked
          (put a (some (record l { auxs = bs })) (view f.store))
          f.last_conn_id
          f.conn_list
          f.dpid_map
      × (view f.store a ≡ view e.store a)
      × (f.dpid_map ≡ e.dpid_map)
let_go-Leaves delete a b bs e l listed i =
    let V : View = view e.store in
    let G : View = put a (some l) V in
    let at_G : G a ≡ some l = put_self a (some l) V in
    let self : (b == b) ≡ true = ground arith in
    let here : 0 < count b l.auxs = rw (listed, self) (omega arith) in
    let k = i.member a b l at_G here in
    let n : a ≢ b = λ h. k.3 (sym h) in
    let d = view-some e.store b k.0 (sym (put-other a (some l) V b n) ∙ k.1) in
    let w : Connection = record d.0 { main_conn = b } in
    let e4 : Engine = record e { store = put b (some w) e.store } in
    let p : view e4.store ≡ put b (some (links_of w)) V = view-put e.store b w in
    let s =
      shut-Alike false b e4 (links_of w) (ap (λ W. W b) p ∙ put_self b (some (links_of w)) V) in
    let f : Engine = s.0 in
    let q : view f.store ≡ put b (some (links_of w)) V = s.2.views ∙ p in
    let c = view-some f.store b (links_of w) (ap (λ W. W b) q ∙ put_self b (some (links_of w)) V) in
    let kept : c.0.manual_delete ≡ false =
      ap (λ z. z.manual) c.2 ∙ ap (λ z. z.manual) d.2 ∙ (i.ids b k.0 k.1).2 in
    let same : without b l.auxs ≡ bs = rw (listed, self) refl in
    let re_main : Links → Links = λ z. record z { main = b } in
    let re_list : List ℕ → Links = λ xs. record l { auxs = xs } in
    let moved : put b (some (record k.0 { main = b }))
          (put a (some (record l { auxs = without b l.auxs })) G)
        ≡ put a (some (record l { auxs = bs })) (view f.store) =
      changes_meet V (view f.store) a b l (record l { auxs = bs })
        (record l { auxs = without b l.auxs }) (links_of w) (record k.0 { main = b }) n
        (ap re_list same) (ap re_main (sym d.2)) q in
    (
      f,
      let_go_lem delete b e e4 f c.0 (modify_lem b (λ x. record x { main_conn = b }) e d.0 d.1) s.1
          c.1 kept,
      rw (s.2.last, s.2.listed, s.2.mapped)
          (subst (λ W. IsLinked W e.last_conn_id e.conn_list e.dpid_map) moved
            (detached-IsLinked i a l at_G b k.0 k.1 here)),
      ap (λ W. W a) q ∙ put-other b (some (links_of w)) V a k.3,
      s.2.mapped,
    )

-- All auxiliary connections of a main connection that ends
let_go-each :
    (delete : ℕ → Engine → Option Engine) (a : ℕ) (bs : List ℕ) (e : Engine) (l : Links)
    → l.auxs ≡ bs
    → l.main ≡ a
    → ((d : ℕ) → e.dpid_map d ≢ some a)
    → IsLinked (put a (some l) (view e.store)) e.last_conn_id e.conn_list e.dpid_map
    → (f : Engine) × (each (let_go delete) bs e ≡ some f)
      × IsLeaving f a (record l { auxs = [] })
      × (view f.store a ≡ view e.store a)
let_go-each delete a [] e l listed own unmapped i = (
  e,
  refl,
  record {
    valid =
        subst
          (λ xs.
            IsLinked (put a (some (record l { auxs = xs })) (view e.store)) e.last_conn_id
              e.conn_list e.dpid_map)
          listed i;
    own = own;
    bare = refl;
    unmapped = unmapped;
  },
  refl,
)
let_go-each delete a (b ∷ bs) e l listed own unmapped i =
    let r = let_go-Leaves delete a b bs e l listed i in
    let s =
      let_go-each delete a bs r.0 (record l { auxs = bs }) refl own
        (λ d h. unmapped d (ap (λ m. m d) (sym r.4) ∙ h)) r.2 in
    (s.0, rw r.1 s.1, s.2, s.3 ∙ r.3)

-- Only the datapath of a connection can lead to it, and only to a main connection.
mapped_under :
    (a : ℕ) (e : Engine) (c : Connection)
    → IsValid e
    → e.store a ≡ some c
    → (d : ℕ) → e.dpid_map d ≡ some a
    → (d ≡ c.datapath_id) × (c.auxiliary_id ≡ 0)
mapped_under a e c i at d h =
    let r = i.mapped d a h in
    let o : links_of c ≡ r.0 = same_links (view e.store) refl (view-of e.store a c at) r.1 in
    (sym r.2 ∙ ap (λ z. z.dpid) (sym o), ap (λ z. z.aux) o ∙ r.3)

-- After releaseDatapath no datapath leads to the connection.
release_datapath_lem :
    (a : ℕ) (e : Engine) (c : Connection)
    → IsValid e
    → e.store a ≡ some c
    → (map : ℕ → Option ℕ) × (release_datapath a e ≡ some (record e { dpid_map = map }))
      × IsValid (record e { dpid_map = map })
      × ((d : ℕ) → map d ≢ some a)
unfolding release_datapath
release_datapath_lem a e c i at = elim (Bool-cases (c.auxiliary_id == 0)) [
  | inr z ↦ (e.dpid_map, rw (at, z) refl, i, λ d h. ground (arith, mapped_under a e c i at d h))
  | inl z ↦ elim (Option-cases (e.dpid_map c.datapath_id)) [
    | inl free ↦ (
      e.dpid_map,
      rw (at, z, free) refl,
      i,
      λ d h.
          let u = mapped_under a e c i at d h in
          let both : some a ≡ none = sym h ∙ ap e.dpid_map u.0 ∙ free in cc,
    )
    | inr (b, taken) ↦ elim (Bool-cases (b == a)) [
      | inr other ↦ (
        e.dpid_map,
        rw (at, z, taken, other) refl,
        i,
        λ d h.
            let u = mapped_under a e c i at d h in
            let both : some a ≡ some b = sym h ∙ ap e.dpid_map u.0 ∙ taken in ground arith,
      )
      | inl own ↦ (
        put c.datapath_id none e.dpid_map,
        rw (at, z, taken, own) refl,
        unmapped-IsLinked i c.datapath_id,
        λ d h. elim (Bool-cases (c.datapath_id == d)) [
          | inl y ↦ ground arith
          | inr y ↦ let u = mapped_under a e c i at d (ground arith) in ground (arith, u.0)
        ],
      )
    ]
  ]
]

-- The last steps of the destructor
leaves :
    (a : ℕ) (e : Engine) (k l : Links)
    → view e.store a ≡ some k
    → k.id ≡ l.id
    → k.manual ≡ l.manual
    → IsLeaving e a l
    → (f : Engine) × ((release_connection a e
          >>= (λ e3. some (record e3 { store = put a none e3.store })))
        ≡ some f)
      × IsValid f
      × (f.store a ≡ none)
leaves a e k l at same manual leaving =
    let c = view-some e.store a k at in
    let r =
      leave-IsValid a e c.0 l c.1 (ap (λ z. z.id) c.2 ∙ same) (ap (λ z. z.manual) c.2 ∙ manual)
        leaving in
    (record r.0 { store = put a none r.0.store }, rw r.1 refl, r.2, put_self a none r.0.store)

module _ (depth a : ℕ) (e e2 e3 f : Engine) (c : Connection) (at : e.store a ≡ some c)
    (posted : (c.datapath_id == 0) ≡ false) (released : release_datapath a e ≡ some e2)
    (rest : (release_connection a e3 >>= (λ e4. some (record e4 { store = put a none e4.store })))
      ≡ some f) where
  -- The steps of the destructor of a main connection
  main_steps :
      (c.main_conn == a) ≡ true
      → each (let_go (destroy_within depth)) c.aux_list e2 ≡ some e3
      → destroy_within (suc depth) a e ≡ some f
  unfolding destroy_within
  main_steps top all = rw (at, posted, released, top, all) rest

  -- The steps of the destructor of an auxiliary connection
  aux_steps :
      (c.main_conn == a) ≡ false
      → modify c.main_conn (λ m. record m { aux_list = without a m.aux_list }) e2 ≡ some e3
      → destroy_within (suc depth) a e ≡ some f
  unfolding destroy_within
  aux_steps sub unlinked = rw (at, posted, released, sub, unlinked) rest

-- A connection that exists can be destroyed: no access fails, it does not exist any more, and the
-- invariant is kept.
pub destroy-IsValid :
    (depth a : ℕ) (e : Engine) (c : Connection)
    → IsValid e
    → e.store a ≡ some c
    → (f : Engine) × (destroy_within (suc depth) a e ≡ some f) × IsValid f × (f.store a ≡ none)
unfolding destroy_within
destroy-IsValid depth a e c i at = elim (Bool-cases (c.datapath_id == 0)) [
  | inl z ↦
      let u = i.unposted a l at_V (==→eq c.datapath_id 0 z) in
      let r = leaves a e l l at_V refl refl (record {
        valid = subst valid_in (sym (put-same (view e.store) a l at_V)) i;
        own = u.0;
        bare = u.1;
        unmapped = λ d h.
            let under = mapped_under a e c i at d h in
            (i.mapped d a h).5 (under.0 ∙ ==→eq c.datapath_id 0 z);
      }) in
      (r.0, rw (at, z) r.1, r.2, r.3)
  | inr z ↦
      let r = release_datapath_lem a e c i at in
      elim (Bool-cases (c.main_conn == a)) [
        | inl top ↦
            let s =
              let_go-each (destroy_within depth) a c.aux_list (e2 r.0) l refl
                (==→eq c.main_conn a top) r.3
                (subst (valid_with r.0) (sym (put-same (view e.store) a l at_V)) r.2) in
            let t = leaves a s.0 l (record l { auxs = [] }) (s.3 ∙ at_V) refl refl s.2 in
            (t.0, main_steps depth a e (e2 r.0) s.0 t.0 c at z r.1 t.1 top s.1, t.2, t.3)
        | inr sub ↦
            let m = i.attached a l at_V (λ h. ground arith) in
            let d = view-some e.store c.main_conn m.0 m.1 in
            let w : Connection = record d.0 { aux_list = without a d.0.aux_list } in
            let e3 : Engine = record (e2 r.0) { store = put c.main_conn (some w) e.store } in
            let re_list : Links → Links = λ x. record x { auxs = without a x.auxs } in
            let p : view e3.store ≡ put c.main_conn (some (re_list m.0)) (view e.store) =
              view-put e.store c.main_conn w
              ∙ ap (λ x. put c.main_conn (some (re_list x)) (view e.store)) d.2 in
            let there : view e3.store a ≡ some l =
              ap (λ V. V a) p
              ∙ put-other c.main_conn (some (re_list m.0)) (view e.store) a (λ h. ground arith)
              ∙ at_V in
            let t =
              leaves a e3 l (record l { main = a }) there refl refl
                (record {
                  valid =
                      subst (λ V. valid_with r.0 (put a (some (record l { main = a })) V)) (sym p)
                        (detached-IsLinked r.2 c.main_conn m.0 m.1 a l at_V m.2);
                  own = refl;
                  bare = m.3;
                  unmapped = r.3;
                }) in
            (
              t.0,
              aux_steps depth a e (e2 r.0) e3 t.0 c at z r.1 t.1 sub (
                  modify_lem c.main_conn (λ x. record x { aux_list = without a x.aux_list })
                    (e2 r.0) d.0 d.1),
              t.2,
              t.3,
            )
      ]
]
  where
    l : Links
    l = links_of c

    at_V : view e.store a ≡ some l
    at_V = view-of e.store a c at

    e2 : (ℕ → Option ℕ) → Engine
    e2 map = record e { dpid_map = map }

    valid_in : View → Type 0
    valid_in V = IsLinked V e.last_conn_id e.conn_list e.dpid_map

    valid_with : (ℕ → Option ℕ) → View → Type 0
    valid_with map V = IsLinked V e.last_conn_id e.conn_list map
