-- ===== src/Engine/Finding.antt =====
-- What findDatapath of src/ofp/sys/engine.cpp finds.
use libofp.Base.{
  ℕ, ◌<◌, ◌≡◌, ◌≢◌, true, false, Option, none, some, arith, ◌==◌, ltb, ◌||◌, if◌then◌else◌, refl,
  ◌∙◌, ap, sym, Bool-cases, Option-cases, ==→eq, inl, inr, ◌↔◌, length, get_or,
}
use libofp.Connection.{Connection}
use libofp.Engine.{Engine, find_datapath, find_conn_id}
use libofp.Engine.Search.{links_of, view, view-some, view-of, find_conn_iter_lem}
use libofp.Engine.Validity.{IsValid}

-- The connection at an address is in the list of connections and has a number.
abbrev pub IsListed : Engine → ℕ → ℕ → Type 0
IsListed e id a =
    (i : ℕ) × (i < length e.conn_list)
    × (get_or e.conn_list i 0 ≡ a)
    × ((c : Connection) × (e.store a ≡ some c) × (c.connection_id ≡ id))

-- By number, exactly the connection in the list that has it is found.
pub find_conn_id_lem :
    (e : Engine) (id : ℕ)
    → IsValid e
    → (o : Option ℕ) × (find_conn_id id e ≡ some o) × ((a : ℕ) → (o ≡ some a) ↔ IsListed e id a)
unfolding find_conn_id
find_conn_id_lem e id i =
    let r = find_conn_iter_lem e id i.listed in
    elim r.2 [
      | inl (inside, (l, k, same)) ↦
          let at : ℕ = get_or e.conn_list r.0 0 in
          let lt : ltb r.0 (length e.conn_list) ≡ true = ground arith in
          let c = view-some e.store at l k in
          (
            some at,
            rw (r.1, lt) refl,
            λ a. (
              λ h.
                  let p : at ≡ a = ground arith in
                  (r.0, inside, p, (c.0, ap e.store (sym p) ∙ c.1, ap (λ z. z.id) c.2 ∙ same)),
              λ (j, in_list, g, (d, f, q)).
                  ap some (i.unique at a l (links_of d) k (view-of e.store a d f) (same ∙ sym q)),
            ),
          )
      | inr (out, others) ↦
          let lt : ltb r.0 (length e.conn_list) ≡ false = ground arith in
          (
            none,
            rw (r.1, lt) refl,
            λ a. (
              λ h. cc,
              λ (j, in_list, g, (d, f, q)).
                  absurd
                    (others j (links_of d) in_list (ap (view e.store) g ∙ view-of e.store a d f) q),
            ),
          )
    ]

-- Whether the connection at an address is to be found by a number and a datapath, of which 0 stands
-- for none: by number, if there is one, and then its datapath is that which is given, if any; and by
-- the datapath alone, the connection that is registered under it.
abbrev pub Finds : Engine → ℕ → ℕ → ℕ → Type 0
Finds e id dpid a =
    if id == 0
    then (dpid ≢ 0) × (e.dpid_map dpid ≡ some a)
    else IsListed e id a
      × ((c : Connection) × (e.store a ≡ some c) × ((dpid == 0 || c.datapath_id == dpid) ≡ true))

pub find_datapath_lem :
    (e : Engine) (id dpid : ℕ)
    → IsValid e
    → (o : Option ℕ) × (find_datapath id dpid e ≡ some o)
      × ((a : ℕ) → (o ≡ some a) ↔ Finds e id dpid a)
unfolding find_datapath
find_datapath_lem e id dpid i = elim (Bool-cases (id == 0)) [
  | inl z ↦ elim (Bool-cases (dpid == 0)) [
    | inl y ↦ (none, rw (z, y) refl, λ a. rw z ((λ h. cc), λ (n, h). absurd (n (==→eq dpid 0 y))))
    | inr y ↦
        (e.dpid_map dpid, rw (z, y) refl, λ a. rw z ((λ h. ((λ q. ground arith), h)), λ (n, h). h))
  ]
  | inr z ↦
      let r = find_conn_id_lem e id i in
      elim (Option-cases r.0) [
        | inl nothing ↦ (
          none,
          rw (z, r.1, nothing) refl,
          λ a. rw z ((λ h. cc), λ (h, k). sym nothing ∙ (r.2 a).1 h),
        )
        | inr (b, found) ↦
            let (j, in_list, g, (c, at, num)) = (r.2 b).0 found in
            elim (Bool-cases (dpid == 0 || c.datapath_id == dpid)) [
              | inl match ↦ (
                some b,
                rw (z, r.1, found, at, match) refl,
                λ a. rw z (
                  λ h.
                      let p : b ≡ a = ground arith in
                      ((r.2 a).0 (found ∙ h), (c, ap e.store (sym p) ∙ at, match)),
                  λ (h, k). sym found ∙ (r.2 a).1 h,
                ),
              )
              | inr other ↦ (
                none,
                rw (z, r.1, found, at, other) refl,
                λ a. rw z (
                  λ h. cc,
                  λ (h, (d, f, t)).
                      let p : some b ≡ some a = sym found ∙ (r.2 a).1 h in
                      let q : b ≡ a = ground arith in
                      let o : some c ≡ some d = sym at ∙ ap e.store q ∙ f in absurd (ground arith),
                ),
              )
            ]
      ]
]
