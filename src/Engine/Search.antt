-- ===== src/Engine/Search.antt =====
-- The binary search of src/ofp/sys/engine.cpp in the list of connections.
use libofp.Base.{
  ℕ, zero, suc, ◌+◌, ◌-◌, ◌/◌, ◌<◌, ◌≤◌, ◌≡◌, ◌≢◌, ◌⊎◌, List, [], ◌∷◌, Option, none, some, arith,
  ltb, ◌==◌, refl, ◌∙◌, ap, sym, Bool-cases, ==→eq, inl, inr, get_or, length,
}
use libofp.Connection.{Connection}
use libofp.Engine.{Engine, lower_bound, find_conn_iter}
use libofp.Engine.Links.{Links, View, Ascending}

abbrev pub links_of : Connection → Links
links_of c = record {
  id = c.connection_id;
  dpid = c.datapath_id;
  aux = c.auxiliary_id;
  main = c.main_conn;
  auxs = c.aux_list;
  manual = c.manual_delete;
}

-- What the connections of a store refer to
abbrev pub view : (ℕ → Option Connection) → View
view store a = elim (store a) [ none ↦ none | some c ↦ some (links_of c) ]

pub view-some :
    (store : ℕ → Option Connection) (a : ℕ) (l : Links)
    → view store a ≡ some l
    → (c : Connection) × (store a ≡ some c) × (links_of c ≡ l)
view-some store a l h = go (store a) refl h
  where
    go :
        (o : Option Connection)
        → store a ≡ o
        → (elim o as (λ _. Option Links) [ none ↦ none | some c ↦ some (links_of c) ]) ≡ some l
        → (c : Connection) × (store a ≡ some c) × (links_of c ≡ l)
    go none e h = cc
    go (some c) e h = (c, e, ground arith)

pub view-of :
    (store : ℕ → Option Connection) (a : ℕ) (c : Connection)
    → store a ≡ some c
    → view store a ≡ some (links_of c)
view-of store a c h =
    ap (λ o. elim o as (λ _. Option Links) [ none ↦ none | some d ↦ some (links_of d) ]) h

pub view-none : (store : ℕ → Option Connection) (a : ℕ) → store a ≡ none → view store a ≡ none
view-none store a h =
    ap (λ o. elim o as (λ _. Option Links) [ none ↦ none | some d ↦ some (links_of d) ]) h

module _ (V : View) where
  pub Ascending-at :
      (lo i : ℕ) (xs : List ℕ)
      → Ascending V lo xs
      → i < length xs
      → (l : Links) × (V (get_or xs i 0) ≡ some l) × (lo < l.id)
  Ascending-at lo i [] h lt = absurd (omega arith)
  Ascending-at lo zero (x ∷ xs) (l, e, low, h) lt = (l, e, low)
  Ascending-at lo (suc i) (x ∷ xs) (l, e, low, h) lt =
      let r = Ascending-at l.id i xs h (omega arith) in (r.0, r.1, omega (arith, r.2))

  pub Ascending-order :
      (lo i j : ℕ) (xs : List ℕ) (l k : Links)
      → Ascending V lo xs
      → i < j
      → j < length xs
      → V (get_or xs i 0) ≡ some l
      → V (get_or xs j 0) ≡ some k
      → l.id < k.id
  Ascending-order lo i j [] l k h lt in_list e f = absurd (omega arith)
  Ascending-order lo i zero (x ∷ xs) l k h lt in_list e f = absurd (omega arith)
  Ascending-order lo zero (suc j) (x ∷ xs) l k (m, g, low, h) lt in_list e f =
      let r = Ascending-at m.id j xs h (omega arith) in
      let p : some m ≡ some l = sym g ∙ e in let q : some r.0 ≡ some k = sym r.1 ∙ f in ground arith
  Ascending-order lo (suc i) (suc j) (x ∷ xs) l k (m, g, low, h) lt in_list e f =
      Ascending-order m.id i j xs l k h (omega arith) (omega arith) e f

-- The connections before a position have smaller numbers than `id`, and the others do not.
record IsPartition (V : View) (list : List ℕ) (id r : ℕ) : Type 0 where
  pub inside : r ≤ length list
  pub below : (i : ℕ) (l : Links) → i < r → V (get_or list i 0) ≡ some l → l.id < id
  pub above :
      (i : ℕ) (l : Links) → r ≤ i → i < length list → V (get_or list i 0) ≡ some l → id ≤ l.id

module _ (store : ℕ → Option Connection) (list : List ℕ) (id : ℕ)
    (sorted : Ascending (view store) 0 list) where
  up_to :
      (j i : ℕ) (k l : Links)
      → view store (get_or list j 0) ≡ some k
      → view store (get_or list i 0) ≡ some l
      → i ≤ j
      → j < length list
      → l.id ≤ k.id
  up_to j i k l e f le lt = elim (Bool-cases (i == j)) [
    | inl y ↦ ground (arith, ap (λ n. view store (get_or list n 0)) (==→eq i j y))
    | inr y ↦
        omega (arith, Ascending-order (view store) 0 i j list l k sorted (ground arith) lt f e)
  ]

  lower_bound-IsPartition :
      (fuel first count : ℕ)
      → count ≤ fuel
      → first + count ≤ length list
      → ((i : ℕ) (l : Links) → i < first → view store (get_or list i 0) ≡ some l → l.id < id)
      → ((i : ℕ) (l : Links)
          → first + count ≤ i
          → i < length list
          → view store (get_or list i 0) ≡ some l
          → id ≤ l.id)
      → (r : ℕ) × (lower_bound store list id fuel first count ≡ some r)
        × IsPartition (view store) list id r
  unfolding lower_bound
  lower_bound-IsPartition zero first count enough inside below above = (
    first,
    ground arith,
    record { inside = omega arith; below = below; above = λ i l h. above i l (omega arith) },
  )
  lower_bound-IsPartition (suc fuel) first count enough inside below above =
      elim (Bool-cases (count == 0)) [
        | inl z ↦ (
          first,
          rw z refl,
          record { inside = omega arith; below = below; above = λ i l h. above i l (ground arith) },
        )
        | inr z ↦
            let half : ℕ = count / 2 in
            let small : count / 2 < count = ground arith in
            let here = Ascending-at (view store) 0 (first + half) list sorted (omega arith) in
            let c = view-some store (get_or list (first + half) 0) here.0 here.1 in
            let e : c.0.connection_id ≡ here.0.id = ap (λ l. l.id) c.2 in
            elim (Bool-cases (ltb c.0.connection_id id)) [
              | inl less ↦
                  let low : here.0.id < id = ground arith in
                  let r =
                    lower_bound-IsPartition fuel (first + half + 1) (count - (half + 1))
                      (omega arith) (omega arith)
                      (λ i l h f. omega (
                        arith,
                        up_to (first + half) i here.0 l here.1 f (omega arith) (omega arith),
                      ))
                      (λ i l h. above i l (omega arith)) in
                  (r.0, rw (z, c.1, less) r.1, r.2)
              | inr more ↦
                  let high : id ≤ here.0.id = ground arith in
                  let r =
                    lower_bound-IsPartition fuel first half (omega arith) (omega arith) below
                      (λ i l h lt f. omega (
                        arith,
                        up_to i (first + half) l here.0 f here.1 (omega arith) (omega arith),
                      )) in
                  (r.0, rw (z, c.1, more) r.1, r.2)
            ]
      ]

-- What the search gives: the position of the connection with a number, or that there is none
pub find_conn_iter_lem :
    (e : Engine) (id : ℕ)
    → Ascending (view e.store) 0 e.conn_list
    → (i : ℕ) × (find_conn_iter id e ≡ some i)
      × (((i < length e.conn_list)
            × ((l : Links) × (view e.store (get_or e.conn_list i 0) ≡ some l) × (l.id ≡ id)))
          ⊎ ((i ≡ length e.conn_list)
              × ((j : ℕ) (l : Links)
                  → j < length e.conn_list
                  → view e.store (get_or e.conn_list j 0) ≡ some l
                  → l.id ≢ id)))
unfolding find_conn_iter
find_conn_iter_lem e id sorted =
    let n : ℕ = length e.conn_list in
    let r =
      lower_bound-IsPartition e.store e.conn_list id sorted n 0 n (omega arith) (omega arith)
        (λ i l h. absurd (omega arith)) (λ i l h k. absurd (omega arith)) in
    elim (Bool-cases (ltb r.0 n)) [
      | inr over ↦ (
        n,
        rw (r.1, over) refl,
        inr (refl, λ j l h f. omega (arith, r.2.below j l (ground arith) f)),
      )
      | inl found ↦
          let here = Ascending-at (view e.store) 0 r.0 e.conn_list sorted (ground arith) in
          let c = view-some e.store (get_or e.conn_list r.0 0) here.0 here.1 in
          let k : c.0.connection_id ≡ here.0.id = ap (λ l. l.id) c.2 in
          elim (Bool-cases (c.0.connection_id == id)) [
            | inl same ↦ (
              r.0,
              rw (r.1, found, c.1, same) refl,
              inl (ground arith, (here.0, here.1, ground arith)),
            )
            | inr other ↦ (
              n,
              rw (r.1, found, c.1, other) refl,
              inr (
                refl,
                λ j l h f q. elim (Bool-cases (ltb j r.0)) [
                  | inl early ↦ omega (arith, r.2.below j l (ground arith) f)
                  | inr late ↦
                      let differ : here.0.id ≢ id = λ z. ground arith in
                      differ (
                        omega (
                          arith,
                          up_to e.store e.conn_list id sorted j r.0 l here.0 f here.1 (ground arith)
                              h,
                          r.2.above r.0 here.0 (omega arith) (ground arith) here.1,
                        ))
                ],
              ),
            )
          ]
    ]
