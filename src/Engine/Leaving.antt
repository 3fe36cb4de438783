-- ===== src/Engine/Leaving.antt =====
-- The end of a connection that nothing refers to any more, in src/ofp/sys/engine.cpp.
use mathlib.Core.Path.{fun_ext, subst}
use libofp.Base.{
  ℕ, ◌≡◌, ◌≢◌, true, false, List, [], Option, none, some, arith, ◌==◌, refl, ◌∙◌, sym, Bool-cases,
  ==→eq, inl, inr, ◌⊎◌, ltb, length,
}
use libofp.Connection.{Connection}
use libofp.Engine.{Engine, put, remove_at, release_connection}
use libofp.Engine.Links.{
  Links, View, IsLinked, Ascending, put_self, put-other, KeepsIds, KeepsIds-put, Ascending-kept,
}
use libofp.Engine.Links.Remove.{Ascending-remove_at, Ascending-unlisted, removed-IsLinked}
use libofp.Engine.Search.{links_of, view, view-of, find_conn_iter_lem}
use libofp.Engine.Validity.{IsValid, view-put-none, put-same}

-- The list without the connection that ends
release_connection-list :
    (a : ℕ) (e : Engine) (c : Connection)
    → e.store a ≡ some c
    → Ascending (view e.store) 0 e.conn_list
    → ((b : ℕ) (l : Links) → view e.store b ≡ some l → l.id ≡ c.connection_id → b ≡ a)
    → (list : List ℕ) × (release_connection a e ≡ some (record e { conn_list = list }))
      × Ascending (put a none (view e.store)) 0 list
unfolding release_connection
release_connection-list a e c at sorted unique =
    let r = find_conn_iter_lem e c.connection_id sorted in
    let f = view-of e.store a c at in
    elim r.2 [
      | inl (inside, (l, k, same)) ↦
          let lt : ltb r.0 (length e.conn_list) ≡ true = ground arith in
          (
            remove_at r.0 e.conn_list,
            rw (at, r.1, lt) refl,
            Ascending-remove_at (view e.store) a (links_of c) f 0 r.0 e.conn_list sorted inside
                (unique _ l k same),
          )
      | inr (out, others) ↦
          let lt : ltb r.0 (length e.conn_list) ≡ false = ground arith in
          (
            e.conn_list,
            rw (at, r.1, lt) refl,
            Ascending-unlisted (view e.store) a (links_of c) f 0 e.conn_list sorted
                (λ j l h g. others j l h g),
          )
    ]

-- What is left of an engine that is valid but for the connection `a`, to which nothing refers any more
-- but what is in its own memory: `l` is what it would have to hold.
pub record IsLeaving (e : Engine) (a : ℕ) (l : Links) : Type 0 where
  pub valid : IsLinked (put a (some l) (view e.store)) e.last_conn_id e.conn_list e.dpid_map
  pub own : l.main ≡ a
  pub bare : l.auxs ≡ []
  pub unmapped : (d : ℕ) → e.dpid_map d ≢ some a

pub put-put : (a : ℕ) (v w : Option Links) (V : View) → put a v (put a w V) ≡ put a v V
put-put a v w V = fun_ext (λ b. go b (Bool-cases (a == b)))
  where
    go : (b : ℕ) → ((a == b) ≡ true) ⊎ ((a == b) ≡ false) → put a v (put a w V) b ≡ put a v V b
    go b (inl h) = rw h refl
    go b (inr h) = rw h refl

pub leave-IsValid :
    (a : ℕ) (e : Engine) (c : Connection) (l : Links)
    → e.store a ≡ some c
    → c.connection_id ≡ l.id
    → c.manual_delete ≡ l.manual
    → IsLeaving e a l
    → (f : Engine) × (release_connection a e ≡ some f)
      × IsValid (record f { store = put a none f.store })
leave-IsValid a e c l at same manual leaving =
    let V : View = view e.store in
    let G : View = put a (some l) V in
    let k : Links = links_of c in
    let at_G : G a ≡ some l = put_self a (some l) V in
    let back : put a (some k) G ≡ V =
      put-put a (some k) (some l) V ∙ put-same V a k (view-of e.store a c at) in
    let keeps : KeepsIds G V = subst (KeepsIds G) back (KeepsIds-put G a l k at_G same manual) in
    let r =
      release_connection-list a e c at (Ascending-kept 0 e.conn_list keeps leaving.valid.listed)
        (λ b m h q. elim (Bool-cases (a == b)) [
          | inl y ↦ sym (==→eq a b y)
          | inr y ↦
              leaving.valid.unique b a m l (put-other a (some l) V b (λ z. ground arith) ∙ h) at_G
                (q ∙ same)
        ]) in
    let gone : put a none G ≡ put a none V = put-put a none (some l) V in
    (
      record e { conn_list = r.0 },
      r.1,
      subst (λ W. IsLinked W e.last_conn_id r.0 e.dpid_map) (gone ∙ sym (view-put-none e.store a))
          (removed-IsLinked G a l at_G r.0 leaving.valid leaving.own leaving.bare leaving.unmapped
            (subst (λ W. Ascending W 0 r.0) (sym gone) r.2)),
    )

pub put_comm :
    (a b : ℕ) (v w : Option Links) (V : View) → a ≢ b → put a v (put b w V) ≡ put b w (put a v V)
put_comm a b v w V n = fun_ext (λ x. go x (Bool-cases (a == x)))
  where
    go :
        (x : ℕ)
        → ((a == x) ≡ true) ⊎ ((a == x) ≡ false)
        → put a v (put b w V) x ≡ put b w (put a v V) x
    go x (inl h) = let o : (b == x) ≡ false = ground arith in rw (h, o) refl
    go x (inr h) = rw h refl
