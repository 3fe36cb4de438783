-- ===== src/Engine/Validity.antt =====
-- The invariant of the engine of src/ofp/sys/engine.cpp in its own states, and the changes that do
-- not touch it.
use mathlib.Core.Path.{fun_ext, subst}
use libofp.Base.{
  ℕ, ◌+◌, ◌<◌, ◌≡◌, ◌^◌, ◌%◌, Bool, true, false, [], ◌∷◌, ◌++◌, Option, none, some, arith, ◌==◌,
  refl, ◌∙◌, ap, sym, Bool-cases, if_rule, not, ==→eq, inl, inr, ◌⊎◌,
}
use libofp.Connection
use libofp.Connection.{Connection, new_connection, set_flags}
use libofp.Engine.{Engine, put, modify, shut, create, register_connection, assign_connection_id}
use libofp.Engine.Links.{Links, View, IsLinked, new_links, create-IsLinked}
use libofp.Engine.Search.{links_of, view, view-some, view-of, view-none}

abbrev pub IsValid : Engine → Type 0
IsValid e = IsLinked (view e.store) e.last_conn_id e.conn_list e.dpid_map

module _ (store : ℕ → Option Connection) (a : ℕ) where
  pub view-put :
      (c : Connection) → view (put a (some c) store) ≡ put a (some (links_of c)) (view store)
  view-put c = fun_ext (λ b. go b (Bool-cases (a == b)))
    where
      go :
          (b : ℕ)
          → ((a == b) ≡ true) ⊎ ((a == b) ≡ false)
          → view (put a (some c) store) b ≡ put a (some (links_of c)) (view store) b
      go b (inl h) = rw (view, h) refl
      go b (inr h) = rw (view, h) refl

  pub view-put-none : view (put a none store) ≡ put a none (view store)
  view-put-none = fun_ext (λ b. go b (Bool-cases (a == b)))
    where
      go :
          (b : ℕ)
          → ((a == b) ≡ true) ⊎ ((a == b) ≡ false)
          → view (put a none store) b ≡ put a none (view store) b
      go b (inl h) = rw (view, h) refl
      go b (inr h) = rw (view, h) refl

pub put-same : (V : View) (a : ℕ) (l : Links) → V a ≡ some l → put a (some l) V ≡ V
put-same V a l e = fun_ext (λ b. go b (Bool-cases (a == b)))
  where
    go : (b : ℕ) → ((a == b) ≡ true) ⊎ ((a == b) ≡ false) → put a (some l) V b ≡ V b
    go b (inl h) = rw h (sym e ∙ ap V (==→eq a b h))
    go b (inr h) = rw h refl

-- Two engines that differ only in what the invariant does not depend on
pub record Alike (e f : Engine) : Type 0 where
  pub views : view f.store ≡ view e.store
  pub last : f.last_conn_id ≡ e.last_conn_id
  pub listed : f.conn_list ≡ e.conn_list
  pub mapped : f.dpid_map ≡ e.dpid_map

pub Alike-IsValid : (e f : Engine) → Alike e f → IsValid e → IsValid f
Alike-IsValid e f s i = rw (s.views, s.last, s.listed, s.mapped) i

pub Alike-trans : {e f g : Engine} → Alike e f → Alike f g → Alike e g
Alike-trans s t = record {
  views = t.views ∙ s.views;
  last = t.last ∙ s.last;
  listed = t.listed ∙ s.listed;
  mapped = t.mapped ∙ s.mapped;
}

pub modify_lem :
    (a : ℕ) (f : Connection → Connection) (e : Engine) (c : Connection)
    → e.store a ≡ some c
    → modify a f e ≡ some (record e { store = put a (some (f c)) e.store })
unfolding modify
modify_lem a f e c h = rw (modify, h) refl

pub shutdown-links :
    (reset : Bool) (c : Connection) → links_of (Connection.shutdown reset c) ≡ links_of c
unfolding Connection.shutdown Connection.go_down
shutdown-links reset c =
    let P : Connection → Type 0 = λ d. links_of d ≡ links_of c in
    let down : Connection = record c { shutdown_called = true; shutdown_done = true } in
    if_rule P c.shutdown_called (λ _. refl)
      (λ _.
        if_rule P (not c.is_open) (λ _. refl)
          (λ _.
            if_rule P reset
              (λ _.
                if_rule (λ d. P (record d { is_open = false })) down.channel_up (λ _. refl)
                  (λ _. refl))
              (λ _. refl)))

-- The shutdown of a connection that exists changes nothing that the engine depends on.
pub shut-Alike :
    (reset : Bool) (a : ℕ) (e : Engine) (l : Links)
    → view e.store a ≡ some l
    → (f : Engine) × (shut reset a e ≡ some f) × Alike e f
unfolding shut
shut-Alike reset a e l h =
    let c = view-some e.store a l h in
    let d : Connection = Connection.shutdown reset c.0 in
    let f : Engine = record e { store = put a (some d) e.store } in
    (
      f,
      modify_lem a (Connection.shutdown reset) e c.0 c.1,
      record {
        views =
            view-put e.store a d
            ∙ ap (λ k. put a (some k) (view e.store)) (shutdown-links reset c.0)
            ∙ put-same (view e.store) a (links_of c.0) (view-of e.store a c.0 c.1);
        last = refl;
        listed = refl;
        mapped = refl;
      },
    )

new-links :
    (is_open : Bool) (security_id options a id now : ℕ)
    → links_of (set_flags security_id options (new_connection is_open a id now)) ≡ new_links a id
unfolding set_flags new_connection
new-links is_open security_id options a id now = refl

-- A new connection at a free address
pub create-IsValid :
    (is_open : Bool) (a security_id options now : ℕ) (e : Engine)
    → IsValid e
    → e.store a ≡ none
    → e.last_conn_id + 1 < 2 ^ 64
    → (f : Engine) × (create is_open a security_id options now e ≡ some f) × IsValid f
unfolding create register_connection assign_connection_id
create-IsValid is_open a security_id options now e i free room =
    let id : ℕ = e.last_conn_id + 1 in
    let not_zero : (id == 0) ≡ false = ground arith in
    let wraps_not : id % 2 ^ 64 ≡ id = omega arith in
    let c : Connection = set_flags security_id options (new_connection is_open a id now) in
    let v : view (put a (some c) e.store) ≡ put a (some (new_links a id)) (view e.store) =
      view-put e.store a c
      ∙ ap (λ k. put a (some k) (view e.store)) (new-links is_open security_id options a id now) in
    (
      record e {
        store = put a (some c) e.store;
        last_conn_id = id;
        conn_list = e.conn_list ++ (a ∷ []);
      },
      rw (wraps_not, not_zero) refl,
      subst (λ V. IsLinked V id (e.conn_list ++ (a ∷ [])) e.dpid_map) (sym v)
          (create-IsLinked i a (view-none e.store a free)),
    )
