-- ===== src/Engine/Safety.antt =====
-- What happens to the engine of src/ofp/sys/engine.cpp goes on without a failing access.
use mathlib.Core.Path.{subst}
use libofp.Base.{
  ℕ, ◌+◌, ◌≡◌, ◌≢◌, ◌^◌, Bool, true, false, ◌&&◌, List, [], ◌∷◌, Option, none, some, arith, ◌==◌,
  ltb, refl, ◌∙◌, ap, sym, Bool-cases, if_rule, leb, ◌||◌, not, ◌*◌, ◌-◌, Option-cases, inl, inr,
  ◌↔◌, length,
}
use libofp.Connection
use libofp.Connection.{Connection}
use libofp.Engine.{
  Engine, put, modify, each, close_connection, close_server, close_datapath, close, close_all,
  find_datapath,
}
use libofp.Engine.Links.{Links, Ascending}
use libofp.Engine.Search.{links_of, view, view-some, view-of}
use libofp.Engine.Validity.{
  IsValid, Alike, Alike-IsValid, Alike-trans, modify_lem, shut-Alike, shutdown-links, view-put,
  put-same, create-IsValid,
}
use libofp.Engine.Steps.{
  Op, create_at, post, shut_down, finish, tick, read, raise, connect, destroy_at, close_one,
  close_every, look_up, exists, is_allowed, run, Reached, begun, next,
}
use libofp.Engine.Finding.{Finds, IsListed, find_datapath_lem}
use libofp.Engine.Posting.{post_datapath-IsValid}
use libofp.Engine.Closing.{destroy-IsValid}

abbrev Goes : Option Engine → Type 0
Goes r = (f : Engine) × (r ≡ some f) × IsValid f

-- A change that leaves alone what the connection refers to
modify-Goes :
    (a : ℕ) (g : Connection → Connection) (e : Engine)
    → ((c : Connection) → links_of (g c) ≡ links_of c)
    → IsValid e
    → exists a e ≡ true
    → Goes (modify a g e)
modify-Goes a g e same i there = elim (Option-cases (e.store a)) [
  | inl n ↦
      let gone : exists a e ≡ false =
        ap (λ o. elim o as (λ _. Bool) [ none ↦ false | some c ↦ true ]) n in
      absurd (ground arith)
  | inr (c, at) ↦
      let f : Engine = record e { store = put a (some (g c)) e.store } in
      (
        f,
        modify_lem a g e c at,
        Alike-IsValid e f
            (record {
              views =
                  view-put e.store a (g c)
                  ∙ ap (λ k. put a (some k) (view e.store)) (same c)
                  ∙ put-same (view e.store) a (links_of c) (view-of e.store a c at);
              last = refl;
              listed = refl;
              mapped = refl;
            })
            i,
      )
]

tickle-links :
    (taken : Bool) (now : ℕ) (c : Connection)
    → links_of (Connection.tickle taken now c) ≡ links_of c
unfolding Connection.tickle
tickle-links taken now c =
    let P : Connection → Type 0 = λ d. links_of d ≡ links_of c in
    let age : ℕ = now - c.time_read_started in
    if_rule P taken (λ _. refl)
      (λ _.
        if_rule P (ltb age c.keep_alive_timeout) (λ _. refl)
          (λ _.
            if_rule P (ltb c.version 1 || leb (2 * c.keep_alive_timeout) age)
              (λ _. shutdown-links false (Connection.emit Connection.alerted c))
              (λ _. if_rule P (not c.channel_idle) (λ _. refl) (λ _. refl))))

come_up-links : (c : Connection) → links_of (Connection.come_up c) ≡ links_of c
unfolding Connection.come_up
come_up-links c = if_rule (λ d. links_of d ≡ links_of c) c.channel_up (λ _. refl) (λ _. refl)

-- The shutdown of a connection, which is not deleted by it
close_connection-Alike :
    (a : ℕ) (e : Engine) (l : Links)
    → view e.store a ≡ some l
    → l.manual ≡ false
    → (f : Engine) × (close_connection a e ≡ some f) × Alike e f
unfolding close_connection
close_connection-Alike a e l h manual =
    let s = shut-Alike false a e l h in
    let c = view-some s.0.store a l (ap (λ V. V a) s.2.views ∙ h) in
    (s.0, rw (s.1, c.1, ap (λ z. z.manual) c.2 ∙ manual) refl, s.2)

close_each-Alike :
    (lo : ℕ) (xs : List ℕ) (e : Engine)
    → ((a : ℕ) (l : Links) → view e.store a ≡ some l → l.manual ≡ false)
    → Ascending (view e.store) lo xs
    → (f : Engine) × (each close_connection xs e ≡ some f) × Alike e f
close_each-Alike lo [] e manual h =
    (e, refl, record { views = refl; last = refl; listed = refl; mapped = refl })
close_each-Alike lo (x ∷ xs) e manual (l, at, lt, h) =
    let s = close_connection-Alike x e l at (manual x l at) in
    let r =
      close_each-Alike l.id xs s.0 (λ a k f. manual a k (ap (λ V. V a) (sym s.2.views) ∙ f))
        (subst (λ V. Ascending V l.id xs) (sym s.2.views) h) in
    (r.0, rw s.1 r.1, Alike-trans s.2 r.2)

exists-some : (a : ℕ) (e : Engine) → exists a e ≡ true → (c : Connection) × (e.store a ≡ some c)
exists-some a e h = elim (Option-cases (e.store a)) [
  | inl n ↦
      let gone : exists a e ≡ false =
        ap (λ o. elim o as (λ _. Bool) [ none ↦ false | some c ↦ true ]) n in
      absurd (ground arith)
  | inr r ↦ r
]

-- A connection that is found exists.
found_live :
    (e : Engine) (id dpid a : ℕ)
    → IsValid e
    → Finds e id dpid a
    → (l : Links) × (view e.store a ≡ some l)
found_live e id dpid a i f = elim (Bool-cases (id == 0)) [
  | inl z ↦
      let g : (dpid ≢ 0) × (e.dpid_map dpid ≡ some a) = rw z at f in
      let r = i.mapped dpid a g.1 in (r.0, r.1)
  | inr z ↦
      let g : IsListed e id a
          × ((c : Connection) × (e.store a ≡ some c)
              × ((dpid == 0 || c.datapath_id == dpid) ≡ true)) =
        rw z at f in
      (links_of g.1.0, view-of e.store a g.1.0 g.1.1)
]

close_datapath-Goes :
    (id dpid : ℕ) (e : Engine)
    → IsValid e
    → (r : Engine × ℕ) × (close_datapath id dpid e ≡ some r) × IsValid r.0
close_datapath-Goes id dpid e i =
    let r = find_datapath_lem e id dpid i in
    elim (Option-cases r.0) [
      | inl n ↦ ((e, 0), rw (r.1, n) refl, i)
      | inr (a, found) ↦
          let l = found_live e id dpid a i ((r.2 a).0 found) in
          let s = close_connection-Alike a e l.0 l.1 (i.ids a l.0 l.1).2 in
          ((s.0, 1), rw (r.1, found, s.1) refl, Alike-IsValid e s.0 s.2 i)
    ]

close-Goes :
    (id dpid : ℕ) (e : Engine)
    → IsValid e
    → (r : Engine × ℕ) × (close id dpid e ≡ some r) × IsValid r.0
unfolding close
close-Goes id dpid e i = elim (Bool-cases (dpid == 0)) [
  | inr z ↦ rw z (close_datapath-Goes id dpid e i)
  | inl z ↦ elim (Bool-cases (id == 0)) [
    | inl y ↦ ((e, 0), rw (z, y) refl, i)
    | inr y ↦ elim (Option-cases (close_server id e.server_list)) [
      | inl n ↦ let r = close_datapath-Goes id dpid e i in (r.0, rw (z, y, n) r.1, r.2)
      | inr (servers, h) ↦ ((record e { server_list = servers }, 1), rw (z, y, h) refl, i)
    ]
  ]
]

close_all-Goes : (e : Engine) → IsValid e → (r : Engine × ℕ) × (close_all e ≡ some r) × IsValid r.0
unfolding close_all
close_all-Goes e i = elim (Bool-cases (length e.server_list + length e.conn_list == 0)) [
  | inl z ↦ ((e, 0), rw z refl, i)
  | inr z ↦
      let bare : Engine = record e { server_list = []; conn_list = [] } in
      let j : IsValid bare = record {
        ids = i.ids;
        unique = i.unique;
        listed = tt;
        mapped = i.mapped;
        member = i.member;
        attached = i.attached;
        unposted = i.unposted;
      } in
      let s = close_each-Alike 0 e.conn_list bare (λ a l h. (i.ids a l h).2) i.listed in
      (
        (s.0, length e.server_list + length e.conn_list),
        rw (z, s.1) refl,
        Alike-IsValid bare s.0 s.2 j,
      )
]

finish_shutdown-links : (c : Connection) → links_of (Connection.finish_shutdown c) ≡ links_of c
unfolding Connection.finish_shutdown
finish_shutdown-links c = refl

open_socket-links : (c : Connection) → links_of (Connection.open_socket c) ≡ links_of c
unfolding Connection.open_socket
open_socket-links c = refl

read-links :
    (now : ℕ) (c : Connection) → links_of (Connection.update_time_read_started now c) ≡ links_of c
unfolding Connection.update_time_read_started
read-links now c = refl

some_eq : {e f : Engine} → some e ≡ some f → e ≡ f
some_eq {e} h = ap (λ o. elim o as (λ _. Engine) [ none ↦ e | some x ↦ x ]) h

run-Goes : (op : Op) (e : Engine) → IsValid e → is_allowed op e ≡ true → Goes (run op e)
unfolding is_allowed run
run-Goes (create_at is_open a security_id options now) e i h = elim (Option-cases (e.store a)) [
  | inl free ↦ create-IsValid is_open a security_id options now e i free (ground (arith, h))
  | inr (c, lives) ↦
      let full : (ltb (e.last_conn_id + 1) (2 ^ 64) && false) ≡ true = rw lives at h in
      absurd (ground arith)
]
run-Goes (post a dpid aux_id) e i h = elim (Option-cases (e.store a)) [
  | inl n ↦ let gone : false ≡ true = rw (is_allowed, n) at h in cc
  | inr (c, lives) ↦
      let new : (c.datapath_id == 0) ≡ true = rw (is_allowed, lives) at h in
      let r = post_datapath-IsValid e a dpid aux_id c i lives (ground arith) in
      (r.0.0, rw r.1 refl, r.2)
]
run-Goes (shut_down reset a) e i h =
    let r = exists-some a e h in
    let s = shut-Alike reset a e (links_of r.0) (view-of e.store a r.0 r.1) in
    (s.0, s.1, Alike-IsValid e s.0 s.2 i)
run-Goes (finish a) e i h = modify-Goes a Connection.finish_shutdown e finish_shutdown-links i h
run-Goes (tick taken now a) e i h =
    modify-Goes a (Connection.tickle taken now) e (tickle-links taken now) i h
run-Goes (read now a) e i h =
    modify-Goes a (Connection.update_time_read_started now) e (read-links now) i h
run-Goes (raise a) e i h = modify-Goes a Connection.come_up e come_up-links i h
run-Goes (connect a) e i h = modify-Goes a Connection.open_socket e open_socket-links i h
run-Goes (destroy_at a) e i h =
    let r = exists-some a e h in let s = destroy-IsValid 1 a e r.0 i r.1 in (s.0, s.1, s.2)
run-Goes (close_one id dpid) e i h = let r = close-Goes id dpid e i in (r.0.0, rw r.1 refl, r.2)
run-Goes close_every e i h = let r = close_all-Goes e i in (r.0.0, rw r.1 refl, r.2)
run-Goes (look_up id dpid) e i h = let r = find_datapath_lem e id dpid i in (e, rw r.1 refl, i)

pub Reached-IsValid : {e : Engine} → Reached e → IsValid e
Reached-IsValid begun = record {
  ids = λ a l h. cc;
  unique = λ a b l k h. cc;
  listed = tt;
  mapped = λ d p h. cc;
  member = λ a b l h. cc;
  attached = λ a l h. cc;
  unposted = λ a l h. cc;
}
Reached-IsValid (next {e} {f} r op h ran) =
    let s = run-Goes op e (Reached-IsValid r) h in
    let p : s.0 ≡ f = some_eq (sym s.1 ∙ ran) in subst IsValid p s.2

-- Whatever was done to the engine from the start on, what is allowed next uses no connection that
-- was destroyed or never created, and does not fail.
pub Reached-run :
    {e : Engine} (reached : Reached e) (op : Op)
    → is_allowed op e ≡ true
    → (f : Engine) × (run op e ≡ some f) × Reached f
Reached-run {e} reached op h =
    let s = run-Goes op e (Reached-IsValid reached) h in (s.0, s.1, next reached op h s.1)

-- Whatever was done to the engine, findDatapath finds exactly the connection that is to be found by a
-- number and a datapath.
pub Reached-find :
    {e : Engine} (reached : Reached e) (id dpid : ℕ)
    → (o : Option ℕ) × (find_datapath id dpid e ≡ some o)
      × ((a : ℕ) → (o ≡ some a) ↔ Finds e id dpid a)
Reached-find {e} reached id dpid = find_datapath_lem e id dpid (Reached-IsValid reached)
