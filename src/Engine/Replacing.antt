-- ===== src/Engine/Replacing.antt =====
-- registerDatapath of src/ofp/sys/engine.cpp for a datapath that is registered already.
use libofp.Base.{
  ℕ, ◌≡◌, ◌≢◌, true, false, [], ◌∷◌, ◌++◌, some, arith, ◌==◌, refl, ◌∙◌, ap, sym, if◌then◌else◌,
  Bool-cases, inl, inr, append_nil,
}
use libofp.Connection
use libofp.Connection.{Connection, down}
use libofp.Engine.{
  Engine, put, shut, register_datapath, post_datapath, find_datapath, release_datapath,
}
use libofp.Engine.Links.{put_self, put-other, same_links}
use libofp.Engine.Search.{view, view-of}
use libofp.Engine.Validity.{modify_lem}
use libofp.Engine.Steps.{Reached}
use libofp.Engine.Safety.{Reached-IsValid}

replace_steps :
    (e : Engine) (a d old : ℕ) (c k : Connection)
    → e.store a ≡ some c
    → (d == 0) ≡ false
    → e.dpid_map d ≡ some old
    → (old == a) ≡ false
    → e.store old ≡ some k
    → (f : Engine) × (post_datapath a d 0 e ≡ some (f, true))
      × (f.dpid_map ≡ put d (some a) e.dpid_map)
      × (f.store old ≡ some (Connection.shutdown true k))
unfolding post_datapath register_datapath shut
replace_steps e a d old c k lives z taken other there =
    let v : Connection = record c { datapath_id = d; auxiliary_id = 0 } in
    let e1 : Engine = record e { store = put a (some v) e.store } in
    let e2 : Engine = record e1 { dpid_map = put d (some a) e.dpid_map } in
    let still : e2.store old ≡ some k =
      put-other a (some v) e.store old (λ h. ground arith) ∙ there in
    (
      record e2 { store = put old (some (Connection.shutdown true k)) e2.store },
      rw
          (
            z,
            modify_lem a (λ y. record y { datapath_id = d; auxiliary_id = 0 }) e c lives,
            put_self a (some v) e.store,
            taken,
            other,
            modify_lem old (Connection.shutdown true) e2 k still,
          )
          refl,
      refl,
      put_self old (some (Connection.shutdown true k)) e2.store,
    )

-- An open connection that is reset
reset_lem :
    (k : Connection)
    → k.shutdown_called ≡ false
    → k.is_open ≡ true
    → let gone = Connection.shutdown true k in
      (gone.shutdown_called ≡ true)
      × (gone.is_open ≡ false)
      × (gone.channel_up ≡ false)
      × (gone.events ≡ k.events ++ (if k.channel_up then down ∷ [] else []))
      × (gone.datapath_id ≡ k.datapath_id)
unfolding Connection.shutdown Connection.go_down
reset_lem k s o = elim (Bool-cases k.channel_up) [
  | inl u ↦ rw (s, o, u) (refl, refl, refl, refl, refl)
  | inr u ↦ rw (s, o, u) (refl, refl, refl, sym (append_nil k.events), refl)
]

-- A connection that the datapath does not lead to any more
release_lem :
    (f : Engine) (gone : Connection) (a d old : ℕ)
    → f.store old ≡ some gone
    → gone.datapath_id ≡ d
    → f.dpid_map d ≡ some a
    → (a == old) ≡ false
    → release_datapath old f ≡ some f
unfolding release_datapath
release_lem f gone a d old stored its found back = elim (Bool-cases (gone.auxiliary_id == 0)) [
  | inl z ↦ rw (stored, z, its, found, back) refl
  | inr z ↦ rw (stored, z) refl
]

-- A new connection that gets, as the main one, the datapath of another connection takes its place: it
-- is then found by the datapath, also after the other one releases this. The other one, if it is open
-- and was not shut down before, is reset: its socket is closed, and its channel goes down if it was up.
pub post_datapath-replaces :
    {e : Engine} (reached : Reached e) (a d old : ℕ) (c k : Connection)
    → e.store a ≡ some c
    → c.datapath_id ≡ 0
    → d ≢ 0
    → e.dpid_map d ≡ some old
    → e.store old ≡ some k
    → k.shutdown_called ≡ false
    → k.is_open ≡ true
    → (f : Engine) × (gone : Connection) × (post_datapath a d 0 e ≡ some (f, true))
      × (find_datapath 0 d f ≡ some (some a))
      × (f.store old ≡ some gone)
      × (gone.shutdown_called ≡ true)
      × (gone.is_open ≡ false)
      × (gone.channel_up ≡ false)
      × (gone.events ≡ k.events ++ (if k.channel_up then down ∷ [] else []))
      × (release_datapath old f ≡ some f)
unfolding find_datapath
post_datapath-replaces {e} reached a d old c k lives new n taken there called live =
    let r = (Reached-IsValid reached).mapped d old taken in
    let differ : old ≢ a = λ h. n (
      sym r.2
      ∙ ap (λ z. z.dpid) (same_links (view e.store) h r.1 (view-of e.store a c lives))
      ∙ new) in
    let same : k.datapath_id ≡ d =
      ap (λ z. z.dpid) (same_links (view e.store) refl (view-of e.store old k there) r.1) ∙ r.2 in
    let other : (old == a) ≡ false = ground (arith, differ) in
    let back : (a == old) ≡ false = ground (arith, other) in
    let posted : (d == 0) ≡ false = ground (arith, n) in
    let (f, ran, map, stored) = replace_steps e a d old c k lives posted taken other there in
    let (shut_now, closed, lowered, sent, kept) = reset_lem k called live in
    let found : f.dpid_map d ≡ some a = ap (λ m. m d) map ∙ put_self d (some a) e.dpid_map in
    let its : (Connection.shutdown true k).datapath_id ≡ d = kept ∙ same in
    (
      f,
      Connection.shutdown true k,
      ran,
      rw (posted, found) refl,
      stored,
      shut_now,
      closed,
      lowered,
      sent,
      release_lem f (Connection.shutdown true k) a d old stored its found back,
    )
