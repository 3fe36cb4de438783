-- ===== src/Engine/Links.antt =====
-- The invariant of the engine of src/ofp/sys/engine.cpp, in terms of what connections refer to.
pub mod Attach
pub mod Detach
pub mod Remove
use libofp.Base.{
  ℕ, zero, suc, ◌+◌, ◌-◌, ◌<◌, ◌≤◌, ◌≡◌, ◌≢◌, ◌⊎◌, Bool, true, false, List, [], ◌∷◌, ◌++◌, Option,
  none, some, arith, ◌==◌, if◌then◌else◌, refl, ◌∙◌, ap, sym, Bool-cases, inl, inr,
}
use libofp.Engine.{put, without}

-- What the registries and the other connections depend on
pub record Links : Type 0 where
  pub id : ℕ
  pub dpid : ℕ
  pub aux : ℕ
  pub main : ℕ
  pub auxs : List ℕ
  pub manual : Bool

abbrev pub View : Type 0
View = ℕ → Option Links

abbrev pub count : ℕ → List ℕ → ℕ
count b [] = 0
count b (x ∷ xs) = if b == x then suc (count b xs) else count b xs

-- The connections of a list exist, and their numbers ascend from above `lo`.
abbrev pub Ascending : View → ℕ → List ℕ → Type 0
Ascending V lo [] = Unit
Ascending V lo (x ∷ xs) = (l : Links) × (V x ≡ some l) × (lo < l.id) × Ascending V l.id xs

-- Numbers are unique and were assigned, connections that the engine refers to exist, and a
-- connection and its auxiliary connections refer to one another.
pub record IsLinked (V : View) (last : ℕ) (list : List ℕ) (map : ℕ → Option ℕ) : Type 0 where
  pub ids : (a : ℕ) (l : Links) → V a ≡ some l → (0 < l.id) × (l.id ≤ last) × (l.manual ≡ false)
  pub unique : (a b : ℕ) (l k : Links) → V a ≡ some l → V b ≡ some k → l.id ≡ k.id → a ≡ b
  pub listed : Ascending V 0 list
  pub mapped :
      (d p : ℕ)
      → map d ≡ some p
      → (l : Links) × (V p ≡ some l) × (l.dpid ≡ d) × (l.aux ≡ 0) × (l.main ≡ p) × (d ≢ 0)
  pub member :
      (a b : ℕ) (l : Links)
      → V a ≡ some l
      → 0 < count b l.auxs
      → (k : Links) × (V b ≡ some k) × (k.main ≡ a) × (b ≢ a) × (count b l.auxs ≤ 1)
  pub attached :
      (a : ℕ) (l : Links)
      → V a ≡ some l
      → l.main ≢ a
      → (m : Links) × (V l.main ≡ some m) × (0 < count a m.auxs) × (l.auxs ≡ [])
  pub unposted : (a : ℕ) (l : Links) → V a ≡ some l → l.dpid ≡ 0 → (l.main ≡ a) × (l.auxs ≡ [])

abbrev pub new_links : ℕ → ℕ → Links
new_links a id = record { id = id; dpid = 0; aux = 0; main = a; auxs = []; manual = false }

module _ {ℓ} {A : Type ℓ} (a : ℕ) (v : A) (f : ℕ → A) where
  pub put_self : put a v f a ≡ v
  put_self = ground arith

  pub put-other : (b : ℕ) → a ≢ b → put a v f b ≡ f b
  put-other b h = ground arith

-- What a view holds after a change at an address
pub put-some :
    (V : View) (a : ℕ) (v : Links) (b : ℕ) (l : Links)
    → put a (some v) V b ≡ some l
    → ((a ≡ b) × (v ≡ l)) ⊎ ((a ≢ b) × (V b ≡ some l))
put-some V a v b l h = elim (Bool-cases (a == b)) [
  | inl e ↦ inl (ground arith, ground arith)
  | inr e ↦ inr (ground arith, ground arith)
]

pub put-live :
    (V : View) (a : ℕ) (v : Option Links) (b : ℕ) (l : Links)
    → V a ≡ none
    → V b ≡ some l
    → put a v V b ≡ some l
put-live V a v b l n h = ground arith

Ascending-snoc :
    (V : View) (lo last : ℕ) (xs : List ℕ) (a : ℕ) (l : Links)
    → ((b : ℕ) (k : Links) → V b ≡ some k → k.id ≤ last)
    → lo ≤ last
    → Ascending V lo xs
    → V a ≡ none
    → last < l.id
    → Ascending (put a (some l) V) lo (xs ++ (a ∷ []))
Ascending-snoc V lo last [] a l small le h n lt = (l, put_self a (some l) V, omega arith, tt)
Ascending-snoc V lo last (x ∷ xs) a l small le (k, e, lo_lt, h) n lt = (
  k,
  put-live V a (some l) x k n e,
  lo_lt,
  Ascending-snoc V k.id last xs a l small (small x k e) h n lt,
)

module _ {V : View} {last : ℕ} {list : List ℕ} {map : ℕ → Option ℕ} (i : IsLinked V last list map)
    (a : ℕ) where
  pub create-IsLinked :
      V a ≡ none
      → IsLinked (put a (some (new_links a (last + 1))) V) (last + 1) (list ++ (a ∷ [])) map
  create-IsLinked n = record {
    ids = λ b l e. ground (arith, i.ids b l);
    unique = λ b c l k e f h. ground (arith, i.unique b c l k, i.ids b l, i.ids c k);
    listed =
        Ascending-snoc V 0 last list a v (λ b k e. (i.ids b k e).1) (omega arith) i.listed n
          (omega arith);
    mapped = λ d p e.
        let r = i.mapped d p e in (r.0, put-live V a (some v) p r.0 n r.1, r.2, r.3, r.4, r.5);
    member = λ b c l e h. elim (put-some V a v b l e) [
      | inl (p, q) ↦ absurd (omega (arith, ap (λ l. count c l.auxs) q))
      | inr (p, q) ↦
          let r = i.member b c l q h in (r.0, put-live V a (some v) c r.0 n r.1, r.2, r.3, r.4)
    ];
    attached = λ b l e h. elim (put-some V a v b l e) [
      | inl (p, q) ↦ absurd (h (ground arith))
      | inr (p, q) ↦
          let r = i.attached b l q h in (r.0, put-live V a (some v) l.main r.0 n r.1, r.2, r.3)
    ];
    unposted = λ b l e h. ground (arith, i.unposted b l);
  }
    where
      v : Links
      v = new_links a (last + 1)

pub same_links : (V : View) {a b : ℕ} {l k : Links} → a ≡ b → V a ≡ some l → V b ≡ some k → l ≡ k
same_links V h e f = ground arith

-- A change keeps the connections with their numbers.
pub record KeepsIds (V W : View) : Type 0 where
  pub onto : (b : ℕ) (k : Links) → V b ≡ some k → (l : Links) × (W b ≡ some l) × (l.id ≡ k.id)
  pub back :
      (b : ℕ) (l : Links)
      → W b ≡ some l
      → (k : Links) × (V b ≡ some k) × (l.id ≡ k.id) × (l.manual ≡ k.manual)

pub KeepsIds-put :
    (V : View) (a : ℕ) (l v : Links)
    → V a ≡ some l
    → v.id ≡ l.id
    → v.manual ≡ l.manual
    → KeepsIds V (put a (some v) V)
KeepsIds-put V a l v e same manual = record {
  onto = λ b k f. elim (Bool-cases (a == b)) [
    | inl q ↦ (v, ground arith, ground arith)
    | inr q ↦ (k, ground arith, refl)
  ];
  back = λ b m f. elim (put-some V a v b m f) [
    | inl (q, r) ↦ (l, ground arith, ground arith, ground arith)
    | inr (q, r) ↦ (m, r, refl, refl)
  ];
}

pub KeepsIds-trans : {V W X : View} → KeepsIds V W → KeepsIds W X → KeepsIds V X
KeepsIds-trans s t = record {
  onto = λ b k f. let r = s.onto b k f in let q = t.onto b r.0 r.1 in (q.0, q.1, q.2 ∙ r.2);
  back =
      λ b l f. let r = t.back b l f in let q = s.back b r.0 r.1 in (q.0, q.1, r.2 ∙ q.2, r.3 ∙ q.3);
}

pub Ascending-kept :
    {V W : View} (lo : ℕ) (xs : List ℕ) → KeepsIds V W → Ascending V lo xs → Ascending W lo xs
Ascending-kept lo [] s h = tt
Ascending-kept {V} {W} lo (x ∷ xs) s (l, e, lt, h) =
    let r = s.onto x l e in (r.0, r.1, omega (arith, r.2), rw r.2 (Ascending-kept l.id xs s h))

module _ {V W : View} {last : ℕ} {list : List ℕ} {map : ℕ → Option ℕ} (i : IsLinked V last list map)
    (s : KeepsIds V W) where
  pub ids-kept :
      (b : ℕ) (l : Links) → W b ≡ some l → (0 < l.id) × (l.id ≤ last) × (l.manual ≡ false)
  ids-kept b l e =
      let r = s.back b l e in
      let q = i.ids b r.0 r.1 in (omega (arith, r.2, q.0), omega (arith, r.2, q.1), r.3 ∙ q.2)

  pub unique-kept : (a b : ℕ) (l k : Links) → W a ≡ some l → W b ≡ some k → l.id ≡ k.id → a ≡ b
  unique-kept a b l k e f h =
      let r = s.back a l e in
      let q = s.back b k f in i.unique a b r.0 q.0 r.1 q.1 (sym r.2 ∙ h ∙ q.2)
