-- ===== src/Truthdeck/Evidence.antt =====
-- What the index of facts that the gates read holds.
use dotclaude_ecosystem.Model.{Stamp, at, unreadable}
use dotclaude_ecosystem.Truthdeck.{
  stale, conflict, Fact, usable, same_repr, Value, null, boolean, number, negative, text,
}
use dotclaude_ecosystem.Truthdeck.Evaluate.{
  freshened, freshen, prepend, each, concerns, same_evidence, several, eligible_of, last_of, agreed,
  resolve_group, resolve_index,
}
use mathlib.Core.List.Memᴰ.{head, tail}
use dotclaude_ecosystem.Prelude.Members.{from_select, into_select, any-false}
use dotclaude_ecosystem.Prelude.{
  ℕ, ◌<◌, String, ◌≡◌, refl, sym, ap, ◌∙◌, subst, inl, inr, Bool, true, false, not, Option, none,
  some, List, [], ◌∷◌, arith, leb, if◌then◌else◌, leb-false→lt, Bool-cases, select, ◌==◌, eq_refl,
  Memᴰ,
}

-- A fact that is observed or derived, that `evaluate` found fresh, and with which every usable
-- fact of its key agrees.
pub record IsEvidence (facts : List Fact) (key : String) (x : Fact) : Type 0 where
  pub listed : Memᴰ x facts
  pub of_key : (x.key == key) ≡ true
  pub is_usable : usable x.state ≡ true
  pub agreeing :
      (y : Fact)
      → Memᴰ y facts
      → (y.key == key) ≡ true
      → usable y.state ≡ true
      → same_evidence x y ≡ true

last_of-Memᴰ : (x : Fact) (xs : List Fact) → Memᴰ (last_of x xs) (x ∷ xs)
last_of-Memᴰ x [] = head refl
last_of-Memᴰ x (y ∷ ys) = tail (last_of-Memᴰ y ys)

none_usable : (xs : List Fact) (y : Fact) → eligible_of xs ≡ [] → Memᴰ y xs → usable y.state ≡ false
none_usable xs y e m = elim (Bool-cases (usable y.state)) [
  | inl u ↦ elim (subst (λ l. Memᴰ y l) e (into_select (λ x. usable x.state) m u)) [ ]
  | inr u ↦ u
]

not-false : (b : Bool) → not b ≡ false → b ≡ true
not-false true h = refl
not-false false h = cc

not-several :
    (e : Fact) (es : List Fact) (y : Fact)
    → same_evidence e e ≡ true
    → several (e ∷ es) ≡ false
    → Memᴰ y (e ∷ es)
    → same_evidence e y ≡ true
unfolding several
not-several e es y r h (head q) = subst (λ z. same_evidence e z ≡ true) (sym q) r
not-several e es y r h (tail m) = not-false _ (any-false (λ y. not (same_evidence e y)) h m)

some_inj : {a b : Fact} → some a ≡ some b → a ≡ b
some_inj h = cc h

pub same_repr_refl : (v : Value) → same_repr v v ≡ true
unfolding same_repr
same_repr_refl null = refl
same_repr_refl (boolean b) = ground arith
same_repr_refl (number n) = ground arith
same_repr_refl (negative n) = ground arith
same_repr_refl (text s) = eq_refl s

pub same_evidence_refl : (e : Fact) → same_evidence e e ≡ true
same_evidence_refl e = rw (eq_refl e.evidence_sha256, same_repr_refl e.value) refl

agreed-usable :
    (x : Fact) (xs es : List Fact) (y : Fact)
    → eligible_of (x ∷ xs) ≡ es
    → agreed x xs es ≡ y
    → usable y.state ≡ true
    → Memᴰ y es × ((z : Fact) → Memᴰ z es → same_evidence y z ≡ true)
agreed-usable x xs [] y e q u = cc (
  subst (λ z. usable z.state ≡ false) q (none_usable (x ∷ xs) (last_of x xs) e (last_of-Memᴰ x xs)),
  u,
)
agreed-usable x xs (e ∷ es) y l q u = elim (Bool-cases (several (e ∷ es))) [
  | inl s ↦ cc (
    ap (λ z. usable z.state)
        (subst (λ b. (if b then record e { value = null; state = conflict } else e) ≡ y) s q),
    u,
  )
  | inr s ↦
      let k : e ≡ y =
        subst (λ b. (if b then record e { value = null; state = conflict } else e) ≡ y) s q in
      (
        head (sym k),
        λ z m.
            subst (λ v. same_evidence v z ≡ true) k (not-several e es z (same_evidence_refl e) s m),
      )
]

-- A usable entry of the index is evidence.
pub resolve_index-IsEvidence :
    (facts : List Fact) (key : String) (x : Fact)
    → resolve_index facts key ≡ some x
    → usable x.state ≡ true
    → IsEvidence facts key x
unfolding resolve_index
resolve_index-IsEvidence facts key x h u = grouped (select (λ y. y.key == key) facts) refl h
  where
    found :
        (group : List Fact)
        → select (λ y. y.key == key) facts ≡ group
        → Memᴰ x (eligible_of group)
          × ((z : Fact) → Memᴰ z (eligible_of group) → same_evidence x z ≡ true)
        → IsEvidence facts key x
    found group e (m, agree) =
        let c = from_select (λ z. usable z.state) group m in
        let d = from_select (λ y. y.key == key) facts (subst (λ l. Memᴰ x l) (sym e) (c.0)) in
        record {
          listed = d.0;
          of_key = d.1;
          is_usable = u;
          agreeing = λ y l k v. agree y (
              into_select (λ z. usable z.state)
                (subst (λ l. Memᴰ y l) e (into_select (λ y. y.key == key) l k)) v);
        }

    grouped :
        (group : List Fact)
        → select (λ y. y.key == key) facts ≡ group
        → resolve_group group ≡ some x
        → IsEvidence facts key x
    grouped [] e h = cc h
    grouped (y ∷ ys) e h =
        found (y ∷ ys) e (agreed-usable y ys (eligible_of (y ∷ ys)) x refl (some_inj h) u)

-- `x` may still be used at the instant `now`.
unfoldable pub IsTimely : Option ℕ → Fact → Type 0
IsTimely none x = Unit
IsTimely (some now) x = (t : ℕ) → x.fresh_until_utc ≡ some (at t) → now < t

freshen-IsTimely :
    (now : Option ℕ) (y x : Fact)
    → freshen now y ≡ some x
    → usable x.state ≡ true
    → (x ≡ y) × IsTimely now x
unfolding freshen IsTimely
freshen-IsTimely none y x h u = (sym (some_inj h), tt)
freshen-IsTimely (some now) y x h u = at_stamp y.fresh_until_utc refl h
  where
    kept :
        (t : ℕ) (b : Bool)
        → leb t now ≡ b
        → y.fresh_until_utc ≡ some (at t)
        → (if b then record y { state = stale } else y) ≡ x
        → (x ≡ y) × IsTimely (some now) x
    kept t true l e k = cc (ap (λ z. usable z.state) k, u)
    kept t false l e k = (
      sym k,
      λ s q.
          subst (λ r. now < r) (same_time t s (sym e ∙ ap (λ z. z.fresh_until_utc) k ∙ q))
            (leb-false→lt t now l),
    )
      where
        same_time : (a b : ℕ) → some (at a) ≡ some (at b) → a ≡ b
        same_time a b h = cc h

    at_stamp :
        (o : Option Stamp)
        → y.fresh_until_utc ≡ o
        → freshened now y o ≡ some x
        → (x ≡ y) × IsTimely (some now) x
    at_stamp none e k =
        (sym (some_inj k), λ t q. cc (sym e ∙ ap (λ z. z.fresh_until_utc) (some_inj k) ∙ q))
    at_stamp (some (at t)) e k = kept t (leb t now) refl e (some_inj k)
    at_stamp (some unreadable) e k = cc k

prepend-some :
    {B : Type 0} (o : Option B) (p : Option (List B)) (ys : List B)
    → prepend o p ≡ some ys
    → (z : B) × (zs : List B) × (o ≡ some z) × (p ≡ some zs) × (ys ≡ z ∷ zs)
prepend-some none p ys h = cc h
prepend-some (some z) none ys h = cc h
prepend-some (some z) (some zs) ys h = (z, zs, refl, refl, cc h)

module _ {A B : Type 0} where
  -- A member of the result comes from one of the list.
  pub each-Memᴰ :
      (f : A → Option B) (xs : List A) (ys : List B) (y : B)
      → each f xs ≡ some ys
      → Memᴰ y ys
      → (x : A) × Memᴰ x xs × (f x ≡ some y)
  unfolding each
  each-Memᴰ f [] ys y h m = nothing (cc h)
    where
      nothing : ys ≡ [] → (x : A) × Memᴰ x [] × (f x ≡ some y)
      nothing e = elim (subst (λ l. Memᴰ y l) e m) [ ]
  each-Memᴰ f (x ∷ xs) ys y h m = step (each-Memᴰ f xs) (prepend-some (f x) (each f xs) ys h)
    where
      later : (z : A) × Memᴰ z xs × (f z ≡ some y) → (z : A) × Memᴰ z (x ∷ xs) × (f z ≡ some y)
      later (z, k, e) = (z, tail k, e)

      at_place :
          (z : B) (zs : List B)
          → (Memᴰ y zs → (w : A) × Memᴰ w xs × (f w ≡ some y))
          → f x ≡ some z
          → Memᴰ y (z ∷ zs)
          → (w : A) × Memᴰ w (x ∷ xs) × (f w ≡ some y)
      at_place z zs ih e (head q) = (x, head refl, e ∙ ap some (sym q))
      at_place z zs ih e (tail k) = later (ih k)

      step :
          ((zs : List B) (w : B)
            → each f xs ≡ some zs
            → Memᴰ w zs
            → (v : A) × Memᴰ v xs × (f v ≡ some w))
          → (z : B) × (zs : List B) × (f x ≡ some z) × (each f xs ≡ some zs) × (ys ≡ z ∷ zs)
          → (w : A) × Memᴰ w (x ∷ xs) × (f w ≡ some y)
      step ih (z, zs, e, k, q) = at_place z zs (λ n. ih zs y k n) e (subst (λ l. Memᴰ y l) q m)

-- A usable entry of the index that the gates of `repo` read is evidence: one of the given facts of
-- that repository or of none, still fresh, and no other usable fact of its key disagrees.
pub fresh_index-IsEvidence :
    (now : Option ℕ) (facts fresh : List Fact) (repo : Option String) (key : String) (x : Fact)
    → each (freshen now) (select (concerns repo) facts) ≡ some fresh
    → resolve_index fresh key ≡ some x
    → usable x.state ≡ true
    → IsEvidence fresh key x × Memᴰ x facts × (concerns repo x ≡ true) × IsTimely now x
fresh_index-IsEvidence now facts fresh repo key x h r u =
    let k = resolve_index-IsEvidence fresh key x r u in
    origin k (each-Memᴰ (freshen now) (select (concerns repo) facts) fresh x h (k.listed))
  where
    origin :
        IsEvidence fresh key x
        → (y : Fact) × Memᴰ y (select (concerns repo) facts) × (freshen now y ≡ some x)
        → IsEvidence fresh key x × Memᴰ x facts × (concerns repo x ≡ true) × IsTimely now x
    origin k (y, m, e) =
        let q = freshen-IsTimely now y x e u in
        let c =
          from_select (concerns repo) facts
            (subst (λ z. Memᴰ z (select (concerns repo) facts)) (sym (q.0)) m) in
        (k, c.0, c.1, q.1)
