-- ===== src/Resources/Routing.antt =====
-- Routing: which pools a purpose may reach.
use dotclaude_ecosystem.Session.{Result, ok, err}
use dotclaude_ecosystem.Resources.Keys.{
  resource_key, cdp_purposes, is_cdp_purpose, known_resource_keys, role_to_resource_key,
  purpose_to_resource_key, named_key, route_unnamed, route, resolve_resource_key,
}
use mathlib.Core.Bool.{true≢false}
use dotclaude_ecosystem.Prelude.{
  String, ◌≡◌, refl, sym, ◌∙◌, subst, inl, inr, Bool, true, false, not, ◌&&◌, ◌||◌, some, List, [],
  ◌∷◌, arith, Bool-cases, Option-cases, or_default, &&-left, &&-right, ◌==◌, mem_str, get, ==→≡,
}

-- Every row of a literal table passes the test.
abbrev all_rows : List (String × String) → (String → String → Bool) → Bool
all_rows [] q = true
all_rows ((k, v) ∷ rest) q = q k v && all_rows rest q

get-all_rows :
    (table : List (String × String)) (q : String → String → Bool) (k v : String)
    → all_rows table q ≡ true
    → get table k ≡ some v
    → q k v ≡ true
get-all_rows [] q k v h e = cc
get-all_rows ((j, w) ∷ rest) q k v h e = elim (Bool-cases (k == j)) [
  | inl m ↦
      let same : some w ≡ some v = rw m at e in
      subst (λ x. q x v ≡ true) (sym (==→≡ k j m))
        (subst (λ x. q j (or_default x w) ≡ true) same (&&-left _ _ h))
  | inr m ↦ get-all_rows rest q k v (&&-right _ _ h) (rw m at e)
]

-- What a routing lands on, where it lands.
abbrev Lands : (String → Bool) → Result String → Type 0
Lands p (ok key) = p key ≡ true
Lands p (err e) = Unit

module _ (p : String → Bool) (purpose role : String) where
  route_unnamed-Lands :
      all_rows role_to_resource_key (λ k v. p v) ≡ true
      → ((key : String) → get purpose_to_resource_key purpose ≡ some key → p key ≡ true)
      → (is_cdp_purpose purpose ≡ false → p resource_key ≡ true)
      → Lands p (route_unnamed purpose role)
  unfolding route_unnamed
  route_unnamed-Lands roles purposes heavy = elim (Option-cases (get role_to_resource_key role)) [
    | inr (k, e) ↦ rw (e, Lands) (get-all_rows role_to_resource_key (λ j v. p v) role k roles e)
    | inl e ↦ elim (Option-cases (get purpose_to_resource_key purpose)) [
      | inr (k, e') ↦ rw (e, e', Lands) (purposes k e')
      | inl e' ↦ elim (Bool-cases (is_cdp_purpose purpose)) [
        | inl c ↦ rw (e, e', c, Lands) tt
        | inr c ↦ rw (e, e', c, Lands) (heavy c)
      ]
    ]
  ]

  route-Lands :
      (key : String)
      → Lands p (route_unnamed purpose role)
      → (mem_str key known_resource_keys ≡ true → not (key == "") ≡ true → p key ≡ true)
      → Lands p (route purpose role key)
  unfolding route
  route-Lands key unnamed named = elim (Bool-cases (not (key == ""))) [
    | inl e ↦ elim (Bool-cases (mem_str key known_resource_keys)) [
      | inl m ↦ rw (e, m, Lands) (named m e)
      | inr m ↦ rw (e, m, Lands) tt
    ]
    | inr e ↦ rw e unnamed
  ]

  resolve_resource_key-Lands :
      (key : String)
      → Lands p (route purpose role (named_key purpose key))
      → Lands p (resolve_resource_key purpose role key)
  unfolding resolve_resource_key
  resolve_resource_key-Lands key h =
      elim (Bool-cases ((purpose == "pytest_focused") && (key == "") && (role == ""))) [
        | inl e ↦ rw (e, Lands) tt
        | inr e ↦ rw e h
      ]

Lands-ok :
    (p : String → Bool) (m : Result String) (key : String) → Lands p m → m ≡ ok key → p key ≡ true
Lands-ok p m key h e = subst (Lands p) e h

-- Whatever is asked for, a request is only ever routed to one of the known pools.
pub resolve-known :
    (purpose role key found : String)
    → resolve_resource_key purpose role key ≡ ok found
    → mem_str found known_resource_keys ≡ true
resolve-known purpose role key found =
    Lands-ok (λ k. mem_str k known_resource_keys) _ found
      (resolve_resource_key-Lands _ purpose role key (
        route-Lands _ purpose role (named_key purpose key)
          (route_unnamed-Lands _ purpose role refl
            (λ k.
              get-all_rows purpose_to_resource_key (λ j v. mem_str v known_resource_keys) purpose k
                refl)
            (λ _. refl))
          (λ m _. m)))

abbrev off_heavy : String → Bool
off_heavy key = not (key == resource_key)

cdp-named_key :
    (purpose key : String)
    → is_cdp_purpose purpose ≡ true
    → off_heavy (named_key purpose key) ≡ true
unfolding named_key
cdp-named_key purpose key c = elim (Bool-cases (key == resource_key)) [
  | inl e ↦ rw (e, c) refl
  | inr e ↦ rw (e, e) refl
]

cdp-table :
    (purpose key : String)
    → is_cdp_purpose purpose ≡ true
    → get purpose_to_resource_key purpose ≡ some key
    → off_heavy key ≡ true
unfolding is_cdp_purpose
cdp-table purpose key c e = ground (
  arith,
  c,
  get-all_rows purpose_to_resource_key (λ j v. not (mem_str j cdp_purposes) || off_heavy v) purpose
      key refl e,
)

-- A browser purpose is never routed to the heavy pool of the host, not even when it asks for it.
pub resolve-cdp_off_heavy :
    (purpose role key found : String)
    → is_cdp_purpose purpose ≡ true
    → resolve_resource_key purpose role key ≡ ok found
    → not (found == resource_key) ≡ true
resolve-cdp_off_heavy purpose role key found c = Lands-ok off_heavy _ found (
    resolve_resource_key-Lands _ purpose role key (
      route-Lands _ purpose role (named_key purpose key)
        (route_unnamed-Lands _ purpose role refl (λ k. cdp-table purpose k c)
          (λ n. absurd (true≢false (sym c ∙ n))))
        (λ _ _. cdp-named_key purpose key c)))
