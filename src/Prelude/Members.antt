-- ===== src/Prelude/Members.antt =====
-- Membership in what a SELECT, an ORDER BY and an EXISTS read.
use mathlib.Core.Path.{◌≡◌, refl, sym, ap, ◌∙◌, subst}
use mathlib.Core.Bool.{Bool, true, false, ◌||◌}
use mathlib.Core.Logic.{inl, inr}
use mathlib.Core.List.{List, [], ◌∷◌, Memᴰ}
use mathlib.Core.List.Memᴰ.{head, tail}
use native.Mathlib.Omega.{arith}
use dotclaude_ecosystem.Prelude.Tests.{Bool-cases}
use dotclaude_ecosystem.Prelude.Counts.{count-zero→any}
use dotclaude_ecosystem.Prelude.Tables.{any, count, select, insert_by, order_by}

or-right : (a b : Bool) → a ≡ false → (a || b) ≡ true → b ≡ true
or-right a b e h = ground (arith, e, h)

module _ {ℓ} {A : Type ℓ} where
  pub from_select :
      (p : A → Bool) {x : A} (xs : List A) → Memᴰ x (select p xs) → Memᴰ x xs × (p x ≡ true)
  unfolding select
  from_select p [] m = elim m [ ]
  from_select p {x} (y ∷ ys) m = elim (Bool-cases (p y)) [
    | inl e ↦ kept (from_select p ys) e (subst (λ l. Memᴰ x l) (rw e refl) m)
    | inr e ↦ later (from_select p ys (subst (λ l. Memᴰ x l) (rw e refl) m))
  ]
    where
      later : Memᴰ x ys × (p x ≡ true) → Memᴰ x (y ∷ ys) × (p x ≡ true)
      later (m, h) = (tail m, h)

      kept :
          (Memᴰ x (select p ys) → Memᴰ x ys × (p x ≡ true))
          → p y ≡ true
          → Memᴰ x (y ∷ select p ys)
          → Memᴰ x (y ∷ ys) × (p x ≡ true)
      kept ih e (head h) = (head h, ap p h ∙ e)
      kept ih e (tail m) = later (ih m)

  pub into_select :
      (p : A → Bool) {x : A} {xs : List A} → Memᴰ x xs → p x ≡ true → Memᴰ x (select p xs)
  unfolding select
  into_select p {xs = []} m h = elim m [ ]
  into_select p {xs = y ∷ ys} (head e) h = rw (sym (ap p e) ∙ h) (head e)
  into_select p {xs = y ∷ ys} (tail m) h = elim (Bool-cases (p y)) [
    | inl e ↦ rw e (tail (into_select p m h))
    | inr e ↦ rw e (into_select p m h)
  ]

  pub any-true : (p : A → Bool) {x : A} {xs : List A} → Memᴰ x xs → p x ≡ true → any p xs ≡ true
  unfolding any
  any-true p {xs = []} m h = elim m [ ]
  any-true p {xs = y ∷ ys} (head e) h = ground (arith, h, ap p e)
  any-true p {xs = y ∷ ys} (tail m) h = ground (arith, any-true p m h)

  pub any-false : (p : A → Bool) {x : A} {xs : List A} → any p xs ≡ false → Memᴰ x xs → p x ≡ false
  any-false p {x} h m = elim (Bool-cases (p x)) [ inl e ↦ cc (any-true p m e, h) | inr e ↦ e ]

  pub any-witness :
      (p : A → Bool) (xs : List A) → any p xs ≡ true → (x : A) × Memᴰ x xs × (p x ≡ true)
  unfolding any
  any-witness p [] h = cc
  any-witness p (y ∷ ys) h = elim (Bool-cases (p y)) [
    | inl e ↦ (y, head refl, e)
    | inr e ↦ further (any-witness p ys (or-right (p y) (any p ys) e h))
  ]
    where
      further : (x : A) × Memᴰ x ys × (p x ≡ true) → (x : A) × Memᴰ x (y ∷ ys) × (p x ≡ true)
      further (x, m, e) = (x, tail m, e)

  from_insert_by :
      (before : A → A → Bool) (z : A) {x : A} (xs : List A)
      → Memᴰ x (insert_by before z xs)
      → Memᴰ x (z ∷ xs)
  unfolding insert_by
  from_insert_by before z [] m = m
  from_insert_by before z {x} (y ∷ ys) m = elim (Bool-cases (before y z)) [
    | inl e ↦ past (from_insert_by before z ys) (subst (λ l. Memᴰ x l) (rw e refl) m)
    | inr e ↦ subst (λ l. Memᴰ x l) (rw e refl) m
  ]
    where
      swap : Memᴰ x (z ∷ ys) → Memᴰ x (z ∷ y ∷ ys)
      swap (head e) = head e
      swap (tail m) = tail (tail m)

      past :
          (Memᴰ x (insert_by before z ys) → Memᴰ x (z ∷ ys))
          → Memᴰ x (y ∷ insert_by before z ys)
          → Memᴰ x (z ∷ y ∷ ys)
      past ih (head e) = tail (head e)
      past ih (tail m) = swap (ih m)

  pub from_order_by :
      (before : A → A → Bool) {x : A} (xs : List A) → Memᴰ x (order_by before xs) → Memᴰ x xs
  unfolding order_by
  from_order_by before [] m = m
  from_order_by before {x} (y ∷ ys) m =
      step (from_order_by before ys) (from_insert_by before y (order_by before ys) m)
    where
      step :
          (Memᴰ x (order_by before ys) → Memᴰ x ys)
          → Memᴰ x (y ∷ order_by before ys)
          → Memᴰ x (y ∷ ys)
      step ih (head e) = head e
      step ih (tail m) = tail (ih m)

  into_insert_by :
      (before : A → A → Bool) (z : A) {x : A} (xs : List A)
      → Memᴰ x (z ∷ xs)
      → Memᴰ x (insert_by before z xs)
  unfolding insert_by
  into_insert_by before z [] m = m
  into_insert_by before z {x} (y ∷ ys) m = elim (Bool-cases (before y z)) [
    | inl e ↦ rw e (past (into_insert_by before z ys) m)
    | inr e ↦ rw e m
  ]
    where
      past :
          (Memᴰ x (z ∷ ys) → Memᴰ x (insert_by before z ys))
          → Memᴰ x (z ∷ y ∷ ys)
          → Memᴰ x (y ∷ insert_by before z ys)
      past ih (head e) = tail (ih (head e))
      past ih (tail (head e)) = head e
      past ih (tail (tail m)) = tail (ih (tail m))

  pub into_order_by :
      (before : A → A → Bool) {x : A} (xs : List A) → Memᴰ x xs → Memᴰ x (order_by before xs)
  unfolding order_by
  into_order_by before [] m = m
  into_order_by before (y ∷ ys) (head e) = into_insert_by before y (order_by before ys) (head e)
  into_order_by before (y ∷ ys) (tail m) =
      into_insert_by before y (order_by before ys) (tail (into_order_by before ys m))

  pub count-none :
      (p : A → Bool) (xs : List A) → ((x : A) → Memᴰ x xs → p x ≡ false) → count p xs ≡ 0
  unfolding count
  count-none p [] h = refl
  count-none p (x ∷ xs) h = ground (arith, h x (head refl), count-none p xs (λ y m. h y (tail m)))

  pub none-counted : (p : A → Bool) {x : A} {xs : List A} → count p xs ≡ 0 → Memᴰ x xs → p x ≡ false
  none-counted p {xs = xs} h m = any-false p (count-zero→any p xs h) m
