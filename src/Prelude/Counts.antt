-- ===== src/Prelude/Counts.antt =====
-- How a row count changes when rows are appended, updated or deleted.
use Prim.Native.Nat.{ℕ, ◌+◌, ◌≤◌, ◌<◌}
use mathlib.Core.Path.{◌≡◌, refl, ap, ◌∙◌}
use mathlib.Core.Logic.{inl, inr}
use mathlib.Core.Bool.{Bool, true, false, ◌&&◌, ◌||◌}
use mathlib.Core.Option.{some}
use mathlib.Core.List.{List, [], ◌∷◌, ◌++◌}
use native.Mathlib.Omega.{arith}
use dotclaude_ecosystem.Prelude.Tests.{if◌then◌else◌, Bool-cases}
use dotclaude_ecosystem.Prelude.Tables.{
  count, update, delete, any, first, select, insert_by, order_by,
}

-- One row's share of a count.
abbrev pub tally : Bool → ℕ
tally b = if b then 1 else 0

pub tally_mono : (a b : Bool) → (a ≡ true → b ≡ true) → tally a ≤ tally b
tally_mono true b h = ground (arith, h refl)
tally_mono false b h = ground arith

module _ {ℓ} {A : Type ℓ} where
  pub count-append : (p : A → Bool) (xs ys : List A) → count p (xs ++ ys) ≡ count p xs + count p ys
  unfolding count
  count-append p [] ys = omega arith
  count-append p (x ∷ xs) ys = omega (arith, count-append p xs ys)

  pub count-snoc :
      (p : A → Bool) (xs : List A) (x : A) → count p (xs ++ x ∷ []) ≡ count p xs + tally (p x)
  unfolding count
  count-snoc p [] x = omega arith
  count-snoc p (y ∷ xs) x = omega (arith, count-snoc p xs x)

  -- An update after which no row counts that did not count before.
  pub count-update-le :
      (q p : A → Bool) (f : A → A) (xs : List A)
      → ((x : A) → p x ≡ true → q (f x) ≡ true → q x ≡ true)
      → count q (update p f xs) ≤ count q xs
  unfolding count update
  count-update-le q p f [] h = omega arith
  count-update-le q p f (x ∷ xs) h = elim (Bool-cases (p x)) [
    | inl e ↦ rw e (omega (arith, tally_mono (q (f x)) (q x) (h x e), count-update-le q p f xs h))
    | inr e ↦ rw e (omega (arith, count-update-le q p f xs h))
  ]

  -- An update that changes no row's share leaves the count.
  pub count-update_same :
      (q p : A → Bool) (f : A → A) (xs : List A)
      → ((x : A) → p x ≡ true → q (f x) ≡ q x)
      → count q (update p f xs) ≡ count q xs
  unfolding count update
  count-update_same q p f [] h = refl
  count-update_same q p f (x ∷ xs) h = elim (Bool-cases (p x)) [
    | inl e ↦ rw (e, h x e) (ap (λ n. tally (q x) + n) (count-update_same q p f xs h))
    | inr e ↦ rw e (ap (λ n. tally (q x) + n) (count-update_same q p f xs h))
  ]

  -- An update adds at most as many rows to a count as it touches.
  pub count-update-add :
      (q p : A → Bool) (f : A → A) (xs : List A) → count q (update p f xs) ≤ count q xs + count p xs
  unfolding count update
  count-update-add q p f [] = omega arith
  count-update-add q p f (x ∷ xs) = ground (arith, count-update-add q p f xs)

  pub count-delete-le : (q p : A → Bool) (xs : List A) → count q (delete p xs) ≤ count q xs
  unfolding count delete
  count-delete-le q p [] = omega arith
  count-delete-le q p (x ∷ xs) = ground (arith, count-delete-le q p xs)

  pub count_imp :
      (q p : A → Bool) (xs : List A) → ((x : A) → p x ≡ true → q x ≡ true) → count p xs ≤ count q xs
  unfolding count
  count_imp q p [] h = omega arith
  count_imp q p (x ∷ xs) h = omega (arith, tally_mono (p x) (q x) (h x), count_imp q p xs h)

  pub any-false→count : (p : A → Bool) (xs : List A) → any p xs ≡ false → count p xs ≡ 0
  unfolding any count
  any-false→count p [] h = refl
  any-false→count p (x ∷ xs) h = ground (arith, any-false→count p xs)

  pub count-zero→any : (p : A → Bool) (xs : List A) → count p xs ≡ 0 → any p xs ≡ false
  unfolding any count
  count-zero→any p [] h = refl
  count-zero→any p (x ∷ xs) h = ground (arith, count-zero→any p xs)

  -- What fetchone() returns meets the WHERE clause.
  pub first-holds : (p : A → Bool) (xs : List A) (x : A) → first p xs ≡ some x → p x ≡ true
  unfolding first
  first-holds p [] x h = cc
  first-holds p (y ∷ xs) x h = elim (Bool-cases (p y)) [
    | inl e ↦ ground (arith, e)
    | inr e ↦ ground (arith, e, first-holds p xs x)
  ]

  -- A row that fetchone() returns is one of the table's.
  pub first-count :
      (p s : A → Bool) (xs : List A) (x : A) → first p xs ≡ some x → s x ≡ true → 0 < count s xs
  unfolding first count
  first-count p s [] x h k = cc
  first-count p s (y ∷ xs) x h k = ground (arith, h, k, first-count p s xs x)

  count-insert_by :
      (before : A → A → Bool) (s : A → Bool) (x : A) (xs : List A)
      → count s (insert_by before x xs) ≡ tally (s x) + count s xs
  unfolding count insert_by
  count-insert_by before s x [] = refl
  count-insert_by before s x (y ∷ ys) = ground (arith, count-insert_by before s x ys)

  -- ORDER BY neither drops nor adds a row.
  pub count-order_by :
      (before : A → A → Bool) (s : A → Bool) (xs : List A)
      → count s (order_by before xs) ≡ count s xs
  unfolding count order_by
  count-order_by before s [] = refl
  count-order_by before s (x ∷ xs) =
      count-insert_by before s x (order_by before xs)
      ∙ ap (λ n. tally (s x) + n) (count-order_by before s xs)

  pub count-select-le : (s p : A → Bool) (xs : List A) → count s (select p xs) ≤ count s xs
  unfolding count select
  count-select-le s p [] = omega arith
  count-select-le s p (x ∷ xs) = ground (arith, count-select-le s p xs)

  -- No selected row fails the WHERE clause.
  pub count-select-zero :
      (s p : A → Bool) (xs : List A)
      → ((x : A) → p x ≡ true → s x ≡ false)
      → count s (select p xs) ≡ 0
  unfolding count select
  count-select-zero s p [] h = refl
  count-select-zero s p (x ∷ xs) h = ground (arith, h x, count-select-zero s p xs h)

  -- An update adds to a count at most the touched rows that meet a condition `s`.
  pub count-update-add_where :
      (q p s : A → Bool) (f : A → A) (xs : List A)
      → ((x : A) → p x ≡ true → q (f x) ≡ true → s x ≡ true)
      → count q (update p f xs) ≤ count q xs + count (λ x. p x && s x) xs
  unfolding count update
  count-update-add_where q p s f [] h = omega arith
  count-update-add_where q p s f (x ∷ xs) h =
      ground (arith, h x, count-update-add_where q p s f xs h)

  -- Two exclusive conditions share a count.
  pub count-split-le :
      (p s t : A → Bool) (xs : List A)
      → ((x : A) → s x ≡ true → t x ≡ false)
      → count (λ x. p x && s x) xs + count (λ x. p x && t x) xs ≤ count p xs
  unfolding count
  count-split-le p s t [] h = omega arith
  count-split-le p s t (x ∷ xs) h = ground (arith, h x, count-split-le p s t xs h)

  pub any-or-left :
      (p q : A → Bool) (xs : List A) → any (λ x. p x || q x) xs ≡ false → any p xs ≡ false
  unfolding any
  any-or-left p q [] h = refl
  any-or-left p q (x ∷ xs) h = ground (arith, h, any-or-left p q xs)
