-- ===== src/Prelude/Orders.antt =====
-- The order of texts, and what a sort by a strict order puts first.
use Prim.Native.Nat.{ℕ, Ordering, compare as compare_ℕ}
use Prim.Native.String.compare
use Prim.Native.String.{String, [], ◌∷◌, then, compare}
use Prim.Native.Char.{Char, code}
use mathlib.Core.Path.{◌≡◌, refl, sym, ap, ◌∙◌, subst}
use mathlib.Core.Bool.{Bool, true, false, ◌&&◌, ◌||◌}
use mathlib.Core.Logic.{inl, inr}
use mathlib.Core.List.{List, [] as nil, ◌∷◌ as cons}
use native.Mathlib.Omega.{arith}
use text.Mathlib.Text.{is_lt, is_eq}
use dotclaude_ecosystem.Prelude.Tests.{ltb, eqb, Bool-cases}
use dotclaude_ecosystem.Prelude.Tables.{any, insert_by, order_by}
use dotclaude_ecosystem.Prelude.Texts.{str_ltb}

then-lt : (p o : Ordering) → is_lt ((then) p o) ≡ (is_lt p || is_eq p && is_lt o)
then-lt Ordering.lt o = refl
then-lt Ordering.eq o = refl
then-lt Ordering.gt o = refl

str_ltb-cons :
    (c d : Char) (s t : String)
    → str_ltb (c ∷ s) (d ∷ t) ≡ (ltb (code c) (code d) || eqb (code c) (code d) && str_ltb s t)
str_ltb-cons c d s t =
    ap is_lt (compare.cons-cons c d s t) ∙ then-lt (compare_ℕ (code c) (code d)) (compare s t)

str_ltb-empty : (d : Char) (t : String) → str_ltb [] (d ∷ t) ≡ true
str_ltb-empty d t = ap is_lt (compare.nil-cons d t)

str_ltb-of_empty : (s : String) → str_ltb s [] ≡ false
str_ltb-of_empty [] = ap is_lt compare.nil-nil
str_ltb-of_empty (c ∷ s) = ap is_lt (compare.cons-nil c s)

pub str_ltb-asym : (a b : String) → str_ltb a b ≡ true → str_ltb b a ≡ false
str_ltb-asym [] b h = str_ltb-of_empty b
str_ltb-asym (c ∷ s) [] h = cc (str_ltb-of_empty (c ∷ s))
str_ltb-asym (c ∷ s) (d ∷ t) h =
    ground (arith, h, str_ltb-cons c d s t, str_ltb-cons d c t s, str_ltb-asym s t)

-- Not being before is transitive.
pub str_ltb_trans :
    (a b c : String) → str_ltb b a ≡ false → str_ltb c b ≡ false → str_ltb c a ≡ false
str_ltb_trans [] b c h k = str_ltb-of_empty c
str_ltb_trans (x ∷ s) [] c h k = cc (str_ltb-empty x s)
str_ltb_trans (x ∷ s) (y ∷ t) [] h k = cc (str_ltb-empty y t)
str_ltb_trans (x ∷ s) (y ∷ t) (z ∷ u) h k = ground (
  arith,
  h,
  k,
  str_ltb-cons y x t s,
  str_ltb-cons z y u t,
  str_ltb-cons z x u s,
  str_ltb_trans s t u,
)

-- One component of a tuple's comparison, `rest` the comparison of those after it.
abbrev pub lex : ℕ → ℕ → Bool → Bool
lex m n rest = ltb m n || eqb m n && rest

pub lex-asym :
    (m n : ℕ) (b c : Bool) → (b ≡ true → c ≡ false) → lex m n b ≡ true → lex n m c ≡ false
lex-asym m n b c h k = ground (arith, h, k)

pub lex_trans :
    (m n o : ℕ) (b c d : Bool)
    → (b ≡ false → c ≡ false → d ≡ false)
    → lex n m b ≡ false
    → lex o n c ≡ false
    → lex o m d ≡ false
lex_trans m n o b c d h k l = ground (arith, h, k, l)

-- A strict order whose complement is transitive: what `sort` needs of a key.
pub record IsSortKey {ℓ} {A : Type ℓ} (before : A → A → Bool) : Type ℓ where
  pub asym : (a b : A) → before a b ≡ true → before b a ≡ false
  pub trans : (a b c : A) → before b a ≡ false → before c b ≡ false → before c a ≡ false

module _ {ℓ} {A : Type ℓ} where
  any-insert_by :
      (before : A → A → Bool) (p : A → Bool) (x : A) (xs : List A)
      → any p (insert_by before x xs) ≡ (p x || any p xs)
  unfolding any insert_by
  any-insert_by before p x nil = refl
  any-insert_by before p x (cons y ys) = ground (arith, any-insert_by before p x ys)

  -- A sort neither drops nor adds an element.
  pub any-order_by :
      (before : A → A → Bool) (p : A → Bool) (xs : List A) → any p (order_by before xs) ≡ any p xs
  unfolding any order_by
  any-order_by before p nil = refl
  any-order_by before p (cons x xs) =
      any-insert_by before p x (order_by before xs) ∙ ap (λ b. p x || b) (any-order_by before p xs)

  pub any-false_imp :
      (p q : A → Bool) (xs : List A)
      → ((x : A) → p x ≡ false → q x ≡ false)
      → any p xs ≡ false
      → any q xs ≡ false
  unfolding any
  any-false_imp p q nil h k = refl
  any-false_imp p q (cons x xs) h k = ground (arith, k, h x, any-false_imp p q xs h)

  -- Nothing in the tail is before the head.
  IsHeaded : (A → A → Bool) → List A → Type 0
  IsHeaded before nil = Unit
  IsHeaded before (cons h t) = any (λ x. before x h) t ≡ false

  insert_by-IsHeaded :
      {before : A → A → Bool} (key : IsSortKey before) (x : A) (xs : List A)
      → IsHeaded before xs
      → IsHeaded before (insert_by before x xs)
  unfolding any insert_by IsHeaded
  insert_by-IsHeaded key x nil h = refl
  insert_by-IsHeaded {before = before} key x (cons y ys) h = elim (Bool-cases (before y x)) [
    | inl e ↦ rw e (any-insert_by before (λ z. before z y) x ys ∙ rw (key.asym y x e, h) refl)
    | inr e ↦
        rw e
          (rw e (any-false_imp (λ z. before z y) (λ z. before z x) ys (λ z. key.trans x y z e) h))
  ]

  order_by-IsHeaded :
      {before : A → A → Bool} (key : IsSortKey before) (xs : List A)
      → IsHeaded before (order_by before xs)
  unfolding order_by IsHeaded
  order_by-IsHeaded key nil = tt
  order_by-IsHeaded key (cons x xs) = insert_by-IsHeaded key x _ (order_by-IsHeaded key xs)

  pub before_self : {before : A → A → Bool} (key : IsSortKey before) (x : A) → before x x ≡ false
  before_self {before = before} key x = elim (Bool-cases (before x x)) [
    | inl e ↦ key.asym x x e
    | inr e ↦ e
  ]

  headed-any :
      {before : A → A → Bool} (key : IsSortKey before) (h : A) (t : List A)
      → IsHeaded before (cons h t)
      → any (λ x. before x h) (cons h t) ≡ false
  unfolding any IsHeaded
  headed-any key h t k = rw (before_self key h, k) refl

  -- Nothing sorts before the head of the sorted list.
  pub order_by-least :
      {before : A → A → Bool} (key : IsSortKey before) (xs : List A) (h : A) (t : List A)
      → order_by before xs ≡ cons h t
      → any (λ x. before x h) xs ≡ false
  order_by-least {before = before} key xs h t e =
      sym (any-order_by before (λ x. before x h) xs)
      ∙ rw e (headed-any key h t (subst (IsHeaded before) e (order_by-IsHeaded key xs)))
