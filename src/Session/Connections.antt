-- ===== src/Session/Connections.antt =====
-- Invariants of code that runs several connections, and of steps behind a test.
use dotclaude_ecosystem.Db.{Db}
use dotclaude_ecosystem.Session.{
  Error, Result, ok, err, Session, Tx, ◌>>=◌, pure, raise, require, on_connection, caught, handled,
}
use dotclaude_ecosystem.Session.Keeps.{Both, Keeps, Keeps-bind, Keeps-pure, Keeps-commit}
use dotclaude_ecosystem.Prelude.{◌≡◌, refl, Bool, true, false}

handled-Both :
    {A : Type 0} (P : Db → Type 0) (r : Result A) (s : Session) → Both P s → Both P (handled r s).1
handled-Both P (ok a) s h = h
handled-Both P (err e) s h = (h.1, h.1)

module _ {P : Db → Type 0} where
  pub Keeps-on_connection : {A : Type 0} (m : Tx A) → Keeps P m → Keeps P (on_connection m)
  unfolding on_connection
  Keeps-on_connection m k = Keeps-bind _ _ k (λ a. Keeps-bind _ _ Keeps-commit (λ _. Keeps-pure a))

  pub Keeps-caught : {A : Type 0} (m : Tx A) → Keeps P m → Keeps P (caught m)
  unfolding caught
  Keeps-caught m k = record {
    after = λ host s h. let (r, t) = m host s in handled-Both P r t (k.after host s h);
  }

  -- What stands behind a test may rest on it.
  pub Keeps-behind :
      {A : Type 0} (b : Bool) (e : Error) (k : Unit {0} → Tx A)
      → (b ≡ true → Keeps P (k tt))
      → Keeps P (require b e >>= k)
  unfolding require ◌>>=◌ pure raise
  Keeps-behind true e k h = h refl
  Keeps-behind false e k h = record { after = λ host s b. b }
