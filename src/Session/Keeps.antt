-- ===== src/Session/Keeps.antt =====
-- Invariants of transactions, one rule for each way to build one. A transaction keeps a predicate
-- when it holds afterwards both of what the transaction sees and of what is committed.
use dotclaude_ecosystem.Db.{Db}
use dotclaude_ecosystem.Session.{
  Error, Result, ok, err, Host, Session, Tx, ◌>>=◌, pure, raise, gets, run, modify, require, commit,
  rollback, read_clock, uuid4, get_host, on_row, for_each, transact, continue, settle, ending,
}
use dotclaude_ecosystem.Prelude.{
  ℕ, String, ◌≡◌, refl, sym, subst, Bool, true, false, Option, none, some, List, [], ◌∷◌,
  if◌then◌else◌,
}

abbrev pub Both : (Db → Type 0) → Session → Type 0
Both P s = P s.db × P s.committed

pub record Keeps {A : Type 0} (P : Db → Type 0) (m : Tx A) : Type 0 where
  pub after : (host : Host) (s : Session) → Both P s → Both P (m host s).1

-- What a `run` may leave.
abbrev pub Leaves : {A : Type 0} → (Db → Type 0) → Result (A × Db) → Type 0
Leaves P (ok (a, db)) = P db
Leaves P (err e) = Unit

settle-Both :
    {A : Type 0} (P : Db → Type 0) (r : Result (A × Db)) (s : Session)
    → Leaves P r
    → Both P s
    → Both P (settle r s).1
settle-Both P (ok (a, db)) s l h = (l, h.1)
settle-Both P (err e) s l h = h

ending-keeps :
    {A : Type 0} (P : Db → Type 0) (r : Result A) (s : Session) → Both P s → P (ending r s).1
ending-keeps P (ok a) s h = h.0
ending-keeps P (err e) s h = h.1

module _ {P : Db → Type 0} where
  Keeps-continue :
      {A B : Type 0} (r : Result A) (f : A → Tx B)
      → ((a : A) → Keeps P (f a))
      → Keeps P (continue r f)
  Keeps-continue (ok a) f k = k a
  Keeps-continue (err e) f k = record { after = λ host s h. h }

  pub Keeps-bind :
      {A B : Type 0} (before : Tx A) (rest : A → Tx B)
      → Keeps P before
      → ((a : A) → Keeps P (rest a))
      → Keeps P (before >>= rest)
  unfolding ◌>>=◌
  Keeps-bind before rest keeps_before keeps_rest = record {
    after = λ host s both.
        let (r, t) = before host s in
        (Keeps-continue r rest keeps_rest).after host t (keeps_before.after host s both);
  }

  pub Keeps-pure : {A : Type 0} (a : A) → Keeps P (pure a)
  unfolding pure
  Keeps-pure a = record { after = λ host s h. h }

  pub Keeps-raise : {A : Type 0} (e : Error) → Keeps P (raise {A = A} e)
  unfolding raise
  Keeps-raise e = record { after = λ host s h. h }

  pub Keeps-gets : {A : Type 0} (f : Db → A) → Keeps P (gets f)
  unfolding gets
  Keeps-gets f = record { after = λ host s h. h }

  -- The rest of the block may use what the invariant says of the row that was read.
  pub Keeps-gets_bind :
      {A B : Type 0} (f : Db → A) (k : A → Tx B)
      → ((db : Db) → P db → Keeps P (k (f db)))
      → Keeps P (gets f >>= k)
  unfolding gets ◌>>=◌
  Keeps-gets_bind f k h = record { after = λ host s b. (h s.db b.0).after host s b }

  pub Keeps-run :
      {A : Type 0} (f : Db → Result (A × Db))
      → ((db : Db) → P db → Leaves P (f db))
      → Keeps P (run f)
  unfolding run
  Keeps-run f k = record { after = λ host s h. settle-Both P (f s.db) s (k s.db h.0) h }

  pub Keeps-modify : (f : Db → Db) → ((db : Db) → P db → P (f db)) → Keeps P (modify f)
  unfolding modify
  Keeps-modify f k = record { after = λ host s h. (k s.db h.0, h.1) }

  pub Keeps-require : (b : Bool) (e : Error) → Keeps P (require b e)
  unfolding require
  Keeps-require true e = Keeps-pure tt
  Keeps-require false e = Keeps-raise e

  pub Keeps-commit : Keeps P commit
  unfolding commit
  Keeps-commit = record { after = λ host s h. (h.0, h.0) }

  pub Keeps-rollback : Keeps P rollback
  unfolding rollback
  Keeps-rollback = record { after = λ host s h. (h.1, h.1) }

  pub Keeps-read_clock : Keeps P read_clock
  unfolding read_clock
  Keeps-read_clock = record { after = λ host s h. h }

  pub Keeps-uuid4 : Keeps P uuid4
  unfolding uuid4
  Keeps-uuid4 = record { after = λ host s h. h }

  pub Keeps-get_host : Keeps P get_host
  unfolding get_host
  Keeps-get_host = record { after = λ host s h. h }

  pub Keeps-on_row :
      {A B : Type 0} (o : Option A) (absent : Tx B) (present : A → Tx B)
      → Keeps P absent
      → ((a : A) → o ≡ some a → Keeps P (present a))
      → Keeps P (on_row o absent present)
  unfolding on_row
  Keeps-on_row none absent present ka kp = ka
  Keeps-on_row (some a) absent present ka kp = kp a refl

  -- Each branch may use the outcome of its test.
  pub Keeps-if :
      {A : Type 0} (test : Bool) (taken otherwise : Tx A)
      → (test ≡ true → Keeps P taken)
      → (test ≡ false → Keeps P otherwise)
      → Keeps P (if test then taken else otherwise)
  Keeps-if false taken otherwise keeps_taken keeps_otherwise = keeps_otherwise refl
  Keeps-if true taken otherwise keeps_taken keeps_otherwise = keeps_taken refl

  pub Keeps-for_each :
      {A : Type 0} (xs : List A) (body : A → Tx (Unit {0}))
      → ((a : A) → Keeps P (body a))
      → Keeps P (for_each xs body)
  unfolding for_each
  Keeps-for_each [] body k = Keeps-pure tt
  Keeps-for_each (x ∷ xs) body k = Keeps-bind (body x) _ (k x) (λ _. Keeps-for_each xs body k)

  -- The database after the block, whether it returned or raised.
  pub transact-keeps :
      {A : Type 0} (m : Tx A)
      → Keeps P m
      → (host : Host) (db : Db) → P db
      → P (transact m host db).1
  unfolding transact
  transact-keeps m k host db h =
      let s : Session = record { db = db; committed = db; readings = 0; draws = 0 } in
      let (r, t) = m host s in ending-keeps P r t (k.after host s (h, h))

pub ruleset keeps_rules = (
  Keeps-pure, Keeps-raise, Keeps-gets, Keeps-require, Keeps-commit, Keeps-rollback,
  Keeps-read_clock, Keeps-uuid4, Keeps-get_host, Keeps-on_row, Keeps-if, Keeps-for_each, Keeps-bind,
)

-- The same from one database on, so that a write may rest on what was read before it.
pub record KeepsAt {A : Type 0} (P : Db → Type 0) (d : Db) (m : Tx A) : Type 0 where
  pub after : (host : Host) (s : Session) → s.db ≡ d → Both P s → Both P (m host s).1

module _ {P : Db → Type 0} where
  pub Keeps-at : {A : Type 0} (m : Tx A) → ((d : Db) → P d → KeepsAt P d m) → Keeps P m
  Keeps-at m k = record { after = λ host s h. (k s.db h.0).after host s refl h }

  pub KeepsAt-anywhere : {A : Type 0} (d : Db) (m : Tx A) → Keeps P m → KeepsAt P d m
  KeepsAt-anywhere d m k = record { after = λ host s e h. k.after host s h }

  pub KeepsAt-gets :
      {A B : Type 0} (d : Db) (f : Db → A) (k : A → Tx B)
      → KeepsAt P d (k (f d))
      → KeepsAt P d (gets f >>= k)
  unfolding gets ◌>>=◌
  KeepsAt-gets d f k h = record {
    after = λ host s e b. subst (λ x. Both P (k (f x) host s).1) (sym e) (h.after host s e b);
  }

  pub KeepsAt-read_clock :
      {B : Type 0} (d : Db) (k : ℕ → Tx B)
      → ((time : ℕ) → KeepsAt P d (k time))
      → KeepsAt P d (read_clock >>= k)
  unfolding read_clock ◌>>=◌
  KeepsAt-read_clock d k h = record { after = λ host s e b. (h _).after host _ e b }

  pub KeepsAt-uuid4 :
      {B : Type 0} (d : Db) (k : String → Tx B)
      → ((id : String) → KeepsAt P d (k id))
      → KeepsAt P d (uuid4 >>= k)
  unfolding uuid4 ◌>>=◌
  KeepsAt-uuid4 d k h = record { after = λ host s e b. (h _).after host _ e b }

  pub KeepsAt-run :
      {A B : Type 0} (d : Db) (f : Db → Result (A × Db)) (k : A → Tx B)
      → Leaves P (f d)
      → ((a : A) → Keeps P (k a))
      → KeepsAt P d (run f >>= k)
  unfolding run ◌>>=◌
  KeepsAt-run d f k h kk = record {
    after = λ host s e b.
        (Keeps-continue (settle (f s.db) s).0 k kk).after host (settle (f s.db) s).1
          (settle-Both P (f s.db) s (subst (λ x. Leaves P (f x)) (sym e) h) b);
  }

  pub KeepsAt-if :
      {A : Type 0} (d : Db) (b : Bool) (m n : Tx A)
      → KeepsAt P d m
      → KeepsAt P d n
      → KeepsAt P d (if b then m else n)
  KeepsAt-if d true m n km kn = km
  KeepsAt-if d false m n km kn = kn
