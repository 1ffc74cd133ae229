-- ===== src/Session/Sees.antt =====
-- Predicates that the later steps of a transaction keep on what it sees, whatever is committed.
use dotclaude_ecosystem.Db.{Db}
use dotclaude_ecosystem.Session.{
  Result, ok, err, Host, Session, Tx, ◌>>=◌, pure, gets, run, modify, read_clock, uuid4, on_row,
  settle, continue, transact, ending,
}
use dotclaude_ecosystem.Session.Keeps.{Leaves}
use dotclaude_ecosystem.Prelude.{◌≡◌, refl, Bool, true, false, Option, none, some}

-- What the transaction sees keeps a predicate, whatever is committed.
pub record Sees {A : Type 0} (P : Db → Type 0) (m : Tx A) : Type 0 where
  pub after : (host : Host) (s : Session) → P s.db → P ((m host s).1).db

module _ {P : Db → Type 0} where
  Sees-continue :
      {A B : Type 0} (r : Result A) (f : A → Tx B)
      → ((a : A) → Sees P (f a))
      → Sees P (continue r f)
  Sees-continue (ok a) f k = k a
  Sees-continue (err e) f k = record { after = λ host s h. h }

  pub Sees-bind :
      {A B : Type 0} (m : Tx A) (f : A → Tx B)
      → Sees P m
      → ((a : A) → Sees P (f a))
      → Sees P (m >>= f)
  unfolding ◌>>=◌
  Sees-bind m f km kf = record {
    after = λ host s h.
        let (r, t) = m host s in (Sees-continue r f kf).after host t (km.after host s h);
  }

  pub Sees-pure : {A : Type 0} (a : A) → Sees P (pure a)
  unfolding pure
  Sees-pure a = record { after = λ host s h. h }

  pub Sees-gets : {A : Type 0} (f : Db → A) → Sees P (gets f)
  unfolding gets
  Sees-gets f = record { after = λ host s h. h }

  pub Sees-read_clock : Sees P read_clock
  unfolding read_clock
  Sees-read_clock = record { after = λ host s h. h }

  pub Sees-uuid4 : Sees P uuid4
  unfolding uuid4
  Sees-uuid4 = record { after = λ host s h. h }

  pub Sees-modify : (f : Db → Db) → ((db : Db) → P db → P (f db)) → Sees P (modify f)
  unfolding modify
  Sees-modify f k = record { after = λ host s h. k s.db h }

  pub Sees-run :
      {A : Type 0} (f : Db → Result (A × Db))
      → ((db : Db) → P db → Leaves P (f db))
      → Sees P (run f)
  unfolding run
  Sees-run f k = record { after = λ host s h. settled (f s.db) s (k s.db h) h }
    where
      settled :
          {A : Type 0} (r : Result (A × Db)) (s : Session)
          → Leaves P r
          → P s.db
          → P ((settle r s).1).db
      settled (ok (a, db)) s l h = l
      settled (err e) s l h = h

  pub Sees-on_row :
      {A B : Type 0} (o : Option A) (absent : Tx B) (present : A → Tx B)
      → Sees P absent
      → ((a : A) → o ≡ some a → Sees P (present a))
      → Sees P (on_row o absent present)
  unfolding on_row
  Sees-on_row none absent present ka kp = ka
  Sees-on_row (some a) absent present ka kp = kp a refl

pub ruleset sees_rules = (Sees-pure, Sees-gets, Sees-read_clock, Sees-uuid4, Sees-on_row, Sees-bind)

abbrev pub is_ok : {A : Type 0} → Result A → Bool
is_ok (ok a) = true
is_ok (err e) = false

-- Where the block returns, the database is what it saw last.
pub transact-seen :
    {A : Type 0} (P : Db → Type 0) (m : Tx A) (host : Host) (db : Db)
    → ((s : Session) → P ((m host s).1).db)
    → is_ok (transact m host db).0 ≡ true
    → P (transact m host db).1
unfolding transact
transact-seen {A = A} P m host db k h =
    let s : Session = record { db = db; committed = db; readings = 0; draws = 0 } in
    by_result (m host s).0 (m host s).1 (k s) h
  where
    by_result :
        (r : Result A) (t : Session) → P t.db → is_ok (ending r t).0 ≡ true → P (ending r t).1
    by_result (ok a) t p h = p
    by_result (err e) t p h = cc h
