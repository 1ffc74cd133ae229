-- ===== src/Session.antt =====
-- A transaction on the conductor database: `ConductorStore._connection` of
-- scripts/conductor_store.py. The block commits when it ends, and rolls back to the last commit
-- when it raises. What the program takes from outside is the host: the clock, `uuid4` and psutil.
pub mod Keeps
pub mod Sees
pub mod Connections
use dotclaude_ecosystem.Db.{Db}
use dotclaude_ecosystem.Prelude.{
  ℕ, zero, suc, ◌+◌, ◌-◌, ◌*◌, ◌≤◌, ◌<◌, String, ◌≡◌, refl, sym, ap, ◌∙◌, subst, ◌≢◌, ◌↔◌, ◌⊎◌, inl,
  inr, Bool, true, false, not, ◌&&◌, ◌||◌, Option, none, some, List, [], ◌∷◌, ◌++◌, map, arith, ltb,
  leb, eqb, if◌then◌else◌, ltb→lt, leb-false→lt, Bool-cases, Option-cases, or_default, is_some,
  &&-left, &&-right, length, select, first, any, count, update, delete, insert_by, order_by, ◌==◌,
  starts_with, eq_iff, eq_refl, str_ltb, mem_str, get, opt_eq, ==→≡,
}

pub data Error : Type 0 where
  value_error : String → Error
  admission_error : String → Error
  busy_error : String → Error
  integrity_error : String → Error

pub data Result (A : Type 0) : Type 0 where
  ok : A → Result A
  err : Error → Result A

-- `psutil.Process(pid).create_time()`: the start time, NoSuchProcess, or another failure.
pub data Probe : Type 0 where
  started : ℕ → Probe
  no_such_process : Probe
  unreadable_process : Probe

-- The n-th reading of the clock and the n-th hex digest of `uuid4` in a transaction. A process
-- does not end between two probes of one transaction.
pub record Host : Type 0 where
  pub clock : ℕ → ℕ
  pub uuid : ℕ → String
  pub probe : ℕ → Probe

pub record Session : Type 0 where
  pub db : Db
  pub committed : Db
  pub readings : ℕ
  pub draws : ℕ

abbrev pub Tx : Type 0 → Type 0
Tx A = Host → Session → Result A × Session

module _ {A B : Type 0} where
  abbrev pub continue : Result A → (A → Tx B) → Tx B
  continue (ok a) f host s = f a host s
  continue (err e) f host s = (err e, s)

  infixl 5 ◌>>=◌ ◌>>◌
  unfoldable pub ◌>>=◌ : Tx A → (A → Tx B) → Tx B
  ◌>>=◌ m f host s = let (r, t) = m host s in continue r f host t

  abbrev pub ◌>>◌ : Tx A → Tx B → Tx B
  m >> n = m >>= λ _. n

module _ {A : Type 0} where
  unfoldable pub pure : A → Tx A
  pure a host s = (ok a, s)

  unfoldable pub raise : Error → Tx A
  raise e host s = (err e, s)

  -- A SELECT.
  unfoldable pub gets : (Db → A) → Tx A
  gets f host s = (ok (f s.db), s)

  abbrev pub settle : Result (A × Db) → Session → Result A × Session
  settle (ok (a, db)) s = (ok a, record s { db = db })
  settle (err e) s = (err e, s)

  -- Statements that read, test and write under the write lock.
  unfoldable pub run : (Db → Result (A × Db)) → Tx A
  run f host s = settle (f s.db) s

  -- The whole block: what it returns or raises, and what the database then durably holds.
  abbrev pub ending : Result A → Session → Result A × Db
  ending (ok a) s = (ok a, s.db)
  ending (err e) s = (err e, s.committed)

  unfoldable pub transact : Tx A → Host → Db → Result A × Db
  transact m host db =
      let (r, s) = m host (record { db = db; committed = db; readings = 0; draws = 0 }) in
      ending r s

-- An UPDATE or DELETE, which cannot fail.
unfoldable pub modify : (Db → Db) → Tx (Unit {0})
modify f host s = (ok tt, record s { db = f s.db })

unfoldable pub require : Bool → Error → Tx (Unit {0})
unfolding pure raise
require true e = pure tt
require false e = raise e

unfoldable pub commit : Tx (Unit {0})
commit host s = (ok tt, record s { committed = s.db })

unfoldable pub rollback : Tx (Unit {0})
rollback host s = (ok tt, record s { db = s.committed })

unfoldable pub read_clock : Tx ℕ
read_clock host s = (ok (host.clock s.readings), record s { readings = suc s.readings })

unfoldable pub uuid4 : Tx String
uuid4 host s = (ok (host.uuid s.draws), record s { draws = suc s.draws })

unfoldable pub get_host : Tx Host
get_host host s = (ok host, s)

-- A branch on a row that fetchone() may not find.
unfoldable pub on_row : {A B : Type 0} → Option A → Tx B → (A → Tx B) → Tx B
on_row none absent present = absent
on_row (some a) absent present = present a

-- `for x in xs: body`
unfoldable pub for_each : {A : Type 0} → List A → (A → Tx (Unit {0})) → Tx (Unit {0})
unfolding pure ◌>>=◌
for_each [] body = pure tt
for_each (x ∷ xs) body = do body x; for_each xs body

-- A method of the store opens a connection of its own, which commits where the method returns.
unfoldable pub on_connection : {A : Type 0} → Tx A → Tx A
unfolding pure commit ◌>>=◌
on_connection m = do a ← m; commit; pure a

abbrev pub handled : {A : Type 0} → Result A → Session → Result (Result A) × Session
handled (ok a) s = (ok (ok a), s)
handled (err e) s = (ok (err e), record s { db = s.committed })

-- `try: m except Exception as err: ...`, where the connection that raised has rolled back.
unfoldable pub caught : {A : Type 0} → Tx A → Tx (Result A)
caught m host s = let (r, t) = m host s in handled r t
