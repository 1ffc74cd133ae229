-- ===== src/Store/Receipts.antt =====
-- Receipts: an envelope is processed once, and some envelopes are always refused.
use dotclaude_ecosystem.Db.{Db, Receipt}
use dotclaude_ecosystem.Session.{
  Error, value_error, Result, ok, err, Host, Session, Tx, ◌>>=◌, pure, raise, gets, modify, require,
  commit, uuid4, on_row, on_connection, caught,
}
use dotclaude_ecosystem.Session.Keeps.{Keeps}
use dotclaude_ecosystem.Session.Connections.{Keeps-caught}
use dotclaude_ecosystem.Store.Items.{save_receipt, get_receipt}
use dotclaude_ecosystem.Store.Commands.{
  authorize, CommandEnvelope, handle, is_authorize, is_unknown, outcome, answer, process_envelope,
}
use dotclaude_ecosystem.Session.{transact, ending, handled}
use dotclaude_ecosystem.Store.Handlers.{handle-Keeps}
use dotclaude_ecosystem.Store.Keeps.{Closed}
use dotclaude_ecosystem.Prelude.{
  String, ◌≡◌, refl, sym, ap, subst, ◌⊎◌, inl, inr, Bool, true, none, some, List, [], ◌∷◌, ◌++◌,
  Bool-cases, first, delete, ◌==◌, eq_refl,
}

abbrev pub Unanswered : String → Db → Type 0
Unanswered key db = get_receipt db key ≡ none

Unanswered-Closed : (key : String) → Closed (Unanswered key)
unfolding get_receipt
Unanswered-Closed key = record {
  items = λ rows db h. h;
  attempts = λ rows db h. h;
  claims = λ rows db h. h;
  leases = λ rows db h. h;
  checkpoints = λ rows db h. h;
  authorizations = λ rows db h. h;
  lawful = λ e db allowed h. h;
}

handle-refused :
    (other : String → Tx String) (e : CommandEnvelope) (host : Host) (s : Session)
    → (e.operator_attestation ≡ true) ⊎ (e.command ≡ authorize)
    → (x : Error) × (handle other e host s ≡ (err x, s))
unfolding handle ◌>>=◌ require raise pure
handle-refused other e host s (inr c) = (value_error "Authorization refused", rw c refl)
handle-refused other e host s (inl a) = elim (Bool-cases (is_authorize e.command)) [
  | inl k ↦ (value_error "Authorization refused", rw k refl)
  | inr k ↦ (value_error "Attestation refused", rw (k, a) refl)
]

caught-err :
    {A : Type 0} (m : Tx A) (x : Error) (host : Host) (s : Session)
    → m host s ≡ (err x, s)
    → caught m host s ≡ (ok (err x), record s { db = s.committed })
unfolding caught
caught-err m x host s h = rw h refl

refused-status :
    (e : CommandEnvelope) (receipt_id : String) (x : Error)
    → (e.operator_attestation ≡ true) ⊎ (e.command ≡ authorize)
    → (outcome e receipt_id (err x)).status ≡ "ERROR"
refused-status e receipt_id x (inl a) = elim (Bool-cases (is_unknown e.command)) [
  | inl k ↦ rw (k, a) refl
  | inr k ↦ rw k refl
]
refused-status e receipt_id x (inr c) = rw c refl

-- An envelope that carries an operator's attestation, or asks for an authorization, writes nothing
-- but its receipt, whose status is ERROR, whatever else it asks for.
pub process_envelope-refused :
    (other : String → Tx String) (e : CommandEnvelope) (host : Host) (db : Db)
    → get_receipt db e.idempotency_key ≡ none
    → (e.operator_attestation ≡ true) ⊎ (e.command ≡ authorize)
    → (receipt : Receipt) × (transact (process_envelope other e) host db ≡ (
      ok receipt,
      record db {
        receipts = delete (λ x. x.receipt_id == receipt.receipt_id) db.receipts ++ receipt ∷ [];
      },
    ))
      × (receipt.status ≡ "ERROR")
unfolding process_envelope answer transact gets on_row ◌>>=◌ uuid4 save_receipt on_connection modify
    commit pure
process_envelope-refused other e host db fresh why =
    let s : Session = record { db = db; committed = db; readings = 0; draws = 0 } in
    let (x, h) = handle-refused other e host s why in
    (
      outcome e (host.uuid 0) (err x),
      rw (fresh, caught-err (handle other e) x host s h) refl,
      refused-status e (host.uuid 0) x why,
    )

first_snoc :
    {A : Type 0} (p : A → Bool) (x : A) (xs : List A)
    → first p xs ≡ none
    → p x ≡ true
    → first p (xs ++ x ∷ []) ≡ some x
unfolding first
first_snoc p x [] h k = rw k refl
first_snoc p x (y ∷ ys) h k = elim (Bool-cases (p y)) [
  | inl e ↦ cc (rw e at h)
  | inr e ↦ rw e (first_snoc p x ys (rw e at h) k)
]

first-delete :
    {A : Type 0} (p q : A → Bool) (xs : List A) → first p xs ≡ none → first p (delete q xs) ≡ none
unfolding first delete
first-delete p q [] h = refl
first-delete p q (y ∷ ys) h = elim (Bool-cases (p y)) [
  | inl e ↦ cc (rw e at h)
  | inr e ↦ elim (Bool-cases (q y)) [
    | inl k ↦ rw k (first-delete p q ys (rw e at h))
    | inr k ↦ rw (k, e) (first-delete p q ys (rw e at h))
  ]
]

outcome-key :
    (e : CommandEnvelope) (id : String) (r : Result String)
    → (outcome e id r).idempotency_key ≡ e.idempotency_key
outcome-key e id (ok x) = refl
outcome-key e id (err x) = refl

handled-ok : {A : Type 0} (r : Result A) (s : Session) → (handled r s).0 ≡ ok r
handled-ok (ok a) s = refl
handled-ok (err e) s = refl

caught-ok :
    {A : Type 0} (m : Tx A) (host : Host) (s : Session) → (caught m host s).0 ≡ ok (m host s).0
unfolding caught
caught-ok m host s = handled-ok (m host s).0 (m host s).1

-- What `answer` leaves: the receipt that it returns, found by its key.
answer-receipt :
    (other : String → Tx String) (e : CommandEnvelope) (host : Host) (s : Session)
    → ((name : String) → Keeps (Unanswered e.idempotency_key) (other name))
    → Unanswered e.idempotency_key s.db
    → Unanswered e.idempotency_key s.committed
    → (r : Receipt) × ((answer other e host s).0 ≡ ok r)
      × (get_receipt (answer other e host s).1.db e.idempotency_key ≡ some r)
unfolding answer ◌>>=◌ uuid4 save_receipt on_connection modify commit pure get_receipt
answer-receipt other e host s others h hc =
    let t : Session = (caught (handle other e) host s).1 in
    let result : Result String = (handle other e host s).0 in
    let r : Receipt = outcome e (host.uuid t.draws) result in
    let c : (caught (handle other e) host s).0 ≡ ok result = caught-ok (handle other e) host s in
    let fresh : Unanswered e.idempotency_key t.db =
      ((Keeps-caught _ (handle-Keeps (Unanswered-Closed e.idempotency_key) other others e)).after
        host s (h, hc)).0 in
    (
      r,
      rw c refl,
      rw c (
          first_snoc (λ x. x.idempotency_key == e.idempotency_key) r _
            (first-delete _ _ t.db.receipts fresh)
            (rw (outcome-key e (host.uuid t.draws) result, eq_refl) refl)),
    )

-- An answered envelope is answered by its receipt, and nothing is done again.
replayed :
    (other : String → Tx String) (e : CommandEnvelope) (host : Host) (db : Db) (r : Receipt)
    → get_receipt db e.idempotency_key ≡ some r
    → transact (process_envelope other e) host db ≡ (ok r, db)
unfolding process_envelope transact gets on_row ◌>>=◌ pure
replayed other e host db r h = rw h refl

ended : {A : Type 0} (m : Result A × Session) (a : A) → m.0 ≡ ok a → ending m.0 m.1 ≡ (ok a, m.1.db)
ended m a h = rw h refl

-- An envelope is processed once: the first call returns a receipt, and every later envelope with
-- the same idempotency key gets that receipt back and changes nothing. The handlers of the resource
-- commands, a parameter, must leave no receipt under that key themselves.
pub process_envelope-once :
    (other other' : String → Tx String) (e e' : CommandEnvelope) (host host' : Host) (db : Db)
    → ((name : String) → Keeps (Unanswered e.idempotency_key) (other name))
    → get_receipt db e.idempotency_key ≡ none
    → e'.idempotency_key ≡ e.idempotency_key
    → (r : Receipt) × ((transact (process_envelope other e) host db).0 ≡ ok r)
      × (transact (process_envelope other' e') host' (transact (process_envelope other e) host db).1
          ≡ (ok r, (transact (process_envelope other e) host db).1))
unfolding process_envelope transact gets on_row ◌>>=◌
process_envelope-once other other' e e' host host' db others fresh same =
    let s : Session = record { db = db; committed = db; readings = 0; draws = 0 } in
    let (r, returns, found) = answer-receipt other e host s others fresh fresh in
    let first_call : transact (process_envelope other e) host db
        ≡ (ok r, (answer other e host s).1.db) =
      rw fresh (ended (answer other e host s) r returns) in
    (
      r,
      ap (λ x. x.0) first_call,
      subst (λ d. transact (process_envelope other' e') host' d ≡ (ok r, d))
          (sym (ap (λ x. x.1) first_call))
          (replayed other' e' host' _ r
            (subst (λ k. get_receipt (answer other e host s).1.db k ≡ some r) (sym same) found)),
    )
