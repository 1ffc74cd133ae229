-- ===== src/Store/Items.antt =====
-- The operations of `ConductorStore` on work items, attempts, claims, leases, authorizations and
-- receipts, in scripts/conductor_store.py. Receipt files and the JSON columns are left out.
use dotclaude_ecosystem.Model.{
  WorkItem, WorkItemState, can_transition, validates, AuthorizationRecord,
}
use dotclaude_ecosystem.Db.{Db, WorkItemRow, Attempt, Claim, Lease, EventRecord, Receipt}
use dotclaude_ecosystem.Session.{
  value_error, integrity_error, Result, ok, err, Tx, ◌>>=◌, ◌>>◌, raise, gets, run, modify, require,
  read_clock, uuid4, on_row, on_connection,
}
use dotclaude_ecosystem.Prelude.{
  ℕ, ◌+◌, String, Bool, true, not, ◌&&◌, Option, none, some, [], ◌∷◌, ◌++◌, ltb, if◌then◌else◌,
  or_default, is_some, select, first, any, update, delete, order_by, ◌==◌,
}

abbrev pub find_item : Db → String → Option WorkItemRow
find_item db id = first (λ w. w.work_item_id == id) db.work_items

abbrev pub item_by_idempotency_key : Db → String → Option WorkItemRow
item_by_idempotency_key db key = first (λ w. w.idempotency_key == key) db.work_items

-- The columns that ON CONFLICT(work_item_id) DO UPDATE sets.
abbrev pub with_columns : WorkItem → WorkItemRow → WorkItemRow
with_columns i w = record w {
  item = record (w.item) {
    priority = i.priority;
    dependency_ids = i.dependency_ids;
    authority_requirement = i.authority_requirement;
    execution_budget = i.execution_budget;
    scope_digest_sha256 = i.scope_digest_sha256;
    context_digest_sha256 = i.context_digest_sha256;
    state = i.state;
  };
}

-- `work_item_id` is the primary key, `idempotency_key` UNIQUE.
unfoldable pub upsert_work_item : WorkItem → Db → Result (Unit {0} × Db)
upsert_work_item i db =
    if is_some (find_item db i.work_item_id)
    then ok (
      tt,
      record db {
        work_items = update (λ w. w.work_item_id == i.work_item_id) (with_columns i) db.work_items;
      },
    )
    else if is_some (item_by_idempotency_key db i.idempotency_key)
    then err (integrity_error "UNIQUE constraint failed: work_items.idempotency_key")
    else ok (
      tt,
      record db {
        work_items =
            db.work_items
            ++ record { item = i; current_claim_attempt_id = none; current_claim_generation = none }
              ∷ [];
      },
    )

unfoldable pub save_work_item : WorkItem → Tx (Unit {0})
unfolding upsert_work_item
save_work_item i = do
  require (validates i) (value_error "invalid work item")
  on_connection (run (upsert_work_item i))

abbrev pub set_state : String → WorkItemState → Db → Db
set_state id s db = record db {
  work_items =
      update (λ w. w.work_item_id == id) (λ w. record w { item = record (w.item) { state = s } })
        db.work_items;
}

abbrev pub add_event : EventRecord → Db → Db
add_event e db = record db { events = db.events ++ e ∷ [] }

-- The UPDATE and the INSERT into the event log.
unfoldable pub move_item :
    String → WorkItemState → WorkItemState → String → String → Option String → Tx (Unit {0})
move_item id previous target actor reason attempt_id = do
  time ← read_clock
  modify (set_state id target)
  event_id ← uuid4
  modify (
      add_event (record {
        event_id = event_id;
        work_item_id = id;
        attempt_id = attempt_id;
        previous_state = previous;
        next_state = target;
        actor_identity = actor;
        reason_code = reason;
        recorded_at_utc = time;
      }))

unfoldable pub transition_work_item_state :
    String → WorkItemState → String → String → Option String → Tx (Unit {0})
unfolding move_item
transition_work_item_state id target actor reason attempt_id = on_connection (do
  row ← gets (λ db. find_item db id)
  on_row row (raise (value_error "WorkItem not found")) (λ w. do
    require (can_transition w.state target) (value_error "Invalid transition")
    move_item id w.state target actor reason attempt_id))

abbrev pub with_outcome : Attempt → Attempt → Attempt
with_outcome new old = record old {
  status = new.status;
  reason_code = new.reason_code;
  ended_at_utc = new.ended_at_utc;
}

-- `attempt_id` is the primary key; the work item must exist.
unfoldable pub upsert_attempt : Attempt → Db → Result (Unit {0} × Db)
upsert_attempt a db =
    if any (λ x. x.attempt_id == a.attempt_id) db.attempts
    then ok (
      tt,
      record db {
        attempts = update (λ x. x.attempt_id == a.attempt_id) (with_outcome a) db.attempts;
      },
    )
    else if is_some (find_item db a.work_item_id)
    then ok (tt, record db { attempts = db.attempts ++ a ∷ [] })
    else err (integrity_error "FOREIGN KEY constraint failed")

unfoldable pub save_attempt : Attempt → Tx (Unit {0})
unfolding upsert_attempt
save_attempt a = on_connection (run (upsert_attempt a))

abbrev pub next_generation : WorkItemRow → ℕ
next_generation w = or_default w.current_claim_generation 0 + 1

abbrev pub take_over : String → ℕ → WorkItemRow → WorkItemRow
take_over attempt_id generation w = record w {
  current_claim_attempt_id = some attempt_id;
  current_claim_generation = some generation;
}

-- The claim becomes the work item's authority, under the next generation.
abbrev pub install_claim : Claim → WorkItemRow → Db → Db
install_claim c w db = record db {
  claims = db.claims ++ record c { claim_generation = next_generation w } ∷ [];
  work_items =
      update (λ x. x.work_item_id == c.work_item_id) (take_over c.attempt_id (next_generation w))
        db.work_items;
}

unfoldable pub insert_claim : Claim → Db → Result (Unit {0} × Db)
insert_claim c db = elim (find_item db c.work_item_id) [
  | none ↦ err (value_error "WorkItem not found")
  | some w ↦
      if any (λ x. x.claim_id == c.claim_id) db.claims
      then err (integrity_error "UNIQUE constraint failed: claims.claim_id")
      else if not (any (λ x. x.attempt_id == c.attempt_id) db.attempts)
      then err (integrity_error "FOREIGN KEY constraint failed")
      else ok (tt, install_claim c w db)
]

unfoldable pub save_claim : Claim → Tx (Unit {0})
unfolding insert_claim
save_claim c = on_connection (run (insert_claim c))

abbrev pub renewed : Lease → Lease → Lease
renewed new old = record old {
  heartbeat_sequence = new.heartbeat_sequence;
  expires_at_utc = new.expires_at_utc;
  last_heartbeat_utc = new.last_heartbeat_utc;
}

abbrev pub supersedes : Lease → Lease → Bool
supersedes new old =
    (old.lease_id == new.lease_id)
    && (new.attempt_id == old.attempt_id)
    && ltb old.heartbeat_sequence new.heartbeat_sequence

-- The result is whether a row was written.
unfoldable pub upsert_lease : Lease → Db → Result (Bool × Db)
upsert_lease l db =
    if any (λ x. x.lease_id == l.lease_id) db.leases
    then ok (
      any (supersedes l) db.leases,
      record db { leases = update (supersedes l) (renewed l) db.leases },
    )
    else if any (λ x. x.attempt_id == l.attempt_id) db.attempts
    then ok (true, record db { leases = db.leases ++ l ∷ [] })
    else err (integrity_error "FOREIGN KEY constraint failed")

unfoldable pub save_lease : Lease → Tx Bool
unfolding upsert_lease
save_lease l = on_connection (run (upsert_lease l))

unfoldable pub insert_authorization : AuthorizationRecord → Db → Result (Unit {0} × Db)
insert_authorization a db =
    if any (λ x. x.authorization_id == a.authorization_id) db.authorizations
    then err (integrity_error "UNIQUE constraint failed: authorizations.authorization_id")
    else ok (tt, record db { authorizations = db.authorizations ++ a ∷ [] })

unfoldable pub save_authorization : AuthorizationRecord → Tx (Unit {0})
unfolding insert_authorization
save_authorization a = on_connection (run (insert_authorization a))

abbrev pub issued_later : AuthorizationRecord → AuthorizationRecord → Bool
issued_later a b = ltb b.issued_at_utc a.issued_at_utc

-- `ORDER BY issued_at_utc DESC LIMIT 1`
unfoldable pub get_authorization : Db → String → Option AuthorizationRecord
get_authorization db id =
    first (λ a. true) (order_by issued_later (select (λ a. a.work_item_id == id) db.authorizations))

-- `INSERT OR REPLACE`; the files are left out.
unfoldable pub save_receipt : Receipt → Tx (Unit {0})
save_receipt r = on_connection (
    modify (λ db. record db {
      receipts = delete (λ x. x.receipt_id == r.receipt_id) db.receipts ++ r ∷ [];
    }))

unfoldable pub get_receipt : Db → String → Option Receipt
get_receipt db key = first (λ r. r.idempotency_key == key) db.receipts
