-- ===== src/Store/Keeps.antt =====
-- Invariants of the commands on work items, for any predicate that looks at no other table than the
-- event log, the receipts and the resource tables.
use dotclaude_ecosystem.Model.{WorkItem, WorkItemState, can_transition, AuthorizationRecord}
use dotclaude_ecosystem.Db.{Db, WorkItemRow, Attempt, Claim, Lease, EvidenceCheckpoint, EventRecord}
use dotclaude_ecosystem.Session.{Result, run, on_connection}
use dotclaude_ecosystem.Session.Keeps.{
  Keeps, Leaves, Keeps-bind, Keeps-raise, Keeps-gets, Keeps-run, Keeps-modify, Keeps-require,
  Keeps-read_clock, Keeps-uuid4, Keeps-on_row,
}
use dotclaude_ecosystem.Session.Connections.{Keeps-on_connection, Keeps-behind}
use dotclaude_ecosystem.Store.Items.{
  find_item, item_by_idempotency_key, upsert_work_item, save_work_item, add_event, move_item,
  transition_work_item_state, upsert_attempt, save_attempt, insert_claim, save_claim, upsert_lease,
  save_lease, insert_authorization, save_authorization,
}
use dotclaude_ecosystem.Store.Fence.{insert_checkpoint}
use dotclaude_ecosystem.Prelude.{
  String, ◌≡◌, inl, inr, true, Option, List, Bool-cases, Option-cases, is_some, any, ◌==◌,
}

pub record Closed (P : Db → Type 0) : Type 0 where
  pub items : (rows : List WorkItemRow) (db : Db) → P db → P (record db { work_items = rows })
  pub attempts : (rows : List Attempt) (db : Db) → P db → P (record db { attempts = rows })
  pub claims : (rows : List Claim) (db : Db) → P db → P (record db { claims = rows })
  pub leases : (rows : List Lease) (db : Db) → P db → P (record db { leases = rows })
  pub checkpoints :
      (rows : List EvidenceCheckpoint) (db : Db) → P db → P (record db { checkpoints = rows })
  pub authorizations :
      (rows : List AuthorizationRecord) (db : Db) → P db → P (record db { authorizations = rows })
  pub lawful :
      (e : EventRecord) (db : Db)
      → can_transition e.previous_state e.next_state ≡ true
      → P db
      → P (add_event e db)

module _ {P : Db → Type 0} (closed : Closed P) where
  upsert_work_item-Leaves : (i : WorkItem) (db : Db) → P db → Leaves P (upsert_work_item i db)
  unfolding upsert_work_item
  upsert_work_item-Leaves i db h = elim (Bool-cases (is_some (find_item db i.work_item_id))) [
    | inl e ↦ rw (e, Leaves) (closed.items _ db h)
    | inr e ↦ elim (Bool-cases (is_some (item_by_idempotency_key db i.idempotency_key))) [
      | inl k ↦ rw (e, k, Leaves) tt
      | inr k ↦ rw (e, k, Leaves) (closed.items _ db h)
    ]
  ]

  pub save_work_item-Keeps : (i : WorkItem) → Keeps P (save_work_item i)
  unfolding save_work_item
  save_work_item-Keeps i =
      Keeps-bind _ _ (Keeps-require _ _)
        (λ _. Keeps-on_connection _ (Keeps-run _ (upsert_work_item-Leaves i)))

  pub move_item-Keeps :
      (id : String) (previous target : WorkItemState) (actor reason : String)
      (attempt_id : Option String)
      → can_transition previous target ≡ true
      → Keeps P (move_item id previous target actor reason attempt_id)
  unfolding move_item
  move_item-Keeps id previous target actor reason attempt_id ok_ =
      Keeps-bind _ _ Keeps-read_clock (λ time.
        Keeps-bind _ _ (Keeps-modify _ (λ db h. closed.items _ db h)) (λ _.
          Keeps-bind _ _ Keeps-uuid4 (λ hex. Keeps-modify _ (λ db h. closed.lawful _ db ok_ h))))

  pub transition-Keeps :
      (id : String) (target : WorkItemState) (actor reason : String) (attempt_id : Option String)
      → Keeps P (transition_work_item_state id target actor reason attempt_id)
  unfolding transition_work_item_state
  transition-Keeps id target actor reason attempt_id = Keeps-on_connection _ (
      Keeps-bind _ _ (Keeps-gets _) (λ row. Keeps-on_row row _ _ (Keeps-raise _) (λ w _.
        Keeps-behind _ _ _
          (λ allowed. move_item-Keeps id _ target actor reason attempt_id allowed))))

  upsert_attempt-Leaves : (a : Attempt) (db : Db) → P db → Leaves P (upsert_attempt a db)
  unfolding upsert_attempt
  upsert_attempt-Leaves a db h =
      elim (Bool-cases (any (λ x. x.attempt_id == a.attempt_id) db.attempts)) [
        | inl e ↦ rw (e, Leaves) (closed.attempts _ db h)
        | inr e ↦ elim (Bool-cases (is_some (find_item db a.work_item_id))) [
          | inl k ↦ rw (e, k, Leaves) (closed.attempts _ db h)
          | inr k ↦ rw (e, k, Leaves) tt
        ]
      ]

  insert_claim-Leaves : (c : Claim) (db : Db) → P db → Leaves P (insert_claim c db)
  unfolding insert_claim
  insert_claim-Leaves c db h = elim (Option-cases (find_item db c.work_item_id)) [
    | inl e ↦ rw (e, Leaves) tt
    | inr (w, e) ↦ elim (Bool-cases (any (λ x. x.claim_id == c.claim_id) db.claims)) [
      | inl k ↦ rw (e, k, Leaves) tt
      | inr k ↦ elim (Bool-cases (any (λ x. x.attempt_id == c.attempt_id) db.attempts)) [
        | inl m ↦ rw (e, k, m, Leaves) (closed.items _ _ (closed.claims _ db h))
        | inr m ↦ rw (e, k, m, Leaves) tt
      ]
    ]
  ]

  upsert_lease-Leaves : (l : Lease) (db : Db) → P db → Leaves P (upsert_lease l db)
  unfolding upsert_lease
  upsert_lease-Leaves l db h = elim (Bool-cases (any (λ x. x.lease_id == l.lease_id) db.leases)) [
    | inl e ↦ rw (e, Leaves) (closed.leases _ db h)
    | inr e ↦ elim (Bool-cases (any (λ x. x.attempt_id == l.attempt_id) db.attempts)) [
      | inl k ↦ rw (e, k, Leaves) (closed.leases _ db h)
      | inr k ↦ rw (e, k, Leaves) tt
    ]
  ]

  insert_authorization-Leaves :
      (a : AuthorizationRecord) (db : Db) → P db → Leaves P (insert_authorization a db)
  unfolding insert_authorization
  insert_authorization-Leaves a db h =
      elim (Bool-cases (any (λ x. x.authorization_id == a.authorization_id) db.authorizations)) [
        | inl e ↦ rw (e, Leaves) tt
        | inr e ↦ rw (e, Leaves) (closed.authorizations _ db h)
      ]

  pub insert_checkpoint-Leaves :
      (c : EvidenceCheckpoint) (db : Db) → P db → Leaves P (insert_checkpoint c db)
  unfolding insert_checkpoint
  insert_checkpoint-Leaves c db h =
      elim (Bool-cases (any (λ x. x.checkpoint_id == c.checkpoint_id) db.checkpoints)) [
        | inl e ↦ rw (e, Leaves) tt
        | inr e ↦ rw (e, Leaves) (closed.checkpoints _ db h)
      ]

  saving :
      {A : Type 0} (f : Db → Result (A × Db))
      → ((db : Db) → P db → Leaves P (f db))
      → Keeps P (on_connection (run f))
  saving f k = Keeps-on_connection _ (Keeps-run f k)

  pub save_attempt-Keeps : (a : Attempt) → Keeps P (save_attempt a)
  unfolding save_attempt
  save_attempt-Keeps a = saving _ (upsert_attempt-Leaves a)

  pub save_claim-Keeps : (c : Claim) → Keeps P (save_claim c)
  unfolding save_claim
  save_claim-Keeps c = saving _ (insert_claim-Leaves c)

  pub save_lease-Keeps : (l : Lease) → Keeps P (save_lease l)
  unfolding save_lease
  save_lease-Keeps l = saving _ (upsert_lease-Leaves l)

  pub save_authorization-Keeps : (a : AuthorizationRecord) → Keeps P (save_authorization a)
  unfolding save_authorization
  save_authorization-Keeps a = saving _ (insert_authorization-Leaves a)
