-- ===== src/Store/Fence.antt =====
-- The writes of a worker, fenced by its attempt's identity: `_validate_worker_attempt_fence_locked`,
-- `_CURRENT_CLAIM_WRITE_FENCE_SQL` and the three fenced methods of `ConductorStore`. The test hooks
-- between the check and the write are left out: both stand under one write lock.
use dotclaude_ecosystem.Model.{WorkItemState, can_transition}
use dotclaude_ecosystem.Db.{Db, WorkItemRow, Attempt, Claim, Lease, EvidenceCheckpoint}
use dotclaude_ecosystem.Session.{
  value_error, integrity_error, Result, ok, err, Tx, ◌>>=◌, ◌>>◌, raise, gets, run, require,
  read_clock, on_row, on_connection,
}
use dotclaude_ecosystem.Store.Items.{find_item, move_item, renewed}
use dotclaude_ecosystem.Prelude.{
  ℕ, String, Bool, false, not, ◌&&◌, ◌||◌, Option, none, some, [], ◌∷◌, ◌++◌, ltb, leb, eqb,
  if◌then◌else◌, first, any, count, update, ◌==◌, opt_eq,
}

abbrev pub attempt_row : Db → String → Option Attempt
attempt_row db id = first (λ a. a.attempt_id == id) db.attempts

abbrev pub claim_row : Db → String → Option Claim
claim_row db id = first (λ c. c.attempt_id == id) db.claims

abbrev pub lease_row : Db → String → Option Lease
lease_row db id = first (λ l. l.attempt_id == id) db.leases

abbrev pub revoked_row : Attempt → Bool
revoked_row a = (a.status == "UNKNOWN") || opt_eq a.reason_code "STALE_SLOT_AUTO_RELEASED"

abbrev pub swept_request : Db → String → Bool
swept_request db id =
    any (λ r. (r.attempt_id == id) && opt_eq r.reason_code "STALE_SLOT_AUTO_RELEASED") db.requests

abbrev pub same_generation : Option ℕ → ℕ → Bool
same_generation none g = false
same_generation (some h) g = eqb h g

-- The work item's claim is this attempt's, of the same generation.
abbrev pub owned_by : Option WorkItemRow → Option Claim → Attempt → Bool
owned_by (some w) (some c) a =
    opt_eq w.current_claim_attempt_id a.attempt_id
    && same_generation w.current_claim_generation c.claim_generation
owned_by _ _ a = false

unfoldable pub owns : Db → Attempt → Bool
owns db a = owned_by (find_item db a.work_item_id) (claim_row db a.attempt_id) a

abbrev pub named_otherwise : Option String → String → Bool
named_otherwise none actual = false
named_otherwise (some given) actual = not (given == actual)

abbrev pub rejected : {A : Type 0} → Result A
rejected = err (value_error "REAPED_LEASE_REJECTED")

unfoldable pub check_lease : Option String → ℕ → ℕ → Attempt → Lease → Result Attempt
check_lease lease_id generation time a l =
    if leb l.expires_at_utc time
    then rejected
    else if named_otherwise lease_id l.lease_id
    then rejected
    else if not (eqb generation l.lease_generation)
    then rejected
    else ok a

-- The clock is read only when the lease is found; every caller gives a generation.
unfoldable pub validate_worker_attempt_fence :
    String → Option String → Option String → ℕ → ℕ → Db → Result Attempt
unfolding owns check_lease
validate_worker_attempt_fence attempt_id work_item_id lease_id generation time db =
    if attempt_id == ""
    then err (value_error "ATTEMPT_IDENTITY_REQUIRED")
    else elim (attempt_row db attempt_id) [
      | none ↦ rejected
      | some a ↦
          if revoked_row a
            || swept_request db attempt_id
            || not (owns db a)
            || named_otherwise work_item_id a.work_item_id
          then rejected
          else elim (lease_row db attempt_id) [
            | none ↦ rejected
            | some l ↦ check_lease lease_id generation time a l
          ]
    ]

-- `_CURRENT_CLAIM_WRITE_FENCE_SQL`
unfoldable pub current_claim : Db → String → Bool
current_claim db attempt_id =
    any
      (λ a.
        (a.attempt_id == attempt_id)
        && any
            (λ c.
              (c.attempt_id == a.attempt_id)
              && (c.work_item_id == a.work_item_id)
              && any
                  (λ w.
                    (w.work_item_id == a.work_item_id)
                    && opt_eq w.current_claim_attempt_id a.attempt_id
                    && same_generation w.current_claim_generation c.claim_generation)
                  db.work_items)
            db.claims)
      db.attempts

abbrev pub unrevoked_attempt : Db → String → String → Bool
unrevoked_attempt db attempt_id work_item_id =
    any
      (λ a.
        (a.attempt_id == attempt_id)
        && (a.work_item_id == work_item_id)
        && not (a.status == "UNKNOWN")
        && not (opt_eq a.reason_code "STALE_SLOT_AUTO_RELEASED"))
      db.attempts

abbrev pub lease_of_generation : Db → String → ℕ → Bool
lease_of_generation db attempt_id generation =
    any (λ l. (l.attempt_id == attempt_id) && eqb l.lease_generation generation) db.leases

abbrev pub write_fence : Db → String → String → ℕ → Bool
write_fence db attempt_id work_item_id generation =
    current_claim db attempt_id
    && unrevoked_attempt db attempt_id work_item_id
    && lease_of_generation db attempt_id generation

unfoldable pub fence : String → Option String → Option String → ℕ → Tx Attempt
unfolding validate_worker_attempt_fence
fence attempt_id work_item_id lease_id generation = do
  time ← read_clock
  run (λ db.
      elim (validate_worker_attempt_fence attempt_id work_item_id lease_id generation time db) [
        | ok a ↦ ok (a, db)
        | err e ↦ err e
      ])

unfoldable pub complete_work_item_fenced :
    String → WorkItemState → String → String → String → ℕ → Tx (Unit {0})
unfolding fence current_claim move_item
complete_work_item_fenced work_item_id target actor reason attempt_id generation = on_connection (do
  a ← fence attempt_id (some work_item_id) none generation
  row ← gets (λ db. find_item db a.work_item_id)
  on_row row (raise (value_error "WorkItem not found")) (λ w. do
    require (can_transition w.state target) (value_error "Invalid transition")
    open_fence ← gets (λ db. write_fence db attempt_id a.work_item_id generation)
    require open_fence (value_error "REAPED_LEASE_REJECTED")
    move_item a.work_item_id w.state target actor reason (some attempt_id)))

unfoldable pub insert_checkpoint : EvidenceCheckpoint → Db → Result (Unit {0} × Db)
insert_checkpoint c db =
    if any (λ x. x.checkpoint_id == c.checkpoint_id) db.checkpoints
    then err (integrity_error "UNIQUE constraint failed: checkpoints.checkpoint_id")
    else ok (tt, record db { checkpoints = db.checkpoints ++ c ∷ [] })

unfoldable pub save_checkpoint_fenced : EvidenceCheckpoint → String → ℕ → Tx (Unit {0})
unfolding fence current_claim insert_checkpoint
save_checkpoint_fenced c attempt_id generation = on_connection (do
  a ← fence attempt_id (some c.work_item_id) none generation
  open_fence ← gets (λ db. write_fence db attempt_id a.work_item_id generation)
  require open_fence (value_error "REAPED_LEASE_REJECTED")
  run (insert_checkpoint (record c { work_item_id = a.work_item_id; attempt_id = attempt_id })))

abbrev pub beats : Lease → ℕ → Lease → Bool
beats l generation x =
    (x.lease_id == l.lease_id)
    && (x.attempt_id == l.attempt_id)
    && eqb x.lease_generation generation
    && ltb x.heartbeat_sequence l.heartbeat_sequence

-- The statement updates the rows that it selects; the result is whether it was one.
abbrev pub beat_rows : Lease → ℕ → Db → Result (Bool × Db)
beat_rows l generation db =
    let admitted =
      current_claim db l.attempt_id
      && any
          (λ a.
            (a.attempt_id == l.attempt_id)
            && not (a.status == "UNKNOWN")
            && not (opt_eq a.reason_code "STALE_SLOT_AUTO_RELEASED"))
          db.attempts in
    if admitted
    then ok (
      eqb (count (beats l generation) db.leases) 1,
      record db { leases = update (beats l generation) (renewed l) db.leases },
    )
    else ok (false, db)

unfoldable pub extend_lease_heartbeat_fenced : Lease → ℕ → Tx Bool
unfolding fence current_claim
extend_lease_heartbeat_fenced l generation =
    on_connection
      (do fence l.attempt_id none (some l.lease_id) generation; run (beat_rows l generation))
