-- ===== src/Store/Commands.antt =====
-- `ConductorCommandProcessor` of scripts/conductor_commands.py: what a command envelope does. The
-- payload's fields are read by the constructors of `Command`, defaults filled in; identifiers are
-- the draws of `uuid4` without their prefixes.
mod Claims
unfoldable pub use Claims.*
use dotclaude_ecosystem.Model.{
  WorkItem, WorkItemState, discovered, queued, hold, ready, claimed, dispatching, running,
  completed, cancelled, recovery_required, mem_state, value, AuthorizationRecord,
  authorization_refusal, second, needs_authorization, authorization_ttl_seconds, at,
  admission_operator_enqueue, lease_expired, operator_cancelled,
}
use dotclaude_ecosystem.Db.{Db, WorkItemRow, Attempt, Claim, Lease, EvidenceCheckpoint, Receipt}
use dotclaude_ecosystem.Session.{
  value_error, Result, ok, err, Tx, ◌>>=◌, ◌>>◌, pure, raise, gets, require, read_clock, uuid4,
  on_row, for_each, caught,
}
use dotclaude_ecosystem.Store.Items.{
  find_item, item_by_idempotency_key, save_work_item, transition_work_item_state, save_attempt,
  save_claim, save_lease, save_authorization, get_authorization, save_receipt, get_receipt,
}
use dotclaude_ecosystem.Store.Fence.{
  complete_work_item_fenced, save_checkpoint_fenced, extend_lease_heartbeat_fenced,
}
use dotclaude_ecosystem.Prelude.{
  ℕ, ◌+◌, ◌*◌, String, Bool, true, false, not, ◌&&◌, Option, none, some, List, [], ◌∷◌, ◌++◌, map,
  ltb, if◌then◌else◌, first, ◌==◌,
}

unfoldable pub handle_heartbeat : String → String → String → ℕ → ℕ → ℕ → Tx (Unit {0})
unfolding extend_lease_heartbeat_fenced
handle_heartbeat lease_id attempt_id instance_ sequence ttl generation = do
  time ← read_clock
  extended ←
      extend_lease_heartbeat_fenced
        (record {
          lease_id = lease_id;
          attempt_id = attempt_id;
          agent_instance = instance_;
          heartbeat_sequence = sequence;
          expires_at_utc = time + ttl * second;
          last_heartbeat_utc = time;
          lease_generation = generation;
        })
        generation
  require extended (value_error "HEARTBEAT_REJECTED")

unfoldable pub handle_checkpoint : EvidenceCheckpoint → String → ℕ → Tx (Unit {0})
unfolding save_checkpoint_fenced
handle_checkpoint c attempt_id generation = do
  require (not (attempt_id == "")) (value_error "ATTEMPT_IDENTITY_REQUIRED")
  id ← uuid4
  save_checkpoint_fenced (record c { checkpoint_id = id; attempt_id = attempt_id }) attempt_id
      generation

unfoldable pub handle_complete : String → String → String → ℕ → Tx (Unit {0})
unfolding complete_work_item_fenced
handle_complete id attempt_id actor generation = do
  require (not (attempt_id == "")) (value_error "ATTEMPT_IDENTITY_REQUIRED")
  complete_work_item_fenced id completed actor "WORK_ITEM_COMPLETED" attempt_id generation

unfoldable pub handle_cancel : String → String → Tx (Unit {0})
unfolding transition_work_item_state
handle_cancel id actor = do
  row ← gets (λ db. find_item db id)
  on_row row (raise (value_error "WorkItem not found"))
      (λ w. transition_work_item_state id cancelled actor (value operator_cancelled) none)

-- The join of leases, attempts and work items, as pairs of a work item's and an attempt's id.
abbrev pub lapsed_items : ℕ → Db → Lease → List (String × String)
lapsed_items time db l =
    if ltb l.expires_at_utc time
    then elim (first (λ a. a.attempt_id == l.attempt_id) db.attempts) [
      | none ↦ []
      | some a ↦ elim (find_item db a.work_item_id) [
        | none ↦ []
        | some w ↦
            if mem_state w.state (claimed ∷ dispatching ∷ running ∷ [])
            then (w.work_item_id, a.attempt_id) ∷ []
            else []
      ]
    ]
    else []

unfoldable pub lapsed : ℕ → Db → List Lease → List (String × String)
lapsed time db [] = []
lapsed time db (l ∷ ls) = lapsed_items time db l ++ lapsed time db ls

unfoldable pub handle_reconcile : Bool → Tx (List String)
unfolding lapsed transition_work_item_state
handle_reconcile dry_run = do
  time ← read_clock
  rows ← gets (λ db. lapsed time db db.leases)
  if dry_run
      then pure tt
      else for_each rows (λ row.
        transition_work_item_state row.0 recovery_required "reconciler" (value lease_expired)
          (some row.1))
  pure (map (λ row. row.0) rows)

-- The payload of the commands on work items. `resource` stands for the resource commands and the
-- status report, whose handler is a parameter of `process_envelope`.
pub data Command : Type 0 where
  enqueue : WorkItem → Command
  authorize : Command
  claim : String → String → String → Command
  heartbeat : String → String → String → ℕ → ℕ → ℕ → Command
  checkpoint : EvidenceCheckpoint → String → ℕ → Command
  complete : String → String → String → ℕ → Command
  cancel : String → String → Command
  reconcile : Bool → Command
  resource : String → Command
  unknown : String → Command

pub record CommandEnvelope : Type 0 where
  pub command_id : String
  pub idempotency_key : String
  pub command : Command
  pub operator_attestation : Bool

abbrev pub is_authorize : Command → Bool
is_authorize authorize = true
is_authorize _ = false

abbrev pub is_unknown : Command → Bool
is_unknown (unknown name) = true
is_unknown _ = false

abbrev pub outcome : CommandEnvelope → String → Result String → Receipt
outcome e receipt_id (ok result) = record {
  receipt_id = receipt_id;
  command_id = e.command_id;
  idempotency_key = e.idempotency_key;
  status = "SUCCESS";
  result = result;
  error_message = none;
}
outcome e receipt_id (err _) = record {
  receipt_id = receipt_id;
  command_id = e.command_id;
  idempotency_key = e.idempotency_key;
  status = if is_unknown e.command && not e.operator_attestation then "REJECTED" else "ERROR";
  result = "{}";
  error_message = some "refused";
}

module _ (other : String → Tx String) where
  unfoldable pub dispatch : Command → Tx String
  unfolding handle_enqueue handle_claim handle_heartbeat handle_checkpoint handle_complete
      handle_cancel handle_reconcile
  dispatch (enqueue item) = handle_enqueue item
  dispatch authorize = raise (value_error "Authorization refused")
  dispatch (claim id host instance_) = do handle_claim id host instance_; pure "CLAIMED"
  dispatch (heartbeat lease_id attempt_id instance_ sequence ttl generation) = do
    handle_heartbeat lease_id attempt_id instance_ sequence ttl generation
    pure "EXTENDED"
  dispatch (checkpoint c attempt_id generation) = do
    handle_checkpoint c attempt_id generation
    pure "RECORDED"
  dispatch (complete id attempt_id actor generation) = do
    handle_complete id attempt_id actor generation
    pure "COMPLETED"
  dispatch (cancel id actor) = do handle_cancel id actor; pure "CANCELLED"
  dispatch (reconcile dry_run) = do handle_reconcile dry_run; pure "RECONCILED"
  dispatch (resource name) = other name
  dispatch (unknown name) = raise (value_error "Unknown command type")

  -- The two refusals come before the handler is looked up.
  unfoldable pub handle : CommandEnvelope → Tx String
  unfolding dispatch
  handle e = do
    require (not (is_authorize e.command)) (value_error "Authorization refused")
    require (not e.operator_attestation) (value_error "Attestation refused")
    dispatch e.command

  unfoldable pub answer : CommandEnvelope → Tx Receipt
  unfolding handle save_receipt
  answer e = do
    result ← caught (handle e)
    receipt_id ← uuid4
    save_receipt (outcome e receipt_id result)
    pure (outcome e receipt_id result)

  unfoldable pub process_envelope : CommandEnvelope → Tx Receipt
  unfolding answer get_receipt
  process_envelope e = do
    existing ← gets (λ db. get_receipt db e.idempotency_key)
    on_row existing (answer e) (λ r. pure r)
