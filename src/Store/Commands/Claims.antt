-- ===== src/Store/Commands/Claims.antt =====
-- The handlers that enqueue, authorize and claim work items.
use dotclaude_ecosystem.Model.{
  WorkItem, WorkItemState, discovered, queued, hold, ready, claimed, mem_state, value,
  AuthorizationRecord, authorization_refusal, second, needs_authorization,
  authorization_ttl_seconds, at, admission_operator_enqueue,
}
use dotclaude_ecosystem.Db.{WorkItemRow, Attempt, Claim, Lease}
use dotclaude_ecosystem.Session.{
  value_error, Tx, ◌>>=◌, ◌>>◌, pure, raise, gets, require, read_clock, uuid4, on_row,
}
use dotclaude_ecosystem.Store.Items.{
  find_item, item_by_idempotency_key, save_work_item, transition_work_item_state, save_attempt,
  save_claim, save_lease, save_authorization, get_authorization,
}
use dotclaude_ecosystem.Prelude.{
  ℕ, ◌+◌, ◌*◌, String, Bool, true, false, not, Option, none, some, [], ◌∷◌, if◌then◌else◌, ◌==◌,
}

unfoldable pub handle_enqueue : WorkItem → Tx String
unfolding save_work_item transition_work_item_state
handle_enqueue item = do
  existing ← gets (λ db. item_by_idempotency_key db item.idempotency_key)
  on_row existing
      (do
        created ← read_clock
        save_work_item (record item { state = discovered; created_at_utc = created })
        transition_work_item_state item.work_item_id queued item.created_by
            (value admission_operator_enqueue) none
        pure "QUEUED")
      (λ w. pure "ALREADY_EXISTS")

abbrev pub granted : WorkItemRow → String → String → ℕ → ℕ → AuthorizationRecord
granted w authorization_id operator issued time = record {
  authorization_id = authorization_id;
  work_item_id = w.work_item_id;
  scope_digest_sha256 = w.scope_digest_sha256;
  risk_class = w.risk_class;
  authorized_workflow = w.workflow;
  permitted_terminal_stage = w.requested_terminal_stage;
  issued_at_utc = issued;
  expires_at_utc = some (at (time + authorization_ttl_seconds * second));
  operator_identity = operator;
  interactive_provenance_proven = true;
}

abbrev pub digest_differs : Option String → String → Bool
digest_differs none actual = false
digest_differs (some given) actual = not (given == actual)

unfoldable pub grant_interactive_operator_authorization :
    String → String → Option String → Tx (Unit {0})
unfolding save_authorization transition_work_item_state
grant_interactive_operator_authorization id operator digest = do
  row ← gets (λ db. find_item db id)
  on_row row (raise (value_error "WorkItem not found")) (λ w. do
    require (not (digest_differs digest w.context_digest_sha256))
        (value_error "Authorization refused: CONTEXT.md digest mismatch")
    authorization_id ← uuid4
    time ← read_clock
    issued ← read_clock
    save_authorization (granted w authorization_id operator issued time)
    if mem_state w.state (queued ∷ hold ∷ [])
        then transition_work_item_state id ready operator "AUTHORIZATION_GRANTED" none
        else pure tt)

-- R2 and R3 work without a valid GO goes to HOLD, and the claim is refused.
unfoldable pub authorize_claim : WorkItemRow → String → Tx (Unit {0})
unfolding transition_work_item_state get_authorization
authorize_claim w host =
    if needs_authorization w.risk_class
    then (do
      auth ← gets (λ db. get_authorization db w.work_item_id)
      time ← read_clock
      on_row (authorization_refusal auth w.scope_digest_sha256 time) (pure tt) (λ refusal. do
        transition_work_item_state w.work_item_id hold host (value refusal) none
        raise (value_error "requires operator R2/R3 authorization")))
    else pure tt

abbrev pub new_attempt : String → String → String → String → Attempt
new_attempt attempt_id work_item_id host instance_ = record {
  attempt_id = attempt_id;
  work_item_id = work_item_id;
  attempt_number = 1;
  agent_host = host;
  agent_instance = instance_;
  status = "IN_PROGRESS";
  reason_code = none;
  ended_at_utc = none;
}

-- `save_claim` sets the generation.
abbrev pub new_claim : String → String → String → String → Claim
new_claim claim_id work_item_id attempt_id host = record {
  claim_id = claim_id;
  work_item_id = work_item_id;
  attempt_id = attempt_id;
  claimed_by_host = host;
  lease_ttl_seconds = 300;
  claim_generation = 1;
}

abbrev pub new_lease : String → String → String → ℕ → ℕ → Lease
new_lease lease_id attempt_id instance_ time beat = record {
  lease_id = lease_id;
  attempt_id = attempt_id;
  agent_instance = instance_;
  heartbeat_sequence = 1;
  expires_at_utc = time + 300 * second;
  last_heartbeat_utc = beat;
  lease_generation = 1;
}

unfoldable pub take_claim : String → String → String → Tx (String × String)
unfolding save_attempt save_claim save_lease transition_work_item_state
take_claim id host instance_ = do
  attempt_id ← uuid4
  claim_id ← uuid4
  lease_id ← uuid4
  time ← read_clock
  beat ← read_clock
  save_attempt (new_attempt attempt_id id host instance_)
  save_claim (new_claim claim_id id attempt_id host)
  save_lease (new_lease lease_id attempt_id instance_ time beat)
  transition_work_item_state id claimed host "WORK_ITEM_CLAIMED" (some attempt_id)
  pure (attempt_id, lease_id)

abbrev pub is_ready : WorkItemState → Bool
is_ready ready = true
is_ready _ = false

unfoldable pub handle_claim : String → String → String → Tx (String × String)
unfolding authorize_claim take_claim
handle_claim id host instance_ = do
  row ← gets (λ db. find_item db id)
  on_row row (raise (value_error "WorkItem not found")) (λ w. do
    require (is_ready w.state) (value_error "not READY")
    authorize_claim w host
    take_claim id host instance_)
