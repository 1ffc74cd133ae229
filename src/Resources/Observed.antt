-- ===== src/Resources/Observed.antt =====
-- `retain_observed_attempt`, by which a provider wrapper imports an attempt that it is not certain
-- of, and `_log_focused_request`, which records a focused pytest run that takes no capacity.
use Prim.Native.String.{◌++◌ as append}
use dotclaude_ecosystem.Db.{
  Db, HostResourceRequestState, queued, released, recovery_required, quarantined,
  HostResourceRequest, HostResourceEvent,
}
use dotclaude_ecosystem.Session.{
  value_error, admission_error, Result, ok, err, Tx, ◌>>=◌, ◌>>◌, pure, raise, gets, run, modify,
  require, read_clock, uuid4, on_row,
}
use dotclaude_ecosystem.Resources.Keys.{provider_pools, provider_source_by_pool}
use dotclaude_ecosystem.Resources.Rows.{find_request, event, event_at, insert_request, set_request}
use dotclaude_ecosystem.Resources.Admission.{RequestResult, own_lease_id, given_or_fresh}
use dotclaude_ecosystem.Resources.Methods.{event_lease}
use dotclaude_ecosystem.Prelude.{
  ℕ, String, Bool, true, false, not, ◌&&◌, Option, none, some, List, [], ◌∷◌, if◌then◌else◌,
  or_default, is_some, select, first, ◌==◌, starts_with, mem_str, get, opt_eq,
}

-- The keyword arguments after their checks of length and of the digest's form. `observation_id`
-- is the SHA-256 of source and key, `payload` the JSON text of the payload.
pub record Observation : Type 0 where
  pub observation_id : String
  pub original_owner : String
  pub evidence_sha256 : String
  pub actor : String
  pub native_attempt_id : Option String
  pub existing_request_id : Option String
  pub payload : String

abbrev pub observed_event_id : Observation → String
observed_event_id o = append "hre_observed_" o.observation_id

abbrev pub unbound : String → String
unbound id = append "unbound-observation:" id

abbrev pub comes_from : String → HostResourceRequest → Bool
comes_from source r = opt_eq (get provider_source_by_pool r.resource_key) source

-- The row that the observation is about, where there is one; the outer result Refuses.
abbrev pub one_of : List HostResourceRequest → Result (Option HostResourceRequest)
one_of [] = ok none
one_of (r ∷ []) = ok (some r)
one_of (r ∷ s ∷ rest) = err (admission_error "RETAINED_ATTEMPT_AMBIGUOUS")

abbrev pub bound_row :
    String → Observation → Option HostResourceRequest → Result (Option HostResourceRequest)
bound_row source o none = err (admission_error "RETAINED_REQUEST_IDENTITY_MISMATCH")
bound_row source o (some r) =
    if opt_eq o.native_attempt_id r.attempt_id
      && (r.agent_instance == o.original_owner)
      && comes_from source r
    then ok (some r)
    else err (admission_error "RETAINED_REQUEST_IDENTITY_MISMATCH")

abbrev pub attempts_of : String → Observation → String → Db → List HostResourceRequest
attempts_of source o attempt_id db =
    select
      (λ r.
        (r.attempt_id == attempt_id)
        && (r.agent_instance == o.original_owner)
        && comes_from source r)
      db.requests

unfoldable pub observed_row : String → Observation → Db → Result (Option HostResourceRequest)
observed_row source o db = elim o.existing_request_id [
  | some id ↦ bound_row source o (find_request db id)
  | none ↦ elim o.native_attempt_id [
    | none ↦ ok none
    | some attempt_id ↦ one_of (attempts_of source o attempt_id db)
  ]
]

abbrev pub retained_request : String → Observation → String → ℕ → HostResourceRequest
retained_request source o request_id created = record {
  request_id = request_id;
  idempotency_key = append "retained_observation:" o.observation_id;
  resource_key = append "provider:" source;
  purpose = append "provider_" source;
  attempt_id = or_default o.native_attempt_id (unbound o.observation_id);
  agent_instance = o.original_owner;
  state = recovery_required;
  priority = 50;
  parent_lease_id = none;
  command_sha256 = o.evidence_sha256;
  created_at_utc = created;
  released_at_utc = none;
  reason_code = some "PROVIDER_RETAINED_ATTEMPT";
  slot_key = "";
  owner_process_pid = none;
  owner_process_start_time = none;
  owner_identity_source = "UNRECORDED";
  owner_last_seen_at_utc = none;
}

abbrev pub retainable : HostResourceRequestState → Bool
retainable queued = false
retainable quarantined = false
retainable _ = true

abbrev pub retain_fields : HostResourceRequest → HostResourceRequest
retain_fields r = record r {
  state = recovery_required;
  reason_code = some "PROVIDER_RETAINED_ATTEMPT";
}

abbrev pub retain_new : String → Observation → Tx RequestResult
retain_new source o = do
  hex ← uuid4
  created ← read_clock
  run (insert_request (retained_request source o hex created))
  time ← read_clock
  event_at time hex none none recovery_required o.actor "PROVIDER_RETAINED_ATTEMPT" o.payload
      (some (observed_event_id o))
  lease_id ← gets (λ db. own_lease_id db hex)
  pure (record {
    request = retained_request source o hex created;
    lease_id = lease_id;
    idempotent_replay = false;
  })

abbrev pub retain_row : HostResourceRequest → Observation → Tx RequestResult
retain_row r o = do
  require (retainable r.state) (admission_error "RETAINED_REQUEST_STATE_UNQUALIFIED")
  modify (set_request r.request_id retain_fields)
  lease_id ← gets (λ db. event_lease db r)
  time ← read_clock
  event_at time r.request_id lease_id (some r.state) recovery_required o.actor
      "PROVIDER_RETAINED_ATTEMPT" o.payload (some (observed_event_id o))
  own ← gets (λ db. own_lease_id db r.request_id)
  pure (record { request = retain_fields r; lease_id = own; idempotent_replay = false })

abbrev pub replay_observation : Observation → HostResourceEvent → Tx RequestResult
replay_observation o e = do
  require (e.details == o.payload) (admission_error "RETAINED_OBSERVATION_DRIFT")
  row ← gets (λ db. find_request db e.request_id)
  lease_id ← gets (λ db. own_lease_id db e.request_id)
  on_row row (raise (value_error "no request row"))
      (λ r. pure (record { request = r; lease_id = lease_id; idempotent_replay = true }))

abbrev pub retain_found :
    String → Observation → Result (Option HostResourceRequest) → Tx RequestResult
retain_found source o (err e) = raise e
retain_found source o (ok none) = retain_new source o
retain_found source o (ok (some r)) = retain_row r o

abbrev pub misnamed : Observation → Bool
misnamed o = elim o.native_attempt_id [
  | none ↦ is_some o.existing_request_id
  | some id ↦ starts_with id "unbound-observation:"
]

unfoldable pub retain_observed_attempt : String → Observation → Tx RequestResult
unfolding observed_row
retain_observed_attempt key o = do
  require (mem_str key provider_pools) (admission_error "RETAINED_PROVIDER_SOURCE_REQUIRED")
  require (not (misnamed o))
      (value_error "native attempt identity must be supplied only when verified")
  let source = or_default (get provider_source_by_pool key) ""
  previous ← gets (λ db. first (λ e. e.event_id == observed_event_id o) db.resource_events)
  on_row previous (do found ← gets (observed_row source o); retain_found source o found)
      (replay_observation o)

abbrev pub focused_request :
    String → String → String → String → String → String → ℕ → ℕ → HostResourceRequest
focused_request key attempt_id agent_instance command_sha256 request_id idempotency created time =
    record {
      request_id = request_id;
      idempotency_key = idempotency;
      resource_key = key;
      purpose = "pytest_focused";
      attempt_id = attempt_id;
      agent_instance = agent_instance;
      state = released;
      priority = 50;
      parent_lease_id = none;
      command_sha256 = command_sha256;
      created_at_utc = created;
      released_at_utc = some time;
      reason_code = some "PYTEST_FOCUSED_NO_HEAVY_LEASE";
      slot_key = "";
      owner_process_pid = none;
      owner_process_start_time = none;
      owner_identity_source = "UNRECORDED";
      owner_last_seen_at_utc = none;
    }

abbrev pub insert_focused : String → String → String → String → String → Tx RequestResult
insert_focused key attempt_id agent_instance command_sha256 idempotency = do
  time ← read_clock
  hex ← uuid4
  created ← read_clock
  let r = focused_request key attempt_id agent_instance command_sha256 hex idempotency created time
  run (insert_request r)
  event hex none none released "resource-adapter" "PYTEST_FOCUSED_NO_HEAVY_LEASE"
  lease_id ← gets (λ db. own_lease_id db hex)
  pure (record { request = r; lease_id = lease_id; idempotent_replay = false })

unfoldable pub log_focused_request :
    String → String → String → Option String → String → Tx RequestResult
log_focused_request key attempt_id agent_instance given command_sha256 = do
  idempotency ← given_or_fresh given
  existing ← gets (λ db. first (λ r. r.idempotency_key == idempotency) db.requests)
  on_row existing (insert_focused key attempt_id agent_instance command_sha256 idempotency) (λ r. do
    lease_id ← gets (λ db. own_lease_id db r.request_id)
    pure (record { request = r; lease_id = lease_id; idempotent_replay = true }))
