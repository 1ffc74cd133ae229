-- ===== src/Resources/Methods.antt =====
-- The other methods of `HostResourceManager` that write: its constructor, heartbeat, release,
-- reconcile, recover and the two ways in which a caller fences its own request.
mod Releases
unfoldable pub use Releases.*
use dotclaude_ecosystem.Model.{second}
use dotclaude_ecosystem.Db.{
  Db, HostResourceRequestState, queued, active, inherited, released, recovery_required, quarantined,
  HostResourceRequest, HostResourceLease, HostResourcePool,
}
use dotclaude_ecosystem.Session.{
  value_error, admission_error, busy_error, Result, ok, err, Host, Tx, ◌>>=◌, ◌>>◌, pure, raise,
  gets, run, modify, require, read_clock, get_host, on_row, for_each,
}
use dotclaude_ecosystem.Resources.Keys.{
  known_resource_keys, default_pool_capacities, provider_source_by_pool, provider_source_capacity,
}
use dotclaude_ecosystem.Resources.Rows.{
  is_active, is_inherited, is_fenced, has_id, find_request, lease_of, lease_by_id, find_pool, event,
  event_at, set_request,
}
use dotclaude_ecosystem.Resources.Liveness.{owner_liveness}
use dotclaude_ecosystem.Resources.Promotion.{Promoted, promote_related}
use dotclaude_ecosystem.Resources.Sweep.{Cutoffs, sweep_stale_slots}
use dotclaude_ecosystem.Resources.Admission.{children, own_lease_id}
use dotclaude_ecosystem.Prelude.{
  ℕ, ◌+◌, ◌*◌, String, Bool, true, false, not, ◌&&◌, ◌||◌, Option, none, some, List, [], ◌∷◌, ◌++◌,
  map, ltb, leb, eqb, if◌then◌else◌, or_default, is_some, length, select, any, update, ◌==◌,
  mem_str, get,
}

-- Active requests whose lease has lapsed, through their leases.
unfoldable pub expired_leases : ℕ → Db → List HostResourceLease
expired_leases time db =
    select
      (λ l.
        ltb l.expires_at_utc time
        && any (λ r. has_id l.request_id r && is_active r.state) db.requests)
      db.resource_leases

abbrev pub fence_fields : String → HostResourceRequest → HostResourceRequest
fence_fields reason r = record r { state = recovery_required; reason_code = some reason }

unfoldable pub fence_expired : ℕ → HostResourceLease → Tx (Unit {0})
fence_expired time l = do
  modify (set_request l.request_id (fence_fields "LEASE_EXPIRED"))
  event_at time l.request_id (some l.lease_id) (some active) recovery_required "reconciler"
      "LEASE_EXPIRED" "{}" none

abbrev pub needs_reconcile : ℕ → Db → Bool
needs_reconcile time db =
    ltb 0 (length (expired_leases time db))
    || any (λ r. is_fenced r.state || is_inherited r.state) db.requests

-- Expired and swept request ids. The look without the lock comes first.
unfoldable pub reconcile : Cutoffs → Bool → Tx (List String × List String)
unfolding expired_leases fence_expired
reconcile c dry_run = do
  time ← read_clock
  work ← gets (needs_reconcile time)
  if not work then pure ([], []) else do
    swept ← sweep_stale_slots c time dry_run "reconciler" true none
    rows ← gets (expired_leases time)
    if dry_run then pure tt else for_each rows (fence_expired time)
    pure (map (λ l. l.request_id) rows, swept)

-- What psutil says of the process that the request's lease records.
abbrev pub lease_liveness : Host → Option HostResourceLease → Bool × String
lease_liveness host none = owner_liveness host none none
lease_liveness host (some l) = owner_liveness host l.process_pid l.process_start_time

-- The evidence on which `recover` may free a fenced request, or its refusal. `reason` is stripped.
unfoldable pub recovery_evidence :
    Host → Option HostResourceLease → Bool → Bool → String → Result String
recovery_evidence host lease provider attested reason =
    let judged = lease_liveness host lease in
    if judged.0
    then ok (if provider then "OPERATOR_PROVIDER_TERMINAL_ATTESTED" else judged.1)
    else if judged.1 == "OWNER_PROCESS_ALIVE"
    then err (admission_error "OWNER_PROCESS_ALIVE")
    else if not attested
    then err (admission_error "OWNER_LIVENESS_UNPROVEN")
    else if reason == ""
    then err (value_error "operator attestation requires a reason")
    else ok (if provider then "OPERATOR_PROVIDER_TERMINAL_ATTESTED" else "OPERATOR_ATTESTED")

abbrev pub recovery_reason : String → String
recovery_reason e =
    if mem_str e ("OPERATOR_ATTESTED" ∷ "OPERATOR_PROVIDER_TERMINAL_ATTESTED" ∷ [])
    then "RECOVERY_ATTESTED"
    else "RECOVERY_OWNER_GONE"

unfoldable pub settled : Result String → Tx String
settled (ok e) = pure e
settled (err e) = raise e

-- The writes of `recover`, once it has its evidence.
abbrev pub free_fenced :
    HostResourceRequest → Option String → String → String → Tx (String × Option Promoted)
free_fenced r lease_id evidence actor = do
  time ← read_clock
  modify (set_request r.request_id (release_fields (some time) (recovery_reason evidence)))
  event r.request_id lease_id (some recovery_required) released actor (recovery_reason evidence)
  promoted ← promote_related r.resource_key actor
  pure (evidence, promoted)

unfoldable pub recover_row :
    HostResourceRequest → Bool → String → String → Tx (String × Option Promoted)
unfolding recovery_evidence settled
recover_row r attested reason actor = do
  let provider = is_some (get provider_source_by_pool r.resource_key)
  require (not (provider && not (attested && not (reason == ""))))
      (admission_error "RETAINED_PROVIDER_TERMINAL_UNPROVEN")
  lease ← gets (λ db. lease_of db r.request_id)
  lease_id ← gets (λ db. event_lease db r)
  held ← gets (λ db. ltb 0 (children db (or_default lease_id "")))
  require (not held) (busy_error "INHERITED_CHILD_ACTIVE")
  host ← get_host
  evidence ← settled (recovery_evidence host lease provider attested reason)
  free_fenced r lease_id evidence actor

unfoldable pub recover : String → Bool → String → String → Tx (String × Option Promoted)
unfolding recover_row
recover request_id attested reason actor = do
  row ← gets (λ db. find_request db request_id)
  on_row row (raise (admission_error "RESOURCE_REQUEST_NOT_FOUND")) (λ r.
      if is_fenced r.state
      then recover_row r attested reason actor
      else raise (admission_error "RESOURCE_REQUEST_NOT_RECOVERABLE"))

abbrev pub can_be_uncertain : HostResourceRequestState → Bool
can_be_uncertain active = true
can_be_uncertain inherited = true
can_be_uncertain recovery_required = true
can_be_uncertain _ = false

unfoldable pub fence_row : HostResourceRequest → String → String → Tx (Unit {0})
fence_row r actor reason = do
  modify (set_request r.request_id (fence_fields reason))
  lease_id ← gets (λ db. event_lease db r)
  event r.request_id lease_id (some r.state) recovery_required actor reason

-- The source also bounds the length of the reason.
unfoldable pub mark_uncertain : String → String → String → String → Tx (Unit {0})
unfolding fence_row
mark_uncertain request_id attempt_id agent_instance reason = do
  require (not (reason == "")) (value_error "uncertain provider result needs a bounded reason")
  row ← gets (λ db. find_request db request_id)
  on_row row (raise (admission_error "PROVIDER_ATTEMPT_IDENTITY_MISMATCH")) (λ r. do
    require
        ((r.attempt_id == attempt_id)
          && (r.agent_instance == agent_instance)
          && is_some (get provider_source_by_pool r.resource_key))
        (admission_error "PROVIDER_ATTEMPT_IDENTITY_MISMATCH")
    require (can_be_uncertain r.state) (admission_error "PROVIDER_ATTEMPT_NOT_ACTIVE")
    if is_fenced r.state then pure tt else fence_row r agent_instance reason)

unfoldable pub mark_recovery : String → String → Tx (Unit {0})
mark_recovery request_id reason = do
  row ← gets (λ db. find_request db request_id)
  on_row row (pure tt) (λ r.
      if is_active r.state || is_inherited r.state
      then (do
        modify (set_request request_id (fence_fields reason))
        lease_id ← gets (λ db. own_lease_id db request_id)
        event request_id lease_id (some r.state) recovery_required "resource-adapter" reason)
      else pure tt)
