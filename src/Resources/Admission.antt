-- ===== src/Resources/Admission.antt =====
-- `HostResourceManager.request`: admit a consumer, queue it, or let it inherit a lease.
mod Decision
unfoldable pub use Decision.*
use dotclaude_ecosystem.Model.{second}
use dotclaude_ecosystem.Db.{
  Db, HostResourceRequestState, queued, active, inherited, quarantined, HostResourceRequest,
  HostResourcePool,
}
use dotclaude_ecosystem.Session.{
  admission_error, busy_error, Result, ok, err, Host, Probe, started, no_such_process,
  unreadable_process, Tx, ◌>>=◌, ◌>>◌, pure, raise, gets, run, modify, commit, rollback, read_clock,
  uuid4, get_host, on_row,
}
use dotclaude_ecosystem.Resources.Keys.{resource_key, validate_request}
use dotclaude_ecosystem.Resources.Rows.{
  is_active, is_inherited, fills, find_request, lease_of, find_pool, slot_taken, source_full,
  attempt_is_revoked, event, insert_request, create_lease, set_request,
}
use dotclaude_ecosystem.Resources.Liveness.{distance}
use dotclaude_ecosystem.Resources.Sweep.{Cutoffs, sweep_stale_slots}
use dotclaude_ecosystem.Prelude.{
  ℕ, ◌*◌, String, Bool, true, false, not, ◌&&◌, ◌||◌, Option, none, some, ltb, leb, eqb,
  if◌then◌else◌, or_default, first, count, ◌==◌, opt_eq,
}

abbrev pub owner_pid_of : Option (ℕ × ℕ) → Option ℕ
owner_pid_of none = none
owner_pid_of (some (pid, start)) = some pid

abbrev pub owner_start_of : Option (ℕ × ℕ) → Option ℕ
owner_start_of none = none
owner_start_of (some (pid, start)) = some start

unfoldable pub lease_if_active :
    HostResourceRequest → RequestArgs → ℕ → Option (ℕ × ℕ) → Tx (Option String)
lease_if_active r a time owner =
    if is_active r.state
    then (do
      id ← create_lease r a.lease_ttl_seconds time (owner_pid_of owner) (owner_start_of owner)
      pure (some id))
    else pure none

unfoldable pub admit :
    String → RequestArgs → ℕ → String → String → ℕ → Option String → Tx RequestResult
unfolding insert_admitted record_explicit_owner lease_if_active
admit key a capacity request_id idempotency time rejection = do
  created ← read_clock
  r ← run (insert_admitted key a capacity request_id idempotency created rejection)
  owner ← record_explicit_owner request_id a.owner_pid a.owner_start_time time
  lease_id ← lease_if_active r a time owner
  event request_id lease_id none r.state a.actor (or_default r.reason_code "")
  shown ← on_row lease_id (gets (λ db. own_lease_id db request_id)) (λ id. pure (some id))
  pure (record { request = r; lease_id = shown; idempotent_replay = false })

unfoldable pub inherit : String → RequestArgs → String → String → ℕ → String → Tx RequestResult
unfolding record_explicit_owner
inherit key a request_id idempotency time lease_id = do
  busy ← gets (λ db. ltb 0 (children db lease_id))
  created ← read_clock
  if busy
      then (do
        run (
            insert_request (
              new_request key a request_id idempotency created quarantined (some lease_id)
                (some "INHERITED_CHILD_BUSY")))
        record_explicit_owner request_id a.owner_pid a.owner_start_time time
        event request_id none none quarantined a.actor "INHERITED_CHILD_BUSY"
        commit
        raise (busy_error "INHERITED_CHILD_BUSY"))
      else do
        let r = new_request key a request_id idempotency created inherited (some lease_id) none
        run (insert_request r)
        record_explicit_owner request_id a.owner_pid a.owner_start_time time
        event request_id (some lease_id) none inherited a.actor "LEASE_INHERITED"
        pure (record { request = r; lease_id = some lease_id; idempotent_replay = false })

abbrev pub by_parent :
    ParentLease → String → RequestArgs → ℕ → String → String → ℕ → Tx RequestResult
by_parent not_asked key a capacity request_id idempotency time =
    admit key a capacity request_id idempotency time none
by_parent source_busy key a capacity request_id idempotency time =
    raise (busy_error "PROVIDER_SOURCE_BUSY")
by_parent (refused reason) key a capacity request_id idempotency time =
    admit key a capacity request_id idempotency time (some reason)
by_parent (usable lease_id) key a capacity request_id idempotency time =
    inherit key a request_id idempotency time lease_id

-- The refusal is raised after the sweep's effects are committed on a connection of their own.
unfoldable pub refuse_revoked : Cutoffs → String → ℕ → Tx RequestResult
refuse_revoked c actor time = do
  rollback
  sweep_stale_slots c time false actor true none
  commit
  raise (admission_error "ATTEMPT_REVOKED")

abbrev pub invalid_capacity : String → HostResourcePool → Bool
invalid_capacity key p = ltb p.capacity 1 || (key == resource_key) && not (eqb p.capacity 1)

unfoldable pub request_in_pool :
    Cutoffs → String → RequestArgs → String → ℕ → HostResourcePool → Tx RequestResult
unfolding refuse_revoked admit inherit parent_lease
request_in_pool c key a idempotency time pool =
    if not pool.enabled
    then raise (admission_error "HOST_RESOURCE_DISABLED")
    else if invalid_capacity key pool
    then raise (admission_error "HOST_RESOURCE_CAPACITY_INVALID")
    else do
      sweep_stale_slots c time false a.actor true none
      revoked ← gets (λ db. attempt_is_revoked db a.attempt_id)
      if revoked then refuse_revoked c a.actor time else do
        request_id ← uuid4
        parent ← gets (parent_lease key a.inherited_id time)
        by_parent parent key a pool.capacity request_id idempotency time

unfoldable pub checked : Result (Unit {0}) → Tx (Unit {0})
checked (ok u) = pure u
checked (err e) = raise e

unfoldable pub given_or_fresh : Option String → Tx String
given_or_fresh none = uuid4
given_or_fresh (some key) = if key == "" then uuid4 else pure key

unfoldable pub request : Cutoffs → String → RequestArgs → Tx RequestResult
unfolding checked given_or_fresh replay request_in_pool
request c key a = do
  checked
      (validate_request a.purpose a.attempt_id a.agent_instance a.lease_ttl_seconds a.priority key)
  idempotency ← given_or_fresh a.idempotency_key
  time ← read_clock
  existing ← gets (λ db. first (λ r. r.idempotency_key == idempotency) db.requests)
  on_row existing
      (do
        pool ← gets (λ db. find_pool db key)
        on_row pool (raise (admission_error "HOST_RESOURCE_DISABLED"))
            (request_in_pool c key a idempotency time))
      (replay key a)
