-- ===== src/Resources/Methods/Releases.antt =====
-- The constructor, heartbeat and release of `HostResourceManager`.
use dotclaude_ecosystem.Model.{second}
use dotclaude_ecosystem.Db.{
  Db, HostResourceRequestState, queued, active, inherited, released, recovery_required, quarantined,
  HostResourceRequest, HostResourceLease, HostResourcePool,
}
use dotclaude_ecosystem.Session.{
  value_error, admission_error, busy_error, Result, ok, err, Tx, ◌>>=◌, ◌>>◌, pure, raise, gets,
  run, modify, require, read_clock, on_row,
}
use dotclaude_ecosystem.Resources.Keys.{
  known_resource_keys, default_pool_capacities, provider_source_capacity,
}
use dotclaude_ecosystem.Resources.Rows.{
  is_active, find_request, lease_of, lease_by_id, find_pool, event, set_request,
}
use dotclaude_ecosystem.Resources.Promotion.{Promoted, promote_related}
use dotclaude_ecosystem.Resources.Admission.{children, own_lease_id}
use dotclaude_ecosystem.Prelude.{
  ℕ, ◌+◌, ◌*◌, String, Bool, true, not, ◌&&◌, Option, none, some, [], ◌∷◌, ◌++◌, ltb, leb, eqb,
  if◌then◌else◌, or_default, is_some, update, ◌==◌, mem_str, get,
}

-- `save_resource_pool`: insert, or update the pool of that key.
unfoldable pub save_resource_pool : HostResourcePool → Db → Db
save_resource_pool p db = record db {
  pools =
      if is_some (find_pool db p.resource_key)
      then update (λ q. q.resource_key == p.resource_key) (λ q. p) db.pools
      else db.pools ++ p ∷ [];
}

abbrev pub default_pool : String → Bool → HostResourcePool
default_pool key enabled = record {
  resource_key = key;
  capacity = or_default (get default_pool_capacities key) 1;
  enabled = enabled;
}

abbrev pub of_old_capacity : String → HostResourcePool → Bool
of_old_capacity key p =
    mem_str key ("cdp:chatgpt" ∷ "cdp:perplexity" ∷ [])
    && eqb p.capacity provider_source_capacity
    && not (eqb p.capacity (or_default (get default_pool_capacities key) 1))

-- The constructor: an absent pool is made, and a browser pool of the old capacity 3 is raised.
abbrev pub ensure_from : String → Db → Option HostResourcePool → Db
ensure_from key db none = save_resource_pool (default_pool key true) db
ensure_from key db (some p) =
    if of_old_capacity key p then save_resource_pool (default_pool key p.enabled) db else db

unfoldable pub ensure_pool : String → Db → Db
unfolding save_resource_pool
ensure_pool key db = ensure_from key db (find_pool db key)

unfoldable pub open_manager : String → Tx (Unit {0})
unfolding ensure_pool
open_manager key = do
  require (mem_str key known_resource_keys) (value_error "unknown resource key")
  modify (ensure_pool key)

-- The lease and the state of its request, joined.
unfoldable pub active_lease : Db → String → Option HostResourceLease
active_lease db lease_id = elim (lease_by_id db lease_id) [
  | none ↦ none
  | some l ↦ elim (find_request db l.request_id) [
    | none ↦ none
    | some r ↦ if is_active r.state then some l else none
  ]
]

abbrev pub set_lease : String → (HostResourceLease → HostResourceLease) → Db → Db
set_lease lease_id f db = record db {
  resource_leases = update (λ l. l.lease_id == lease_id) f db.resource_leases;
}

abbrev pub beat : ℕ → ℕ → ℕ → HostResourceLease → HostResourceLease
beat sequence expires time l = record l {
  heartbeat_sequence = sequence;
  expires_at_utc = expires;
  last_heartbeat_utc = time;
}

-- The write of `heartbeat`, behind its three refusals.
unfoldable pub extend_lease : String → ℕ → ℕ → ℕ → Db → Result (ℕ × Db)
extend_lease lease_id sequence ttl time db = elim (active_lease db lease_id) [
  | none ↦ err (admission_error "RESOURCE_LEASE_NOT_ACTIVE")
  | some l ↦
      if leb sequence l.heartbeat_sequence
      then err (value_error "HEARTBEAT_OUT_OF_ORDER")
      else if leb l.expires_at_utc time
      then err (admission_error "RESOURCE_LEASE_EXPIRED")
      else ok
          (time + ttl * second, set_lease lease_id (beat sequence (time + ttl * second) time) db)
]

unfoldable pub heartbeat : String → ℕ → ℕ → Tx ℕ
unfolding extend_lease active_lease
heartbeat lease_id sequence ttl = do
  require (leb 1 sequence && leb 1 ttl) (value_error "heartbeat sequence and TTL must be positive")
  time ← read_clock
  run (extend_lease lease_id sequence ttl time)

pub data ReleaseStatus : Type 0 where
  already_released : HostResourceRequestState → ReleaseStatus
  freed : Option Promoted → ReleaseStatus

abbrev pub release_fields : Option ℕ → String → HostResourceRequest → HostResourceRequest
release_fields time reason r = record r {
  state = released;
  released_at_utc = time;
  reason_code = some reason;
}

-- The lease that an event names: the request's own, else the one it was to inherit.
abbrev pub event_lease : Db → HostResourceRequest → Option String
event_lease db r = elim (lease_of db r.request_id) [
  | some l ↦ some l.lease_id
  | none ↦ r.parent_lease_id
]

abbrev pub free_request : HostResourceRequest → String → String → Tx ReleaseStatus
free_request r actor reason = do
  time ← read_clock
  modify (set_request r.request_id (release_fields (some time) reason))
  lease_id ← gets (λ db. event_lease db r)
  event r.request_id lease_id (some r.state) released actor reason
  promoted ← promote_related r.resource_key actor
  pure (freed promoted)

abbrev pub release_by_state :
    HostResourceRequestState → HostResourceRequest → String → String → Tx ReleaseStatus
release_by_state released r actor reason = pure (already_released released)
release_by_state quarantined r actor reason = pure (already_released quarantined)
release_by_state recovery_required r actor reason =
    raise (admission_error "RECOVERY_REQUIRED_RELEASE_REFUSED")
release_by_state active r actor reason = do
  held ← gets (λ db. ltb 0 (children db (or_default (own_lease_id db r.request_id) "")))
  require (not held) (busy_error "INHERITED_CHILD_ACTIVE")
  free_request r actor reason
release_by_state queued r actor reason = free_request r actor reason
release_by_state inherited r actor reason = free_request r actor reason

unfoldable pub release : String → String → String → Tx ReleaseStatus
release request_id actor reason = do
  row ← gets (λ db. find_request db request_id)
  on_row row (raise (admission_error "RESOURCE_REQUEST_NOT_FOUND"))
      (λ r. release_by_state r.state r actor reason)
