-- ===== src/Resources/Rows.antt =====
-- The row filters and row writes that the methods of `HostResourceManager` share.
use Prim.Native.Nat.{max}
use Prim.Native.String.{◌++◌ as append}
use dotclaude_ecosystem.Model.{second}
use dotclaude_ecosystem.Db.{
  Db, Attempt, HostResourceRequestState, queued, active, inherited, recovery_required,
  HostResourceRequest, HostResourceLease, HostResourcePool,
}
use dotclaude_ecosystem.Session.{
  integrity_error, Result, ok, err, Tx, ◌>>=◌, ◌>>◌, pure, run, modify, read_clock, uuid4,
}
use dotclaude_ecosystem.Resources.Keys.{
  provider_source_by_pool, provider_source_capacity, default_pool_capacities, pools_of,
}
use dotclaude_ecosystem.Prelude.{
  ℕ, ◌+◌, ◌*◌, String, Bool, true, false, not, ◌&&◌, ◌||◌, Option, none, some, [], ◌∷◌, ◌++◌, ltb,
  leb, eqb, if◌then◌else◌, or_default, first, any, count, update, ◌==◌, str_ltb, mem_str, get,
}

abbrev pub is_queued : HostResourceRequestState → Bool
is_queued queued = true
is_queued _ = false

abbrev pub is_active : HostResourceRequestState → Bool
is_active active = true
is_active _ = false

abbrev pub is_inherited : HostResourceRequestState → Bool
is_inherited inherited = true
is_inherited _ = false

abbrev pub is_fenced : HostResourceRequestState → Bool
is_fenced recovery_required = true
is_fenced _ = false

-- `state IN ('ACTIVE', 'RECOVERY_REQUIRED')`: what fills a pool.
abbrev pub fills_pool : HostResourceRequestState → Bool
fills_pool active = true
fills_pool recovery_required = true
fills_pool _ = false

-- `state IN ('ACTIVE', 'INHERITED', 'RECOVERY_REQUIRED')`: what fills a provider source.
abbrev pub fills_source : HostResourceRequestState → Bool
fills_source active = true
fills_source inherited = true
fills_source recovery_required = true
fills_source _ = false

abbrev pub in_pool : String → HostResourceRequest → Bool
in_pool key r = r.resource_key == key

abbrev pub has_id : String → HostResourceRequest → Bool
has_id request_id r = r.request_id == request_id

abbrev pub fills : String → HostResourceRequest → Bool
fills key r = fills_pool r.state && in_pool key r

abbrev pub find_request : Db → String → Option HostResourceRequest
find_request db request_id = first (has_id request_id) db.requests

abbrev pub lease_of : Db → String → Option HostResourceLease
lease_of db request_id = first (λ l. l.request_id == request_id) db.resource_leases

abbrev pub lease_by_id : Db → String → Option HostResourceLease
lease_by_id db lease_id = first (λ l. l.lease_id == lease_id) db.resource_leases

abbrev pub find_pool : Db → String → Option HostResourcePool
find_pool db key = first (λ p. p.resource_key == key) db.pools

-- `ORDER BY priority DESC, created_at_utc, request_id`
unfoldable pub queue_before : HostResourceRequest → HostResourceRequest → Bool
queue_before a b =
    ltb b.priority a.priority
    || eqb a.priority b.priority
      && (ltb a.created_at_utc b.created_at_utc
          || eqb a.created_at_utc b.created_at_utc && str_ltb a.request_id b.request_id)

-- `ORDER BY created_at_utc, request_id`
unfoldable pub oldest_before : HostResourceRequest → HostResourceRequest → Bool
oldest_before a b =
    ltb a.created_at_utc b.created_at_utc
    || eqb a.created_at_utc b.created_at_utc && str_ltb a.request_id b.request_id

-- The slot keys that the rows filling a pool hold; an empty key holds none.
unfoldable pub slot_taken : Db → String → String → Bool
slot_taken db key slot =
    not (slot == "") && any (λ r. fills key r && (r.slot_key == slot)) db.requests

-- `max(PROVIDER_SOURCE_CAPACITY, DEFAULT_POOL_CAPACITIES.get(f"cdp:{source}", 0))`
unfoldable pub source_capacity : String → ℕ
source_capacity source =
    max provider_source_capacity (or_default (get default_pool_capacities (append "cdp:" source)) 0)

unfoldable pub in_source : String → HostResourceRequest → Bool
unfolding pools_of
in_source source r = mem_str r.resource_key (pools_of source provider_source_by_pool)

-- `_source_full_locked`
unfoldable pub source_full : Db → String → Bool
unfolding in_source
source_full db key = elim (get provider_source_by_pool key) [
  | none ↦ false
  | some source ↦
      leb (source_capacity source)
        (count (λ r. fills_source r.state && in_source source r) db.requests)
]

-- The reasons that revoke an attempt.
abbrev pub revokes : Option String → Bool
revokes none = false
revokes (some reason) =
    (reason == "STALE_SLOT_AUTO_RELEASED") || (reason == "CDP_MAX_HOLD_EXCEEDED")

abbrev pub revoked_row : Attempt → Bool
revoked_row a = (a.status == "UNKNOWN") || revokes a.reason_code

abbrev pub find_attempt : Db → String → Option Attempt
find_attempt db attempt_id = first (λ a. a.attempt_id == attempt_id) db.attempts

unfoldable pub attempt_revoked_row : Db → String → Bool
attempt_revoked_row db attempt_id = elim (find_attempt db attempt_id) [
  | none ↦ false
  | some a ↦ revoked_row a
]

-- `_attempt_is_revoked_locked`
unfoldable pub attempt_is_revoked : Db → String → Bool
unfolding attempt_revoked_row
attempt_is_revoked db attempt_id =
    attempt_revoked_row db attempt_id
    || any (λ r. (r.attempt_id == attempt_id) && revokes r.reason_code) db.requests

-- `_event`, whose time is the clock's where the caller gives none.
unfoldable pub event_at :
    ℕ
    → String
    → Option String
    → Option HostResourceRequestState
    → HostResourceRequestState
    → String
    → String
    → String
    → Option String
    → Tx (Unit {0})
event_at time request_id lease_id previous next actor reason details event_id = do
  hex ← uuid4
  modify (λ db. record db {
    resource_events =
        db.resource_events
        ++ record {
          event_id = or_default event_id hex;
          request_id = request_id;
          lease_id = lease_id;
          previous_state = previous;
          next_state = next;
          actor_identity = actor;
          reason_code = reason;
          recorded_at_utc = time;
          details = details;
        }
          ∷ [];
  })

unfoldable pub event :
    String
    → Option String
    → Option HostResourceRequestState
    → HostResourceRequestState
    → String
    → String
    → Tx (Unit {0})
unfolding event_at
event request_id lease_id previous next actor reason = do
  time ← read_clock
  event_at time request_id lease_id previous next actor reason "{}" none

-- `INSERT INTO host_resource_requests`: `request_id` is the primary key, `idempotency_key` UNIQUE.
unfoldable pub insert_request : HostResourceRequest → Db → Result (Unit {0} × Db)
insert_request r db =
    if any (λ x. has_id r.request_id x || (x.idempotency_key == r.idempotency_key)) db.requests
    then err (integrity_error "UNIQUE constraint failed: host_resource_requests")
    else ok (tt, record db { requests = db.requests ++ r ∷ [] })

-- `INSERT INTO host_resource_leases`: `lease_id` is the primary key, `request_id` UNIQUE.
unfoldable pub insert_lease : HostResourceLease → Db → Result (Unit {0} × Db)
insert_lease l db =
    if any (λ x. (x.lease_id == l.lease_id) || (x.request_id == l.request_id)) db.resource_leases
    then err (integrity_error "UNIQUE constraint failed: host_resource_leases")
    else ok (tt, record db { resource_leases = db.resource_leases ++ l ∷ [] })

-- `_create_lease_locked`
unfoldable pub create_lease : HostResourceRequest → ℕ → ℕ → Option ℕ → Option ℕ → Tx String
unfolding insert_lease
create_lease r ttl_seconds time pid start = do
  lease_id ← uuid4
  run (
      insert_lease (record {
        lease_id = lease_id;
        request_id = r.request_id;
        resource_key = r.resource_key;
        attempt_id = r.attempt_id;
        agent_instance = r.agent_instance;
        heartbeat_sequence = 1;
        expires_at_utc = time + ttl_seconds * second;
        last_heartbeat_utc = time;
        process_pid = pid;
        process_start_time = start;
      }))
  pure lease_id

-- `UPDATE host_resource_requests SET f WHERE request_id = ?`
abbrev pub set_request : String → (HostResourceRequest → HostResourceRequest) → Db → Db
set_request request_id f db = record db { requests = update (has_id request_id) f db.requests }
