-- ===== src/Resources/Promotion.antt =====
-- `_promote_locked` and `_promote_related_locked`: what takes the place of a released request.
use dotclaude_ecosystem.Db.{Db, active, HostResourceRequest, HostResourcePool}
use dotclaude_ecosystem.Session.{Result, ok, Tx, ◌>>=◌, ◌>>◌, pure, gets, run, read_clock, on_row}
use dotclaude_ecosystem.Resources.Keys.{provider_source_by_pool, default_lease_ttl_seconds}
use dotclaude_ecosystem.Resources.Rows.{
  is_queued, in_pool, fills, find_pool, queue_before, slot_taken, source_full, attempt_revoked_row,
  event, create_lease, set_request, in_source,
}
use dotclaude_ecosystem.Prelude.{
  String, Bool, not, ◌&&◌, ◌||◌, Option, none, some, List, [], ◌∷◌, ltb, leb, if◌then◌else◌, select,
  first, count, order_by, ◌==◌, get,
}

-- The row promoted and its new lease.
pub record Promoted : Type 0 where
  pub request_id : String
  pub lease_id : String

-- The requests that wait for a pool, in the order in which they are considered.
unfoldable pub waiting : Db → String → List HostResourceRequest
unfolding queue_before
waiting db key =
    order_by queue_before (select (λ r. in_pool key r && is_queued r.state) db.requests)

-- Slot exclusivity passes over a request, and so does a revoked attempt.
unfoldable pub promotable : Db → String → HostResourceRequest → Bool
promotable db key r =
    not (slot_taken db key r.slot_key)
    && ((r.attempt_id == "") || not (attempt_revoked_row db r.attempt_id))

-- A pool has room: enabled, of capacity at least one, and not filled by active or fenced rows.
unfoldable pub has_room : Db → String → HostResourcePool → Bool
has_room db key pool =
    pool.enabled && leb 1 pool.capacity && ltb (count (fills key) db.requests) pool.capacity

unfoldable pub eligible : Db → String → Option HostResourceRequest
unfolding waiting promotable has_room
eligible db key = if source_full db key then none else elim (find_pool db key) [
  | none ↦ none
  | some pool ↦ if has_room db key pool then first (promotable db key) (waiting db key) else none
]

abbrev pub activate : HostResourceRequest → HostResourceRequest
activate r = record r { state = active; reason_code = some "HOST_RESOURCE_PROMOTED" }

-- The SELECTs and the UPDATE that follows them under the same write lock.
unfoldable pub take_eligible : String → Db → Result (Option HostResourceRequest × Db)
unfolding eligible
take_eligible key db = elim (eligible db key) [
  | none ↦ ok (none, db)
  | some r ↦ ok (some r, set_request r.request_id activate db)
]

unfoldable pub promote : String → String → Tx (Option Promoted)
unfolding take_eligible
promote key actor = do
  taken ← run (take_eligible key)
  on_row taken (pure none) (λ r. do
    time ← read_clock
    lease_id ←
        create_lease r default_lease_ttl_seconds time r.owner_process_pid r.owner_process_start_time
    event r.request_id (some lease_id) (some r.state) active actor "HOST_RESOURCE_PROMOTED"
    pure (some (record { request_id = r.request_id; lease_id = lease_id })))

-- One attempt for each waiting row of the source, in queue order, until one is promoted.
unfoldable pub promote_first : List HostResourceRequest → String → Tx (Option Promoted)
promote_first [] actor = pure none
promote_first (r ∷ rs) actor = do
  promoted ← promote r.resource_key actor
  on_row promoted (promote_first rs actor) (λ p. pure (some p))

unfoldable pub waiting_in_source : Db → String → List HostResourceRequest
unfolding queue_before in_source
waiting_in_source db source =
    order_by queue_before (select (λ r. in_source source r && is_queued r.state) db.requests)

unfoldable pub promote_related : String → String → Tx (Option Promoted)
unfolding promote_first waiting_in_source
promote_related key actor =
    on_row (get provider_source_by_pool key) (promote key actor)
      (λ source. do rows ← gets (λ db. waiting_in_source db source); promote_first rows actor)
