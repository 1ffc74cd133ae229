-- ===== src/Resources/Admission/Decision.antt =====
-- What `request` decides on: its arguments, replays, the parent lease and the free capacity.
use dotclaude_ecosystem.Model.{second}
use dotclaude_ecosystem.Db.{Db, HostResourceRequestState, queued, active, HostResourceRequest}
use dotclaude_ecosystem.Session.{
  admission_error, Result, ok, err, Host, Probe, started, no_such_process, unreadable_process, Tx,
  ◌>>=◌, ◌>>◌, pure, raise, gets, modify, get_host, on_row,
}
use dotclaude_ecosystem.Resources.Rows.{
  is_active, is_inherited, fills, find_request, lease_of, slot_taken, source_full, insert_request,
  set_request,
}
use dotclaude_ecosystem.Resources.Liveness.{distance}
use dotclaude_ecosystem.Prelude.{
  ℕ, ◌*◌, String, Bool, true, not, ◌&&◌, Option, none, some, leb, if◌then◌else◌, or_default, first,
  count, ◌==◌, opt_eq,
}

-- The keyword arguments; `slot_key` is already stripped, and `inherited_id` is the parent lease
-- of the argument or of the environment, empty where neither names one.
pub record RequestArgs : Type 0 where
  pub purpose : String
  pub attempt_id : String
  pub agent_instance : String
  pub slot_key : String
  pub idempotency_key : Option String
  pub command_sha256 : String
  pub priority : ℕ
  pub inherited_id : String
  pub lease_ttl_seconds : ℕ
  pub actor : String
  pub owner_pid : Option ℕ
  pub owner_start_time : Option ℕ

-- `_request_result`, without the report on blocking holders.
pub record RequestResult : Type 0 where
  pub request : HostResourceRequest
  pub lease_id : Option String
  pub idempotent_replay : Bool

abbrev pub own_lease_id : Db → String → Option String
own_lease_id db request_id = elim (lease_of db request_id) [
  | none ↦ none
  | some l ↦ some l.lease_id
]

-- `_record_explicit_owner_locked`
abbrev pub validated : ℕ → Option ℕ → Bool
validated observed none = true
validated observed (some claimed) = leb (distance observed claimed) (2 * second)

abbrev pub with_owner : ℕ → ℕ → Option ℕ → ℕ → HostResourceRequest → HostResourceRequest
with_owner pid observed claimed time r = record r {
  owner_process_pid = some pid;
  owner_process_start_time = some observed;
  owner_identity_source =
      if validated observed claimed then "EXPLICIT_VALIDATED" else "EXPLICIT_UNVERIFIED";
  owner_last_seen_at_utc = some time;
}

abbrev pub observed_start : Probe → Option ℕ
observed_start (started t) = some t
observed_start no_such_process = none
observed_start unreadable_process = none

abbrev pub observe : Host → Option ℕ → Option (ℕ × ℕ)
observe host none = none
observe host (some pid) = elim (observed_start (host.probe pid)) [
  | none ↦ none
  | some t ↦ some (pid, t)
]

unfoldable pub record_explicit_owner : String → Option ℕ → Option ℕ → ℕ → Tx (Option (ℕ × ℕ))
record_explicit_owner request_id pid start time = do
  host ← get_host
  on_row (observe host pid) (pure none) (λ owner. do
    modify (set_request request_id (with_owner owner.0 owner.1 start time))
    pure (some owner))

abbrev pub new_request :
    String
    → RequestArgs
    → String
    → String
    → ℕ
    → HostResourceRequestState
    → Option String
    → Option String
    → HostResourceRequest
new_request key a request_id idempotency created state parent reason = record {
  request_id = request_id;
  idempotency_key = idempotency;
  resource_key = key;
  purpose = a.purpose;
  attempt_id = a.attempt_id;
  agent_instance = a.agent_instance;
  state = state;
  priority = a.priority;
  parent_lease_id = parent;
  command_sha256 = a.command_sha256;
  created_at_utc = created;
  released_at_utc = none;
  reason_code = reason;
  slot_key = a.slot_key;
  owner_process_pid = none;
  owner_process_start_time = none;
  owner_identity_source = "UNRECORDED";
  owner_last_seen_at_utc = none;
}

abbrev pub same_request : String → RequestArgs → HostResourceRequest → Bool
same_request key a r =
    (r.resource_key == key)
    && (r.purpose == a.purpose)
    && (r.attempt_id == a.attempt_id)
    && (r.agent_instance == a.agent_instance)
    && (r.slot_key == a.slot_key)
    && (r.command_sha256 == a.command_sha256)

unfoldable pub replay : String → RequestArgs → HostResourceRequest → Tx RequestResult
replay key a r =
    if same_request key a r
    then (do
      lease_id ← gets (λ db. own_lease_id db r.request_id)
      pure (record { request = r; lease_id = lease_id; idempotent_replay = true }))
    else raise (admission_error "RESOURCE_IDEMPOTENCY_CONFLICT")

-- What the lease that a request wants to inherit turns out to be.
pub data ParentLease : Type 0 where
  not_asked : ParentLease
  source_busy : ParentLease
  refused : String → ParentLease
  usable : String → ParentLease

unfoldable pub parent_lease : String → String → ℕ → Db → ParentLease
parent_lease key inherited_id time db =
    if inherited_id == ""
    then not_asked
    else if source_full db key
    then source_busy
    else elim (first (λ l. (l.lease_id == inherited_id) && (l.resource_key == key))
        db.resource_leases) [
          | none ↦ refused "INHERITED_LEASE_INVALID"
          | some l ↦ elim (find_request db l.request_id) [
            | none ↦ refused "INHERITED_LEASE_INVALID"
            | some r ↦
                if not (is_active r.state)
                then refused "INHERITED_LEASE_INVALID"
                else if leb l.expires_at_utc time
                then refused "INHERITED_LEASE_EXPIRED"
                else usable inherited_id
          ]
        ]

abbrev pub children : Db → String → ℕ
children db lease_id =
    count (λ r. opt_eq r.parent_lease_id lease_id && is_inherited r.state) db.requests

-- State and reason of a request that inherits nothing.
unfoldable pub admission :
    Db → String → ℕ → String → Option String → HostResourceRequestState × String
admission db key capacity slot rejection =
    if leb capacity (count (fills key) db.requests)
    then (queued, or_default rejection "HOST_RESOURCE_BUSY")
    else if source_full db key
    then (queued, "PROVIDER_SOURCE_BUSY")
    else if slot_taken db key slot
    then (queued, or_default rejection "SLOT_KEY_BUSY")
    else (active, or_default rejection "HOST_RESOURCE_ADMITTED")

abbrev pub giving : HostResourceRequest → Result (Unit {0} × Db) → Result (HostResourceRequest × Db)
giving r (ok (_, db)) = ok (r, db)
giving r (err e) = err e

-- The SELECTs, the decision and the INSERT under one write lock.
unfoldable pub insert_admitted :
    String
    → RequestArgs
    → ℕ
    → String
    → String
    → ℕ
    → Option String
    → Db
    → Result (HostResourceRequest × Db)
unfolding admission insert_request
insert_admitted key a capacity request_id idempotency created rejection db =
    let d = admission db key capacity a.slot_key rejection in
    let r = new_request key a request_id idempotency created (d.0) none (some (d.1)) in
    giving r (insert_request r db)
