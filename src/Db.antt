-- ===== src/Db.antt =====
-- The tables of the conductor database (scripts/conductor_store.py, `_init_db` and the
-- migrations; scripts/conductor_model.py for the entities). A table is a list of rows in
-- insertion order. Timestamp columns hold instants: the program writes them with `isoformat`, in
-- UTC, so that the order of the texts is the order of the instants. Process start times, floats
-- in seconds, are scaled to microseconds.
use dotclaude_ecosystem.Model.{WorkItem, WorkItemState, AuthorizationRecord}
use dotclaude_ecosystem.Prelude.{ℕ, String, Bool, Option, List, []}

-- A row of `work_items`: the entity and the claim authority of migration 9.
pub record WorkItemRow : Type 0 where
  pub item : WorkItem
  pub open item use *
  pub current_claim_attempt_id : Option String
  pub current_claim_generation : Option ℕ

pub record Attempt : Type 0 where
  pub attempt_id : String
  pub work_item_id : String
  pub attempt_number : ℕ
  pub agent_host : String
  pub agent_instance : String
  pub status : String
  pub reason_code : Option String
  pub ended_at_utc : Option ℕ

pub record Claim : Type 0 where
  pub claim_id : String
  pub work_item_id : String
  pub attempt_id : String
  pub claimed_by_host : String
  pub lease_ttl_seconds : ℕ
  pub claim_generation : ℕ

pub record Lease : Type 0 where
  pub lease_id : String
  pub attempt_id : String
  pub agent_instance : String
  pub heartbeat_sequence : ℕ
  pub expires_at_utc : ℕ
  pub last_heartbeat_utc : ℕ
  pub lease_generation : ℕ

pub record EvidenceCheckpoint : Type 0 where
  pub checkpoint_id : String
  pub work_item_id : String
  pub attempt_id : String
  pub boundary : String
  pub snapshot_sha256 : String
  pub required_gate : String
  pub observed_gate_state : String

pub record EventRecord : Type 0 where
  pub event_id : String
  pub work_item_id : String
  pub attempt_id : Option String
  pub previous_state : WorkItemState
  pub next_state : WorkItemState
  pub actor_identity : String
  pub reason_code : String
  pub recorded_at_utc : ℕ

-- `result` is the receipt's JSON text, which the store only keeps and returns.
pub record Receipt : Type 0 where
  pub receipt_id : String
  pub command_id : String
  pub idempotency_key : String
  pub status : String
  pub result : String
  pub error_message : Option String

pub data HostResourceRequestState : Type 0 where
  queued active inherited released recovery_required quarantined : HostResourceRequestState

pub record HostResourceRequest : Type 0 where
  pub request_id : String
  pub idempotency_key : String
  pub resource_key : String
  pub purpose : String
  pub attempt_id : String
  pub agent_instance : String
  pub state : HostResourceRequestState
  pub priority : ℕ
  pub parent_lease_id : Option String
  pub command_sha256 : String
  pub created_at_utc : ℕ
  pub released_at_utc : Option ℕ
  pub reason_code : Option String
  pub slot_key : String
  pub owner_process_pid : Option ℕ
  pub owner_process_start_time : Option ℕ
  pub owner_identity_source : String
  pub owner_last_seen_at_utc : Option ℕ

pub record HostResourceLease : Type 0 where
  pub lease_id : String
  pub request_id : String
  pub resource_key : String
  pub attempt_id : String
  pub agent_instance : String
  pub heartbeat_sequence : ℕ
  pub expires_at_utc : ℕ
  pub last_heartbeat_utc : ℕ
  pub process_pid : Option ℕ
  pub process_start_time : Option ℕ

pub record HostResourcePool : Type 0 where
  pub resource_key : String
  pub capacity : ℕ
  pub enabled : Bool

-- `details` is the event's JSON text.
pub record HostResourceEvent : Type 0 where
  pub event_id : String
  pub request_id : String
  pub lease_id : Option String
  pub previous_state : Option HostResourceRequestState
  pub next_state : HostResourceRequestState
  pub actor_identity : String
  pub reason_code : String
  pub recorded_at_utc : ℕ
  pub details : String

pub record Db : Type 0 where
  pub work_items : List WorkItemRow
  pub attempts : List Attempt
  pub claims : List Claim
  pub leases : List Lease
  pub checkpoints : List EvidenceCheckpoint
  pub events : List EventRecord
  pub authorizations : List AuthorizationRecord
  pub receipts : List Receipt
  pub pools : List HostResourcePool
  pub requests : List HostResourceRequest
  pub resource_leases : List HostResourceLease
  pub resource_events : List HostResourceEvent

abbrev pub empty_db : Db
empty_db = record {
  work_items = [];
  attempts = [];
  claims = [];
  leases = [];
  checkpoints = [];
  events = [];
  authorizations = [];
  receipts = [];
  pools = [];
  requests = [];
  resource_leases = [];
  resource_events = [];
}
