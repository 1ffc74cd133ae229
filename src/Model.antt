-- ===== src/Model.antt =====
-- scripts/conductor_model.py: the states of a work item and their transition table, the reason
-- codes, the entities and the rule for an operator's GO. Instants are microseconds since the
-- year 1 in UTC, so `datetime.min` is 0.
pub mod Transitions
pub mod Authorization
use dotclaude_ecosystem.Prelude.{
  ℕ, zero, suc, ◌+◌, ◌-◌, ◌*◌, ◌≤◌, ◌<◌, String, ◌≡◌, refl, sym, ap, ◌∙◌, subst, ◌≢◌, ◌↔◌, ◌⊎◌, inl,
  inr, Bool, true, false, not, ◌&&◌, ◌||◌, Option, none, some, List, [], ◌∷◌, ◌++◌, map, arith, ltb,
  leb, eqb, if◌then◌else◌, ltb→lt, leb-false→lt, Bool-cases, Option-cases, or_default, is_some,
  &&-left, &&-right, length, select, first, any, count, update, delete, insert_by, order_by, ◌==◌,
  starts_with, eq_iff, eq_refl, str_ltb, mem_str, get, opt_eq, ==→≡,
}

pub data WorkItemState : Type 0 where
  discovered queued hold ready claimed dispatching running waiting_external : WorkItemState
  review completed cancelled blocked recovery_required dispatch_unknown quarantined : WorkItemState

-- The members of the `str` enum in the order of the source; equality of members is equality here.
unfoldable pub ordinal : WorkItemState → ℕ
ordinal discovered = 0
ordinal queued = 1
ordinal hold = 2
ordinal ready = 3
ordinal claimed = 4
ordinal dispatching = 5
ordinal running = 6
ordinal waiting_external = 7
ordinal review = 8
ordinal completed = 9
ordinal cancelled = 10
ordinal blocked = 11
ordinal recovery_required = 12
ordinal dispatch_unknown = 13
ordinal quarantined = 14

unfoldable pub same_state : WorkItemState → WorkItemState → Bool
unfolding ordinal
same_state s t = eqb (ordinal s) (ordinal t)

unfoldable pub valid_transitions : WorkItemState → List WorkItemState
valid_transitions discovered = queued ∷ cancelled ∷ []
valid_transitions queued = hold ∷ ready ∷ cancelled ∷ quarantined ∷ []
valid_transitions hold = ready ∷ cancelled ∷ quarantined ∷ []
valid_transitions ready = claimed ∷ hold ∷ cancelled ∷ quarantined ∷ []
valid_transitions claimed = dispatching ∷ recovery_required ∷ cancelled ∷ quarantined ∷ []
valid_transitions dispatching =
    running ∷ dispatch_unknown ∷ recovery_required ∷ cancelled ∷ quarantined ∷ []
valid_transitions running =
    waiting_external ∷ review ∷ completed ∷ blocked ∷ recovery_required ∷ cancelled ∷ quarantined
    ∷ []
valid_transitions waiting_external =
    running ∷ blocked ∷ recovery_required ∷ cancelled ∷ quarantined ∷ []
valid_transitions review = completed ∷ blocked ∷ recovery_required ∷ cancelled ∷ quarantined ∷ []
valid_transitions recovery_required = ready ∷ hold ∷ cancelled ∷ quarantined ∷ []
valid_transitions dispatch_unknown = recovery_required ∷ cancelled ∷ quarantined ∷ []
valid_transitions blocked = ready ∷ hold ∷ cancelled ∷ quarantined ∷ []
valid_transitions completed = []
valid_transitions cancelled = []
valid_transitions quarantined = []

unfoldable pub mem_state : WorkItemState → List WorkItemState → Bool
unfolding same_state
mem_state s [] = false
mem_state s (t ∷ ts) = same_state s t || mem_state s ts

unfoldable pub can_transition : WorkItemState → WorkItemState → Bool
unfolding valid_transitions mem_state
can_transition current target = mem_state target (valid_transitions current)

-- The codes that the modelled operations write into the ledgers.
pub data ReasonCode : Type 0 where
  admission_operator_enqueue authorization_missing authorization_expired : ReasonCode
  authorization_scope_mismatch lease_expired operator_cancelled slot_key_busy : ReasonCode

unfoldable pub value : ReasonCode → String
value admission_operator_enqueue = "ADMISSION_OPERATOR_ENQUEUE"
value authorization_missing = "AUTHORIZATION_MISSING"
value authorization_expired = "AUTHORIZATION_EXPIRED"
value authorization_scope_mismatch = "AUTHORIZATION_SCOPE_MISMATCH"
value lease_expired = "LEASE_EXPIRED"
value operator_cancelled = "OPERATOR_CANCELLED"
value slot_key_busy = "SLOT_KEY_BUSY"

-- `max_cost_usd` is a float that is only stored and is left out.
pub record ExecutionBudget : Type 0 where
  pub max_attempts : ℕ
  pub max_wall_seconds : ℕ

pub record WorkItem : Type 0 where
  pub work_item_id : String
  pub idempotency_key : String
  pub title : String
  pub repo_id : String
  pub repo_path : String
  pub plan_path : String
  pub risk_class : String
  pub workflow : String
  pub requested_terminal_stage : String
  pub job_kind : String
  pub priority : ℕ
  pub dependency_ids : List String
  pub authority_requirement : String
  pub execution_budget : ExecutionBudget
  pub scope_digest_sha256 : String
  pub context_digest_sha256 : String
  pub state : WorkItemState
  pub created_at_utc : ℕ
  pub created_by : String

-- `WorkItem.validate` raises unless this holds.
unfoldable pub validates : WorkItem → Bool
validates item =
    not (item.work_item_id == "")
    && not (item.idempotency_key == "")
    && mem_str item.risk_class ("R0" ∷ "R1" ∷ "R2" ∷ "R3" ∷ [])
    && mem_str item.workflow ("fwf" ∷ "fwp" ∷ [])

-- R2 and R3 work needs an operator's GO.
abbrev pub needs_authorization : String → Bool
needs_authorization risk = mem_str risk ("R2" ∷ "R3" ∷ [])

-- A timestamp text as `datetime.fromisoformat` reads it.
pub data Stamp : Type 0 where
  at : ℕ → Stamp
  unreadable : Stamp

unfoldable pub parse_iso_or_expired : Stamp → ℕ
parse_iso_or_expired (at t) = t
parse_iso_or_expired unreadable = 0

pub record AuthorizationRecord : Type 0 where
  pub authorization_id : String
  pub work_item_id : String
  pub scope_digest_sha256 : String
  pub risk_class : String
  pub authorized_workflow : String
  pub permitted_terminal_stage : String
  pub issued_at_utc : ℕ
  pub expires_at_utc : Option Stamp
  pub operator_identity : String
  pub interactive_provenance_proven : Bool

-- One second in microseconds.
abbrev pub second : ℕ
second = 1000000

abbrev pub authorization_ttl_seconds : ℕ
authorization_ttl_seconds = 7 * (24 * 3600)

unfoldable pub authorization_expiry : AuthorizationRecord → ℕ
unfolding parse_iso_or_expired
authorization_expiry auth = elim auth.expires_at_utc [
  | some stamp ↦ parse_iso_or_expired stamp
  | none ↦ parse_iso_or_expired (at auth.issued_at_utc) + authorization_ttl_seconds * second
]

unfoldable pub record_refusal : AuthorizationRecord → String → ℕ → Option ReasonCode
unfolding authorization_expiry
record_refusal auth scope now =
    if not auth.interactive_provenance_proven
    then some authorization_missing
    else if leb (authorization_expiry auth) now
    then some authorization_expired
    else if not (auth.scope_digest_sha256 == scope)
    then some authorization_scope_mismatch
    else none

unfoldable pub authorization_refusal : Option AuthorizationRecord → String → ℕ → Option ReasonCode
unfolding record_refusal
authorization_refusal none scope now = some authorization_missing
authorization_refusal (some auth) scope now = record_refusal auth scope now
