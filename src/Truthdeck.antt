-- ===== src/Truthdeck.antt =====
-- TruthDeck, the evidence gates of scripts/truthdeck_model.py and scripts/truthdeck_gates.py. The
-- value of a fact is `None`, a bool, an int or a text, the types of FACT_KEYS. Instants are
-- microseconds since the year 1.
pub mod Gates
pub mod Json
pub mod Evaluate
pub mod Action
pub mod Grounds
pub mod Evidence
pub mod Proven
pub mod Actions
pub mod Conflicts
pub mod Disputes
use dotclaude_ecosystem.Model.{Stamp, at, unreadable}
use dotclaude_ecosystem.Prelude.{
  ℕ, zero, suc, ◌+◌, ◌-◌, ◌*◌, ◌≤◌, ◌<◌, String, ◌≡◌, refl, sym, ap, ◌∙◌, subst, ◌≢◌, ◌↔◌, ◌⊎◌, inl,
  inr, Bool, true, false, not, ◌&&◌, ◌||◌, Option, none, some, List, [], ◌∷◌, ◌++◌, map, arith, ltb,
  leb, eqb, if◌then◌else◌, ltb→lt, leb-false→lt, Bool-cases, Option-cases, or_default, is_some,
  &&-left, &&-right, length, select, first, any, count, update, delete, insert_by, order_by, ◌==◌,
  starts_with, eq_iff, eq_refl, str_ltb, mem_str, get, opt_eq, ==→≡,
}

pub data FactState : Type 0 where
  observed derived unavailable stale conflict : FactState

pub data GateState : Type 0 where
  pass hold blocked unknown not_applicable : GateState

pub data Stage : Type 0 where
  planned implemented exact_head_reviewed ci merged runtime_proven : Stage

-- `STAGE_ORDER.index`
unfoldable pub stage_index : Stage → ℕ
stage_index planned = 0
stage_index implemented = 1
stage_index exact_head_reviewed = 2
stage_index ci = 3
stage_index merged = 4
stage_index runtime_proven = 5

unfoldable pub stage_value : Stage → String
stage_value planned = "planned"
stage_value implemented = "implemented"
stage_value exact_head_reviewed = "exact_head_reviewed"
stage_value ci = "ci"
stage_value merged = "merged"
stage_value runtime_proven = "runtime_proven"

-- `ReasonCode` of TruthDeck.
pub data GateReason : Type 0 where
  collector_timeout collector_unavailable collector_output_limit : GateReason
  collector_output_invalid collector_internal_error evidence_stale : GateReason
  evidence_conflict git_head_drift dirty_operator_checkout : GateReason
  handoff_hash_mismatch handoff_base_stale pr_head_mismatch : GateReason
  review_stale_head review_blocking_findings ci_stale_head : GateReason
  ci_required_check_failed merge_not_proven runtime_build_mismatch : GateReason
  runtime_evidence_stale no_sample authorization_required : GateReason
  authorization_unknown boundary_refusal registry_invalid : GateReason
  snapshot_invalid storage_conflict : GateReason

-- `negative n` is -(n + 1).
pub data Value : Type 0 where
  null : Value
  boolean : Bool → Value
  number : ℕ → Value
  negative : ℕ → Value
  text : String → Value

-- `bool(value)`
unfoldable pub truthy : Value → Bool
truthy null = false
truthy (boolean b) = b
truthy (number n) = ltb 0 n
truthy (negative n) = true
truthy (text s) = not (s == "")

-- The int that a bool is.
abbrev pub as_int : Bool → ℕ
as_int b = if b then 1 else 0

-- Python's `==`, under which True is 1 and False is 0.
unfoldable pub py_eq : Value → Value → Bool
py_eq null null = true
py_eq (boolean b) (boolean c) = eqb (as_int b) (as_int c)
py_eq (boolean b) (number n) = eqb (as_int b) n
py_eq (number n) (boolean b) = eqb n (as_int b)
py_eq (number m) (number n) = eqb m n
py_eq (negative m) (negative n) = eqb m n
py_eq (text s) (text t) = s == t
py_eq _ _ = false

-- `repr(a) == repr(b)`, which tells a bool from an int.
unfoldable pub same_repr : Value → Value → Bool
same_repr null null = true
same_repr (boolean b) (boolean c) = eqb (as_int b) (as_int c)
same_repr (number m) (number n) = eqb m n
same_repr (negative m) (negative n) = eqb m n
same_repr (text s) (text t) = s == t
same_repr _ _ = false

-- `value <= 0`, which raises TypeError on `None` and on a text.
unfoldable pub not_positive : Value → Option Bool
not_positive null = none
not_positive (boolean b) = some (not b)
not_positive (number n) = some (eqb n 0)
not_positive (negative n) = some true
not_positive (text s) = none

pub record Fact : Type 0 where
  pub key : String
  pub value : Value
  pub state : FactState
  pub source_type : String
  pub source_locator : String
  pub observed_at_utc : String
  pub evidence_sha256 : String
  pub fresh_until_utc : Option Stamp
  pub derivation : List String
  pub repo_id : Option String

pub record GateResult : Type 0 where
  pub stage : Stage
  pub state : GateState
  pub reason_codes : List GateReason
  pub evidence_keys : List String
  pub detail : String
  pub repo_id : Option String

-- The fields that `select_next_action` gives. `risk` is the value that the source prints, `none`
-- for "UNKNOWN".
pub record NextAction : Type 0 where
  pub action_id : String
  pub summary : String
  pub stage : Option Stage
  pub reason_codes : List GateReason
  pub evidence_keys : List String
  pub authorization : String
  pub risk : Option Value

abbrev pub usable : FactState → Bool
usable observed = true
usable derived = true
usable _ = false

-- `_eligible`
unfoldable pub is_eligible : Option Fact → Bool
is_eligible none = false
is_eligible (some fact) = usable fact.state

-- What the dictionaries of facts answer.
abbrev pub Index : Type 0
Index = String → Option Fact
