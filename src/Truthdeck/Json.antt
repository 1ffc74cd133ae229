-- ===== src/Truthdeck/Json.antt =====
-- The JSON form of a gate's result in scripts/truthdeck_model.py: `_primitive` and
-- `_gate_from_dict`. `none` is a raised error. `printed` is what `str` gives for a value that is not
-- a text.
use dotclaude_ecosystem.Truthdeck.{
  GateState, pass, hold, blocked, unknown, not_applicable, Stage, planned, implemented,
  exact_head_reviewed, ci, merged, runtime_proven, stage_value, GateReason, collector_timeout,
  collector_unavailable, collector_output_limit, collector_output_invalid, collector_internal_error,
  evidence_stale, evidence_conflict, git_head_drift, dirty_operator_checkout, handoff_hash_mismatch,
  handoff_base_stale, pr_head_mismatch, review_stale_head, review_blocking_findings, ci_stale_head,
  ci_required_check_failed, merge_not_proven, runtime_build_mismatch, runtime_evidence_stale,
  no_sample, authorization_required, authorization_unknown, boundary_refusal, registry_invalid,
  snapshot_invalid, storage_conflict, Value, null, text, GateResult,
}
use dotclaude_ecosystem.Truthdeck.Evaluate.{prepend, each}
use dotclaude_ecosystem.Prelude.{
  String, ◌≡◌, refl, ap, Bool, not, ◌&&◌, Option, none, some, List, [], ◌∷◌, map, if◌then◌else◌,
  first, any, ◌==◌, mem_str,
}

mutual
  pub data Json : Type 0 where
    scalar : Value → Json
    array : Items → Json
    object : Members → Json

  pub data Items : Type 0 where
    no_items : Items
    item : Json → Items → Items

  pub data Members : Type 0 where
    no_members : Members
    member : String → Json → Members → Members

unfoldable pub reason_value : GateReason → String
reason_value collector_timeout = "COLLECTOR_TIMEOUT"
reason_value collector_unavailable = "COLLECTOR_UNAVAILABLE"
reason_value collector_output_limit = "COLLECTOR_OUTPUT_LIMIT"
reason_value collector_output_invalid = "COLLECTOR_OUTPUT_INVALID"
reason_value collector_internal_error = "COLLECTOR_INTERNAL_ERROR"
reason_value evidence_stale = "EVIDENCE_STALE"
reason_value evidence_conflict = "EVIDENCE_CONFLICT"
reason_value git_head_drift = "GIT_HEAD_DRIFT"
reason_value dirty_operator_checkout = "DIRTY_OPERATOR_CHECKOUT"
reason_value handoff_hash_mismatch = "HANDOFF_HASH_MISMATCH"
reason_value handoff_base_stale = "HANDOFF_BASE_STALE"
reason_value pr_head_mismatch = "PR_HEAD_MISMATCH"
reason_value review_stale_head = "REVIEW_STALE_HEAD"
reason_value review_blocking_findings = "REVIEW_BLOCKING_FINDINGS"
reason_value ci_stale_head = "CI_STALE_HEAD"
reason_value ci_required_check_failed = "CI_REQUIRED_CHECK_FAILED"
reason_value merge_not_proven = "MERGE_NOT_PROVEN"
reason_value runtime_build_mismatch = "RUNTIME_BUILD_MISMATCH"
reason_value runtime_evidence_stale = "RUNTIME_EVIDENCE_STALE"
reason_value no_sample = "NO_SAMPLE"
reason_value authorization_required = "AUTHORIZATION_REQUIRED"
reason_value authorization_unknown = "AUTHORIZATION_UNKNOWN"
reason_value boundary_refusal = "BOUNDARY_REFUSAL"
reason_value registry_invalid = "REGISTRY_INVALID"
reason_value snapshot_invalid = "SNAPSHOT_INVALID"
reason_value storage_conflict = "STORAGE_CONFLICT"

unfoldable pub gate_state_value : GateState → String
gate_state_value pass = "PASS"
gate_state_value hold = "HOLD"
gate_state_value blocked = "BLOCKED"
gate_state_value unknown = "UNKNOWN"
gate_state_value not_applicable = "NOT_APPLICABLE"

abbrev pub stages : List Stage
stages = planned ∷ implemented ∷ exact_head_reviewed ∷ ci ∷ merged ∷ runtime_proven ∷ []

abbrev pub gate_states : List GateState
gate_states = pass ∷ hold ∷ blocked ∷ unknown ∷ not_applicable ∷ []

abbrev pub reason_codes_list : List GateReason
reason_codes_list =
    collector_timeout ∷ collector_unavailable ∷ collector_output_limit ∷ collector_output_invalid
    ∷ collector_internal_error ∷ evidence_stale ∷ evidence_conflict ∷ git_head_drift
    ∷ dirty_operator_checkout ∷ handoff_hash_mismatch ∷ handoff_base_stale ∷ pr_head_mismatch
    ∷ review_stale_head ∷ review_blocking_findings ∷ ci_stale_head ∷ ci_required_check_failed
    ∷ merge_not_proven ∷ runtime_build_mismatch ∷ runtime_evidence_stale ∷ no_sample
    ∷ authorization_required ∷ authorization_unknown ∷ boundary_refusal ∷ registry_invalid
    ∷ snapshot_invalid ∷ storage_conflict ∷ []

-- `Enum(value)`: the member of that value.
abbrev pub member_of : {A : Type 0} → (A → String) → List A → Json → Option A
member_of value members (scalar (text t)) = first (λ a. value a == t) members
member_of value members _ = none

abbrev pub texts : List String → Items
texts [] = no_items
texts (t ∷ ts) = item (scalar (text t)) (texts ts)

abbrev pub optional_text : Option String → Json
optional_text none = scalar null
optional_text (some t) = scalar (text t)

-- `_primitive` of a GateResult.
unfoldable pub gate_to_dict : GateResult → Json
unfolding stage_value gate_state_value reason_value
gate_to_dict g = object (
    member "stage" (scalar (text (stage_value g.stage))) (
      member "state" (scalar (text (gate_state_value g.state))) (
        member "reason_codes" (array (texts (map reason_value g.reason_codes))) (
          member "evidence_keys" (array (texts g.evidence_keys)) (
            member "detail" (scalar (text g.detail))
              (member "repo_id" (optional_text g.repo_id) no_members))))))

abbrev pub field : Members → String → Option Json
field no_members k = none
field (member j v rest) k = if k == j then some v else field rest k

abbrev pub keys_of_members : Members → List String
keys_of_members no_members = []
keys_of_members (member k v rest) = k ∷ keys_of_members rest

-- `_require_keys`: nothing missing, nothing unknown.
unfoldable pub has_keys : Members → List String → Bool
has_keys raw keys =
    not (any (λ k. not (mem_str k (keys_of_members raw))) keys)
    && not (any (λ k. not (mem_str k keys)) (keys_of_members raw))

-- `_string_array`, and its items.
abbrev pub item_texts : Items → Option (List String)
item_texts no_items = some []
item_texts (item (scalar (text t)) rest) = prepend (some t) (item_texts rest)
item_texts (item v rest) = none

abbrev pub string_array : Json → Option (List String)
string_array (array xs) = item_texts xs
string_array _ = none

abbrev pub py_str : (Json → String) → Json → String
py_str printed (scalar (text t)) = t
py_str printed v = printed v

-- `_optional_str`
abbrev pub optional_str : (Json → String) → Json → Option String
optional_str printed (scalar null) = none
optional_str printed v = some (py_str printed v)

abbrev pub gate_keys : List String
gate_keys = "stage" ∷ "state" ∷ "reason_codes" ∷ "evidence_keys" ∷ "detail" ∷ "repo_id" ∷ []

abbrev pub bind_option : {A B : Type 0} → Option A → (A → Option B) → Option B
bind_option none f = none
bind_option (some a) f = f a

abbrev pub gate_fields : (Json → String) → Members → Option GateResult
gate_fields printed raw = bind_option (field raw "reason_codes") λ codes_json.
    bind_option (string_array codes_json) λ codes.
      bind_option (field raw "evidence_keys") λ keys_json.
        bind_option (string_array keys_json) λ keys. bind_option (field raw "stage") λ stage_json.
          bind_option (member_of stage_value stages stage_json) λ stage.
            bind_option (field raw "state") λ state_json.
              bind_option (member_of gate_state_value gate_states state_json) λ state.
                bind_option
                  (each (λ c. member_of reason_value reason_codes_list (scalar (text c))) codes)
                  λ reasons. bind_option (field raw "detail") λ detail.
                    bind_option (field raw "repo_id") λ repo. some (record {
                      stage = stage;
                      state = state;
                      reason_codes = reasons;
                      evidence_keys = keys;
                      detail = py_str printed detail;
                      repo_id = optional_str printed repo;
                    })

-- `_gate_from_dict`
unfoldable pub gate_from_dict : (Json → String) → Json → Option GateResult
unfolding has_keys each stage_value gate_state_value reason_value
gate_from_dict printed (object raw) =
    if has_keys raw gate_keys then gate_fields printed raw else none
gate_from_dict printed _ = none

stage-member : (s : Stage) → member_of stage_value stages (scalar (text (stage_value s))) ≡ some s
unfolding first stage_value
stage-member planned = refl
stage-member implemented = refl
stage-member exact_head_reviewed = refl
stage-member ci = refl
stage-member merged = refl
stage-member runtime_proven = refl

gate_state-member :
    (s : GateState)
    → member_of gate_state_value gate_states (scalar (text (gate_state_value s))) ≡ some s
unfolding first gate_state_value
gate_state-member pass = refl
gate_state-member hold = refl
gate_state-member blocked = refl
gate_state-member unknown = refl
gate_state-member not_applicable = refl

reason-member :
    (c : GateReason)
    → member_of reason_value reason_codes_list (scalar (text (reason_value c))) ≡ some c
unfolding first reason_value
reason-member collector_timeout = refl
reason-member collector_unavailable = refl
reason-member collector_output_limit = refl
reason-member collector_output_invalid = refl
reason-member collector_internal_error = refl
reason-member evidence_stale = refl
reason-member evidence_conflict = refl
reason-member git_head_drift = refl
reason-member dirty_operator_checkout = refl
reason-member handoff_hash_mismatch = refl
reason-member handoff_base_stale = refl
reason-member pr_head_mismatch = refl
reason-member review_stale_head = refl
reason-member review_blocking_findings = refl
reason-member ci_stale_head = refl
reason-member ci_required_check_failed = refl
reason-member merge_not_proven = refl
reason-member runtime_build_mismatch = refl
reason-member runtime_evidence_stale = refl
reason-member no_sample = refl
reason-member authorization_required = refl
reason-member authorization_unknown = refl
reason-member boundary_refusal = refl
reason-member registry_invalid = refl
reason-member snapshot_invalid = refl
reason-member storage_conflict = refl

item_texts-texts : (ts : List String) → item_texts (texts ts) ≡ some ts
item_texts-texts [] = refl
item_texts-texts (t ∷ ts) = ap (λ o. prepend (some t) o) (item_texts-texts ts)

reasons-each :
    (cs : List GateReason)
    → each (λ c. member_of reason_value reason_codes_list (scalar (text c))) (map reason_value cs)
      ≡ some cs
unfolding each
reasons-each [] = refl
reasons-each (c ∷ cs) = rw (reason-member c, reasons-each cs) refl

optional_str-text :
    (printed : Json → String) (o : Option String) → optional_str printed (optional_text o) ≡ o
optional_str-text printed none = refl
optional_str-text printed (some t) = refl

-- Reading the JSON form of a gate's result gives the result back, every stage, state and reason
-- code included.
pub gate_from_dict-gate_to_dict :
    (printed : Json → String) (g : GateResult) → gate_from_dict printed (gate_to_dict g) ≡ some g
unfolding gate_from_dict gate_to_dict any
gate_from_dict-gate_to_dict printed g =
    rw
      (
        item_texts-texts (map reason_value g.reason_codes),
        item_texts-texts g.evidence_keys,
        stage-member g.stage,
        gate_state-member g.state,
        reasons-each g.reason_codes,
        optional_str-text printed g.repo_id,
      )
      refl
