-- ===== src/Truthdeck/Action.antt =====
-- `select_next_action`, `overall_state` and `evaluate`.
use Prim.Native.String.{◌++◌ as append}
use dotclaude_ecosystem.Truthdeck.{
  GateState, pass, hold, blocked, unknown, not_applicable, Stage, stage_index, stage_value,
  GateReason, authorization_required, boundary_refusal, Value, Fact, GateResult, NextAction, usable,
}
use dotclaude_ecosystem.Truthdeck.Evaluate.{
  each, gates_of, repos_of, concat, find_conflicts, mem_stage, mark_conflicts, repo_rank, rank_in,
  gate_before,
}
use dotclaude_ecosystem.Prelude.{
  ℕ, String, Bool, true, false, ◌&&◌, ◌||◌, Option, none, some, List, [], ◌∷◌, ltb, eqb,
  if◌then◌else◌, select, first, any, order_by, ◌==◌,
}

-- The states that `rank` lists, and their ranks.
abbrev pub is_pending : GateState → Bool
is_pending blocked = true
is_pending unknown = true
is_pending hold = true
is_pending _ = false

abbrev pub state_rank : GateState → ℕ
state_rank blocked = 0
state_rank unknown = 1
state_rank _ = 2

unfoldable pub pending_before : List (Option String) → GateResult → GateResult → Bool
unfolding repo_rank stage_index
pending_before repos a b =
    ltb (stage_index a.stage) (stage_index b.stage)
    || eqb (stage_index a.stage) (stage_index b.stage)
      && (ltb (rank_in repos a.repo_id) (rank_in repos b.repo_id)
          || eqb (rank_in repos a.repo_id) (rank_in repos b.repo_id)
            && ltb (state_rank a.state) (state_rank b.state))

abbrev pub is_authorization : GateReason → Bool
is_authorization authorization_required = true
is_authorization _ = false

abbrev pub refuse_boundary : Option Value → NextAction
refuse_boundary risk = record {
  action_id = "boundary_refusal";
  summary = "Stop: request exceeds a declared read-only boundary.";
  stage = none;
  reason_codes = boundary_refusal ∷ [];
  evidence_keys = [];
  authorization = "operator_required";
  risk = risk;
}

abbrev pub ready_for_review : Option Value → NextAction
ready_for_review risk = record {
  action_id = "ready_for_operator_review";
  summary = "All requested evidence gates pass or are explicitly not applicable.";
  stage = none;
  reason_codes = [];
  evidence_keys = [];
  authorization = "not_required";
  risk = risk;
}

abbrev pub verify : GateResult → Option Value → NextAction
verify g risk = record {
  action_id = append "verify_" (stage_value g.stage);
  summary =
      if g.detail == ""
      then append "Provide fresh evidence for " (append (stage_value g.stage) ".")
      else g.detail;
  stage = some g.stage;
  reason_codes = g.reason_codes;
  evidence_keys = g.evidence_keys;
  authorization =
      if any is_authorization g.reason_codes then "operator_required" else "not_required";
  risk = risk;
}

abbrev pub pending_gates : List GateResult → List Stage → List GateResult
pending_gates gates required =
    select (λ g. is_pending g.state) (select (λ g. mem_stage g.stage required) gates)

abbrev pub act_on : List GateResult → Option Value → NextAction
act_on [] risk = ready_for_review risk
act_on (g ∷ gs) risk = verify g risk

unfoldable pub select_next_action :
    List GateResult → List Stage → Bool → Option Value → List (Option String) → NextAction
unfolding pending_before stage_value
select_next_action gates required boundary_violation risk repos =
    if boundary_violation
    then refuse_boundary risk
    else act_on (order_by (pending_before repos) (pending_gates gates required)) risk

abbrev pub same_gate_state : GateState → GateState → Bool
same_gate_state blocked blocked = true
same_gate_state unknown unknown = true
same_gate_state hold hold = true
same_gate_state pass pass = true
same_gate_state not_applicable not_applicable = true
same_gate_state _ _ = false

abbrev pub has_state : GateState → List GateResult → List Stage → Bool
has_state s gates required =
    any (λ g. mem_stage g.stage required && same_gate_state g.state s) gates

unfoldable pub overall_state : List GateResult → List Stage → GateState
overall_state gates required =
    if has_state blocked gates required
    then blocked
    else if has_state unknown gates required
    then unknown
    else if has_state hold gates required
    then hold
    else pass

abbrev pub risk_of : List Fact → Option Value
risk_of facts = elim (first (λ x. (x.key == "plan.risk") && usable x.state) facts) [
  | none ↦ none
  | some x ↦ some x.value
]

-- The gates that `evaluate` returns, once those of every repository are known.
abbrev pub final_gates :
    (Option String × String → String)
    → List Fact
    → List Stage
    → List (Option String)
    → List GateResult
    → List GateResult
final_gates tuple_str facts required repos gates =
    order_by (gate_before repos) (mark_conflicts (find_conflicts tuple_str facts) required gates)

abbrev pub conclude :
    (Option String × String → String)
    → List Fact
    → List Stage
    → Bool
    → List (Option String)
    → Option (List (List GateResult))
    → Option (List GateResult × NextAction)
conclude tuple_str facts required boundary_violation repos none = none
conclude tuple_str facts required boundary_violation repos (some gates) =
    let final = final_gates tuple_str facts required repos (concat gates) in
    some (final, select_next_action final required boundary_violation (risk_of facts) repos)

-- `none` is a raised error: an unreadable `fresh_until_utc`, or a sample count that is no number.
unfoldable pub evaluate :
    (Option String × String → String)
    → List Fact
    → List Stage
    → Option ℕ
    → Bool
    → List String
    → Option (List GateResult × NextAction)
unfolding repos_of each gates_of find_conflicts mark_conflicts gate_before select_next_action
evaluate tuple_str facts required now boundary_violation repo_order =
    let repos = repos_of facts repo_order in
    conclude tuple_str facts required boundary_violation repos (each (gates_of now facts) repos)
