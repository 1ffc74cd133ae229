-- ===== src/Tests/Evidence.antt =====
-- The theorems on TruthDeck at concrete inputs.
use dotclaude_ecosystem.Model.{Stamp, at}
use dotclaude_ecosystem.Truthdeck.{
  observed, GateState, pass, blocked, unknown, Stage, planned, implemented, exact_head_reviewed, ci,
  merged, runtime_proven, stage_index, Value, boolean, number, text, Fact, GateResult, NextAction,
  is_eligible, py_eq, truthy,
}
use dotclaude_ecosystem.Truthdeck.Gates.{gate}
use dotclaude_ecosystem.Truthdeck.Evaluate.{freshen, each, resolve_index, concerns}
use dotclaude_ecosystem.Truthdeck.Action.{
  evaluate, select_next_action, overall_state, ready_for_review, verify,
}
use dotclaude_ecosystem.Truthdeck.{evidence_conflict, same_repr}
use dotclaude_ecosystem.Truthdeck.Conflicts.{is_plain}
use dotclaude_ecosystem.Truthdeck.Disputes.{evaluate-unknown}
use dotclaude_ecosystem.Truthdeck.Evaluate.{several, same_evidence, earliest_stage, before_colon}
use dotclaude_ecosystem.Prelude.{update}
use dotclaude_ecosystem.Truthdeck.Json.{
  Json, scalar, object, no_members, member, gate_to_dict, gate_from_dict,
  gate_from_dict-gate_to_dict,
}
use dotclaude_ecosystem.Truthdeck.Grounds.{IsProven}
use dotclaude_ecosystem.Truthdeck.Evidence.{IsEvidence, IsTimely, fresh_index-IsEvidence}
use dotclaude_ecosystem.Truthdeck.Proven.{evaluate-IsProven}
use dotclaude_ecosystem.Truthdeck.Actions.{
  open_gate, select_next_action-pass_iff, select_next_action-earliest,
}
use mathlib.Core.List.Memᴰ.{head, tail}
use dotclaude_ecosystem.Prelude.{
  ◌≤◌, String, ◌≡◌, refl, ◌↔◌, true, false, Option, none, some, List, [], ◌∷◌, map, select, any,
  delete, order_by, Memᴰ,
}

abbrev fact_of : String → Value → Option Stamp → Fact
fact_of key value until = record {
  key = key;
  value = value;
  state = observed;
  source_type = "test";
  source_locator = "";
  observed_at_utc = "";
  evidence_sha256 = "sha";
  fresh_until_utc = until;
  derivation = [];
  repo_id = some "repo";
}

abbrev head_seen : Fact
head_seen = fact_of "git.head" (text "abc") (some (at 2000))

abbrev review_seen : Fact
review_seen = fact_of "review.head" (text "abc") none

-- A reviewed head, and CI for another head.
abbrev evidence_facts : List Fact
evidence_facts =
    head_seen
    ∷ review_seen
    ∷ fact_of "review.blocking_findings" (number 0) none
    ∷ fact_of "ci.passed" (boolean true) none
    ∷ fact_of "ci.head" (text "abd") none
    ∷ []

abbrev label_pair : Option String × String → String
label_pair (r, k) = k

abbrev every_stage : List Stage
every_stage = planned ∷ implemented ∷ exact_head_reviewed ∷ ci ∷ merged ∷ runtime_proven ∷ []

abbrev states_of : Option (List GateResult × NextAction) → List GateState
states_of none = []
states_of (some (gates, action)) = map (λ g. g.state) gates

-- PLANNED, MERGED and RUNTIME_PROVEN lack evidence, CI is stale for the head.
evaluated_states :
    states_of (evaluate label_pair evidence_facts every_stage (some 1000) false [])
    ≡ unknown ∷ pass ∷ pass ∷ blocked ∷ unknown ∷ unknown ∷ []
unfolding evaluate select order_by is_eligible delete any py_eq truthy
evaluated_states = refl

-- After its freshness the head proves nothing.
expired_states :
    states_of (evaluate label_pair evidence_facts every_stage (some 2000) false [])
    ≡ unknown ∷ unknown ∷ unknown ∷ unknown ∷ unknown ∷ unknown ∷ []
unfolding evaluate select order_by is_eligible delete any py_eq truthy
expired_states = refl

abbrev gates_in : Option (List GateResult × NextAction) → List GateResult
gates_in none = []
gates_in (some (gates, action)) = gates

abbrev no_action : NextAction
no_action = ready_for_review none

abbrev action_in : Option (List GateResult × NextAction) → NextAction
action_in none = no_action
action_in (some (gates, action)) = action

evaluated :
    evaluate label_pair evidence_facts every_stage (some 1000) false []
    ≡ some (
      gates_in (evaluate label_pair evidence_facts every_stage (some 1000) false []),
      action_in (evaluate label_pair evidence_facts every_stage (some 1000) false []),
    )
unfolding evaluate select order_by is_eligible delete any py_eq truthy
evaluated = refl

abbrev implemented_seen : GateResult
implemented_seen = gate implemented pass [] ("git.head" ∷ []) "" (some "repo")

implemented_listed :
    Memᴰ implemented_seen
      (gates_in (evaluate label_pair evidence_facts every_stage (some 1000) false []))
unfolding evaluate select order_by is_eligible delete any py_eq truthy
implemented_listed = tail (head refl)

implemented_seen_example :
    (fresh : List Fact) × (each
        (freshen (some 1000))
        (select (concerns (some "repo")) evidence_facts)
      ≡ some fresh)
    × IsProven implemented (resolve_index fresh)
implemented_seen_example =
    evaluate-IsProven label_pair evidence_facts every_stage (some 1000) false []
      (gates_in (evaluate label_pair evidence_facts every_stage (some 1000) false []))
      (action_in (evaluate label_pair evidence_facts every_stage (some 1000) false []))
      implemented_seen evaluated implemented_listed refl

fresh_facts :
    each (freshen (some 1000)) (select (concerns (some "repo")) evidence_facts)
    ≡ some evidence_facts
unfolding each freshen select concerns
fresh_facts = refl

head_indexed : resolve_index evidence_facts "git.head" ≡ some head_seen
unfolding resolve_index select any
head_indexed = refl

head_seen-IsEvidence :
    IsEvidence evidence_facts "git.head" head_seen
    × Memᴰ head_seen evidence_facts
    × (concerns (some "repo") head_seen ≡ true)
    × IsTimely (some 1000) head_seen
head_seen-IsEvidence =
    fresh_index-IsEvidence (some 1000) evidence_facts evidence_facts (some "repo") "git.head"
      head_seen fresh_facts head_indexed refl

abbrev ci_failed : GateResult
ci_failed = gate ci blocked [] [] "" none

abbrev some_gates : List GateResult
some_gates = gate planned pass [] [] "" none ∷ ci_failed ∷ gate merged unknown [] [] "" none ∷ []

review_ready_example :
    (select_next_action some_gates (planned ∷ []) false none [] ≡ ready_for_review none)
    ↔ (overall_state some_gates (planned ∷ []) ≡ pass)
review_ready_example = select_next_action-pass_iff some_gates (planned ∷ []) none []

ci_failed_open : open_gate every_stage ci_failed ≡ true
unfolding any stage_index
ci_failed_open = refl

earliest_example :
    (g : GateResult) × Memᴰ g some_gates
    × (open_gate every_stage g ≡ true)
    × (select_next_action some_gates every_stage false none [] ≡ verify g none)
    × (stage_index g.stage ≤ stage_index ci)
earliest_example =
    select_next_action-earliest some_gates every_stage none [] ci_failed (tail (head refl))
      ci_failed_open

abbrev printed_as : Json → String
printed_as v = "?"

gate_json_example : gate_from_dict printed_as (gate_to_dict ci_failed) ≡ some ci_failed
gate_json_example = gate_from_dict-gate_to_dict printed_as ci_failed

-- A gate without a state is refused.
gate_refused :
    gate_from_dict printed_as (object (member "stage" (scalar (text "ci")) no_members)) ≡ none
unfolding gate_from_dict any
gate_refused = refl

-- A second head that CI is said to have passed for.
abbrev ci_seen : Fact
ci_seen = fact_of "ci.head" (text "abd") none

abbrev ci_elsewhere : Fact
ci_elsewhere = fact_of "ci.head" (text "abf") none

abbrev disputed_facts : List Fact
disputed_facts = ci_elsewhere ∷ evidence_facts

abbrev disputed_result : Option (List GateResult × NextAction)
disputed_result = evaluate label_pair disputed_facts (implemented ∷ ci ∷ []) (some 1000) false []

disputed_evaluated : disputed_result ≡ some (gates_in disputed_result, action_in disputed_result)
unfolding evaluate select order_by is_eligible delete any py_eq truthy
disputed_evaluated = refl

-- The head is known, and nothing but the conflict on ci.head stops the gate.
abbrev disputed_gate : GateResult
disputed_gate =
    gate implemented unknown (evidence_conflict ∷ []) ("repo:ci.head" ∷ [])
      "Eligible evidence sources conflict." (some "repo")

disputed_listed : Memᴰ disputed_gate (gates_in disputed_result)
unfolding evaluate select order_by is_eligible delete any py_eq truthy several update
disputed_listed = tail (head refl)

plain_name : is_plain "repo" ≡ true
unfolding is_plain
plain_name = refl

implemented_first : implemented ≡ earliest_stage implemented (ci ∷ [])
unfolding earliest_stage
implemented_first = refl

disputed_evidence : same_evidence ci_elsewhere ci_seen ≡ false
unfolding same_repr
disputed_evidence = refl

disputed_example : disputed_gate.state ≡ unknown
disputed_example =
    evaluate-unknown label_pair disputed_facts implemented (ci ∷ []) (some 1000) false []
      (gates_in disputed_result) (action_in disputed_result) disputed_gate ci_elsewhere ci_seen
      disputed_evaluated (head refl) (tail (tail (tail (tail (tail (head refl)))))) refl refl refl
      disputed_evidence plain_name disputed_listed refl implemented_first

-- A name with a colon is cut, and its gates escape the mark.
cut_name : before_colon "c:/repo:ci.head" ≡ "c"
unfolding before_colon
cut_name = refl
