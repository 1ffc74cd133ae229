-- ===== src/Truthdeck/Gates.antt =====
-- The six gates of a repository: `_planned` to `_runtime` and their helpers.
use Prim.Native.String.{◌++◌ as append}
use dotclaude_ecosystem.Truthdeck.{
  FactState, GateState, pass, hold, blocked, unknown, not_applicable, Stage, planned, implemented,
  exact_head_reviewed, ci, merged, runtime_proven, stage_value, GateReason, collector_unavailable,
  collector_output_invalid, evidence_stale, evidence_conflict, dirty_operator_checkout,
  pr_head_mismatch, review_stale_head, review_blocking_findings, ci_stale_head,
  ci_required_check_failed, merge_not_proven, runtime_build_mismatch, no_sample,
  authorization_required, authorization_unknown, Value, null, boolean, text, truthy, py_eq,
  not_positive, Fact, GateResult, is_eligible, Index,
}
use dotclaude_ecosystem.Prelude.{
  String, Bool, true, false, not, ◌&&◌, ◌||◌, Option, none, some, List, [], ◌∷◌, ◌++◌, map,
  if◌then◌else◌, select, any, ◌==◌, mem_str,
}

-- `a or b` on facts, which are all true.
abbrev pub or_fact : Option Fact → Option Fact → Option Fact
or_fact none b = b
or_fact (some a) b = some a

-- The value of a fact that is there.
abbrev pub value_of : Option Fact → Value
value_of none = null
value_of (some fact) = fact.value

abbrev pub key_of : Option Fact → String
key_of none = ""
key_of (some fact) = fact.key

abbrev pub truth_of : Option Fact → Bool
truth_of o = truthy (value_of o)

abbrev pub same_value : Option Fact → Option Fact → Bool
same_value a b = py_eq (value_of a) (value_of b)

unfoldable pub missing : Index → List String → List String
missing f keys = select (λ k. not (is_eligible (f k))) keys

abbrev pub is_conflict : Option Fact → Bool
is_conflict none = false
is_conflict (some fact) = elim fact.state [ FactState.conflict ↦ true | _ ↦ false ]

abbrev pub is_stale : Option Fact → Bool
is_stale none = false
is_stale (some fact) = elim fact.state [ FactState.stale ↦ true | _ ↦ false ]

abbrev pub unknown_reason : Index → List String → GateReason
unknown_reason f keys =
    if any (λ k. is_conflict (f k)) keys
    then evidence_conflict
    else if any (λ k. is_stale (f k)) keys
    then evidence_stale
    else collector_unavailable

-- `_unknown`
unfoldable pub unknown_gate : Stage → List String → Option String → Index → GateResult
unknown_gate stage keys repo f = record {
  stage = stage;
  state = unknown;
  reason_codes = unknown_reason f keys ∷ [];
  evidence_keys = keys;
  detail = append "Required evidence is unavailable for " (append (stage_value stage) ".");
  repo_id = repo;
}

abbrev pub gate :
    Stage → GateState → List GateReason → List String → String → Option String → GateResult
gate stage state reasons keys detail repo = record {
  stage = stage;
  state = state;
  reason_codes = reasons;
  evidence_keys = keys;
  detail = detail;
  repo_id = repo;
}

abbrev pub is_true : Value → Bool
is_true (boolean b) = b
is_true _ = false

abbrev pub is_text : String → Value → Bool
is_text t (text s) = s == t
is_text t _ = false

abbrev pub one_of_texts : List String → Value → Bool
one_of_texts ts (text s) = mem_str s ts
one_of_texts ts _ = false

abbrev pub plan_keys : List String
plan_keys = "plan.parseable" ∷ "plan.risk" ∷ "plan.blocked" ∷ []

-- The value is "VERIFIED" on an eligible fact.
abbrev pub verified : Option Fact → Bool
verified o = is_eligible o && is_text "VERIFIED" (value_of o)

unfoldable pub planned_gate : Index → Option String → GateResult
unfolding missing unknown_gate
planned_gate f repo =
    if any (λ k. not (is_eligible (f k))) plan_keys
    then unknown_gate planned (missing f plan_keys) repo f
    else if not (is_true (value_of (f "plan.parseable")))
        || not (one_of_texts ("R0" ∷ "R1" ∷ "R2" ∷ "R3" ∷ []) (value_of (f "plan.risk")))
    then gate planned unknown (collector_output_invalid ∷ []) plan_keys
        "Canonical plan metadata is malformed or incomplete." repo
    else if truth_of (f "plan.blocked")
    then gate planned blocked [] plan_keys "Canonical plan is blocked." repo
    else if one_of_texts ("R2" ∷ "R3" ∷ []) (value_of (f "plan.risk"))
        && not (verified (f "authorization.state"))
    then gate planned hold
        (if is_eligible (f "authorization.state")
          then authorization_unknown ∷ []
          else authorization_required ∷ [])
        (plan_keys ++ "authorization.state" ∷ [])
        "Independent operator authorization is required; v1 cannot self-verify it." repo
    else gate planned pass [] plan_keys "" repo

unfoldable pub implemented_gate : Index → Option String → GateResult
unfolding unknown_gate
implemented_gate f repo =
    let fact = or_fact (f "implementation.head") (f "git.head") in
    let clean = f "git.clean" in
    if not (is_eligible fact)
    then unknown_gate implemented ("implementation.head" ∷ []) repo f
    else if is_eligible clean && not (truth_of clean)
    then gate implemented blocked (dirty_operator_checkout ∷ []) (key_of fact ∷ key_of clean ∷ [])
        "Working tree changes are not captured by the implementation head." repo
    else gate implemented pass [] (key_of fact ∷ []) "" repo

abbrev pub head_fact : Index → Option Fact
head_fact f = or_fact (f "implementation.head") (or_fact (f "pr.head") (f "git.head"))

unfoldable pub reviewed_gate : Index → Option String → GateResult
unfolding unknown_gate
reviewed_gate f repo =
    let head = head_fact f in
    let review = f "review.head" in
    let blockers = f "review.blocking_findings" in
    if not (is_eligible head && is_eligible review && is_eligible blockers)
    then unknown_gate exact_head_reviewed ("review.head" ∷ "review.blocking_findings" ∷ []) repo f
    else if not (same_value review head)
    then gate exact_head_reviewed blocked (review_stale_head ∷ [])
        (key_of head ∷ key_of review ∷ []) "Review attestation is for a different head." repo
    else if truth_of blockers
    then gate exact_head_reviewed blocked (review_blocking_findings ∷ []) (key_of blockers ∷ [])
        "Ship-blocking review findings remain." repo
    else gate exact_head_reviewed pass [] (key_of head ∷ key_of review ∷ key_of blockers ∷ []) ""
        repo

unfoldable pub ci_gate : Index → Option String → GateResult
unfolding unknown_gate
ci_gate f repo =
    let passed = f "ci.passed" in
    let ci_head = f "ci.head" in
    let head = head_fact f in
    if not (is_eligible passed && is_eligible ci_head && is_eligible head)
    then unknown_gate ci ("ci.passed" ∷ "ci.head" ∷ []) repo f
    else if not (same_value ci_head head)
    then gate ci blocked (ci_stale_head ∷ []) (key_of ci_head ∷ key_of head ∷ [])
        "CI is stale for the implementation head." repo
    else if not (truth_of passed)
    then gate ci blocked (ci_required_check_failed ∷ []) (key_of passed ∷ [])
        "A required CI check failed." repo
    else gate ci pass [] (key_of passed ∷ key_of ci_head ∷ []) "" repo

abbrev pub merge_candidates : Index → List String
merge_candidates f = select (λ k. is_eligible (f k)) ("pr.merged" ∷ "git.merged" ∷ [])

abbrev pub keys_of : Index → List String → List String
keys_of f ks = map (λ k. key_of (f k)) ks

unfoldable pub merged_gate : Index → Option String → GateResult
unfolding unknown_gate
merged_gate f repo =
    let git_merged = f "git.merged" in
    let pr_merged = f "pr.merged" in
    let pr_head = f "pr.head" in
    let implementation = or_fact (f "implementation.head") (f "git.head") in
    if not (is_eligible pr_merged || is_eligible git_merged)
    then unknown_gate merged ("pr.merged" ∷ "git.merged" ∷ []) repo f
    else if is_eligible git_merged && truth_of git_merged
    then gate merged pass [] (key_of git_merged ∷ []) "" repo
    else if is_eligible pr_merged && truth_of pr_merged
    then (if not (is_eligible pr_head && is_eligible implementation)
          || not (same_value pr_head implementation)
        then gate merged blocked (pr_head_mismatch ∷ [])
            ("pr.merged" ∷ "pr.head" ∷ "implementation.head" ∷ [])
            "Merged PR head does not match the implementation head." repo
        else gate merged pass [] (key_of pr_merged ∷ key_of pr_head ∷ []) "" repo)
    else if not (any (λ k. truth_of (f k)) (merge_candidates f))
    then gate merged hold (merge_not_proven ∷ []) (keys_of f (merge_candidates f))
        "Merge is not proven on the declared base." repo
    else gate merged pass [] (keys_of f (select (λ k. truth_of (f k)) (merge_candidates f))) "" repo

abbrev pub is_false : Value → Bool
is_false (boolean b) = not b
is_false _ = false

-- The rest of `_runtime`, once the number of samples is read.
abbrev pub sampled_gate : Index → Option String → Option Bool → Option GateResult
sampled_gate f repo none = none
sampled_gate f repo (some true) = some (
    gate runtime_proven unknown (no_sample ∷ []) (key_of (f "runtime.sample_count") ∷ [])
      "Runtime evidence contains no sample." repo)
sampled_gate f repo (some false) =
    let expected = f "runtime.expected_build" in
    let actual = f "runtime.build" in
    some (
      if not (is_eligible expected && is_eligible actual)
      then unknown_gate runtime_proven ("runtime.expected_build" ∷ "runtime.build" ∷ []) repo f
      else if not (same_value expected actual)
      then gate runtime_proven blocked (runtime_build_mismatch ∷ [])
          (key_of expected ∷ "runtime.build" ∷ []) "Runtime build does not match expected build."
          repo
      else if not (truth_of (f "runtime.ready"))
      then gate runtime_proven blocked [] (key_of (f "runtime.ready") ∷ [])
          "Runtime predicates are not satisfied." repo
      else gate runtime_proven pass []
          (key_of (f "runtime.ready") ∷ key_of (f "runtime.sample_count") ∷ []) "" repo)

-- `none` is the TypeError of a sample count that is no number.
unfoldable pub runtime_gate : Index → Option String → Option GateResult
unfolding unknown_gate not_positive
runtime_gate f repo =
    let applicable = f "runtime.applicable" in
    if is_eligible applicable && is_false (value_of applicable)
    then some (gate runtime_proven not_applicable [] (key_of applicable ∷ []) "" repo)
    else if not (
        is_eligible applicable
        && is_eligible (f "runtime.ready")
        && is_eligible (f "runtime.sample_count"))
    then some (unknown_gate runtime_proven ("runtime.ready" ∷ "runtime.sample_count" ∷ []) repo f)
    else sampled_gate f repo (not_positive (value_of (f "runtime.sample_count")))

-- `_repo_gates`
unfoldable pub repo_gates : Index → Option String → Option (List GateResult)
unfolding planned_gate implemented_gate reviewed_gate ci_gate merged_gate runtime_gate
repo_gates f repo = elim (runtime_gate f repo) [
  | none ↦ none
  | some runtime ↦ some (
      planned_gate f repo
      ∷ implemented_gate f repo
      ∷ reviewed_gate f repo
      ∷ ci_gate f repo
      ∷ merged_gate f repo
      ∷ runtime
      ∷ [])
]
