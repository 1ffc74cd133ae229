-- ===== src/Truthdeck/Grounds.antt =====
-- What a gate that passes has seen.
use dotclaude_ecosystem.Truthdeck.{
  GateState, pass, hold, blocked, not_applicable, Stage, planned, implemented, exact_head_reviewed,
  ci, merged, runtime_proven, pr_head_mismatch, merge_not_proven, not_positive, Fact, GateResult,
  is_eligible, Index,
}
use dotclaude_ecosystem.Truthdeck.Gates.{
  or_fact, value_of, truth_of, same_value, head_fact, is_true, one_of_texts, verified, is_false,
  planned_gate, implemented_gate, reviewed_gate, ci_gate, merged_gate, runtime_gate, sampled_gate,
  unknown_gate, gate, merge_candidates, keys_of, key_of,
}
use dotclaude_ecosystem.Prelude.{
  String, ◌≡◌, refl, ap, ◌∙◌, ◌≢◌, ◌⊎◌, inl, inr, Bool, true, false, not, ◌&&◌, ◌||◌, Option, none,
  some, List, [], ◌∷◌, arith, if◌then◌else◌, Bool-cases, &&-left, &&-right, select, any,
}

abbrev pub IsPlanned : Index → Type 0
IsPlanned f =
    (is_eligible (f "plan.parseable") ≡ true)
    × (is_eligible (f "plan.risk") ≡ true)
    × (is_eligible (f "plan.blocked") ≡ true)
    × (is_true (value_of (f "plan.parseable")) ≡ true)
    × (one_of_texts ("R0" ∷ "R1" ∷ "R2" ∷ "R3" ∷ []) (value_of (f "plan.risk")) ≡ true)
    × (truth_of (f "plan.blocked") ≡ false)
    × (one_of_texts ("R2" ∷ "R3" ∷ []) (value_of (f "plan.risk")) ≡ true
        → verified (f "authorization.state") ≡ true)

abbrev pub implementation_head : Index → Option Fact
implementation_head f = or_fact (f "implementation.head") (f "git.head")

abbrev pub IsImplemented : Index → Type 0
IsImplemented f =
    (is_eligible (implementation_head f) ≡ true)
    × (is_eligible (f "git.clean") ≡ true → truth_of (f "git.clean") ≡ true)

abbrev pub IsReviewed : Index → Type 0
IsReviewed f =
    (is_eligible (head_fact f) ≡ true)
    × (is_eligible (f "review.head") ≡ true)
    × (is_eligible (f "review.blocking_findings") ≡ true)
    × (same_value (f "review.head") (head_fact f) ≡ true)
    × (truth_of (f "review.blocking_findings") ≡ false)

abbrev pub IsGreen : Index → Type 0
IsGreen f =
    (is_eligible (f "ci.passed") ≡ true)
    × (is_eligible (f "ci.head") ≡ true)
    × (is_eligible (head_fact f) ≡ true)
    × (same_value (f "ci.head") (head_fact f) ≡ true)
    × (truth_of (f "ci.passed") ≡ true)

abbrev pub IsMerged : Index → Type 0
IsMerged f =
    ((is_eligible (f "git.merged") ≡ true) × (truth_of (f "git.merged") ≡ true))
    ⊎ ((is_eligible (f "pr.merged") ≡ true)
        × (truth_of (f "pr.merged") ≡ true)
        × (is_eligible (f "pr.head") ≡ true)
        × (is_eligible (implementation_head f) ≡ true)
        × (same_value (f "pr.head") (implementation_head f) ≡ true))

abbrev pub IsRunning : Index → Type 0
IsRunning f =
    (is_eligible (f "runtime.applicable") ≡ true)
    × (is_eligible (f "runtime.ready") ≡ true)
    × (is_eligible (f "runtime.sample_count") ≡ true)
    × (not_positive (value_of (f "runtime.sample_count")) ≡ some false)
    × (is_eligible (f "runtime.expected_build") ≡ true)
    × (is_eligible (f "runtime.build") ≡ true)
    × (same_value (f "runtime.expected_build") (f "runtime.build") ≡ true)
    × (truth_of (f "runtime.ready") ≡ true)

-- The evidence that a stage needs.
abbrev pub IsProven : Stage → Index → Type 0
IsProven planned f = IsPlanned f
IsProven implemented f = IsImplemented f
IsProven exact_head_reviewed f = IsReviewed f
IsProven ci f = IsGreen f
IsProven merged f = IsMerged f
IsProven runtime_proven f = IsRunning f

-- An `if` whose first branch does not pass.
unless :
    (b : Bool) (x y : GateResult)
    → x.state ≢ pass
    → (if b then x else y).state ≡ pass
    → (b ≡ false) × (y.state ≡ pass)
unless true x y n h = elim (n h) [ ]
unless false x y n h = (refl, h)

not-false : (b : Bool) → not b ≡ false → b ≡ true
not-false true h = refl
not-false false h = cc

and3 : (a b c : Bool) → not (a && b && c) ≡ false → (a ≡ true) × (b ≡ true) × (c ≡ true)
and3 true true true h = (refl, refl, refl)
and3 true true false h = cc
and3 true false c h = cc
and3 false b c h = cc

pub reviewed_gate-IsReviewed :
    (f : Index) (repo : Option String) → (reviewed_gate f repo).state ≡ pass → IsReviewed f
unfolding reviewed_gate unknown_gate
reviewed_gate-IsReviewed f repo h =
    let a = unless _ _ _ (λ e. cc e) h in
    let b = unless _ _ _ (λ e. cc e) (a.1) in
    let c = unless _ _ _ (λ e. cc e) (b.1) in
    let e = and3 _ _ _ (a.0) in (e.0, e.1, e.2, not-false _ (b.0), c.0)

pub ci_gate-IsGreen : (f : Index) (repo : Option String) → (ci_gate f repo).state ≡ pass → IsGreen f
unfolding ci_gate unknown_gate
ci_gate-IsGreen f repo h =
    let a = unless _ _ _ (λ e. cc e) h in
    let b = unless _ _ _ (λ e. cc e) (a.1) in
    let c = unless _ _ _ (λ e. cc e) (b.1) in
    let e = and3 _ _ _ (a.0) in (e.0, e.1, e.2, not-false _ (b.0), not-false _ (c.0))

pub implemented_gate-IsImplemented :
    (f : Index) (repo : Option String) → (implemented_gate f repo).state ≡ pass → IsImplemented f
unfolding implemented_gate unknown_gate
implemented_gate-IsImplemented f repo h =
    let a = unless _ _ _ (λ e. cc e) h in
    let b = unless _ _ _ (λ e. cc e) (a.1) in (not-false _ (a.0), λ clean. both _ _ clean (b.0))
  where
    both : (b c : Bool) → b ≡ true → b && not c ≡ false → c ≡ true
    both b c e k = ground (arith, e, k)

or-false : (a b : Bool) → a || b ≡ false → (a ≡ false) × (b ≡ false)
or-false a b h = (ground (arith, h), ground (arith, h))

pub planned_gate-IsPlanned :
    (f : Index) (repo : Option String) → (planned_gate f repo).state ≡ pass → IsPlanned f
unfolding planned_gate unknown_gate any
planned_gate-IsPlanned f repo h =
    let a = unless _ _ _ (λ e. cc e) h in
    let b = unless _ _ _ (λ e. cc e) (a.1) in
    let c = unless _ _ _ (λ e. cc e) (b.1) in
    let d = unless _ _ _ (λ e. cc e) (c.1) in
    let e = or-false _ _ (a.0) in
    let g = or-false _ _ (e.1) in
    let i = or-false _ _ (g.1) in
    let j = or-false _ _ (b.0) in
    (
      not-false _ (e.0),
      not-false _ (g.0),
      not-false _ (i.0),
      not-false _ (j.0),
      not-false _ (j.1),
      c.0,
      λ risky. both _ _ risky (d.0),
    )
  where
    both : (b c : Bool) → b ≡ true → b && not c ≡ false → c ≡ true
    both b c e k = ground (arith, e, k)

any-select :
    (p q : String → Bool) (xs : List String) → any q (select p xs) ≡ any (λ x. p x && q x) xs
unfolding any select
any-select p q [] = refl
any-select p q (x ∷ xs) = elim (Bool-cases (p x)) [
  | inl e ↦ rw e (ap (λ b. q x || b) (any-select p q xs))
  | inr e ↦ rw e (any-select p q xs)
]

-- Where neither merge fact is true the last branch of `_merged` is not reached.
no_merge :
    (f : Index)
    → is_eligible (f "pr.merged") && truth_of (f "pr.merged") ≡ false
    → is_eligible (f "git.merged") && truth_of (f "git.merged") ≡ false
    → any (λ k. truth_of (f k)) (merge_candidates f) ≡ false
unfolding any
no_merge f e g =
    any-select (λ k. is_eligible (f k)) (λ k. truth_of (f k)) ("pr.merged" ∷ "git.merged" ∷ [])
    ∙ rw (e, g) refl

merge_cases :
    (a b c d : Bool) (w x y u z : GateResult)
    → x.state ≢ pass
    → u.state ≢ pass
    → (if a then w else if b then (if c then x else y) else if not d then u else z).state ≡ pass
    → (a ≡ true) ⊎ (((b ≡ true) × (c ≡ false)) ⊎ ((a ≡ false) × (b ≡ false) × (d ≡ true)))
merge_cases true b c d w x y u z m n h = inl refl
merge_cases false true false d w x y u z m n h = inr (inl (refl, refl))
merge_cases false true true d w x y u z m n h = elim (m h) [ ]
merge_cases false false c true w x y u z m n h = inr (inr (refl, refl, refl))
merge_cases false false c false w x y u z m n h = elim (n h) [ ]

pub merged_gate-IsMerged :
    (f : Index) (repo : Option String) → (merged_gate f repo).state ≡ pass → IsMerged f
unfolding merged_gate unknown_gate
merged_gate-IsMerged f repo h =
    let by_git : Bool = is_eligible (f "git.merged") && truth_of (f "git.merged") in
    let by_pr : Bool = is_eligible (f "pr.merged") && truth_of (f "pr.merged") in
    let differs : Bool =
      not (is_eligible (f "pr.head") && is_eligible (implementation_head f))
      || not (same_value (f "pr.head") (implementation_head f)) in
    let seen : Bool = any (λ k. truth_of (f k)) (merge_candidates f) in
    let by_both : GateResult =
      gate merged pass [] (keys_of f (select (λ k. truth_of (f k)) (merge_candidates f))) "" repo in
    let from_git : GateResult = gate merged pass [] (key_of (f "git.merged") ∷ []) "" repo in
    let from_pr : GateResult =
      gate merged pass [] (key_of (f "pr.merged") ∷ key_of (f "pr.head") ∷ []) "" repo in
    let mismatch : GateResult =
      gate merged blocked (pr_head_mismatch ∷ [])
        ("pr.merged" ∷ "pr.head" ∷ "implementation.head" ∷ [])
        "Merged PR head does not match the implementation head." repo in
    let unproven : GateResult =
      gate merged hold (merge_not_proven ∷ []) (keys_of f (merge_candidates f))
        "Merge is not proven on the declared base." repo in
    let a =
      unless (not (is_eligible (f "pr.merged") || is_eligible (f "git.merged")))
        (unknown_gate merged ("pr.merged" ∷ "git.merged" ∷ []) repo f)
        (if by_git
          then from_git
          else if by_pr
          then (if differs then mismatch else from_pr)
          else if not seen
          then unproven
          else by_both)
        (λ e. cc e) h in
    elim (merge_cases by_git by_pr differs seen from_git mismatch from_pr unproven by_both
      (λ e. cc e) (λ e. cc e) (a.1)) [
        | inl e ↦ inl (&&-left _ _ e, &&-right _ _ e)
        | inr (inl (k, b)) ↦
            let j = or-false _ _ b in
            inr (
              &&-left _ _ k,
              &&-right _ _ k,
              &&-left _ _ (not-false _ (j.0)),
              &&-right _ _ (not-false _ (j.0)),
              not-false _ (j.1),
            )
        | inr (inr (e, k, d)) ↦ cc (no_merge f k e, d)
      ]

-- The state of a gate that may have raised.
outcome : Option GateResult → GateState
outcome none = blocked
outcome (some g) = g.state

sampled-grounds :
    (f : Index) (repo : Option String) (o : Option Bool)
    → outcome (sampled_gate f repo o) ≡ pass
    → (o ≡ some false)
      × (is_eligible (f "runtime.expected_build") ≡ true)
      × (is_eligible (f "runtime.build") ≡ true)
      × (same_value (f "runtime.expected_build") (f "runtime.build") ≡ true)
      × (truth_of (f "runtime.ready") ≡ true)
unfolding outcome unknown_gate
sampled-grounds f repo none h = cc h
sampled-grounds f repo (some true) h = cc h
sampled-grounds f repo (some false) h =
    let a = unless _ _ _ (λ e. cc e) h in
    let b = unless _ _ _ (λ e. cc e) (a.1) in
    let c = unless _ _ _ (λ e. cc e) (b.1) in
    (
      refl,
      &&-left _ _ (not-false _ (a.0)),
      &&-right _ _ (not-false _ (a.0)),
      not-false _ (b.0),
      not-false _ (c.0),
    )

unless_raised :
    (b : Bool) (x y : Option GateResult)
    → outcome x ≢ pass
    → outcome (if b then x else y) ≡ pass
    → (b ≡ false) × (outcome y ≡ pass)
unless_raised true x y n h = elim (n h) [ ]
unless_raised false x y n h = (refl, h)

pub runtime_gate-IsRunning :
    (f : Index) (repo : Option String) (g : GateResult)
    → runtime_gate f repo ≡ some g
    → g.state ≡ pass
    → IsRunning f
unfolding runtime_gate unknown_gate outcome
runtime_gate-IsRunning f repo g e h =
    let samples : Bool =
      is_eligible (f "runtime.applicable")
      && is_eligible (f "runtime.ready")
      && is_eligible (f "runtime.sample_count") in
    let count_read : Option Bool = not_positive (value_of (f "runtime.sample_count")) in
    let a =
      unless_raised
        (is_eligible (f "runtime.applicable") && is_false (value_of (f "runtime.applicable")))
        (some
          (gate runtime_proven not_applicable [] (key_of (f "runtime.applicable") ∷ []) "" repo))
        (if not samples
          then some
              (unknown_gate runtime_proven ("runtime.ready" ∷ "runtime.sample_count" ∷ []) repo f)
          else sampled_gate f repo count_read)
        (λ e. cc e) (ap outcome e ∙ h) in
    let b =
      unless_raised (not samples)
        (some (unknown_gate runtime_proven ("runtime.ready" ∷ "runtime.sample_count" ∷ []) repo f))
        (sampled_gate f repo count_read) (λ e. cc e) (a.1) in
    let c = and3 _ _ _ (b.0) in
    let d = sampled-grounds f repo _ (b.1) in (c.0, c.1, c.2, d.0, d.1, d.2, d.3, d.4)

pub planned_gate-stage : (f : Index) (repo : Option String) → (planned_gate f repo).stage ≡ planned
unfolding planned_gate unknown_gate
planned_gate-stage f repo = ground arith

pub implemented_gate-stage :
    (f : Index) (repo : Option String) → (implemented_gate f repo).stage ≡ implemented
unfolding implemented_gate unknown_gate
implemented_gate-stage f repo = ground arith

pub reviewed_gate-stage :
    (f : Index) (repo : Option String) → (reviewed_gate f repo).stage ≡ exact_head_reviewed
unfolding reviewed_gate unknown_gate
reviewed_gate-stage f repo = ground arith

pub ci_gate-stage : (f : Index) (repo : Option String) → (ci_gate f repo).stage ≡ ci
unfolding ci_gate unknown_gate
ci_gate-stage f repo = ground arith

pub merged_gate-stage : (f : Index) (repo : Option String) → (merged_gate f repo).stage ≡ merged
unfolding merged_gate unknown_gate
merged_gate-stage f repo = ground arith

-- The stage of a gate that may have raised.
unfoldable pub stage_of : Option GateResult → Stage
stage_of none = runtime_proven
stage_of (some g) = g.stage

pub runtime_gate-stage :
    (f : Index) (repo : Option String) → stage_of (runtime_gate f repo) ≡ runtime_proven
unfolding runtime_gate unknown_gate stage_of not_positive
runtime_gate-stage f repo = ground arith

pub planned_gate-repo : (f : Index) (repo : Option String) → (planned_gate f repo).repo_id ≡ repo
unfolding planned_gate unknown_gate
planned_gate-repo f repo = ground arith

pub implemented_gate-repo :
    (f : Index) (repo : Option String) → (implemented_gate f repo).repo_id ≡ repo
unfolding implemented_gate unknown_gate
implemented_gate-repo f repo = ground arith

pub reviewed_gate-repo : (f : Index) (repo : Option String) → (reviewed_gate f repo).repo_id ≡ repo
unfolding reviewed_gate unknown_gate
reviewed_gate-repo f repo = ground arith

pub ci_gate-repo : (f : Index) (repo : Option String) → (ci_gate f repo).repo_id ≡ repo
unfolding ci_gate unknown_gate
ci_gate-repo f repo = ground arith

pub merged_gate-repo : (f : Index) (repo : Option String) → (merged_gate f repo).repo_id ≡ repo
unfolding merged_gate unknown_gate
merged_gate-repo f repo = ground arith

-- The repository of a gate that may have raised.
unfoldable pub repo_of : Option String → Option GateResult → Option String
repo_of default none = default
repo_of default (some g) = g.repo_id

pub runtime_gate-repo :
    (f : Index) (repo : Option String) → repo_of repo (runtime_gate f repo) ≡ repo
unfolding runtime_gate unknown_gate repo_of not_positive
runtime_gate-repo f repo = ground arith
