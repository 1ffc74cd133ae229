-- ===== src/Truthdeck/Proven.antt =====
-- What the gates that `evaluate` reports as passed rest on.
use dotclaude_ecosystem.Truthdeck.{
  pass, Stage, planned, implemented, exact_head_reviewed, ci, merged, runtime_proven, Fact,
  GateResult, NextAction, Index,
}
use dotclaude_ecosystem.Truthdeck.Gates.{
  planned_gate, implemented_gate, reviewed_gate, ci_gate, merged_gate, runtime_gate, repo_gates,
}
use dotclaude_ecosystem.Truthdeck.Evaluate.{
  freshen, each, resolve_index, concerns, gates_from, gates_of, repos_of, concat, find_conflicts,
  mark_conflicts, conflicted, gate_before,
}
use dotclaude_ecosystem.Truthdeck.Action.{final_gates, conclude, evaluate}
use dotclaude_ecosystem.Truthdeck.Grounds.{
  IsProven, stage_of, planned_gate-stage, implemented_gate-stage, reviewed_gate-stage,
  ci_gate-stage, merged_gate-stage, runtime_gate-stage, repo_of, planned_gate-repo,
  implemented_gate-repo, reviewed_gate-repo, ci_gate-repo, merged_gate-repo, runtime_gate-repo,
  planned_gate-IsPlanned, implemented_gate-IsImplemented, reviewed_gate-IsReviewed, ci_gate-IsGreen,
  merged_gate-IsMerged, runtime_gate-IsRunning,
}
use mathlib.Core.List.Memᴰ.{head, tail, append_cases}
use dotclaude_ecosystem.Truthdeck.Evidence.{each-Memᴰ}
use dotclaude_ecosystem.Prelude.Members.{from_order_by}
use dotclaude_ecosystem.Prelude.{
  ℕ, String, ◌≡◌, refl, sym, ap, ◌∙◌, subst, inl, inr, Bool, true, false, Option, none, some, List,
  [], ◌∷◌, if◌then◌else◌, select, update, Memᴰ,
}

six-IsProven :
    (f : Index) (p i r c m x g : GateResult)
    → (p.stage ≡ planned) × (p.state ≡ pass → IsProven planned f)
    → (i.stage ≡ implemented) × (i.state ≡ pass → IsProven implemented f)
    → (r.stage ≡ exact_head_reviewed) × (r.state ≡ pass → IsProven exact_head_reviewed f)
    → (c.stage ≡ ci) × (c.state ≡ pass → IsProven ci f)
    → (m.stage ≡ merged) × (m.state ≡ pass → IsProven merged f)
    → (x.stage ≡ runtime_proven) × (x.state ≡ pass → IsProven runtime_proven f)
    → Memᴰ g (p ∷ i ∷ r ∷ c ∷ m ∷ x ∷ [])
    → g.state ≡ pass
    → IsProven g.stage f
six-IsProven f p i r c m x g hp hi hr hc hm hx w h = find w
  where
    at_stage :
        (s : Stage) (y : GateResult)
        → (y.stage ≡ s) × (y.state ≡ pass → IsProven s f)
        → g ≡ y
        → IsProven g.stage f
    at_stage s y (e, k) q =
        subst (λ s. IsProven s f) (sym (ap (λ v. v.stage) q ∙ e))
          (k (sym (ap (λ v. v.state) q) ∙ h))

    find : Memᴰ g (p ∷ i ∷ r ∷ c ∷ m ∷ x ∷ []) → IsProven g.stage f
    find (head q) = at_stage planned p hp q
    find (tail (head q)) = at_stage implemented i hi q
    find (tail (tail (head q))) = at_stage exact_head_reviewed r hr q
    find (tail (tail (tail (head q)))) = at_stage ci c hc q
    find (tail (tail (tail (tail (head q))))) = at_stage merged m hm q
    find (tail (tail (tail (tail (tail (head q)))))) = at_stage runtime_proven x hx q
    find (tail (tail (tail (tail (tail (tail q)))))) = elim q [ ]

listed :
    (o : Option GateResult) (p i r c m : GateResult) (gs : List GateResult)
    → (elim o [ none ↦ none | some x ↦ some (p ∷ i ∷ r ∷ c ∷ m ∷ x ∷ []) ]) ≡ some gs
    → (x : GateResult) × (o ≡ some x) × (gs ≡ p ∷ i ∷ r ∷ c ∷ m ∷ x ∷ [])
listed none p i r c m gs e = cc e
listed (some x) p i r c m gs e = (x, refl, cc e)

-- A gate of a repository that passes is proven, by the evidence of its stage.
pub repo_gates-IsProven :
    (f : Index) (repo : Option String) (gs : List GateResult) (g : GateResult)
    → repo_gates f repo ≡ some gs
    → Memᴰ g gs
    → g.state ≡ pass
    → IsProven g.stage f
unfolding repo_gates stage_of
repo_gates-IsProven f repo gs g e m h = conclude (
    listed _ (planned_gate f repo) (implemented_gate f repo) (reviewed_gate f repo) (ci_gate f repo)
      (merged_gate f repo) gs e)
  where
    conclude :
        (x : GateResult) × (runtime_gate f repo ≡ some x)
          × (gs
              ≡ planned_gate f repo
                ∷ implemented_gate f repo
                ∷ reviewed_gate f repo
                ∷ ci_gate f repo
                ∷ merged_gate f repo
                ∷ x
                ∷ [])
        → IsProven g.stage f
    conclude (x, r, l) =
        six-IsProven f _ _ _ _ _ x g (planned_gate-stage f repo, planned_gate-IsPlanned f repo)
          (implemented_gate-stage f repo, implemented_gate-IsImplemented f repo)
          (reviewed_gate-stage f repo, reviewed_gate-IsReviewed f repo)
          (ci_gate-stage f repo, ci_gate-IsGreen f repo)
          (merged_gate-stage f repo, merged_gate-IsMerged f repo)
          (sym (ap stage_of r) ∙ runtime_gate-stage f repo, runtime_gate-IsRunning f repo x r)
          (subst (λ l. Memᴰ g l) l m) h

-- The gates of a repository carry its name.
repo_gates-repo :
    (f : Index) (repo : Option String) (gs : List GateResult) (g : GateResult)
    → repo_gates f repo ≡ some gs
    → Memᴰ g gs
    → g.repo_id ≡ repo
unfolding repo_gates repo_of
repo_gates-repo f repo gs g e m = conclude (
    listed _ (planned_gate f repo) (implemented_gate f repo) (reviewed_gate f repo) (ci_gate f repo)
      (merged_gate f repo) gs e)
  where
    conclude :
        (x : GateResult) × (runtime_gate f repo ≡ some x)
          × (gs
              ≡ planned_gate f repo
                ∷ implemented_gate f repo
                ∷ reviewed_gate f repo
                ∷ ci_gate f repo
                ∷ merged_gate f repo
                ∷ x
                ∷ [])
        → g.repo_id ≡ repo
    conclude (x, r, l) = find (subst (λ l. Memᴰ g l) l m)
      where
        find :
            Memᴰ g (
              planned_gate f repo
              ∷ implemented_gate f repo
              ∷ reviewed_gate f repo
              ∷ ci_gate f repo
              ∷ merged_gate f repo
              ∷ x
              ∷ [])
            → g.repo_id ≡ repo
        find (head q) = ap (λ v. v.repo_id) q ∙ planned_gate-repo f repo
        find (tail (head q)) = ap (λ v. v.repo_id) q ∙ implemented_gate-repo f repo
        find (tail (tail (head q))) = ap (λ v. v.repo_id) q ∙ reviewed_gate-repo f repo
        find (tail (tail (tail (head q)))) = ap (λ v. v.repo_id) q ∙ ci_gate-repo f repo
        find (tail (tail (tail (tail (head q))))) = ap (λ v. v.repo_id) q ∙ merged_gate-repo f repo
        find (tail (tail (tail (tail (tail (head q)))))) =
            ap (λ v. v.repo_id) q ∙ sym (ap (repo_of repo) r) ∙ runtime_gate-repo f repo
        find (tail (tail (tail (tail (tail (tail q)))))) = elim q [ ]

-- A gate that still passes after the conflicts are marked passed before.
update-pass :
    (p : GateResult → Bool) (conflicts : List String) (gs : List GateResult) (g : GateResult)
    → Memᴰ g (update p (conflicted conflicts) gs)
    → g.state ≡ pass
    → Memᴰ g gs
unfolding update
update-pass p conflicts [] g m h = m
update-pass p conflicts (x ∷ xs) g m h = step (update-pass p conflicts xs g) (p x) refl m
  where
    step :
        (Memᴰ g (update p (conflicted conflicts) xs) → g.state ≡ pass → Memᴰ g xs)
        → (b : Bool) → p x ≡ b
        → Memᴰ g ((if b then conflicted conflicts x else x) ∷ update p (conflicted conflicts) xs)
        → Memᴰ g (x ∷ xs)
    step ih true e (head q) = cc
    step ih false e (head q) = head q
    step ih b e (tail k) = tail (ih k h)

mark_conflicts-pass :
    (conflicts : List String) (required : List Stage) (gs : List GateResult) (g : GateResult)
    → Memᴰ g (mark_conflicts conflicts required gs)
    → g.state ≡ pass
    → Memᴰ g gs
unfolding mark_conflicts
mark_conflicts-pass [] required gs g m h = m
mark_conflicts-pass (c ∷ cs) [] gs g m h = m
mark_conflicts-pass (c ∷ cs) (s ∷ ss) gs g m h = update-pass _ (c ∷ cs) gs g m h

concat-Memᴰ :
    (gss : List (List GateResult)) (g : GateResult)
    → Memᴰ g (concat gss)
    → (gs : List GateResult) × Memᴰ gs gss × Memᴰ g gs
concat-Memᴰ [] g m = elim m [ ]
concat-Memᴰ (xs ∷ xss) g m = elim (append_cases xs m) [
  | inl k ↦ (xs, head refl, k)
  | inr k ↦ later (concat-Memᴰ xss g k)
]
  where
    later :
        (gs : List GateResult) × Memᴰ gs xss × Memᴰ g gs
        → (gs : List GateResult) × Memᴰ gs (xs ∷ xss) × Memᴰ g gs
    later (gs, a, b) = (gs, tail a, b)

gates_from-some :
    (repo : Option String) (o : Option (List Fact)) (gs : List GateResult)
    → gates_from repo o ≡ some gs
    → (fresh : List Fact) × (o ≡ some fresh) × (repo_gates (resolve_index fresh) repo ≡ some gs)
gates_from-some repo none gs h = cc h
gates_from-some repo (some fresh) gs h = (fresh, refl, h)

pub conclude-some :
    (tuple_str : Option String × String → String) (facts : List Fact) (required : List Stage)
    (violation : Bool) (repos : List (Option String)) (o : Option (List (List GateResult)))
    (gates : List GateResult) (action : NextAction)
    → conclude tuple_str facts required violation repos o ≡ some (gates, action)
    → (gss : List (List GateResult)) × (o ≡ some gss)
      × (final_gates tuple_str facts required repos (concat gss) ≡ gates)
conclude-some tuple_str facts required violation repos none gates action h = cc h
conclude-some tuple_str facts required violation repos (some gss) gates action h =
    (gss, refl, ap (λ o. first_of o) h)
  where
    first_of : Option (List GateResult × NextAction) → List GateResult
    first_of none = []
    first_of (some (gs, a)) = gs

-- A gate that `evaluate` reports as passed is proven, by the evidence of its stage, from the index
-- of the facts of its repository, freshened at the instant of the evaluation: PLANNED has a
-- parseable, unblocked plan of a known risk class, with verified authorization for R2 and R3;
-- IMPLEMENTED an eligible head and no tree known to be dirty; EXACT_HEAD_REVIEWED and CI an
-- attestation for the implementation head itself, without blocking findings or failed checks;
-- MERGED a merge seen by git, or a merged PR with the implementation's head; RUNTIME_PROVEN a
-- positive sample, the expected build and a ready runtime.
pub evaluate-IsProven :
    (tuple_str : Option String × String → String) (facts : List Fact) (required : List Stage)
    (now : Option ℕ) (violation : Bool) (repo_order : List String) (gates : List GateResult)
    (action : NextAction) (g : GateResult)
    → evaluate tuple_str facts required now violation repo_order ≡ some (gates, action)
    → Memᴰ g gates
    → g.state ≡ pass
    → (fresh : List Fact) × (each (freshen now) (select (concerns g.repo_id) facts) ≡ some fresh)
      × IsProven g.stage (resolve_index fresh)
unfolding evaluate gates_of
evaluate-IsProven tuple_str facts required now violation repo_order gates action g h m p =
    reported (
      conclude-some tuple_str facts required violation (repos_of facts repo_order) _ gates action h)
  where
    repos : List (Option String)
    repos = repos_of facts repo_order

    in_repo :
        (repo : Option String)
        → (gs : List GateResult) → Memᴰ g gs
        → (fresh : List Fact) × (each (freshen now) (select (concerns repo) facts) ≡ some fresh)
          × (repo_gates (resolve_index fresh) repo ≡ some gs)
        → (fresh : List Fact) × (each (freshen now) (select (concerns g.repo_id) facts)
            ≡ some fresh)
          × IsProven g.stage (resolve_index fresh)
    in_repo repo gs n (fresh, e, r) = (
      fresh,
      subst (λ o. each (freshen now) (select (concerns o) facts) ≡ some fresh)
          (sym (repo_gates-repo (resolve_index fresh) repo gs g r n)) e,
      repo_gates-IsProven (resolve_index fresh) repo gs g r n p,
    )

    placed :
        (gs : List GateResult)
        → Memᴰ g gs
        → (repo : Option String) × Memᴰ repo repos × (gates_of now facts repo ≡ some gs)
        → (fresh : List Fact) × (each (freshen now) (select (concerns g.repo_id) facts)
            ≡ some fresh)
          × IsProven g.stage (resolve_index fresh)
    placed gs n (repo, k, e) = in_repo repo gs n (gates_from-some repo _ gs e)

    chosen :
        (gss : List (List GateResult))
        → each (gates_of now facts) repos ≡ some gss
        → (gs : List GateResult) × Memᴰ gs gss × Memᴰ g gs
        → (fresh : List Fact) × (each (freshen now) (select (concerns g.repo_id) facts)
            ≡ some fresh)
          × IsProven g.stage (resolve_index fresh)
    chosen gss e (gs, k, n) = placed gs n (each-Memᴰ (gates_of now facts) repos gss gs e k)

    reported :
        (gss : List (List GateResult)) × (each (gates_of now facts) repos ≡ some gss)
          × (final_gates tuple_str facts required repos (concat gss) ≡ gates)
        → (fresh : List Fact) × (each (freshen now) (select (concerns g.repo_id) facts)
            ≡ some fresh)
          × IsProven g.stage (resolve_index fresh)
    reported (gss, e, q) = chosen gss e (
        concat-Memᴰ gss g (
          mark_conflicts-pass (find_conflicts tuple_str facts) required (concat gss) g
            (from_order_by (gate_before repos) _ (subst (λ l. Memᴰ g l) (sym q) m)) p))
