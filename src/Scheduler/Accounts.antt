-- ===== src/Scheduler/Accounts.antt =====
-- Every candidate of `select_next_work_item` is selected or rejected.
use dotclaude_ecosystem.Db.{Db, WorkItemRow}
use dotclaude_ecosystem.Model.{ReasonCode}
use dotclaude_ecosystem.Scheduler.{
  judge, all_ready, Rejected, triage, sort_before, lower, choose, select_next_work_item, unmet,
  unauthorized, kept_out, or_else, unsatisfied, host_is_busy, resource_purpose, go_refusal,
}
use dotclaude_ecosystem.Prelude.Counts.{tally, count-order_by, count-append}
use dotclaude_ecosystem.Prelude.{
  ℕ, ◌+◌, String, ◌≡◌, refl, ap, ◌∙◌, subst, inl, inr, Bool, true, false, Option, none, some, List,
  [], ◌∷◌, map, arith, Option-cases, count, ◌==◌,
}

abbrev pub row_has : String → WorkItemRow → Bool
row_has id w = w.work_item_id == id

abbrev pub entry_has : String → Rejected → Bool
entry_has id r = r.work_item_id == id

-- How often `id` is selected.
abbrev pub chosen_count : String → Option WorkItemRow → ℕ
chosen_count id none = 0
chosen_count id (some w) = tally (row_has id w)

-- An entry, where there is one, that names `w`.
Names : WorkItemRow → Option Rejected → Type 0
Names w none = Unit
Names w (some r) = r.work_item_id ≡ w.work_item_id

or_else-Names :
    (w : WorkItemRow) (a b : Option Rejected) → Names w a → Names w b → Names w (or_else a b)
unfolding Names
or_else-Names w none b h k = k
or_else-Names w (some r) b h k = h

unmet-Names : (w : WorkItemRow) (ds : List String) → Names w (unmet w ds)
unfolding Names
unmet-Names w [] = tt
unmet-Names w (d ∷ ds) = refl

unauthorized-Names : (w : WorkItemRow) (o : Option ReasonCode) → Names w (unauthorized w o)
unfolding Names
unauthorized-Names w none = tt
unauthorized-Names w (some r) = refl

kept_out-Names : (w : WorkItemRow) (b : Bool) (o : Option String) → Names w (kept_out w b o)
unfolding Names
kept_out-Names w b none = tt
kept_out-Names w true (some p) = refl
kept_out-Names w false (some p) = tt

judge-names :
    (db : Db) (now : ℕ) (w : WorkItemRow) (r : Rejected)
    → judge db now w ≡ some r
    → r.work_item_id ≡ w.work_item_id
unfolding judge Names
judge-names db now w r h = subst (Names w) h (
    or_else-Names w (unmet w (unsatisfied db w)) (later (go_refusal db now w))
      (unmet-Names w (unsatisfied db w))
      (or_else-Names w (unauthorized w (go_refusal db now w)) kept
        (unauthorized-Names w (go_refusal db now w))
        (kept_out-Names w (host_is_busy db) (resource_purpose w))))
  where
    kept : Option Rejected
    kept = kept_out w (host_is_busy db) (resource_purpose w)

    later : Option ReasonCode → Option Rejected
    later r = or_else (unauthorized w r) kept

module _ (id : String) where
  triage-count :
      (clock : WorkItemRow → ℕ) (db : Db) (ws : List WorkItemRow)
      → count (row_has id) ((triage clock db ws).eligible)
          + count (entry_has id) ((triage clock db ws).rejected)
        ≡ count (row_has id) ws
  unfolding triage count
  triage-count clock db [] = refl
  triage-count clock db (w ∷ ws) = elim (Option-cases (judge db (clock w) w)) [
    | inl e ↦ rw e (omega (arith, triage-count clock db ws))
    | inr (r, e) ↦ rw (e, judge-names db (clock w) w r e) (omega (arith, triage-count clock db ws))
  ]

  lower-count :
      (ws : List WorkItemRow) → count (entry_has id) (map lower ws) ≡ count (row_has id) ws
  unfolding count
  lower-count [] = refl
  lower-count (w ∷ ws) = ap (λ n. tally (row_has id w) + n) (lower-count ws)

  choose-count :
      (ws : List WorkItemRow) (rs : List Rejected)
      → chosen_count id ((choose ws rs).selected) + count (entry_has id) ((choose ws rs).rejected)
        ≡ count (row_has id) ws + count (entry_has id) rs
  unfolding count
  choose-count [] rs = refl
  choose-count (w ∷ ws) rs =
      rw (count-append (entry_has id) rs (map lower ws), lower-count ws) (omega arith)

-- Each READY work item of the repository asked for is either the selected one or has one entry
-- among the rejected: for every id the two counts add up to that of the candidates.
pub select-accounts :
    (clock : WorkItemRow → ℕ) (repo : String) (db : Db) (id : String)
    → chosen_count id ((select_next_work_item clock repo db).selected)
        + count (entry_has id) ((select_next_work_item clock repo db).rejected)
      ≡ count (row_has id) (all_ready repo db)
unfolding select_next_work_item
select-accounts clock repo db id =
    choose-count id _ _
    ∙ rw (count-order_by sort_before (row_has id) ((triage clock db (all_ready repo db)).eligible))
        (triage-count id clock db (all_ready repo db))
