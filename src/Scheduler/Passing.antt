-- ===== src/Scheduler/Passing.antt =====
-- What the loop of `select_next_work_item` lets pass is what may run, and the list of
-- `get_eligible_work_items`.
use dotclaude_ecosystem.Model.{
  AuthorizationRecord, WorkItemState, ready, same_state, needs_authorization, ReasonCode,
}
use dotclaude_ecosystem.Model.Authorization.{IsValidGo, authorization_refusal-none_iff}
use dotclaude_ecosystem.Model.Transitions.{same_state→≡}
use dotclaude_ecosystem.Db.{Db, WorkItemRow}
use dotclaude_ecosystem.Store.Items.{get_authorization}
use dotclaude_ecosystem.Scheduler.{
  list_work_items, resource_purpose, unsatisfied, host_is_busy, judge, all_ready, in_repo, Rejected,
  go_refusal, get_eligible_work_items, is_empty, unmet, unauthorized, kept_out, or_else,
}
use dotclaude_ecosystem.Prelude.Members.{from_select, into_select, into_order_by}
use dotclaude_ecosystem.Prelude.{
  ℕ, String, ◌≡◌, refl, subst, ◌≢◌, ◌↔◌, inl, inr, Bool, true, false, Option, none, some, List, [],
  ◌∷◌, Bool-cases, Memᴰ,
}
use dotclaude_ecosystem.Scheduler.Runnable.{
  IsDone, IsRunnable, listed-Memᴰ, is_completed→IsDone, IsDone→is_completed, unmet-none,
  select-none, select-empty, not-false, or_else-none, unauthorized-none, kept_out-none,
  host_is_busy-false_iff,
}

IsGranted : Db → ℕ → WorkItemRow → Type 0
IsGranted db now w =
    (a : AuthorizationRecord) × (get_authorization db w.work_item_id ≡ some a)
    × IsValidGo a w.scope_digest_sha256 now

go_refusal-none :
    (db : Db) (now : ℕ) (w : WorkItemRow)
    → go_refusal db now w ≡ none
    → needs_authorization w.risk_class ≡ true
    → IsGranted db now w
unfolding IsGranted
go_refusal-none db now w h k =
    (authorization_refusal-none_iff _ w.scope_digest_sha256 now).0
      (subst (λ o. o ≡ none) (rw k refl) h)

go_refusal-passes :
    (db : Db) (now : ℕ) (w : WorkItemRow)
    → (needs_authorization w.risk_class ≡ true → IsGranted db now w)
    → go_refusal db now w ≡ none
unfolding IsGranted
go_refusal-passes db now w h = elim (Bool-cases (needs_authorization w.risk_class)) [
  | inl e ↦ rw e ((authorization_refusal-none_iff _ w.scope_digest_sha256 now).1 (h e))
  | inr e ↦ rw e refl
]

unsatisfied-none :
    (db : Db) (w : WorkItemRow)
    → ((id : String) → Memᴰ id w.dependency_ids → IsDone db id)
    → unsatisfied db w ≡ []
unfolding unsatisfied
unsatisfied-none db w h =
    select-empty _ w.dependency_ids (λ id m. rw (IsDone→is_completed db id (h id m)) refl)

judged-none :
    (db : Db) (now : ℕ) (w : WorkItemRow)
    → judge db now w ≡ none
    → (unsatisfied db w ≡ [])
      × (go_refusal db now w ≡ none)
      × (kept_out w (host_is_busy db) (resource_purpose w) ≡ none)
unfolding judge IsGranted
judged-none db now w h =
    let outer = or_else-none _ _ h in
    let inner = or_else-none _ _ (outer.1) in
    (unmet-none w _ (outer.0), unauthorized-none w _ (inner.0), inner.1)

-- The loop lets a candidate pass only if it is runnable.
pub judge-IsRunnable :
    (db : Db) (repo : String) (now : ℕ) (w : WorkItemRow)
    → Memᴰ w (all_ready repo db)
    → judge db now w ≡ none
    → IsRunnable db repo now w
unfolding all_ready unsatisfied IsGranted
judge-IsRunnable db repo now w m h =
    let c = from_select (in_repo repo) (list_work_items ready db) m in
    let l = listed-Memᴰ ready db w (c.0) in
    let j = judged-none db now w h in
    record {
      listed = l.0;
      is_ready = same_state→≡ w.state ready (l.1);
      of_repo = c.1;
      deps_done = λ id d.
          is_completed→IsDone db id (not-false _ (select-none _ w.dependency_ids id (j.0) d));
      has_go = go_refusal-none db now w (j.1);
      host_free = λ heavy. (host_is_busy-false_iff db).0 (kept_out-none w _ _ (j.2) heavy);
    }

kept_out-passes :
    (w : WorkItemRow) (b : Bool) (o : Option String)
    → (o ≢ none → b ≡ false)
    → kept_out w b o ≡ none
kept_out-passes w b none h = refl
kept_out-passes w b (some p) h = rw (h (λ e. cc e)) refl

-- A runnable work item is a candidate.
pub runnable-listed :
    (db : Db) (repo : String) (now : ℕ) (w : WorkItemRow)
    → IsRunnable db repo now w
    → Memᴰ w (all_ready repo db)
unfolding all_ready list_work_items same_state
runnable-listed db repo now w k =
    into_select (in_repo repo)
      (into_order_by _ _
        (into_select (λ w. same_state w.state ready) (k.listed) (ready_state w.state (k.is_ready))))
      (k.of_repo)
  where
    ready_state : (s : WorkItemState) → s ≡ ready → same_state s ready ≡ true
    ready_state s e = rw e refl

-- The loop lets every runnable work item pass.
pub judge-runnable :
    (db : Db) (repo : String) (now : ℕ) (w : WorkItemRow)
    → IsRunnable db repo now w
    → judge db now w ≡ none
unfolding judge IsGranted
judge-runnable db repo now w k =
    passes (unsatisfied-none db w (k.deps_done)) (go_refusal-passes db now w (k.has_go))
      (kept_out-passes w _ _ (λ heavy. (host_is_busy-false_iff db).1 (k.host_free heavy)))
  where
    passes :
        {ds : List String} {r : Option ReasonCode} {o : Option Rejected}
        → ds ≡ []
        → r ≡ none
        → o ≡ none
        → or_else (unmet w ds) (or_else (unauthorized w r) o) ≡ none
    passes d e f = rw (d, e, f) refl

is_empty_iff : {A : Type 0} (xs : List A) → (is_empty xs ≡ true) ↔ (xs ≡ [])
is_empty_iff [] = (λ h. refl, λ h. refl)
is_empty_iff (x ∷ xs) = (λ h. cc, λ h. cc)

-- `get_eligible_work_items` returns exactly the READY work items of which every dependency is
-- completed.
pub get_eligible_work_items_iff :
    (db : Db) (w : WorkItemRow)
    → Memᴰ w (get_eligible_work_items db) ↔ (
        Memᴰ w db.work_items
        × (w.state ≡ ready)
        × ((id : String) → Memᴰ id w.dependency_ids → IsDone db id))
unfolding get_eligible_work_items unsatisfied list_work_items same_state
get_eligible_work_items_iff db w = (
  λ m.
      let c = from_select (λ v. is_empty (unsatisfied db v)) (list_work_items ready db) m in
      let l = listed-Memᴰ ready db w (c.0) in
      (
        l.0,
        same_state→≡ w.state ready (l.1),
        λ id d. is_completed→IsDone db id (
            not-false _
              (select-none _ w.dependency_ids id ((is_empty_iff (unsatisfied db w)).0 (c.1)) d)),
      ),
  λ (m, r, deps).
      into_select (λ v. is_empty (unsatisfied db v))
        (into_order_by _ _ (into_select (λ v. same_state v.state ready) m (ready_state w.state r)))
        ((is_empty_iff (unsatisfied db w)).1 (unsatisfied-none db w deps)),
)
  where
    ready_state : (s : WorkItemState) → s ≡ ready → same_state s ready ≡ true
    ready_state s e = rw e refl
