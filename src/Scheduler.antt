-- ===== src/Scheduler.antt =====
-- scripts/conductor_scheduler.py: which READY work item is worked on next. `clock` gives the
-- instant at which the loop reads the clock for an item's GO. All rows are read in one state.
pub mod Runnable
pub mod Passing
pub mod Choice
pub mod Accounts
pub mod Claiming
use dotclaude_ecosystem.Model.{
  WorkItem, WorkItemState, ready, completed, same_state, authorization_refusal, value, ReasonCode,
  needs_authorization,
}
use dotclaude_ecosystem.Db.{Db, WorkItemRow}
use dotclaude_ecosystem.Store.Items.{get_authorization}
use dotclaude_ecosystem.Resources.Keys.{resource_key}
use dotclaude_ecosystem.Resources.Rows.{is_active, is_fenced, in_pool}
use dotclaude_ecosystem.Prelude.{
  ℕ, ◌<◌, String, ◌≡◌, refl, Bool, true, false, not, ◌&&◌, ◌||◌, Option, none, some, List, [], ◌∷◌,
  ◌++◌, map, ltb, eqb, if◌then◌else◌, or_default, select, any, count, order_by, ◌==◌, str_ltb,
  mem_str, get,
}

-- `list_work_items(state)`: `ORDER BY priority DESC, created_at_utc ASC`
abbrev pub listed_before : WorkItemRow → WorkItemRow → Bool
listed_before a b =
    ltb b.priority a.priority || eqb a.priority b.priority && ltb a.created_at_utc b.created_at_utc

unfoldable pub list_work_items : WorkItemState → Db → List WorkItemRow
list_work_items s db = order_by listed_before (select (λ w. same_state w.state s) db.work_items)

-- `_resource_purpose`
unfoldable pub resource_purpose : WorkItemRow → Option String
resource_purpose w =
    if mem_str w.job_kind ("pytest_full" ∷ "pytest_heavy" ∷ []) then some w.job_kind else none

abbrev pub is_completed : Db → String → Bool
is_completed db id = any (λ w. w.work_item_id == id) (list_work_items completed db)

-- The dependencies that are not completed.
unfoldable pub unsatisfied : Db → WorkItemRow → List String
unfolding list_work_items
unsatisfied db w = select (λ dep. not (is_completed db dep)) w.dependency_ids

abbrev pub is_empty {ℓ} : {A : Type ℓ} → List A → Bool
is_empty [] = true
is_empty (x ∷ xs) = false

unfoldable pub get_eligible_work_items : Db → List WorkItemRow
unfolding list_work_items unsatisfied
get_eligible_work_items db = select (λ w. is_empty (unsatisfied db w)) (list_work_items ready db)

-- `status()["active_units"] or status()["recovery_required"]`, of the pool host:heavy
abbrev pub active_units : Db → ℕ
active_units db = count (λ r. is_active r.state && in_pool resource_key r) db.requests

abbrev pub fenced_units : Db → ℕ
fenced_units db = count (λ r. is_fenced r.state && in_pool resource_key r) db.requests

unfoldable pub host_is_busy : Db → Bool
host_is_busy db = ltb 0 (active_units db) || ltb 0 (fenced_units db)

-- An entry of the list of rejected candidates.
pub record Rejected : Type 0 where
  pub work_item_id : String
  pub title : String
  pub reason_code : String
  pub unsatisfied_dependencies : List String
  pub busy_with : Option (String × String)

abbrev pub rejection : WorkItemRow → String → Rejected
rejection w reason = record {
  work_item_id = w.work_item_id;
  title = w.title;
  reason_code = reason;
  unsatisfied_dependencies = [];
  busy_with = none;
}

abbrev pub unmet : WorkItemRow → List String → Option Rejected
unmet w [] = none
unmet w (d ∷ ds) =
    some (record (rejection w "DEPENDENCY_UNSATISFIED") { unsatisfied_dependencies = d ∷ ds })

abbrev pub unauthorized : WorkItemRow → Option ReasonCode → Option Rejected
unauthorized w none = none
unauthorized w (some refusal) = some (rejection w (value refusal))

abbrev pub go_refusal : Db → ℕ → WorkItemRow → Option ReasonCode
go_refusal db now w =
    if needs_authorization w.risk_class
    then authorization_refusal (get_authorization db w.work_item_id) w.scope_digest_sha256 now
    else none

abbrev pub kept_out : WorkItemRow → Bool → Option String → Option Rejected
kept_out w busy none = none
kept_out w busy (some purpose) =
    if busy
    then some
        (record (rejection w "HOST_RESOURCE_BUSY") { busy_with = some (resource_key, purpose) })
    else none

abbrev pub or_else {ℓ} : {A : Type ℓ} → Option A → Option A → Option A
or_else (some a) b = some a
or_else none b = b

-- One round of the loop: why the candidate is passed over, if it is.
unfoldable pub judge : Db → ℕ → WorkItemRow → Option Rejected
unfolding unsatisfied host_is_busy resource_purpose authorization_refusal get_authorization
judge db now w = or_else (unmet w (unsatisfied db w)) (
    or_else (unauthorized w (go_refusal db now w))
      (kept_out w (host_is_busy db) (resource_purpose w)))

-- The loop's two lists.
pub record Triage : Type 0 where
  pub eligible : List WorkItemRow
  pub rejected : List Rejected

abbrev pub sort_out : WorkItemRow → Option Rejected → Triage → Triage
sort_out w none t = record t { eligible = w ∷ t.eligible }
sort_out w (some r) t = record t { rejected = r ∷ t.rejected }

unfoldable pub triage : (WorkItemRow → ℕ) → Db → List WorkItemRow → Triage
unfolding judge
triage clock db [] = record { eligible = []; rejected = [] }
triage clock db (w ∷ ws) = sort_out w (judge db (clock w) w) (triage clock db ws)

unfoldable pub risk_weight : String → ℕ
risk_weight risk = or_default (get (("R3", 4) ∷ ("R2", 3) ∷ ("R1", 2) ∷ ("R0", 1) ∷ []) risk) 1

-- `sort_key(a) < sort_key(b)`
unfoldable pub sort_before : WorkItemRow → WorkItemRow → Bool
unfolding risk_weight
sort_before a b =
    ltb b.priority a.priority
    || eqb a.priority b.priority
      && (ltb (risk_weight b.risk_class) (risk_weight a.risk_class)
          || eqb (risk_weight a.risk_class) (risk_weight b.risk_class)
            && (ltb a.created_at_utc b.created_at_utc
                || eqb a.created_at_utc b.created_at_utc && str_ltb a.work_item_id b.work_item_id))

abbrev pub lower : WorkItemRow → Rejected
lower w = rejection w "LOWER_SCHEDULER_PRIORITY"

pub record Selection : Type 0 where
  pub selected : Option WorkItemRow
  pub rejected : List Rejected

abbrev pub choose : List WorkItemRow → List Rejected → Selection
choose [] rejected = record { selected = none; rejected = rejected }
choose (w ∷ ws) rejected = record { selected = some w; rejected = rejected ++ map lower ws }

-- `if repo_id:` is false of `None` and of the empty text; both are the empty text here.
abbrev pub in_repo : String → WorkItemRow → Bool
in_repo repo w = (repo == "") || (w.repo_id == repo)

unfoldable pub all_ready : String → Db → List WorkItemRow
unfolding list_work_items
all_ready repo db = select (in_repo repo) (list_work_items ready db)

unfoldable pub select_next_work_item : (WorkItemRow → ℕ) → String → Db → Selection
unfolding all_ready triage sort_before
select_next_work_item clock repo db =
    let t = triage clock db (all_ready repo db) in
    choose (order_by sort_before t.eligible) t.rejected
