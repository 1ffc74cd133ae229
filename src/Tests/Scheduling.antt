-- ===== src/Tests/Scheduling.antt =====
-- The theorems on the scheduler at concrete inputs.
use dotclaude_ecosystem.Model.{WorkItemState, ready, completed, AuthorizationRecord, same_state, at}
use dotclaude_ecosystem.Db.{Db, WorkItemRow, empty_db}
use dotclaude_ecosystem.Session.{Host, no_such_process, ok, transact}
use dotclaude_ecosystem.Store.Items.{find_item}
use dotclaude_ecosystem.Store.Commands.{handle_claim}
use dotclaude_ecosystem.Scheduler.{judge, all_ready, select_next_work_item, get_eligible_work_items}
use dotclaude_ecosystem.Scheduler.Runnable.{IsRunnable, IsDone}
use dotclaude_ecosystem.Scheduler.Passing.{judge-IsRunnable, get_eligible_work_items_iff}
use dotclaude_ecosystem.Scheduler.Choice.{
  select-IsRunnable, select-first, select-progress, IsServedBefore,
}
use dotclaude_ecosystem.Scheduler.Accounts.{row_has, entry_has, chosen_count, select-accounts}
use dotclaude_ecosystem.Scheduler.Claiming.{IsFresh, select-claimed}
use mathlib.Core.List.Memᴰ.{head}
use dotclaude_ecosystem.Prelude.{
  ℕ, ◌+◌, String, ◌≡◌, refl, ◌↔◌, true, none, some, List, [], ◌∷◌, eqb, if◌then◌else◌, select,
  first, any, count, order_by, Memᴰ,
}

abbrev clock_host : Host
clock_host = record {
  clock = λ n. 1000 + n;
  uuid = λ n. if eqb n 0 then "at_1" else "id";
  probe = λ n. no_such_process;
}

abbrev queued_row : String → String → String → List String → WorkItemState → WorkItemRow
queued_row id risk kind deps s = record {
  item = record {
    work_item_id = id;
    idempotency_key = id;
    title = "title";
    repo_id = "repo";
    repo_path = "";
    plan_path = "";
    risk_class = risk;
    workflow = "fwf";
    requested_terminal_stage = "merged";
    job_kind = kind;
    priority = 50;
    dependency_ids = deps;
    authority_requirement = "none";
    execution_budget = record { max_attempts = 3; max_wall_seconds = 3600 };
    scope_digest_sha256 = "scope";
    context_digest_sha256 = "context";
    state = s;
    created_at_utc = 0;
    created_by = "operator";
  };
  current_claim_attempt_id = none;
  current_claim_generation = none;
}

-- Risky work whose dependency is completed, a heavy test run, and work behind an unknown dependency.
abbrev risky_row : WorkItemRow
risky_row = queued_row "wi_a" "R3" "implementation" ("wi_c" ∷ []) ready

abbrev heavy_row : WorkItemRow
heavy_row = queued_row "wi_b" "R1" "pytest_full" [] ready

abbrev blocked_row : WorkItemRow
blocked_row = queued_row "wi_d" "R1" "implementation" ("wi_z" ∷ []) ready

abbrev queue_go : AuthorizationRecord
queue_go = record {
  authorization_id = "auth_1";
  work_item_id = "wi_a";
  scope_digest_sha256 = "scope";
  risk_class = "R3";
  authorized_workflow = "fwf";
  permitted_terminal_stage = "merged";
  issued_at_utc = 0;
  expires_at_utc = some (at 2000);
  operator_identity = "operator";
  interactive_provenance_proven = true;
}

abbrev queue_db : Db
queue_db = record empty_db {
  work_items =
      heavy_row
      ∷ blocked_row
      ∷ risky_row
      ∷ queued_row "wi_c" "R1" "implementation" [] completed
      ∷ [];
  authorizations = queue_go ∷ [];
}

abbrev at_1000 : WorkItemRow → ℕ
at_1000 w = 1000

queue_selected : (select_next_work_item at_1000 "repo" queue_db).selected ≡ some risky_row
unfolding select_next_work_item order_by select same_state count any first
queue_selected = refl

heavy_candidate : Memᴰ heavy_row (all_ready "repo" queue_db)
unfolding all_ready order_by select same_state
heavy_candidate = head refl

heavy_passes : judge queue_db 1000 heavy_row ≡ none
unfolding judge select any order_by same_state count first
heavy_passes = refl

heavy-IsRunnable : IsRunnable queue_db "repo" 1000 heavy_row
heavy-IsRunnable = judge-IsRunnable queue_db "repo" 1000 heavy_row heavy_candidate heavy_passes

risky-IsRunnable : IsRunnable queue_db "repo" 1000 risky_row
risky-IsRunnable = select-IsRunnable at_1000 "repo" queue_db risky_row queue_selected

first_example : IsServedBefore risky_row heavy_row
first_example =
    select-first at_1000 "repo" queue_db risky_row heavy_row queue_selected heavy-IsRunnable

progress_example :
    (w : WorkItemRow) × ((select_next_work_item at_1000 "repo" queue_db).selected ≡ some w)
    × IsRunnable queue_db "repo" 1000 w
progress_example = select-progress at_1000 "repo" queue_db heavy_row heavy-IsRunnable

accounts_example :
    chosen_count "wi_d" ((select_next_work_item at_1000 "repo" queue_db).selected)
      + count (entry_has "wi_d") ((select_next_work_item at_1000 "repo" queue_db).rejected)
    ≡ count (row_has "wi_d") (all_ready "repo" queue_db)
accounts_example = select-accounts at_1000 "repo" queue_db "wi_d"

-- The blocked item is rejected, once.
blocked_rejected :
    count (entry_has "wi_d") ((select_next_work_item at_1000 "repo" queue_db).rejected) ≡ 1
unfolding select_next_work_item order_by select same_state count any first
blocked_rejected = refl

eligible_example : Memᴰ blocked_row (get_eligible_work_items queue_db) ↔ (
    Memᴰ blocked_row queue_db.work_items
    × (blocked_row.state ≡ ready)
    × ((id : String) → Memᴰ id blocked_row.dependency_ids → IsDone queue_db id))
eligible_example = get_eligible_work_items_iff queue_db blocked_row

queue_found : find_item queue_db "wi_a" ≡ some risky_row
unfolding first
queue_found = refl

clock_host-IsFresh : IsFresh clock_host queue_db
unfolding any
clock_host-IsFresh = record { new_attempt_id = refl; new_claim_id = refl; new_lease_id = refl }

claimed_from_queue_example :
    (transact (handle_claim "wi_a" "host" "agent") clock_host queue_db).0 ≡ ok ("at_1", "id")
claimed_from_queue_example =
    select-claimed at_1000 "repo" "host" "agent" clock_host queue_db risky_row queue_selected
      queue_found refl clock_host-IsFresh
