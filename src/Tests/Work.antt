-- ===== src/Tests/Work.antt =====
-- The theorems on work items at concrete inputs.
use dotclaude_ecosystem.Model.{
  WorkItemState, unreadable, authorization_missing, authorization_expired,
}
use dotclaude_ecosystem.Model.Transitions.{
  History, start, next, is_terminal, terminal_iff_stuck, History-claimed,
}
use dotclaude_ecosystem.Model.Authorization.{
  IsValidGo, authorization_refusal-none_iff, expired_stays_refused, no_eternal_go,
}
use dotclaude_ecosystem.Db.{empty_db}
use dotclaude_ecosystem.Model.{
  WorkItem, WorkItemState, discovered, queued, hold, ready, claimed, running, completed, cancelled,
  mem_state, can_transition, value, AuthorizationRecord, authorization_refusal, second,
  authorization_ttl_seconds, at,
}
use dotclaude_ecosystem.Db.{Db, WorkItemRow, Receipt}
use dotclaude_ecosystem.Session.{value_error, ok, err, Host, no_such_process, Tx, pure, transact}
use dotclaude_ecosystem.Session.Keeps.{Keeps-pure}
use dotclaude_ecosystem.Store.Items.{
  find_item, get_receipt, install_claim, get_authorization, set_state, add_event,
}
use dotclaude_ecosystem.Store.Fence.{attempt_row, validate_worker_attempt_fence}
use dotclaude_ecosystem.Store.Commands.{
  Command, cancel, authorize, CommandEnvelope, process_envelope, new_attempt, new_claim,
  handle_claim,
}
use dotclaude_ecosystem.Store.Receipts.{process_envelope-refused, process_envelope-once}
use dotclaude_ecosystem.Store.Ownership.{superseded-rejected, handle_claim-hold}
use dotclaude_ecosystem.Db.{Attempt, Lease, Db}
use dotclaude_ecosystem.Store.Fence.{revoked_row, swept_request, owns, lease_row}
use dotclaude_ecosystem.Store.Commands.{new_lease}
use dotclaude_ecosystem.Store.Ownership.{validate_worker_attempt_fence-ok}
use dotclaude_ecosystem.Prelude.{
  ◌+◌, ◌*◌, ◌≤◌, ◌<◌, String, ◌≡◌, refl, ◌≢◌, ◌↔◌, inl, Bool, true, false, ◌||◌, none, some, List,
  [], ◌∷◌, ◌++◌, arith, select, first, any, delete, order_by, ◌==◌,
}

abbrev test_host : Host
test_host = record { clock = λ n. 1000 + n; uuid = λ n. "id"; probe = λ n. no_such_process }

abbrev test_item : String → WorkItemState → WorkItem
test_item risk s = record {
  work_item_id = "wi_1";
  idempotency_key = "wi_key";
  title = "title";
  repo_id = "repo";
  repo_path = "";
  plan_path = "";
  risk_class = risk;
  workflow = "fwf";
  requested_terminal_stage = "merged";
  job_kind = "implementation";
  priority = 50;
  dependency_ids = [];
  authority_requirement = "none";
  execution_budget = record { max_attempts = 3; max_wall_seconds = 3600 };
  scope_digest_sha256 = "scope";
  context_digest_sha256 = "context";
  state = s;
  created_at_utc = 0;
  created_by = "operator";
}

abbrev test_row : String → WorkItemState → WorkItemRow
test_row risk s = record {
  item = test_item risk s;
  current_claim_attempt_id = some "at_1";
  current_claim_generation = some 1;
}

abbrev db_with : WorkItemRow → Db
db_with w = record empty_db {
  work_items = w ∷ [];
  attempts =
      new_attempt "at_1" "wi_1" "host" "agent" ∷ new_attempt "at_2" "wi_1" "host" "agent" ∷ [];
}

row_found :
    (risk : String) (s : WorkItemState)
    → find_item (db_with (test_row risk s)) "wi_1" ≡ some (test_row risk s)
unfolding first
row_found risk s = refl

attempt_found :
    attempt_row (db_with (test_row "R1" running)) "at_1"
    ≡ some (new_attempt "at_1" "wi_1" "host" "agent")
unfolding first
attempt_found = refl

superseded_example :
    validate_worker_attempt_fence "at_1" (some "wi_1") none 1 1000 (
      install_claim
        (new_claim "clm_2" "wi_1" "at_2" "host")
        (test_row "R1" running)
        (db_with (test_row "R1" running)))
    ≡ err (value_error "REAPED_LEASE_REJECTED")
superseded_example =
    superseded-rejected (new_claim "clm_2" "wi_1" "at_2" "host") (db_with (test_row "R1" running))
      (test_row "R1" running) (new_attempt "at_1" "wi_1" "host" "agent") (some "wi_1") none 1 1000
      (row_found "R1" running) attempt_found refl refl refl

no_go :
    authorization_refusal
      (get_authorization (db_with (test_row "R2" ready)) "wi_1")
      "scope"
      (test_host.clock 0)
    ≡ some authorization_missing
unfolding get_authorization authorization_refusal first order_by select
no_go = refl

hold_example :
    transact (handle_claim "wi_1" "host" "agent") test_host (db_with (test_row "R2" ready)) ≡ (
      err (value_error "requires operator R2/R3 authorization"),
      add_event
          (record {
            event_id = "id";
            work_item_id = "wi_1";
            attempt_id = none;
            previous_state = ready;
            next_state = hold;
            actor_identity = "host";
            reason_code = value authorization_missing;
            recorded_at_utc = test_host.clock 1;
          })
          (set_state "wi_1" hold (db_with (test_row "R2" ready))),
    )
hold_example =
    handle_claim-hold "host" "agent" test_host (db_with (test_row "R2" ready)) (test_row "R2" ready)
      authorization_missing (row_found "R2" ready) refl refl no_go

abbrev no_others : String → Tx String
no_others name = pure "{}"

abbrev test_envelope : Command → Bool → CommandEnvelope
test_envelope c attested = record {
  command_id = "cmd";
  idempotency_key = "key";
  command = c;
  operator_attestation = attested;
}

no_receipt : get_receipt (db_with (test_row "R1" running)) "key" ≡ none
unfolding get_receipt first
no_receipt = refl

refused_example :
    (receipt : Receipt) × (transact
        (process_envelope no_others (test_envelope (cancel "wi_1" "operator") true))
        test_host
        (db_with (test_row "R1" running))
      ≡ (
        ok receipt,
        record (db_with (test_row "R1" running)) {
          receipts =
              delete
                (λ x. x.receipt_id == receipt.receipt_id)
                (db_with (test_row "R1" running)).receipts
              ++ receipt ∷ [];
        },
      ))
    × (receipt.status ≡ "ERROR")
refused_example =
    process_envelope-refused no_others (test_envelope (cancel "wi_1" "operator") true) test_host
      (db_with (test_row "R1" running)) no_receipt (inl refl)

once_example :
    (r : Receipt) × ((transact
        (process_envelope no_others (test_envelope (cancel "wi_1" "operator") false))
        test_host
        (db_with (test_row "R1" running))).0
      ≡ ok r)
    × (transact
          (process_envelope no_others (test_envelope authorize false))
          test_host
          (transact
            (process_envelope no_others (test_envelope (cancel "wi_1" "operator") false))
            test_host
            (db_with (test_row "R1" running))).1
        ≡ (
          ok r,
          (transact
              (process_envelope no_others (test_envelope (cancel "wi_1" "operator") false))
              test_host
              (db_with (test_row "R1" running))).1,
        ))
once_example =
    process_envelope-once no_others no_others (test_envelope (cancel "wi_1" "operator") false)
      (test_envelope authorize false) test_host test_host (db_with (test_row "R1" running))
      (λ name. Keeps-pure "{}") no_receipt refl

terminal_example :
    (is_terminal completed ≡ true → (t : WorkItemState) → can_transition completed t ≡ false)
    × (is_terminal completed ≡ false → can_transition completed cancelled ≡ true)
terminal_example = terminal_iff_stuck completed

abbrev path_states : List WorkItemState
path_states = claimed ∷ ready ∷ queued ∷ discovered ∷ []

path_to_claimed : History claimed path_states
unfolding can_transition
path_to_claimed = next claimed (next ready (next queued start refl) refl) refl

claimed_example : mem_state claimed path_states ≡ true
claimed_example = History-claimed path_to_claimed refl

abbrev test_go : AuthorizationRecord
test_go = record {
  authorization_id = "auth";
  work_item_id = "wi_1";
  scope_digest_sha256 = "scope";
  risk_class = "R2";
  authorized_workflow = "fwf";
  permitted_terminal_stage = "merged";
  issued_at_utc = 5;
  expires_at_utc = some (at 2000);
  operator_identity = "operator";
  interactive_provenance_proven = true;
}

go_expired : authorization_refusal (some test_go) "scope" 3000 ≡ some authorization_expired
unfolding authorization_refusal
go_expired = refl

expired_example : authorization_refusal (some test_go) "other" 4000 ≡ some authorization_expired
expired_example = expired_stays_refused test_go "scope" "other" 3000 4000 go_expired (omega arith)

go_iff_example :
    (authorization_refusal (some test_go) "scope" 1000 ≡ none)
    ↔ ((a : AuthorizationRecord) × (some test_go ≡ some a) × IsValidGo a "scope" 1000)
go_iff_example = authorization_refusal-none_iff (some test_go) "scope" 1000

abbrev old_go : AuthorizationRecord
old_go = record test_go { expires_at_utc = none }

eternal_example :
    (old_go.expires_at_utc ≡ none
      → old_go.issued_at_utc + authorization_ttl_seconds * second ≤ 604800000005
      → authorization_refusal (some old_go) "scope" 604800000005 ≢ none)
    × (old_go.expires_at_utc ≡ some unreadable
        → authorization_refusal (some old_go) "scope" 604800000005 ≢ none)
eternal_example = no_eternal_go old_go "scope" 604800000005

abbrev owned_db : Db
owned_db = record (db_with (test_row "R1" running)) {
  claims = new_claim "clm_1" "wi_1" "at_1" "host" ∷ [];
  leases = new_lease "lse_1" "at_1" "agent" 1000 1000 ∷ [];
}

fence_open :
    validate_worker_attempt_fence "at_1" (some "wi_1") none 1 2000 owned_db
    ≡ ok (new_attempt "at_1" "wi_1" "host" "agent")
unfolding validate_worker_attempt_fence first any
fence_open = refl

fence_ok_example :
    (a : Attempt) × (attempt_row owned_db "at_1" ≡ some a)
    × ((revoked_row a || swept_request owned_db "at_1" ≡ false) × (owns owned_db a ≡ true))
    × ((l : Lease) × (lease_row owned_db "at_1" ≡ some l)
        × (2000 < l.expires_at_utc)
        × (l.lease_generation ≡ 1))
fence_ok_example =
    validate_worker_attempt_fence-ok "at_1" (some "wi_1") none 1 2000 owned_db
      (new_attempt "at_1" "wi_1" "host" "agent") fence_open
