-- ===== src/Tests/Resources.antt =====
-- The theorems on the resource manager at concrete inputs.
use dotclaude_ecosystem.Db.{
  empty_db, Db, HostResourceRequestState, active, recovery_required, HostResourceRequest,
  HostResourceLease, inherited,
}
use dotclaude_ecosystem.Session.{
  ok, Host, Probe, started, no_such_process, transact, ◌>>=◌, require, read_clock, run, pure, gets,
  on_row, modify, uuid4, get_host,
}
use dotclaude_ecosystem.Resources.Keys.{
  validate_request, resource_key, resolve_resource_key, is_cdp_purpose, known_resource_keys,
}
use dotclaude_ecosystem.Resources.Rows.{
  attempt_is_revoked, source_full, slot_taken, create_lease, event, find_request, lease_of,
}
use dotclaude_ecosystem.Resources.Sweep.{sweep_stale_slots, Cutoffs}
use dotclaude_ecosystem.Resources.Admission.{RequestArgs, request}
use dotclaude_ecosystem.Resources.Methods.{
  open_manager, active_lease, heartbeat, recover, set_lease, beat,
}
use dotclaude_ecosystem.Resources.Quota.{pool, uses, bound, IsWithinQuota}
use dotclaude_ecosystem.Resources.Quota.Calls.{
  Call, open_call, request_call, perform, perform_all, perform-IsWithinQuota,
  empty_db-IsWithinQuota, admission_is_bounded,
}
use dotclaude_ecosystem.Resources.Routing.{resolve-known, resolve-cdp_off_heavy}
use dotclaude_ecosystem.Resources.Refusals.{Refuses, recover-alive, heartbeat-extends}
use dotclaude_ecosystem.Session.Sees.{is_ok}
use dotclaude_ecosystem.Resources.Replays.{Replays, request-Replays}
use dotclaude_ecosystem.Resources.Frees.{IsFreed}
use dotclaude_ecosystem.Session.{Session}
use dotclaude_ecosystem.Resources.Sweep.{sweep_rounds}
use dotclaude_ecosystem.Resources.Methods.{recovery_evidence, recover_row, settled}
use dotclaude_ecosystem.Resources.Promotion.{promote_related, promote}
use dotclaude_ecosystem.Resources.Rows.{event_at}
use dotclaude_ecosystem.Session.{raise, Error}
use dotclaude_ecosystem.Resources.Recovery.{has_child, is_provider, Grounds, recover-Grounds}
use dotclaude_ecosystem.Resources.Rounds.{sweep_rounds-fuel}
use dotclaude_ecosystem.Resources.Liveness.{owner_liveness}
use dotclaude_ecosystem.Prelude.{
  ℕ, suc, ◌+◌, ◌*◌, ◌≤◌, ◌<◌, String, ◌≡◌, refl, true, false, not, ◌&&◌, none, some, List, [], ◌∷◌,
  arith, eqb, if◌then◌else◌, length, select, first, any, count, update, insert_by, order_by, ◌==◌,
  mem_str,
}

abbrev draw : ℕ → String
draw n =
    if eqb n 0
    then "u0"
    else if eqb n 1
    then "u1"
    else if eqb n 2
    then "u2"
    else if eqb n 3
    then "u3"
    else "u4"

abbrev day : ℕ
day = 86400000000

-- Process 7 runs since the second day; no other process runs.
abbrev probe_7 : ℕ → Probe
probe_7 pid = if eqb pid 7 then started (2 * day) else no_such_process

abbrev test_host : Host
test_host = record { clock = λ n. 10 * day + n; uuid = draw; probe = probe_7 }

abbrev cutoffs : Cutoffs
cutoffs = record { ttl = 1800; cdp_max_hold = 0; queued_unrecorded_ttl = 0 }

abbrev pytest_args : RequestArgs
pytest_args = record {
  purpose = "pytest_full";
  attempt_id = "at_1";
  agent_instance = "agent";
  slot_key = "";
  idempotency_key = some "key";
  command_sha256 = "";
  priority = 50;
  inherited_id = "";
  lease_ttl_seconds = 300;
  actor = "agent";
  owner_pid = some 7;
  owner_start_time = none;
}

abbrev two_calls : List (Host × Call)
two_calls =
    (test_host, open_call "host:heavy")
    ∷ (test_host, request_call cutoffs "host:heavy" pytest_args)
    ∷ []

-- The second call is admitted.
two_calls_admitted : count (uses (pool "host:heavy")) (perform_all two_calls empty_db).requests ≡ 1
unfolding perform_all perform transact count ◌>>=◌ request validate_request pure read_clock gets
    on_row first open_manager require modify sweep_stale_slots order_by select attempt_is_revoked
    any uuid4 run get_host update insert_by source_full slot_taken create_lease event
two_calls_admitted = refl

admission_is_bounded_example :
    count (uses (pool "host:heavy")) (perform_all two_calls empty_db).requests
    ≤ bound (perform_all two_calls empty_db).pools (pool "host:heavy")
admission_is_bounded_example = admission_is_bounded two_calls (pool "host:heavy")

perform_example : IsWithinQuota (transact (perform (open_call "host:heavy")) test_host empty_db).1
perform_example =
    perform-IsWithinQuota (open_call "host:heavy") test_host empty_db empty_db-IsWithinQuota

abbrev test_request : HostResourceRequestState → HostResourceRequest
test_request s = record {
  request_id = "rr_1";
  idempotency_key = "key";
  resource_key = "host:heavy";
  purpose = "pytest_full";
  attempt_id = "at_1";
  agent_instance = "agent";
  state = s;
  priority = 50;
  parent_lease_id = none;
  command_sha256 = "";
  created_at_utc = day;
  released_at_utc = none;
  reason_code = none;
  slot_key = "";
  owner_process_pid = none;
  owner_process_start_time = none;
  owner_identity_source = "UNRECORDED";
  owner_last_seen_at_utc = none;
}

abbrev child_request : HostResourceRequest
child_request = record (test_request inherited) {
  request_id = "rr_2";
  idempotency_key = "child";
  parent_lease_id = some "rl_1";
}

abbrev test_lease : ℕ → ℕ → HostResourceLease
test_lease expires pid = record {
  lease_id = "rl_1";
  request_id = "rr_1";
  resource_key = "host:heavy";
  attempt_id = "at_1";
  agent_instance = "agent";
  heartbeat_sequence = 4;
  expires_at_utc = expires;
  last_heartbeat_utc = day;
  process_pid = some pid;
  process_start_time = some (2 * day);
}

abbrev db_of : HostResourceRequest → HostResourceLease → Db
db_of r l = record empty_db { requests = r ∷ []; resource_leases = l ∷ [] }

-- An active request whose lease lapsed eight days ago, of process 8, which is gone.
abbrev ghost_db : Db
ghost_db = db_of (test_request active) (test_lease (2 * day) 8)

abbrev fenced_db : Db
fenced_db = db_of (test_request recovery_required) (test_lease (2 * day) 7)

fenced_found : find_request fenced_db "rr_1" ≡ some (test_request recovery_required)
unfolding first
fenced_found = refl

fenced_lease : lease_of fenced_db "rr_1" ≡ some (test_lease (2 * day) 7)
unfolding first
fenced_lease = refl

-- Process 7 runs still.
recover_example :
    (e : Error) × Refuses (recover "rr_1" true "I looked" "operator") test_host fenced_db e
recover_example =
    recover-alive "rr_1" true "I looked" "operator" test_host fenced_db
      (test_request recovery_required) (test_lease (2 * day) 7) 7 (2 * day) (2 * day) fenced_found
      refl fenced_lease refl refl refl (omega arith)

abbrev parent_db : Db
parent_db = record empty_db {
  requests = test_request active ∷ child_request ∷ [];
  resource_leases = test_lease (20 * day) 7 ∷ [];
}

heartbeat_ok : is_ok (transact (heartbeat "rl_1" 5 300) test_host parent_db).0 ≡ true
unfolding transact heartbeat first ◌>>=◌ require read_clock run
heartbeat_ok = refl

heartbeat_example :
    (l : HostResourceLease) × (active_lease parent_db "rl_1" ≡ some l)
    × (l.heartbeat_sequence < 5)
    × (test_host.clock 0 < l.expires_at_utc)
    × (transact (heartbeat "rl_1" 5 300) test_host parent_db ≡ (
      ok (test_host.clock 0 + 300 * 1000000),
      set_lease "rl_1" (beat 5 (test_host.clock 0 + 300 * 1000000) (test_host.clock 0)) parent_db,
    ))
heartbeat_example = heartbeat-extends "rl_1" 5 300 test_host parent_db heartbeat_ok

gemini : resolve_resource_key "cdp_provider" "chrome_gemini" "" ≡ ok "cdp:gemini"
unfolding resolve_resource_key
gemini = refl

resolve_known_example : mem_str "cdp:gemini" known_resource_keys ≡ true
resolve_known_example = resolve-known "cdp_provider" "chrome_gemini" "" "cdp:gemini" gemini

asked_for_heavy : resolve_resource_key "cdp_provider" "chrome_gemini" "host:heavy" ≡ ok "cdp:gemini"
unfolding resolve_resource_key
asked_for_heavy = refl

provider_is_cdp : is_cdp_purpose "cdp_provider" ≡ true
unfolding is_cdp_purpose
provider_is_cdp = refl

resolve_cdp_example : not ("cdp:gemini" == resource_key) ≡ true
resolve_cdp_example =
    resolve-cdp_off_heavy "cdp_provider" "chrome_gemini" "host:heavy" "cdp:gemini" provider_is_cdp
      asked_for_heavy

found_by_key :
    first (λ x. x.idempotency_key == "key") ghost_db.requests ≡ some (test_request active)
unfolding first
found_by_key = refl

replay_example :
    Replays "host:heavy" pytest_args
      (test_request active)
      ghost_db
      (transact (request cutoffs "host:heavy" pytest_args) test_host ghost_db)
replay_example =
    request-Replays cutoffs "host:heavy" pytest_args test_host ghost_db "key" (test_request active)
      refl refl found_by_key

abbrev ghost_session : Session
ghost_session = record { db = ghost_db; committed = ghost_db; readings = 0; draws = 0 }

fuel_example :
    sweep_rounds 7 cutoffs (10 * day) false "agent" true none [] test_host ghost_session
    ≡ sweep_rounds
        (suc (length ghost_db.requests))
        cutoffs
        (10 * day)
        false
        "agent"
        true
        none
        []
        test_host
        ghost_session
fuel_example =
    sweep_rounds-fuel 7 cutoffs (10 * day) false "agent" true none test_host ghost_session refl
      (omega arith)

-- A fenced request of process 8, which is gone.
abbrev orphan_db : Db
orphan_db = db_of (test_request recovery_required) (test_lease (2 * day) 8)

orphan_recovered :
    is_ok (transact (recover "rr_1" false "" "operator") test_host orphan_db).0 ≡ true
unfolding recover recover_row transact gets on_row ◌>>=◌ require get_host settled pure raise first
    count owner_liveness recovery_evidence read_clock modify event event_at uuid4 promote_related
    promote run order_by update insert_by select source_full
orphan_recovered = refl

orphan-Grounds :
    (r : HostResourceRequest) × (find_request orphan_db "rr_1" ≡ some r)
    × (r.state ≡ recovery_required)
    × (has_child orphan_db r ≡ false)
    × (is_provider r && not (false && not ("" == "")) ≡ false)
    × Grounds test_host (lease_of orphan_db r.request_id) false ""
    × IsFreed r.request_id (transact (recover "rr_1" false "" "operator") test_host orphan_db).1
orphan-Grounds = recover-Grounds "rr_1" false "" "operator" test_host orphan_db orphan_recovered
