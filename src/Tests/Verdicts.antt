-- ===== src/Tests/Verdicts.antt =====
-- The theorems on the gate, the recovery advice and the leader lock at concrete inputs.
use dotclaude_ecosystem.Db.{
  Db, empty_db, HostResourceRequest, active, recovery_required, HostResourceLease,
}
use dotclaude_ecosystem.Resources.Rows.{find_request, lease_of}
use dotclaude_ecosystem.Resources.Recovery.{has_child}
use dotclaude_ecosystem.Session.{Host, started, no_such_process}
use dotclaude_ecosystem.Scheduler.{host_is_busy}
use dotclaude_ecosystem.Store.Gate.{
  FencedRequest, is_request_id, lease_of_request, child_of, owner_of, adjudicate_recovery,
  build_recovery_command, GateSnapshot, evaluate_gate_verdict,
}
use dotclaude_ecosystem.Store.Verdicts.{
  owner_in, Agrees, adjudicate_recovery-Agrees, IsSnapshotOf, blocks,
  evaluate_gate_verdict-host_is_busy,
}
use dotclaude_ecosystem.Store.Leader.{
  LeaderLock, Caller, of_name, is_alive, acquire_leader_lock, acquire_leader_lock-excludes,
}
use dotclaude_ecosystem.Prelude.{
  ◌≡◌, refl, subst, Bool, true, false, Option, none, some, is_some, [], ◌∷◌, eqb, if◌then◌else◌,
  first, count,
}

abbrev gate_host : Host
gate_host = record {
  clock = λ n. 1000;
  uuid = λ n. "id";
  probe = λ p. if eqb p 10 then started 5000000 else no_such_process;
}

abbrev fenced_request : FencedRequest
fenced_request = record {
  request_id = "rr_0123456789ab";
  lease_id = some "rl_1";
  process_pid = none;
  process_start_time = none;
  lease =
      some (record { lease_id = some "rl_1"; process_pid = some 11; process_start_time = some 7 });
}

abbrev gone_lease : HostResourceLease
gone_lease = record {
  lease_id = "rl_1";
  request_id = "rr_0123456789ab";
  resource_key = "host:heavy";
  attempt_id = "at_1";
  agent_instance = "agent";
  heartbeat_sequence = 1;
  expires_at_utc = 0;
  last_heartbeat_utc = 0;
  process_pid = some 11;
  process_start_time = some 7;
}

valid_id : is_request_id "rr_0123456789ab" ≡ true
unfolding is_request_id
valid_id = refl

-- An id that ends in a newline is accepted, so that the command is not of one line.
newline_id : is_request_id "rr_0123456789ab\n" ≡ true
unfolding is_request_id
newline_id = refl

abbrev heavy_request : HostResourceRequest
heavy_request = record {
  request_id = "rr_1";
  idempotency_key = "key";
  resource_key = "host:heavy";
  purpose = "pytest_full";
  attempt_id = "at_1";
  agent_instance = "agent";
  state = active;
  priority = 50;
  parent_lease_id = none;
  command_sha256 = "";
  created_at_utc = 0;
  released_at_utc = none;
  reason_code = none;
  slot_key = "";
  owner_process_pid = none;
  owner_process_start_time = none;
  owner_identity_source = "UNRECORDED";
  owner_last_seen_at_utc = none;
}

abbrev fenced_row : HostResourceRequest
fenced_row = record heavy_request { request_id = "rr_0123456789ab"; state = recovery_required }

abbrev gone_db : Db
gone_db = record empty_db { requests = fenced_row ∷ []; resource_leases = gone_lease ∷ [] }

row_found : find_request gone_db "rr_0123456789ab" ≡ some fenced_row
unfolding first
row_found = refl

no_children : is_some (child_of (lease_of_request fenced_request) []) ≡ has_child gone_db fenced_row
unfolding first count
no_children = refl

same_owner : owner_of fenced_request ≡ owner_in (lease_of gone_db "rr_0123456789ab")
unfolding first
same_owner = refl

advice-Agrees :
    Agrees gate_host gone_db fenced_row "rr_0123456789ab" "operator" "host rebooted"
      (adjudicate_recovery gate_host fenced_request [] "python" "conductorctl.py")
advice-Agrees =
    adjudicate_recovery-Agrees gate_host gone_db fenced_row fenced_request [] "python"
      "conductorctl.py" "operator" "host rebooted" row_found refl refl valid_id no_children
      same_owner refl

advised :
    build_recovery_command gate_host fenced_request [] "it's" "conductorctl.py"
    ≡ some "& 'it''s' 'conductorctl.py' resource-recover --request-id rr_0123456789ab"
unfolding build_recovery_command first
advised = refl

abbrev busy_db : Db
busy_db = record empty_db { requests = heavy_request ∷ [] }

abbrev busy_snapshot : GateSnapshot
busy_snapshot = record {
  resource_key = "host:heavy";
  pool_present = true;
  enabled = true;
  live_recovery_required = 0;
  live_active = 1;
  live_queued = 0;
  holder = some fenced_request;
  fenced_rows = [];
  queue = [];
  inherited_rows = [];
}

busy_snapshot-IsSnapshotOf : IsSnapshotOf busy_db busy_snapshot
unfolding count
busy_snapshot-IsSnapshotOf = record {
  counts_active = refl;
  counts_fenced = refl;
  holder_counted = λ h. refl;
  fenced_counted = λ h. cc h;
}

busy_example :
    blocks ((evaluate_gate_verdict gate_host busy_snapshot "python" "conductorctl.py").verdict)
    ≡ host_is_busy busy_db
busy_example =
    evaluate_gate_verdict-host_is_busy gate_host busy_db busy_snapshot "python" "conductorctl.py"
      refl refl busy_snapshot-IsSnapshotOf

abbrev leader_a : Caller
leader_a = record { leader_id = "a"; pid = 10; now = 1000 }

abbrev leader_b : Caller
leader_b = record { leader_id = "b"; pid = 12; now = 2000 }

leader_granted : (acquire_leader_lock gate_host "primary_coordinator" leader_a []).0 ≡ true
unfolding acquire_leader_lock first
leader_granted = refl

leader_runs :
    (l : LeaderLock)
    → first
        (of_name "primary_coordinator")
        ((acquire_leader_lock gate_host "primary_coordinator" leader_a []).1)
      ≡ some l
    → is_alive gate_host l ≡ true
unfolding acquire_leader_lock first
leader_runs l e = subst (λ o. runs o ≡ true) e refl
  where
    runs : Option LeaderLock → Bool
    runs none = false
    runs (some l) = is_alive gate_host l

excluded_example :
    acquire_leader_lock gate_host "primary_coordinator" leader_b
      ((acquire_leader_lock gate_host "primary_coordinator" leader_a []).1)
    ≡ (false, (acquire_leader_lock gate_host "primary_coordinator" leader_a []).1)
excluded_example =
    acquire_leader_lock-excludes gate_host gate_host "primary_coordinator" leader_a leader_b []
      leader_granted refl leader_runs
