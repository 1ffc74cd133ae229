-- ===== src/Store/Gate.antt =====
-- `adjudicate_recovery` and `evaluate_gate_verdict` of scripts/conductor_store.py: what the operator
-- is told of a pool and of its fenced requests. The headlines, the subtexts and the counts in them
-- are left out. Start times are microseconds.
use Prim.Native.Nat.{max}
use Prim.Native.String.{[] as empty, ◌∷◌ as char, ◌++◌ as append}
use Prim.Native.Char.{Char, code}
use dotclaude_ecosystem.Model.{second}
use dotclaude_ecosystem.Db.{HostResourceRequestState}
use dotclaude_ecosystem.Session.{Host, Probe, started, no_such_process, unreadable_process}
use dotclaude_ecosystem.Resources.Rows.{is_inherited}
use dotclaude_ecosystem.Resources.Liveness.{distance}
use dotclaude_ecosystem.Prelude.{
  ℕ, zero, suc, String, Bool, true, false, not, ◌&&◌, ◌||◌, Option, none, some, List, [], ◌∷◌, ltb,
  leb, eqb, if◌then◌else◌, is_some, length, first, ◌==◌, opt_eq,
}

abbrev pub hex_digit : Char → Bool
hex_digit c = leb 48 (code c) && leb (code c) 57 || leb 97 (code c) && leb (code c) 102

-- `[0-9a-f]{n}$`, where `$` also matches before a newline that ends the text.
unfoldable pub hex_tail : ℕ → String → Bool
hex_tail zero empty = true
hex_tail zero (char c empty) = eqb (code c) 10
hex_tail zero (char c (char d s)) = false
hex_tail (suc n) empty = false
hex_tail (suc n) (char c s) = let rest = hex_tail n s in hex_digit c && rest

-- `_REQUEST_ID_REGEX.match`
unfoldable pub is_request_id : String → Bool
unfolding hex_tail
is_request_id (char a (char b (char c s))) =
    eqb (code a) 114 && eqb (code b) 114 && eqb (code c) 95 && hex_tail 12 s
is_request_id _ = false

abbrev pub doubled : Char → String → String
doubled c s = if eqb (code c) 39 then char c (char c s) else char c s

unfoldable pub double_quotes : String → String
double_quotes empty = empty
double_quotes (char c s) = doubled c (double_quotes s)

-- `_powershell_quote`
unfoldable pub powershell_quote : String → String
unfolding double_quotes
powershell_quote s = append "'" (append (double_quotes s) "'")

pub record LeaseInfo : Type 0 where
  pub lease_id : Option String
  pub process_pid : Option ℕ
  pub process_start_time : Option ℕ

-- A fenced request, as the snapshot gives it; `lease` is the nested dictionary.
pub record FencedRequest : Type 0 where
  pub request_id : String
  pub lease_id : Option String
  pub process_pid : Option ℕ
  pub process_start_time : Option ℕ
  pub lease : Option LeaseInfo

pub record InheritedChild : Type 0 where
  pub request_id : String
  pub parent_lease_id : Option String
  pub state : HostResourceRequestState

pub record RecoveryAdjudication : Type 0 where
  pub request_id : String
  pub command : Option String
  pub release_refusal_code : String
  pub recover_code : String
  pub liveness_status : String
  pub pid : Option ℕ
  pub inherited_child_id : Option String
  pub reason_placeholder : Option String

abbrev pub lease_of_request : FencedRequest → Option String
lease_of_request r = elim r.lease_id [
  | some id ↦ some id
  | none ↦ elim r.lease [ none ↦ none | some l ↦ l.lease_id ]
]

-- The pid and the start time: the request's, or those of the nested lease.
abbrev pub nested_owner : Option LeaseInfo → Option ℕ → Option ℕ × Option ℕ
nested_owner none start = (none, start)
nested_owner (some l) start = (l.process_pid, l.process_start_time)

abbrev pub owner_from : Option ℕ → Option ℕ → Option LeaseInfo → Option ℕ × Option ℕ
owner_from (some pid) start lease = (some pid, start)
owner_from none start lease = nested_owner lease start

abbrev pub owner_of : FencedRequest → Option ℕ × Option ℕ
owner_of r = owner_from r.process_pid r.process_start_time r.lease

abbrev pub active_child : String → InheritedChild → Bool
active_child lease_id c = opt_eq c.parent_lease_id lease_id && is_inherited c.state

-- The first inherited child of the lease, for a lease id that is not empty.
abbrev pub child_of : Option String → List InheritedChild → Option InheritedChild
child_of none children = none
child_of (some id) children = if id == "" then none else first (active_child id) children

abbrev pub adjudication : String → Option String → String → String → Option ℕ → RecoveryAdjudication
adjudication request_id command recover_code liveness_status pid = record {
  request_id = request_id;
  command = command;
  release_refusal_code = "RECOVERY_REQUIRED_RELEASE_REFUSED";
  recover_code = recover_code;
  liveness_status = liveness_status;
  pid = pid;
  inherited_child_id = none;
  reason_placeholder = none;
}

-- `python` and `script` are the paths of the interpreter and of conductorctl.py.
abbrev pub recover_cmd : String → String → String → String
recover_cmd python script request_id = append "& " (
    append (powershell_quote python) (
      append " "
        (append (powershell_quote script) (append " resource-recover --request-id " request_id))))

abbrev pub attest_cmd : String → String → String → String
attest_cmd python script request_id =
    append (recover_cmd python script request_id) " --attest-owner-gone --reason '<why>'"

abbrev pub unproven : String → String → Option ℕ → String → RecoveryAdjudication
unproven request_id command pid status =
    record (adjudication request_id (some command) "OWNER_LIVENESS_UNPROVEN" status pid) {
      reason_placeholder = some "<why>";
    }

abbrev pub adjudicate_start : String → String → String → ℕ → ℕ → Option ℕ → RecoveryAdjudication
adjudicate_start request_id recover attest pid seen none =
    unproven request_id attest (some pid) "OWNER_LIVENESS_UNPROVEN"
adjudicate_start request_id recover attest pid seen (some start) =
    if ltb second (distance seen start)
    then adjudication request_id (some recover) "RECOVERY_OWNER_GONE" "OWNER_PID_REUSED" (some pid)
    else adjudication request_id none "OWNER_PROCESS_ALIVE" "OWNER_PROCESS_ALIVE" (some pid)

abbrev pub adjudicate_probe : String → String → String → ℕ → Option ℕ → Probe → RecoveryAdjudication
adjudicate_probe request_id recover attest pid start no_such_process =
    adjudication request_id (some recover) "RECOVERY_OWNER_GONE" "OWNER_PROCESS_GONE" (some pid)
adjudicate_probe request_id recover attest pid start unreadable_process =
    unproven request_id attest (some pid) "OWNER_LIVENESS_UNPROVEN"
adjudicate_probe request_id recover attest pid start (started seen) =
    adjudicate_start request_id recover attest pid seen start

abbrev pub adjudicate_owner :
    Host → String → String → String → Option ℕ × Option ℕ → RecoveryAdjudication
adjudicate_owner host request_id recover attest (none, start) =
    unproven request_id attest none "OWNER_UNRECORDED"
adjudicate_owner host request_id recover attest (some pid, start) =
    adjudicate_probe request_id recover attest pid start (host.probe pid)

abbrev pub adjudicate_child :
    RecoveryAdjudication → String → Option InheritedChild → RecoveryAdjudication
adjudicate_child owner request_id none = owner
adjudicate_child owner request_id (some c) =
    record (adjudication request_id none "INHERITED_CHILD_ACTIVE" "INHERITED_CHILD_ACTIVE" none) {
      inherited_child_id = some c.request_id;
    }

unfoldable pub adjudicate_recovery :
    Host → FencedRequest → List InheritedChild → String → String → RecoveryAdjudication
unfolding is_request_id powershell_quote
adjudicate_recovery host r children python script =
    if not (is_request_id r.request_id)
    then adjudication r.request_id none "INVALID_REQUEST_ID" "INVALID_REQUEST_ID" none
    else adjudicate_child
        (adjudicate_owner host r.request_id (recover_cmd python script r.request_id)
          (attest_cmd python script r.request_id) (owner_of r))
        r.request_id (child_of (lease_of_request r) children)

unfoldable pub build_recovery_command :
    Host → FencedRequest → List InheritedChild → String → String → Option String
unfolding adjudicate_recovery
build_recovery_command host r children python script =
    (adjudicate_recovery host r children python script).command

pub data GateVerdict : Type 0 where
  disabled fenced occupied anomaly clear : GateVerdict

-- `live_counts` by state, 0 where a state is missing.
pub record GateSnapshot : Type 0 where
  pub resource_key : String
  pub pool_present : Bool
  pub enabled : Bool
  pub live_recovery_required : ℕ
  pub live_active : ℕ
  pub live_queued : ℕ
  pub holder : Option FencedRequest
  pub fenced_rows : List FencedRequest
  pub queue : List FencedRequest
  pub inherited_rows : List InheritedChild

pub record GateVerdictResult : Type 0 where
  pub verdict : GateVerdict
  pub resource_key : String
  pub blocker : Option FencedRequest
  pub fenced_count : ℕ
  pub queue_count : ℕ
  pub commands : List String

abbrev pub is_nil {ℓ} : {A : Type ℓ} → List A → Bool
is_nil [] = true
is_nil (x ∷ xs) = false

abbrev pub first_row : List FencedRequest → Option FencedRequest
first_row [] = none
first_row (r ∷ rs) = some r

abbrev pub keep_some : Option String → List String → List String
keep_some none xs = xs
keep_some (some x) xs = x ∷ xs

unfoldable pub recovery_commands :
    Host → List InheritedChild → String → String → List FencedRequest → List String
unfolding build_recovery_command
recovery_commands host children python script [] = []
recovery_commands host children python script (r ∷ rs) =
    keep_some (build_recovery_command host r children python script)
      (recovery_commands host children python script rs)

abbrev pub is_fenced_gate : GateSnapshot → Bool
is_fenced_gate s = not (is_nil s.fenced_rows) || ltb 0 s.live_recovery_required

abbrev pub is_occupied_gate : GateSnapshot → Bool
is_occupied_gate s = is_some s.holder || ltb 0 s.live_active

abbrev pub is_waiting_gate : GateSnapshot → Bool
is_waiting_gate s = not (is_nil s.queue) || ltb 0 s.live_queued

abbrev pub result :
    GateVerdict → String → Option FencedRequest → ℕ → ℕ → List String → GateVerdictResult
result verdict key blocker fenced_count queue_count commands = record {
  verdict = verdict;
  resource_key = key;
  blocker = blocker;
  fenced_count = fenced_count;
  queue_count = queue_count;
  commands = commands;
}

unfoldable pub evaluate_gate_verdict : Host → GateSnapshot → String → String → GateVerdictResult
unfolding recovery_commands
evaluate_gate_verdict host s python script =
    if not s.pool_present || not s.enabled
    then result disabled s.resource_key none (length s.fenced_rows) (length s.queue) []
    else if is_fenced_gate s
    then result fenced s.resource_key (first_row s.fenced_rows)
        (max (length s.fenced_rows) s.live_recovery_required) (length s.queue)
        (recovery_commands host s.inherited_rows python script s.fenced_rows)
    else if is_occupied_gate s
    then result occupied s.resource_key s.holder 0 (length s.queue) []
    else if is_waiting_gate s
    then result anomaly s.resource_key none 0 (max (length s.queue) s.live_queued) []
    else result clear s.resource_key none 0 0 []
