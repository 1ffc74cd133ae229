-- ===== src/Resources/Liveness.antt =====
-- `_owner_liveness` and `_all_recorded_owners_gone`: what psutil says of recorded owners.
use dotclaude_ecosystem.Model.{second}
use dotclaude_ecosystem.Session.{Host, Probe, started, no_such_process, unreadable_process}
use dotclaude_ecosystem.Prelude.{
  ℕ, ◌+◌, ◌-◌, String, Bool, true, false, Option, none, some, List, [], ◌∷◌, ltb, if◌then◌else◌,
}

-- |a - b|
abbrev pub distance : ℕ → ℕ → ℕ
distance a b = (a - b) + (b - a)

abbrev pub judge_start : ℕ → Option ℕ → Bool × String
judge_start observed none = (false, "OWNER_LIVENESS_UNPROVEN")
judge_start observed (some recorded) =
    if ltb second (distance observed recorded)
    then (true, "OWNER_PID_REUSED")
    else (false, "OWNER_PROCESS_ALIVE")

abbrev pub judge_probe : Probe → Option ℕ → Bool × String
judge_probe no_such_process start = (true, "OWNER_PROCESS_GONE")
judge_probe unreadable_process start = (false, "OWNER_LIVENESS_UNPROVEN")
judge_probe (started observed) start = judge_start observed start

-- Whether the owner is proven gone, and the evidence.
unfoldable pub owner_liveness : Host → Option ℕ → Option ℕ → Bool × String
owner_liveness host none start = (false, "OWNER_UNRECORDED")
owner_liveness host (some pid) start = judge_probe (host.probe pid) start

-- A recorded identity: a pid, and its start time where one was recorded.
abbrev pub Identity : Type 0
Identity = ℕ × Option ℕ

abbrev pub next_owner : Bool × String → (String → Bool × String) → Bool × String
next_owner (true, evidence) rest = rest evidence
next_owner (false, evidence) rest = (false, evidence)

unfoldable pub owners_gone : Host → String → List Identity → Bool × String
unfolding owner_liveness
owners_gone host evidence [] = (true, evidence)
owners_gone host evidence ((pid, start) ∷ rest) =
    next_owner (owner_liveness host (some pid) start) (λ e. owners_gone host e rest)

unfoldable pub all_recorded_owners_gone : Host → List Identity → Bool × String
unfolding owners_gone
all_recorded_owners_gone host = owners_gone host "OWNER_PROCESS_GONE"

abbrev pub recorded : Option ℕ → Option ℕ → List Identity
recorded none start = []
recorded (some pid) start = (pid, start) ∷ []
