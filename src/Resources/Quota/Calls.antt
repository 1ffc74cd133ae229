-- ===== src/Resources/Quota/Calls.antt =====
-- Every method of the manager keeps the quotas, and so does every sequence of calls.
use dotclaude_ecosystem.Db.{empty_db, Db, HostResourcePool}
use dotclaude_ecosystem.Session.Keeps.{transact-keeps}
use dotclaude_ecosystem.Session.{transact, Host, Tx, ◌>>◌, pure}
use dotclaude_ecosystem.Session.Keeps.{Keeps, Keeps-bind, Keeps-pure, Keeps-modify, Keeps-require}
use dotclaude_ecosystem.Resources.Sweep.{Cutoffs, sweep_stale_slots}
use dotclaude_ecosystem.Resources.Admission.{RequestArgs, request}
use dotclaude_ecosystem.Resources.Quota.{Quota, uses, bound, RowsFit, Fits, IsWithinQuota}
use dotclaude_ecosystem.Resources.Methods.{
  open_manager, heartbeat, release, reconcile, recover, mark_uncertain, mark_recovery,
}
use dotclaude_ecosystem.Resources.Quota.Requests.{request-Fits}
use dotclaude_ecosystem.Resources.Quota.Fences.{
  heartbeat-Fits, release-Fits, reconcile-Fits, recover-Fits, mark_uncertain-Fits,
  mark_recovery-Fits,
}
use dotclaude_ecosystem.Resources.Observed.{
  Observation, retain_observed_attempt, log_focused_request,
}
use dotclaude_ecosystem.Resources.Quota.Records.{
  retain_observed_attempt-Fits, log_focused_request-Fits,
}
use dotclaude_ecosystem.Resources.Quota.Pools.{ensure_pool-IsWithinQuota}
use dotclaude_ecosystem.Resources.Quota.Sweeps.{sweep_stale_slots-Fits}
use dotclaude_ecosystem.Prelude.{
  ℕ, ◌≤◌, String, refl, sym, subst, Bool, true, Option, List, [], ◌∷◌, arith, count,
}

-- A call of a method that writes.
pub data Call : Type 0 where
  open_call : String → Call
  request_call : Cutoffs → String → RequestArgs → Call
  heartbeat_call : String → ℕ → ℕ → Call
  release_call : String → String → String → Call
  sweep_call : Cutoffs → ℕ → Bool → String → Option String → Call
  reconcile_call : Cutoffs → Bool → Call
  recover_call : String → Bool → String → String → Call
  uncertain_call : String → String → String → String → Call
  recovery_call : String → String → Call
  retain_call : String → Observation → Call
  focused_call : String → String → String → Option String → String → Call

abbrev pub quietly : {A : Type 0} → Tx A → Tx (Unit {0})
quietly m = do m; pure tt

-- The database after the call's transaction, whether it returned or raised.
unfoldable pub perform : Call → Tx (Unit {0})
perform (open_call key) = open_manager key
perform (request_call c key a) = quietly (request c key a)
perform (heartbeat_call lease_id sequence ttl) = quietly (heartbeat lease_id sequence ttl)
perform (release_call request_id actor reason) = quietly (release request_id actor reason)
perform (sweep_call c time dry_run actor key) =
    quietly (sweep_stale_slots c time dry_run actor true key)
perform (reconcile_call c dry_run) = quietly (reconcile c dry_run)
perform (recover_call request_id attested reason actor) =
    quietly (recover request_id attested reason actor)
perform (uncertain_call request_id attempt_id agent_instance reason) =
    mark_uncertain request_id attempt_id agent_instance reason
perform (recovery_call request_id reason) = mark_recovery request_id reason
perform (retain_call key o) = quietly (retain_observed_attempt key o)
perform (focused_call key attempt_id agent_instance given command_sha256) =
    quietly (log_focused_request key attempt_id agent_instance given command_sha256)

-- The processes of the host call one after another, each in its own transaction, since each takes
-- the write lock of the database.
unfoldable pub perform_all : List (Host × Call) → Db → Db
perform_all [] db = db
perform_all ((host, call) ∷ calls) db = perform_all calls (transact (perform call) host db).1

module _ {pools : List HostResourcePool} where
  quietly-Fits : {A : Type 0} (m : Tx A) → Keeps (Fits pools) m → Keeps (Fits pools) (quietly m)
  quietly-Fits m k = Keeps-bind _ _ k (λ _. Keeps-pure tt)

-- A transaction that leaves the pools alone.
transact-IsWithinQuota :
    {A : Type 0} (m : Tx A) (host : Host) (db : Db)
    → Keeps (Fits db.pools) m
    → IsWithinQuota db
    → IsWithinQuota (transact m host db).1
transact-IsWithinQuota m host db k f =
    let after = transact-keeps m k host db (record { rows = f; same_pools = refl }) in
    subst (λ ps. RowsFit ps (transact m host db).1.requests) (sym after.same_pools) after.rows

open_manager-IsWithinQuota : (key : String) → Keeps IsWithinQuota (open_manager key)
unfolding open_manager
open_manager-IsWithinQuota key =
    Keeps-bind _ _ (Keeps-require _ _) (λ _. Keeps-modify _ (ensure_pool-IsWithinQuota key))

-- A database within its quotas, with distinct request ids, is so after any call of a method that
-- writes, whether the call returns or raises.
pub perform-IsWithinQuota :
    (call : Call) (host : Host) (db : Db)
    → IsWithinQuota db
    → IsWithinQuota (transact (perform call) host db).1
unfolding perform
perform-IsWithinQuota (open_call key) host db f =
    transact-keeps _ (open_manager-IsWithinQuota key) host db f
perform-IsWithinQuota (request_call c key a) host db f =
    transact-IsWithinQuota _ host db (quietly-Fits _ (request-Fits c key a)) f
perform-IsWithinQuota (heartbeat_call lease_id sequence ttl) host db f =
    transact-IsWithinQuota _ host db (quietly-Fits _ (heartbeat-Fits lease_id sequence ttl)) f
perform-IsWithinQuota (release_call request_id actor reason) host db f =
    transact-IsWithinQuota _ host db (quietly-Fits _ (release-Fits request_id actor reason)) f
perform-IsWithinQuota (sweep_call c time dry_run actor key) host db f =
    transact-IsWithinQuota _ host db
      (quietly-Fits _ (sweep_stale_slots-Fits c time dry_run actor true key)) f
perform-IsWithinQuota (reconcile_call c dry_run) host db f =
    transact-IsWithinQuota _ host db (quietly-Fits _ (reconcile-Fits c dry_run)) f
perform-IsWithinQuota (recover_call request_id attested reason actor) host db f =
    transact-IsWithinQuota _ host db
      (quietly-Fits _ (recover-Fits request_id attested reason actor)) f
perform-IsWithinQuota (uncertain_call request_id attempt_id agent_instance reason) host db f =
    transact-IsWithinQuota _ host db
      (mark_uncertain-Fits request_id attempt_id agent_instance reason) f
perform-IsWithinQuota (recovery_call request_id reason) host db f =
    transact-IsWithinQuota _ host db (mark_recovery-Fits request_id reason) f
perform-IsWithinQuota (retain_call key o) host db f =
    transact-IsWithinQuota _ host db (quietly-Fits _ (retain_observed_attempt-Fits key o)) f
perform-IsWithinQuota (focused_call key attempt_id agent_instance given command_sha256) host db f =
    transact-IsWithinQuota _ host db
      (quietly-Fits _ (log_focused_request-Fits key attempt_id agent_instance given command_sha256))
      f

pub perform_all-IsWithinQuota :
    (calls : List (Host × Call)) (db : Db) → IsWithinQuota db → IsWithinQuota (perform_all calls db)
unfolding perform_all
perform_all-IsWithinQuota [] db f = f
perform_all-IsWithinQuota ((host, call) ∷ calls) db f =
    perform_all-IsWithinQuota calls _ (perform-IsWithinQuota call host db f)

pub empty_db-IsWithinQuota : IsWithinQuota empty_db
unfolding count
empty_db-IsWithinQuota = record { unique = λ id. omega arith; bounded = λ q. omega arith }

-- From an empty database on, after any calls by any processes at any times, the active requests of
-- a pool are at most as many as its capacity, at most one of them holds a given named slot of the
-- pool, and the requests at work for a provider source are at most as many as its capacity.
pub admission_is_bounded :
    (calls : List (Host × Call)) (q : Quota)
    → count (uses q) (perform_all calls empty_db).requests
      ≤ bound (perform_all calls empty_db).pools q
admission_is_bounded calls q =
    (perform_all-IsWithinQuota calls empty_db empty_db-IsWithinQuota).bounded q
