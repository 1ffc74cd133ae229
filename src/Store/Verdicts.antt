-- ===== src/Store/Verdicts.antt =====
-- What the recovery advice and the verdict on a gate promise.
use dotclaude_ecosystem.Db.{Db, recovery_required, HostResourceRequest, HostResourceLease}
use dotclaude_ecosystem.Resources.Rows.{find_request, lease_of}
use dotclaude_ecosystem.Resources.Recovery.{
  is_provider, has_child, decided, recover-decided, recover-held,
}
use dotclaude_ecosystem.Scheduler.{active_units, fenced_units, host_is_busy}
use dotclaude_ecosystem.Session.{
  Host, Probe, started, no_such_process, unreadable_process, Error, Result, ok, err,
  admission_error, busy_error, transact,
}
use dotclaude_ecosystem.Resources.Liveness.{owner_liveness, judge_start, judge_probe, distance}
use dotclaude_ecosystem.Resources.Methods.{recovery_evidence, lease_liveness, recover}
use dotclaude_ecosystem.Model.{second}
use dotclaude_ecosystem.Store.Gate.{
  FencedRequest, InheritedChild, RecoveryAdjudication, is_request_id, lease_of_request, owner_of,
  child_of, recover_cmd, attest_cmd, adjudicate_owner, unproven, adjudicate_probe, adjudicate_start,
  adjudicate_child, adjudicate_recovery, GateSnapshot, GateVerdict, fenced, occupied,
  evaluate_gate_verdict, is_nil,
}
use dotclaude_ecosystem.Prelude.{
  ℕ, String, ◌≡◌, refl, sym, subst, inl, inr, Bool, true, false, not, ◌&&◌, ◌||◌, Option, none,
  some, List, arith, ltb, if◌then◌else◌, Bool-cases, is_some, ◌==◌,
}

-- How a recovery refuses with a code.
abbrev pub refusal : String → Error
refusal code = if code == "INHERITED_CHILD_ACTIVE" then busy_error code else admission_error code

-- What the advice promises of a recovery without an attestation: the evidence, or the refusal.
abbrev pub unattested : RecoveryAdjudication → Result String
unattested a =
    if a.recover_code == "RECOVERY_OWNER_GONE"
    then ok a.liveness_status
    else err (refusal a.recover_code)

-- What it promises of the advised command, which attests where the advice asks for a reason.
abbrev pub advised : RecoveryAdjudication → Result String
advised a =
    if is_some a.command
    then ok (if is_some a.reason_placeholder then "OPERATOR_ATTESTED" else a.liveness_status)
    else err (refusal a.recover_code)

-- The advice tells what the evidence decides.
unfoldable Judges : Host → Option HostResourceLease → String → RecoveryAdjudication → Type 0
Judges host lease reason a =
    (recovery_evidence host lease false false "" ≡ unattested a)
    × (recovery_evidence host lease false (is_some a.reason_placeholder) reason ≡ advised a)

module _ (host : Host) (lease : Option HostResourceLease) (reason : String) where
  unrecorded :
      (id attest : String)
      → lease_liveness host lease ≡ (false, "OWNER_UNRECORDED")
      → (reason == "") ≡ false
      → Judges host lease reason (unproven id attest none "OWNER_UNRECORDED")
  unfolding recovery_evidence Judges
  unrecorded id attest j r = rw (j, r) (refl, refl)

  by_start :
      (id recover attest : String) (pid seen : ℕ) (start : Option ℕ)
      → lease_liveness host lease ≡ judge_start seen start
      → (reason == "") ≡ false
      → Judges host lease reason (adjudicate_start id recover attest pid seen start)
  unfolding recovery_evidence Judges
  by_start id recover attest pid seen none j r = rw (j, r) (refl, refl)
  by_start id recover attest pid seen (some s) j r =
      elim (Bool-cases (ltb second (distance seen s))) [
        | inl e ↦ rw (j, r, e) (refl, refl)
        | inr e ↦ rw (j, r, e) (refl, refl)
      ]

  by_probe :
      (id recover attest : String) (pid : ℕ) (start : Option ℕ) (seen : Probe)
      → lease_liveness host lease ≡ judge_probe seen start
      → (reason == "") ≡ false
      → Judges host lease reason (adjudicate_probe id recover attest pid start seen)
  unfolding recovery_evidence Judges
  by_probe id recover attest pid start no_such_process j r = rw j (refl, refl)
  by_probe id recover attest pid start unreadable_process j r = rw (j, r) (refl, refl)
  by_probe id recover attest pid start (started seen) j r =
      by_start id recover attest pid seen start j r

  by_owner :
      (id recover attest : String) (pid start : Option ℕ)
      → lease_liveness host lease ≡ owner_liveness host pid start
      → (reason == "") ≡ false
      → Judges host lease reason (adjudicate_owner host id recover attest (pid, start))
  unfolding owner_liveness
  by_owner id recover attest none start j r = unrecorded id attest j r
  by_owner id recover attest (some p) start j r =
      by_probe id recover attest p start (host.probe p) j r

abbrev pub owner_in : Option HostResourceLease → Option ℕ × Option ℕ
owner_in none = (none, none)
owner_in (some l) = (l.process_pid, l.process_start_time)

adjudicate_owner-Judges :
    (host : Host) (lease : Option HostResourceLease) (id recover attest reason : String)
    → (reason == "") ≡ false
    → Judges host lease reason (adjudicate_owner host id recover attest (owner_in lease))
adjudicate_owner-Judges host none id recover attest reason given =
    by_owner host none reason id recover attest none none refl given
adjudicate_owner-Judges host (some l) id recover attest reason given =
    by_owner host (some l) reason id recover attest l.process_pid l.process_start_time refl given

-- The advice agrees with `recover` on the row: without an attestation, `recover` does what
-- `unattested` says, and as advised, it does what `advised` says. Where they name evidence, it
-- makes the writes that free the request on that evidence; where they name a refusal, it raises it
-- and changes nothing.
abbrev pub Agrees :
    Host → Db → HostResourceRequest → String → String → String → RecoveryAdjudication → Type 0
Agrees host db row request_id actor reason a =
    (transact (recover request_id false "" actor) host db
      ≡ decided host db row actor (unattested a))
    × (transact (recover request_id (is_some a.reason_placeholder) reason actor) host db
        ≡ decided host db row actor (advised a))

module _ (host : Host) (db : Db) (row : HostResourceRequest) (request_id actor reason : String)
    (found : find_request db request_id ≡ some row) (fenced_row : row.state ≡ recovery_required)
    (outside : is_provider row ≡ false) where
  apart :
      (attested : Bool) (given : String)
      → (is_provider row && not (attested && not (given == ""))) ≡ false
  apart attested given = rw outside refl

  judged :
      (attested : Bool) (given : String) (v : Result String)
      → has_child db row ≡ false
      → recovery_evidence host (lease_of db row.request_id) false attested given ≡ v
      → transact (recover request_id attested given actor) host db ≡ decided host db row actor v
  judged attested given v childless h =
      recover-decided request_id attested given actor host db row found fenced_row
        (apart attested given) childless v (rw outside h)

  held :
      (attested : Bool) (given : String)
      → has_child db row ≡ true
      → transact (recover request_id attested given actor) host db
        ≡ (err (busy_error "INHERITED_CHILD_ACTIVE"), db)
  held attested given h =
      recover-held request_id attested given actor host db row found fenced_row
        (apart attested given) h

  child-Agrees :
      (owner : RecoveryAdjudication) (child : Option InheritedChild)
      → is_some child ≡ has_child db row
      → Judges host (lease_of db row.request_id) reason owner
      → Agrees host db row request_id actor reason (adjudicate_child owner request_id child)
  unfolding Judges
  child-Agrees owner none h (a, b) = (
    judged false "" (unattested owner) (sym h) a,
    judged (is_some owner.reason_placeholder) reason (advised owner) (sym h) b,
  )
  child-Agrees owner (some c) h (a, b) = (held false "" (sym h), held false reason (sym h))

-- The advice on a fenced request with a valid id, outside the provider pools, where the owner and
-- the inherited children of the snapshot are those of the database. Without an attestation, `recover`
-- goes on to free the request, on the status that the advice names, exactly when the advised code is
-- RECOVERY_OWNER_GONE; otherwise it raises with the advised code and changes nothing. Called as the
-- advised command calls it, with a reason that is not empty, it goes on to free the request whenever
-- a command is advised, and where none is, it raises with the advised code and changes nothing. The
-- promotion that follows the freeing is left to do what it does.
pub adjudicate_recovery-Agrees :
    (host : Host) (db : Db) (row : HostResourceRequest) (r : FencedRequest)
    (children : List InheritedChild) (python script actor reason : String)
    → find_request db r.request_id ≡ some row
    → row.state ≡ recovery_required
    → is_provider row ≡ false
    → is_request_id r.request_id ≡ true
    → is_some (child_of (lease_of_request r) children) ≡ has_child db row
    → owner_of r ≡ owner_in (lease_of db row.request_id)
    → (reason == "") ≡ false
    → Agrees host db row r.request_id actor reason
        (adjudicate_recovery host r children python script)
unfolding adjudicate_recovery
adjudicate_recovery-Agrees host db row r children python script actor reason found fenced_row
      outside valid same_children owner given =
    rw valid (
      child-Agrees host db row r.request_id actor reason found fenced_row outside
        (adjudicate_owner host r.request_id (recover_cmd python script r.request_id)
          (attest_cmd python script r.request_id) (owner_of r))
        (child_of (lease_of_request r) children) same_children
        (subst
          (λ o. Judges host (lease_of db row.request_id) reason (
            adjudicate_owner host r.request_id (recover_cmd python script r.request_id)
              (attest_cmd python script r.request_id) o))
          (sym owner)
          (adjudicate_owner-Judges host (lease_of db row.request_id) r.request_id
            (recover_cmd python script r.request_id) (attest_cmd python script r.request_id) reason
            given)))

-- A snapshot of the pool host:heavy whose counts and rows are those of the database.
pub record IsSnapshotOf (db : Db) (s : GateSnapshot) : Type 0 where
  pub counts_active : s.live_active ≡ active_units db
  pub counts_fenced : s.live_recovery_required ≡ fenced_units db
  pub holder_counted : is_some s.holder ≡ true → ltb 0 (active_units db) ≡ true
  pub fenced_counted : is_nil s.fenced_rows ≡ false → ltb 0 (fenced_units db) ≡ true

abbrev pub blocks : GateVerdict → Bool
blocks fenced = true
blocks occupied = true
blocks _ = false

-- On an enabled pool, the operator is told that the gate is FENCED or OCCUPIED exactly when the
-- scheduler holds back heavy work because the host is busy.
pub evaluate_gate_verdict-host_is_busy :
    (host : Host) (db : Db) (s : GateSnapshot) (python script : String)
    → s.pool_present ≡ true
    → s.enabled ≡ true
    → IsSnapshotOf db s
    → blocks ((evaluate_gate_verdict host s python script).verdict) ≡ host_is_busy db
unfolding evaluate_gate_verdict host_is_busy
evaluate_gate_verdict-host_is_busy host db s python script present on k =
    rw
      (
        present,
        on,
        counted_not (is_nil s.fenced_rows) s.live_recovery_required (fenced_units db)
            (k.counts_fenced) (k.fenced_counted),
        counted (is_some s.holder) s.live_active (active_units db) (k.counts_active)
            (k.holder_counted),
      )
      (ground arith)
  where
    counted_not :
        (a : Bool) (m p : ℕ) → m ≡ p → (a ≡ false → ltb 0 p ≡ true) → (not a || ltb 0 m) ≡ ltb 0 p
    counted_not true m p e h = rw e refl
    counted_not false m p e h = sym (h refl)

    counted : (a : Bool) (m p : ℕ) → m ≡ p → (a ≡ true → ltb 0 p ≡ true) → (a || ltb 0 m) ≡ ltb 0 p
    counted false m p e h = rw e refl
    counted true m p e h = sym (h refl)
