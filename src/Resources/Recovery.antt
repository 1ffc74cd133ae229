-- ===== src/Resources/Recovery.antt =====
-- When `recover` frees a fenced request, and what it does then.
use dotclaude_ecosystem.Model.{second}
use dotclaude_ecosystem.Db.{
  Db, HostResourceRequestState, recovery_required, HostResourceRequest, HostResourceLease,
}
use dotclaude_ecosystem.Session.{
  Probe, started, no_such_process, unreadable_process, admission_error, busy_error, Result, ok, err,
  Host, ◌>>=◌, pure, raise, gets, require, get_host, on_row, transact,
}
use dotclaude_ecosystem.Resources.Keys.{provider_source_by_pool}
use dotclaude_ecosystem.Resources.Rows.{is_fenced, find_request, lease_of}
use dotclaude_ecosystem.Resources.Liveness.{owner_liveness, judge_probe, judge_start, distance}
use dotclaude_ecosystem.Resources.Promotion.{Promoted}
use dotclaude_ecosystem.Resources.Admission.{children}
use dotclaude_ecosystem.Resources.Methods.{
  lease_liveness, event_lease, recovery_evidence, settled, free_fenced, recover_row, recover,
}
use dotclaude_ecosystem.Session.Sees.{is_ok, transact-seen}
use dotclaude_ecosystem.Resources.Frees.{IsFreed, free_fenced-IsFreed}
use dotclaude_ecosystem.Prelude.{subst, sym}
use dotclaude_ecosystem.Prelude.{
  ℕ, ◌<◌, String, ◌≡◌, refl, ◌⊎◌, inl, inr, Bool, true, false, not, ◌&&◌, Option, none, some, arith,
  ltb, ltb→lt, Bool-cases, Option-cases, or_default, is_some, ◌==◌, get,
}

-- The process that had the pid has ended, or another one has it now.
abbrev pub HasEnded : Host → ℕ → Option ℕ → Type 0
HasEnded host pid start =
    (host.probe pid ≡ no_such_process)
    ⊎ ((seen : ℕ) × (recorded : ℕ) × (host.probe pid ≡ started seen)
        × (start ≡ some recorded)
        × (second < distance seen recorded))

-- The lease records a process that has ended.
abbrev pub IsProvenGone : Host → Option HostResourceLease → Type 0
IsProvenGone host lease =
    (l : HostResourceLease) × (lease ≡ some l)
    × (pid : ℕ) × (l.process_pid ≡ some pid)
    × HasEnded host pid l.process_start_time

owner_liveness-HasEnded :
    (host : Host) (pid start : Option ℕ)
    → (owner_liveness host pid start).0 ≡ true
    → (p : ℕ) × (pid ≡ some p) × HasEnded host p start
unfolding owner_liveness
owner_liveness-HasEnded host none start h = cc h
owner_liveness-HasEnded host (some p) start h = (p, refl, probed (host.probe p) start refl h)
  where
    timed :
        (seen : ℕ) (start : Option ℕ)
        → host.probe p ≡ started seen
        → (judge_start seen start).0 ≡ true
        → HasEnded host p start
    timed seen none e h = cc h
    timed seen (some recorded) e h = elim (Bool-cases (ltb second (distance seen recorded))) [
      | inl k ↦ inr (seen, recorded, e, refl, ltb→lt _ _ k)
      | inr k ↦ cc (rw k at h)
    ]

    probed :
        (seen : Probe) (start : Option ℕ)
        → host.probe p ≡ seen
        → (judge_probe seen start).0 ≡ true
        → HasEnded host p start
    probed no_such_process start e h = inl e
    probed unreadable_process start e h = cc h
    probed (started seen) start e h = timed seen start e h

lease_liveness-IsProvenGone :
    (host : Host) (lease : Option HostResourceLease)
    → (lease_liveness host lease).0 ≡ true
    → IsProvenGone host lease
unfolding owner_liveness
lease_liveness-IsProvenGone host none h = cc h
lease_liveness-IsProvenGone host (some l) h =
    let (pid, e, ended) = owner_liveness-HasEnded host l.process_pid l.process_start_time h in
    (l, refl, pid, e, ended)

attested_only :
    (host : Host) (lease : Option HostResourceLease) (provider attested : Bool) (reason : String)
    → is_ok (recovery_evidence host lease provider attested reason) ≡ true
    → (lease_liveness host lease).0 ≡ false
    → (attested ≡ true) × ((reason == "") ≡ false)
unfolding recovery_evidence
attested_only host lease provider attested reason h gone = ground (arith, h, gone)

-- The grounds on which a request is freed: its recorded owner has ended, or the operator attests
-- that, with a reason.
abbrev pub Grounds : Host → Option HostResourceLease → Bool → String → Type 0
Grounds host lease attested reason =
    IsProvenGone host lease ⊎ ((attested ≡ true) × ((reason == "") ≡ false))

recovery_evidence-Grounds :
    (host : Host) (lease : Option HostResourceLease) (provider attested : Bool) (reason : String)
    → is_ok (recovery_evidence host lease provider attested reason) ≡ true
    → Grounds host lease attested reason
recovery_evidence-Grounds host lease provider attested reason h =
    elim (Bool-cases (lease_liveness host lease).0) [
      | inl e ↦ inl (lease_liveness-IsProvenGone host lease e)
      | inr e ↦ inr (attested_only host lease provider attested reason h e)
    ]

abbrev pub is_provider : HostResourceRequest → Bool
is_provider r = is_some (get provider_source_by_pool r.resource_key)

-- The call of `recover` on a fenced row: its two refusals, then what the evidence decides.
abbrev pub decided :
    Host
    → Db
    → HostResourceRequest
    → String
    → Result String
    → Result (String × Option Promoted) × Db
decided host db r actor (ok e) = transact (free_fenced r (event_lease db r) e actor) host db
decided host db r actor (err x) = (err x, db)

abbrev pub has_child : Db → HostResourceRequest → Bool
has_child db r = ltb 0 (children db (or_default (event_lease db r) ""))

module _ (request_id : String) (attested : Bool) (reason actor : String) (host : Host) (db : Db)
    (r : HostResourceRequest) (found : find_request db request_id ≡ some r)
    (fenced : r.state ≡ recovery_required) where
  recover-refused :
      (is_provider r && not (attested && not (reason == ""))) ≡ true
      → transact (recover request_id attested reason actor) host db
        ≡ (err (admission_error "RETAINED_PROVIDER_TERMINAL_UNPROVEN"), db)
  unfolding recover recover_row transact gets on_row ◌>>=◌ require get_host pure raise
  recover-refused apart = rw (found, fenced, apart) refl

  pub recover-held :
      (is_provider r && not (attested && not (reason == ""))) ≡ false
      → has_child db r ≡ true
      → transact (recover request_id attested reason actor) host db
        ≡ (err (busy_error "INHERITED_CHILD_ACTIVE"), db)
  unfolding recover recover_row transact gets on_row ◌>>=◌ require get_host pure raise
  recover-held apart held = rw (found, fenced, apart, held) refl

  pub recover-decided :
      (is_provider r && not (attested && not (reason == ""))) ≡ false
      → has_child db r ≡ false
      → (v : Result String)
      → recovery_evidence host (lease_of db r.request_id) (is_provider r) attested reason ≡ v
      → transact (recover request_id attested reason actor) host db ≡ decided host db r actor v
  unfolding recover recover_row transact gets on_row ◌>>=◌ require get_host settled pure raise
  recover-decided apart childless (ok e) h = rw (found, fenced, apart, childless, h) refl
  recover-decided apart childless (err x) h = rw (found, fenced, apart, childless, h) refl

decided-ok :
    (host : Host) (db : Db) (r : HostResourceRequest) (actor : String) (v : Result String)
    → is_ok (decided host db r actor v).0 ≡ true
    → is_ok v ≡ true
decided-ok host db r actor (ok e) h = refl
decided-ok host db r actor (err x) h = h

recover-found :
    (request_id : String) (attested : Bool) (reason actor : String) (host : Host) (db : Db)
    → is_ok (transact (recover request_id attested reason actor) host db).0 ≡ true
    → (r : HostResourceRequest) × (find_request db request_id ≡ some r)
      × (r.state ≡ recovery_required)
unfolding recover transact gets on_row ◌>>=◌ raise
recover-found request_id attested reason actor host db h =
    elim (Option-cases (find_request db request_id)) [
      | inl e ↦ cc (rw (e, is_ok) at h)
      | inr (r, e) ↦ elim (Bool-cases (is_fenced r.state)) [
        | inl k ↦ (r, e, fenced_state r.state k)
        | inr k ↦ cc (rw (e, k, is_ok) at h)
      ]
    ]
  where
    fenced_state : (s : HostResourceRequestState) → is_fenced s ≡ true → s ≡ recovery_required
    fenced_state recovery_required h = refl
    fenced_state _ h = cc h

decided-IsFreed :
    (host : Host) (db : Db) (r : HostResourceRequest) (actor : String) (v : Result String)
    → is_ok (decided host db r actor v).0 ≡ true
    → IsFreed r.request_id (decided host db r actor v).1
decided-IsFreed host db r actor (ok e) h =
    transact-seen (IsFreed r.request_id) (free_fenced r (event_lease db r) e actor) host db
      (free_fenced-IsFreed r actor (event_lease db r) e host) h
decided-IsFreed host db r actor (err x) h = cc h

-- When `recover` returns, the request was fenced and no child ran under its lease, and either the
-- process that the lease records has ended, or the operator attested that, with a reason. In a
-- provider pool the attestation and its reason are there in both cases. Afterwards every row of the
-- request's id is RELEASED, also after the promotion that follows.
pub recover-Grounds :
    (request_id : String) (attested : Bool) (reason actor : String) (host : Host) (db : Db)
    → is_ok (transact (recover request_id attested reason actor) host db).0 ≡ true
    → (r : HostResourceRequest) × (find_request db request_id ≡ some r)
      × (r.state ≡ recovery_required)
      × (has_child db r ≡ false)
      × (is_provider r && not (attested && not (reason == "")) ≡ false)
      × Grounds host (lease_of db r.request_id) attested reason
      × IsFreed r.request_id (transact (recover request_id attested reason actor) host db).1
recover-Grounds request_id attested reason actor host db h =
    judged (recover-found request_id attested reason actor host db h)
  where
    evidenced :
        (r : HostResourceRequest)
        → transact (recover request_id attested reason actor) host db
          ≡ decided host db r actor
              (recovery_evidence host (lease_of db r.request_id) (is_provider r) attested reason)
        → Grounds host (lease_of db r.request_id) attested reason
          × IsFreed r.request_id (transact (recover request_id attested reason actor) host db).1
    evidenced r e =
        let returns : is_ok
              (decided host db r actor (
                recovery_evidence host (lease_of db r.request_id) (is_provider r) attested
                  reason)).0
            ≡ true =
          subst (λ out. is_ok out.0 ≡ true) e h in
        (
          recovery_evidence-Grounds host (lease_of db r.request_id) (is_provider r) attested reason
              (decided-ok host db r actor _ returns),
          subst (λ out. IsFreed r.request_id out.1) (sym e)
              (decided-IsFreed host db r actor _ returns),
        )

    judged :
        (r : HostResourceRequest) × (find_request db request_id ≡ some r)
          × (r.state ≡ recovery_required)
        → (r : HostResourceRequest) × (find_request db request_id ≡ some r)
          × (r.state ≡ recovery_required)
          × (has_child db r ≡ false)
          × (is_provider r && not (attested && not (reason == "")) ≡ false)
          × Grounds host (lease_of db r.request_id) attested reason
          × IsFreed r.request_id (transact (recover request_id attested reason actor) host db).1
    judged (r, found, fenced) =
        elim (Bool-cases (is_provider r && not (attested && not (reason == "")))) [
          | inl g ↦ cc (
              rw (recover-refused request_id attested reason actor host db r found fenced g, is_ok)
                at h)
          | inr g ↦ elim (Bool-cases (has_child db r)) [
            | inl k ↦ cc (
                rw (recover-held request_id attested reason actor host db r found fenced g k, is_ok)
                  at h)
            | inr k ↦
                let (grounds, freed) = evidenced r (
                  recover-decided request_id attested reason actor host db r found fenced g k _
                    refl) in
                (r, found, fenced, k, g, grounds, freed)
          ]
        ]
