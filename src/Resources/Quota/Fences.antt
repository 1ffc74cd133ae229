-- ===== src/Resources/Quota/Fences.antt =====
-- The other methods of the manager keep the quotas.
use dotclaude_ecosystem.Db.{
  Db, HostResourceRequestState, queued, active, inherited, released, recovery_required, quarantined,
  HostResourceRequest, HostResourceLease, HostResourcePool,
}
use dotclaude_ecosystem.Session.{Result, ok, err, modify}
use dotclaude_ecosystem.Session.Keeps.{
  Keeps, Leaves, Keeps-bind, Keeps-pure, Keeps-raise, Keeps-run, Keeps-modify, Keeps-require,
  Keeps-read_clock, keeps_rules,
}
use dotclaude_ecosystem.Resources.Rows.{has_id, set_request}
use dotclaude_ecosystem.Resources.Sweep.{Cutoffs}
use dotclaude_ecosystem.Resources.Quota.{Fits}
use dotclaude_ecosystem.Resources.Methods.{
  active_lease, extend_lease, heartbeat, release_fields, free_request, release_by_state, release,
  fence_expired, fence_fields, reconcile, settled, recover_row, recover, fence_row, mark_uncertain,
  mark_recovery,
}
use dotclaude_ecosystem.Resources.Quota.Promotes.{promote_related-Fits, event_at-Fits}
use dotclaude_ecosystem.Resources.Quota.Updates.{RowsFit-demote, at_work}
use dotclaude_ecosystem.Resources.Quota.Promotes.{event-Fits}
use dotclaude_ecosystem.Resources.Quota.Sweeps.{sweep_stale_slots-Fits}
use dotclaude_ecosystem.Prelude.{
  ℕ, String, ◌≡◌, refl, inl, inr, Bool, false, Option, List, leb, Bool-cases, Option-cases,
}

module _ {pools : List HostResourcePool} where
  -- A request that stops working.
  pub demote-Fits :
      (request_id : String) (f : HostResourceRequest → HostResourceRequest)
      → ((r : HostResourceRequest) → (f r).request_id ≡ r.request_id)
      → ((r : HostResourceRequest) → at_work (f r).state ≡ false)
      → Keeps (Fits pools) (modify (set_request request_id f))
  demote-Fits request_id f same idle = Keeps-modify _ (λ db fits. record {
    rows = RowsFit-demote fits.rows (has_id request_id) f same idle;
    same_pools = fits.same_pools;
  })

  release_fields-Fits :
      (request_id : String) (time : Option ℕ) (reason : String)
      → Keeps (Fits pools) (modify (set_request request_id (release_fields time reason)))
  release_fields-Fits request_id time reason =
      demote-Fits request_id (release_fields time reason) (λ r. refl) (λ r. refl)

  fence_fields-Fits :
      (request_id reason : String)
      → Keeps (Fits pools) (modify (set_request request_id (fence_fields reason)))
  fence_fields-Fits request_id reason =
      demote-Fits request_id (fence_fields reason) (λ r. refl) (λ r. refl)

  extend_lease-Leaves :
      (lease_id : String) (sequence ttl time : ℕ) (db : Db)
      → Fits pools db
      → Leaves (Fits pools) (extend_lease lease_id sequence ttl time db)
  unfolding extend_lease
  extend_lease-Leaves lease_id sequence ttl time db f =
      elim (Option-cases (active_lease db lease_id)) [
        | inl e ↦ rw (e, Leaves) tt
        | inr (l, e) ↦ elim (Bool-cases (leb sequence l.heartbeat_sequence)) [
          | inl k ↦ rw (e, k, Leaves) tt
          | inr k ↦ elim (Bool-cases (leb l.expires_at_utc time)) [
            | inl m ↦ rw (e, k, m, Leaves) tt
            | inr m ↦ rw (e, k, m, Leaves) (record { rows = f.rows; same_pools = f.same_pools })
          ]
        ]
      ]

  pub heartbeat-Fits :
      (lease_id : String) (sequence ttl : ℕ) → Keeps (Fits pools) (heartbeat lease_id sequence ttl)
  unfolding heartbeat
  heartbeat-Fits lease_id sequence ttl = Keeps-bind _ _ (Keeps-require _ _) (λ _.
      Keeps-bind _ _ Keeps-read_clock
        (λ time. Keeps-run _ (extend_lease-Leaves lease_id sequence ttl time)))

  free_request-Fits :
      (r : HostResourceRequest) (actor reason : String)
      → Keeps (Fits pools) (free_request r actor reason)
  free_request-Fits r actor reason =
      search (keeps_rules, release_fields-Fits, event-Fits, promote_related-Fits) depth 16

  release_by_state-Fits :
      (s : HostResourceRequestState) (r : HostResourceRequest) (actor reason : String)
      → Keeps (Fits pools) (release_by_state s r actor reason)
  release_by_state-Fits released r actor reason = Keeps-pure _
  release_by_state-Fits quarantined r actor reason = Keeps-pure _
  release_by_state-Fits recovery_required r actor reason = Keeps-raise _
  release_by_state-Fits active r actor reason = search (keeps_rules, free_request-Fits) depth 10
  release_by_state-Fits queued r actor reason = free_request-Fits r actor reason
  release_by_state-Fits inherited r actor reason = free_request-Fits r actor reason

  pub release-Fits :
      (request_id actor reason : String) → Keeps (Fits pools) (release request_id actor reason)
  unfolding release
  release-Fits request_id actor reason = search (keeps_rules, release_by_state-Fits) depth 10

  fence_expired-Fits :
      (time : ℕ) (l : HostResourceLease) → Keeps (Fits pools) (fence_expired time l)
  unfolding fence_expired
  fence_expired-Fits time l = search (keeps_rules, fence_fields-Fits, event_at-Fits) depth 10

  pub reconcile-Fits : (c : Cutoffs) (dry_run : Bool) → Keeps (Fits pools) (reconcile c dry_run)
  unfolding reconcile
  reconcile-Fits c dry_run =
      search (keeps_rules, sweep_stale_slots-Fits, fence_expired-Fits) depth 20

  settled-Fits : (r : Result String) → Keeps (Fits pools) (settled r)
  unfolding settled
  settled-Fits (ok e) = Keeps-pure e
  settled-Fits (err e) = Keeps-raise e

  recover_row-Fits :
      (r : HostResourceRequest) (attested : Bool) (reason actor : String)
      → Keeps (Fits pools) (recover_row r attested reason actor)
  unfolding recover_row
  recover_row-Fits r attested reason actor =
      search (keeps_rules, settled-Fits, release_fields-Fits, event-Fits, promote_related-Fits)
        depth 30

  pub recover-Fits :
      (request_id : String) (attested : Bool) (reason actor : String)
      → Keeps (Fits pools) (recover request_id attested reason actor)
  unfolding recover
  recover-Fits request_id attested reason actor = search (keeps_rules, recover_row-Fits) depth 10

  fence_row-Fits :
      (r : HostResourceRequest) (actor reason : String)
      → Keeps (Fits pools) (fence_row r actor reason)
  unfolding fence_row
  fence_row-Fits r actor reason = search (keeps_rules, fence_fields-Fits, event-Fits) depth 10

  pub mark_uncertain-Fits :
      (request_id attempt_id agent_instance reason : String)
      → Keeps (Fits pools) (mark_uncertain request_id attempt_id agent_instance reason)
  unfolding mark_uncertain
  mark_uncertain-Fits request_id attempt_id agent_instance reason =
      search (keeps_rules, fence_row-Fits) depth 20

  pub mark_recovery-Fits :
      (request_id reason : String) → Keeps (Fits pools) (mark_recovery request_id reason)
  unfolding mark_recovery
  mark_recovery-Fits request_id reason =
      search (keeps_rules, fence_fields-Fits, event-Fits) depth 16
