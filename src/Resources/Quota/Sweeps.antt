-- ===== src/Resources/Quota/Sweeps.antt =====
-- The sweep keeps the quotas.
use dotclaude_ecosystem.Db.{HostResourceRequest, HostResourceLease, HostResourcePool}
use dotclaude_ecosystem.Session.{modify}
use dotclaude_ecosystem.Session.Keeps.{
  Keeps, Keeps-bind, Keeps-pure, Keeps-gets, Keeps-modify, Keeps-uuid4, Keeps-get_host,
  Keeps-on_row, Keeps-if, keeps_rules,
}
use dotclaude_ecosystem.Resources.Rows.{has_id}
use dotclaude_ecosystem.Resources.Sweep.{
  Cutoffs, free, fence_work_item, revoke_attempt, drop_request, save_release_receipt, auto_release,
  sweep_rows, sweep_rounds, sweep_stale_slots,
}
use dotclaude_ecosystem.Resources.Quota.{Fits}
use dotclaude_ecosystem.Resources.Quota.Updates.{RowsFit-demote}
use dotclaude_ecosystem.Resources.Quota.Promotes.{event_at-Fits, promote_related-Fits}
use dotclaude_ecosystem.Prelude.{ℕ, zero, suc, String, refl, Bool, Option, List, [], ◌∷◌, ◌++◌}

module _ {pools : List HostResourcePool} where
  drop_request-Fits :
      (r : HostResourceRequest) (lease : Option HostResourceLease) (reason : String) (time : ℕ)
      → Keeps (Fits pools) (modify (drop_request r lease reason time))
  drop_request-Fits r lease reason time = Keeps-modify _ (λ db f. record {
    rows = RowsFit-demote f.rows (has_id r.request_id) (free time reason) (λ x. refl) (λ x. refl);
    same_pools = f.same_pools;
  })

  revoke_attempt-Fits :
      (attempt_id reason : String) (time : ℕ)
      → Keeps (Fits pools) (modify (revoke_attempt attempt_id reason time))
  revoke_attempt-Fits attempt_id reason time = Keeps-modify _ (λ db f. record {
    rows = RowsFit-demote f.rows _ (free time reason) (λ x. refl) (λ x. refl);
    same_pools = f.same_pools;
  })

  fence_work_item-Fits :
      (attempt_id actor reason : String) (time : ℕ)
      → Keeps (Fits pools) (fence_work_item attempt_id actor reason time)
  unfolding fence_work_item
  fence_work_item-Fits attempt_id actor reason time = Keeps-bind _ _ (Keeps-gets _) (λ target.
      Keeps-on_row target _ _ (Keeps-pure tt) (λ w _.
        Keeps-bind _ _
          (Keeps-modify _ (λ db f. record { rows = f.rows; same_pools = f.same_pools }))
          (λ _.
            Keeps-bind _ _ Keeps-uuid4 (λ id.
              Keeps-modify _ (λ db f. record { rows = f.rows; same_pools = f.same_pools })))))

  save_release_receipt-Fits :
      (r : HostResourceRequest) (e : String) → Keeps (Fits pools) (save_release_receipt r e)
  unfolding save_release_receipt
  save_release_receipt-Fits r e = Keeps-bind _ _ Keeps-uuid4 (λ _.
      Keeps-bind _ _ Keeps-uuid4
        (λ _. Keeps-modify _ (λ db f. record { rows = f.rows; same_pools = f.same_pools })))

  auto_release-Fits :
      (r : HostResourceRequest) (e actor : String) (time : ℕ)
      → Keeps (Fits pools) (auto_release r e actor time)
  unfolding auto_release
  auto_release-Fits r e actor time =
      search
        (
          keeps_rules, drop_request-Fits, revoke_attempt-Fits, fence_work_item-Fits,
          save_release_receipt-Fits, event_at-Fits, promote_related-Fits,
        )
        depth 25

  sweep_rows-Fits :
      (c : Cutoffs) (time : ℕ) (dry_run : Bool) (actor : String) (rows : List HostResourceRequest)
      (swept : List String)
      → Keeps (Fits pools) (sweep_rows c time dry_run actor rows swept)
  unfolding sweep_rows
  sweep_rows-Fits c time dry_run actor [] swept = Keeps-pure swept
  sweep_rows-Fits c time dry_run actor (r ∷ rs) swept = Keeps-bind _ _ Keeps-get_host (λ host.
      Keeps-bind _ _ (Keeps-gets _) (λ found.
        Keeps-on_row found _ _ (sweep_rows-Fits c time dry_run actor rs swept) (λ e _.
          Keeps-bind _ _
            (Keeps-if dry_run _ _ (λ _. Keeps-pure tt) (λ _. auto_release-Fits r e actor time))
            (λ _. sweep_rows-Fits c time dry_run actor rs (swept ++ r.request_id ∷ [])))))

  sweep_rounds-Fits :
      (fuel : ℕ) (c : Cutoffs) (time : ℕ) (dry_run : Bool) (actor : String) (include_active : Bool)
      (key : Option String) (swept : List String)
      → Keeps (Fits pools) (sweep_rounds fuel c time dry_run actor include_active key swept)
  unfolding sweep_rounds
  sweep_rounds-Fits zero c time dry_run actor include_active key swept = Keeps-pure swept
  sweep_rounds-Fits (suc fuel) c time dry_run actor include_active key swept =
      Keeps-bind _ _ (Keeps-gets _) (λ rows.
        Keeps-bind _ _ (sweep_rows-Fits c time dry_run actor rows swept) (λ swept'.
          Keeps-if _ _ _ (λ _. Keeps-pure swept')
            (λ _. sweep_rounds-Fits fuel c time dry_run actor include_active key swept')))

  pub sweep_stale_slots-Fits :
      (c : Cutoffs) (time : ℕ) (dry_run : Bool) (actor : String) (include_active : Bool)
      (key : Option String)
      → Keeps (Fits pools) (sweep_stale_slots c time dry_run actor include_active key)
  unfolding sweep_stale_slots
  sweep_stale_slots-Fits c time dry_run actor include_active key =
      search (keeps_rules, sweep_rounds-Fits) depth 10
