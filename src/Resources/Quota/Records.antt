-- ===== src/Resources/Quota/Records.antt =====
-- Records that take no capacity keep the quotas: retained observations and focused runs.
use dotclaude_ecosystem.Db.{Db, HostResourceRequest, HostResourcePool}
use dotclaude_ecosystem.Session.{Result, ok, err, run}
use dotclaude_ecosystem.Session.Keeps.{
  Keeps, Keeps-bind, Keeps-raise, Keeps-run, Keeps-require, Keeps-read_clock, Keeps-uuid4,
  keeps_rules,
}
use dotclaude_ecosystem.Resources.Rows.{insert_request}
use dotclaude_ecosystem.Resources.Quota.{Quota, uses, bound, Fits}
use dotclaude_ecosystem.Resources.Observed.{
  Observation, retained_request, retain_fields, retain_new, retain_row, retain_found,
  retain_observed_attempt, focused_request, insert_focused, log_focused_request,
}
use dotclaude_ecosystem.Resources.Quota.Promotes.{event_at-Fits}
use dotclaude_ecosystem.Resources.Quota.Updates.{at_work}
use dotclaude_ecosystem.Resources.Quota.Admits.{insert_request-Leaves}
use dotclaude_ecosystem.Resources.Quota.Requests.{given_or_fresh-Fits}
use dotclaude_ecosystem.Resources.Quota.Fences.{demote-Fits}
use dotclaude_ecosystem.Resources.Quota.Promotes.{event-Fits}
use mathlib.Core.Bool.{true≢false}
use dotclaude_ecosystem.Resources.Quota.Updates.{uses-at_work}
use dotclaude_ecosystem.Prelude.{
  ◌<◌, String, ◌≡◌, refl, sym, ◌∙◌, true, false, Option, none, some, List, count,
}

idle-room :
    (db : Db) (r : HostResourceRequest) (pools : List HostResourcePool)
    → at_work r.state ≡ false
    → (q : Quota) → uses q r ≡ true
    → count (uses q) db.requests < bound pools q
idle-room db r pools e q h = absurd (true≢false (sym (uses-at_work q r h) ∙ e))

module _ {pools : List HostResourcePool} where
  insert_idle-Fits :
      (r : HostResourceRequest)
      → at_work r.state ≡ false
      → Keeps (Fits pools) (run (insert_request r))
  insert_idle-Fits r e =
      Keeps-run _ (λ db f. insert_request-Leaves pools r db f (idle-room db r pools e))

  retain_new-Fits : (source : String) (o : Observation) → Keeps (Fits pools) (retain_new source o)
  retain_new-Fits name o = Keeps-bind _ _ Keeps-uuid4 (λ hex.
      Keeps-bind _ _ Keeps-read_clock (λ created.
        Keeps-bind _ _ (insert_idle-Fits (retained_request name o hex created) refl)
          (λ u. search (keeps_rules, event_at-Fits) depth 16)))

  retain_row-Fits :
      (r : HostResourceRequest) (o : Observation) → Keeps (Fits pools) (retain_row r o)
  retain_row-Fits r o = Keeps-bind _ _ (Keeps-require _ _) (λ u.
      Keeps-bind _ _ (demote-Fits (r.request_id) retain_fields (λ x. refl) (λ x. refl))
        (λ v. search (keeps_rules, event_at-Fits) depth 16))

  retain_found-Fits :
      (source : String) (o : Observation) (found : Result (Option HostResourceRequest))
      → Keeps (Fits pools) (retain_found source o found)
  retain_found-Fits name o (err e) = Keeps-raise e
  retain_found-Fits name o (ok none) = retain_new-Fits name o
  retain_found-Fits name o (ok (some r)) = retain_row-Fits r o

  pub retain_observed_attempt-Fits :
      (key : String) (o : Observation) → Keeps (Fits pools) (retain_observed_attempt key o)
  unfolding retain_observed_attempt
  retain_observed_attempt-Fits key o = search (keeps_rules, retain_found-Fits) depth 24

  insert_focused-Fits :
      (key attempt_id agent_instance command_sha256 idempotency : String)
      → Keeps (Fits pools) (insert_focused key attempt_id agent_instance command_sha256 idempotency)
  insert_focused-Fits key attempt_id agent_instance command_sha256 idempotency =
      Keeps-bind _ _ Keeps-read_clock (λ time. Keeps-bind _ _ Keeps-uuid4 (λ hex.
        Keeps-bind _ _ Keeps-read_clock (λ created.
          Keeps-bind _ _
            (insert_idle-Fits
              (focused_request key attempt_id agent_instance command_sha256 hex idempotency created
                time)
              refl)
            (λ u. search (keeps_rules, event-Fits) depth 16))))

  pub log_focused_request-Fits :
      (key attempt_id agent_instance : String) (given : Option String) (command_sha256 : String)
      → Keeps (Fits pools) (log_focused_request key attempt_id agent_instance given command_sha256)
  unfolding log_focused_request
  log_focused_request-Fits key attempt_id agent_instance given command_sha256 =
      search (keeps_rules, given_or_fresh-Fits, insert_focused-Fits) depth 16
