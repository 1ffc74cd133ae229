-- ===== src/Resources/Quota/Requests.antt =====
-- Inheriting a lease keeps the quotas, and so does the whole of `request`.
use dotclaude_ecosystem.Db.{Db, inherited, quarantined, HostResourceRequest, HostResourcePool}
use dotclaude_ecosystem.Session.{Result, ok, err, ◌>>=◌, gets}
use dotclaude_ecosystem.Session.Keeps.{
  Keeps, KeepsAt, Keeps-bind, Keeps-pure, Keeps-raise, Keeps-gets, Keeps-gets_bind,
  Keeps-read_clock, Keeps-uuid4, Keeps-on_row, Keeps-at, KeepsAt-if, KeepsAt-anywhere, KeepsAt-gets,
  KeepsAt-read_clock, KeepsAt-run, keeps_rules,
}
use dotclaude_ecosystem.Resources.Rows.{in_source, source_full, find_pool}
use dotclaude_ecosystem.Resources.Sweep.{Cutoffs}
use dotclaude_ecosystem.Resources.Admission.{
  RequestArgs, replay, ParentLease, not_asked, source_busy, refused, usable, parent_lease, inherit,
  by_parent, refuse_revoked, request_in_pool, checked, given_or_fresh, request,
}
use dotclaude_ecosystem.Resources.Quota.{Quota, pool, slot, source, uses, bound, capacity_in, Fits}
use dotclaude_ecosystem.Resources.Quota.Admits.{
  admit-Fits, record_explicit_owner-Fits, insert_request-Leaves,
}
use dotclaude_ecosystem.Resources.Quota.Room.{source_quota_room}
use dotclaude_ecosystem.Resources.Quota.Promotes.{event-Fits}
use dotclaude_ecosystem.Resources.Quota.Sweeps.{sweep_stale_slots-Fits}
use dotclaude_ecosystem.Prelude.{
  ℕ, ◌<◌, String, ◌≡◌, refl, subst, inl, inr, true, false, Option, none, some, List, Bool-cases,
  &&-right, count, ◌==◌,
}

-- A child that inherits takes one unit of its source, which `parent_lease` found free.
inherited-room :
    (db : Db) (r : HostResourceRequest)
    → r.state ≡ inherited
    → source_full db r.resource_key ≡ false
    → (q : Quota) → uses q r ≡ true
    → count (uses q) db.requests < bound db.pools q
unfolding in_source
inherited-room db r e free (pool key) h = cc (rw e at h)
inherited-room db r e free (slot key name) h = cc (rw e at h)
inherited-room db r e free (source name) h =
    source_quota_room db (r.resource_key) name free (&&-right _ _ h)

-- A quarantined row uses nothing.
quarantined-room :
    (db : Db) (r : HostResourceRequest) (pools : List HostResourcePool)
    → r.state ≡ quarantined
    → (q : Quota) → uses q r ≡ true
    → count (uses q) db.requests < bound pools q
quarantined-room db r pools e (pool key) h = cc (rw e at h)
quarantined-room db r pools e (slot key name) h = cc (rw e at h)
quarantined-room db r pools e (source name) h = cc (rw e at h)

parent_lease-free :
    (key inherited_id lease_id : String) (time : ℕ) (db : Db)
    → parent_lease key inherited_id time db ≡ usable lease_id
    → source_full db key ≡ false
unfolding parent_lease
parent_lease-free key inherited_id lease_id time db h = elim (Bool-cases (inherited_id == "")) [
  | inl e ↦ cc (rw e at h)
  | inr e ↦ elim (Bool-cases (source_full db key)) [ inl k ↦ cc (rw (e, k) at h) | inr k ↦ k ]
]

module _ {pools : List HostResourcePool} where
  inherit-Fits :
      (key : String) (a : RequestArgs) (request_id idempotency : String) (time : ℕ)
      (lease_id : String) (db : Db)
      → Fits pools db
      → source_full db key ≡ false
      → KeepsAt (Fits pools) db (inherit key a request_id idempotency time lease_id)
  unfolding inherit
  inherit-Fits key a request_id idempotency time lease_id db f free = KeepsAt-gets db _ _ (
      KeepsAt-read_clock db _ (λ created.
        KeepsAt-if db _ _ _
          (KeepsAt-run db _ _
            (insert_request-Leaves pools _ db f (quarantined-room db _ pools refl))
            (λ u. search (keeps_rules, record_explicit_owner-Fits, event-Fits) depth 16))
          (KeepsAt-run db _ _
            (insert_request-Leaves pools _ db f (λ q h.
              subst (λ ps. count (uses q) db.requests < bound ps q) f.same_pools
                (inherited-room db _ refl free q h)))
            (λ u. search (keeps_rules, record_explicit_owner-Fits, event-Fits) depth 16))))

  by_parent-Fits :
      (parent : ParentLease) (key : String) (a : RequestArgs) (capacity : ℕ)
      (request_id idempotency : String) (time : ℕ) (db : Db)
      → capacity ≡ capacity_in pools key
      → Fits pools db
      → ((lease_id : String) → parent ≡ usable lease_id → source_full db key ≡ false)
      → KeepsAt (Fits pools) db (by_parent parent key a capacity request_id idempotency time)
  by_parent-Fits not_asked key a capacity request_id idempotency time db e f free =
      KeepsAt-anywhere db _ (admit-Fits key a capacity request_id idempotency time none e)
  by_parent-Fits source_busy key a capacity request_id idempotency time db e f free =
      KeepsAt-anywhere db _ (Keeps-raise _)
  by_parent-Fits (refused reason) key a capacity request_id idempotency time db e f free =
      KeepsAt-anywhere db _ (admit-Fits key a capacity request_id idempotency time (some reason) e)
  by_parent-Fits (usable lease_id) key a capacity request_id idempotency time db e f free =
      inherit-Fits key a request_id idempotency time lease_id db f (free lease_id refl)

  refuse_revoked-Fits :
      (c : Cutoffs) (actor : String) (time : ℕ) → Keeps (Fits pools) (refuse_revoked c actor time)
  unfolding refuse_revoked
  refuse_revoked-Fits c actor time = search (keeps_rules, sweep_stale_slots-Fits) depth 12

  request_in_pool-Fits :
      (c : Cutoffs) (key : String) (a : RequestArgs) (idempotency : String) (time : ℕ)
      (p : HostResourcePool)
      → p.capacity ≡ capacity_in pools key
      → Keeps (Fits pools) (request_in_pool c key a idempotency time p)
  unfolding request_in_pool
  request_in_pool-Fits c key a idempotency time p e =
      search (keeps_rules, sweep_stale_slots-Fits, refuse_revoked-Fits, admit_new) depth 20
    where
      admit_new :
          (request_id : String)
          → Keeps (Fits pools) (
              gets (parent_lease key a.inherited_id time) >>= λ parent.
              by_parent parent key a p.capacity request_id idempotency time)
      admit_new request_id = Keeps-at _ (λ db f. KeepsAt-gets db _ _ (
          by_parent-Fits (parent_lease key a.inherited_id time db) key a p.capacity request_id
            idempotency time db e f (λ l h. parent_lease-free key a.inherited_id l time db h)))

  replay-Fits :
      (key : String) (a : RequestArgs) (r : HostResourceRequest)
      → Keeps (Fits pools) (replay key a r)
  unfolding replay
  replay-Fits key a r = search (keeps_rules) depth 10

  checked-Fits : (r : Result (Unit {0})) → Keeps (Fits pools) (checked r)
  unfolding checked
  checked-Fits (ok u) = Keeps-pure u
  checked-Fits (err e) = Keeps-raise e

  pub given_or_fresh-Fits : (o : Option String) → Keeps (Fits pools) (given_or_fresh o)
  unfolding given_or_fresh
  given_or_fresh-Fits none = Keeps-uuid4
  given_or_fresh-Fits (some k) = search (keeps_rules) depth 6

  pub request-Fits :
      (c : Cutoffs) (key : String) (a : RequestArgs) → Keeps (Fits pools) (request c key a)
  unfolding request
  request-Fits c key a = Keeps-bind _ _ (checked-Fits _) (λ _.
      Keeps-bind _ _ (given_or_fresh-Fits a.idempotency_key) (λ idempotency.
        Keeps-bind _ _ Keeps-read_clock (λ time. Keeps-bind _ _ (Keeps-gets _) (λ existing.
          Keeps-on_row existing _ _
            (Keeps-gets_bind _ _ (λ db f.
              Keeps-on_row (find_pool db key) _ _ (Keeps-raise _) (λ p e.
                request_in_pool-Fits c key a idempotency time p (
                  subst (λ ps. p.capacity ≡ capacity_in ps key) f.same_pools
                    (rw (e, capacity_in))))))
            (λ r _. replay-Fits key a r)))))
