-- ===== src/Resources/Quota/Admits.antt =====
-- Admission keeps the quotas.
use dotclaude_ecosystem.Db.{Db, queued, active, HostResourceRequest, HostResourcePool}
use dotclaude_ecosystem.Session.{Result, ok, err}
use dotclaude_ecosystem.Session.Keeps.{
  Keeps, Leaves, Keeps-bind, Keeps-pure, Keeps-run, Keeps-modify, Keeps-read_clock, Keeps-get_host,
  Keeps-on_row, keeps_rules,
}
use dotclaude_ecosystem.Prelude.Counts.{any-or-left}
use dotclaude_ecosystem.Resources.Rows.{has_id, in_source, insert_request}
use dotclaude_ecosystem.Resources.Admission.{
  RequestArgs, with_owner, record_explicit_owner, admission, insert_admitted, giving, observe,
  lease_if_active, admit,
}
use dotclaude_ecosystem.Resources.Quota.{Quota, pool, slot, source, uses, bound, capacity_in, Fits}
use dotclaude_ecosystem.Resources.Quota.Updates.{RowsFit-annotate, RowsFit-snoc}
use dotclaude_ecosystem.Resources.Quota.Room.{Room, quota_room}
use dotclaude_ecosystem.Resources.Quota.Promotes.{event-Fits, create_lease-Fits}
use dotclaude_ecosystem.Prelude.{
  ℕ, ◌<◌, String, ◌≡◌, refl, sym, subst, ◌⊎◌, inl, inr, true, false, ◌||◌, Option, none, some, List,
  arith, Bool-cases, any, count, ◌==◌,
}

-- What the INSERT checks and what it leaves.
pub insert_request-Leaves :
    (pools : List HostResourcePool) (r : HostResourceRequest) (db : Db)
    → Fits pools db
    → ((q : Quota) → uses q r ≡ true → count (uses q) db.requests < bound pools q)
    → Leaves (Fits pools) (insert_request r db)
unfolding insert_request
insert_request-Leaves pools r db f room =
    elim (Bool-cases
      (any (λ x. has_id r.request_id x || (x.idempotency_key == r.idempotency_key)) db.requests)) [
        | inl e ↦ rw (e, Leaves) tt
        | inr e ↦
            rw (e, Leaves)
              (record {
                rows =
                    RowsFit-snoc f.rows r (any-or-left (has_id r.request_id) _ db.requests e) room;
                same_pools = f.same_pools;
              })
      ]

-- Only a request that every test lets pass is admitted as active.
pub admission-active :
    (db : Db) (key name : String) (rejection : Option String)
    → (admission db key (capacity_in db.pools key) name rejection).0 ≡ active
    → Room db key name
unfolding admission
admission-active db key name rejection h = record {
  pool_room = ground (arith, h);
  slot_free = ground (arith, h);
  source_room = ground (arith, h);
}

-- It is admitted as active or it queues.
admission-cases :
    (db : Db) (key : String) (capacity : ℕ) (name : String) (rejection : Option String)
    → ((admission db key capacity name rejection).0 ≡ active)
      ⊎ ((admission db key capacity name rejection).0 ≡ queued)
unfolding admission
admission-cases db key capacity name rejection = ground arith

queued-idle : (q : Quota) (r : HostResourceRequest) → r.state ≡ queued → uses q r ≡ false
queued-idle (pool key) r e = rw e
queued-idle (slot key name) r e = rw e
queued-idle (source name) r e = rw e

-- The row that `admit` inserts has room in every quota that it uses.
admitted-quota :
    (db : Db) (r : HostResourceRequest)
    → (r.state ≡ active → Room db r.resource_key r.slot_key)
    → (r.state ≡ active) ⊎ (r.state ≡ queued)
    → (q : Quota) → uses q r ≡ true
    → count (uses q) db.requests < bound db.pools q
admitted-quota db r room (inl e) q h = quota_room db r (room e) q h
admitted-quota db r room (inr e) q h = cc (h, queued-idle q r e)

giving-Leaves :
    (P : Db → Type 0) (r : HostResourceRequest) (m : Result (Unit {0} × Db))
    → Leaves P m
    → Leaves P (giving r m)
giving-Leaves P r (ok (u, db)) h = h
giving-Leaves P r (err e) h = h

insert_admitted-Leaves :
    (pools : List HostResourcePool) (key : String) (a : RequestArgs) (capacity : ℕ)
    (request_id idempotency : String) (created : ℕ) (rejection : Option String)
    → capacity ≡ capacity_in pools key
    → (db : Db) → Fits pools db
    → Leaves
        (Fits pools)
        (insert_admitted key a capacity request_id idempotency created rejection db)
unfolding insert_admitted
insert_admitted-Leaves pools key a capacity request_id idempotency created rejection e db f =
    let same : capacity ≡ capacity_in db.pools key =
      subst (λ ps. capacity ≡ capacity_in ps key) (sym f.same_pools) e in
    giving-Leaves (Fits pools) _ _ (
      insert_request-Leaves pools _ db f (λ q h.
        subst (λ ps. count (uses q) db.requests < bound ps q) f.same_pools
          (admitted-quota db _
            (λ k.
              admission-active db key a.slot_key rejection
                (subst (λ n. (admission db key n a.slot_key rejection).0 ≡ active) same k))
            (admission-cases db key capacity a.slot_key rejection) q h)))

owner_unused :
    (q : Quota) (r : HostResourceRequest) (pid observed : ℕ) (claimed : Option ℕ) (time : ℕ)
    → uses q (with_owner pid observed claimed time r) ≡ uses q r
unfolding in_source
owner_unused (pool key) r pid observed claimed time = refl
owner_unused (slot key name) r pid observed claimed time = refl
owner_unused (source name) r pid observed claimed time = refl

module _ {pools : List HostResourcePool} where
  pub record_explicit_owner-Fits :
      (request_id : String) (pid start : Option ℕ) (time : ℕ)
      → Keeps (Fits pools) (record_explicit_owner request_id pid start time)
  unfolding record_explicit_owner
  record_explicit_owner-Fits request_id pid start time = Keeps-bind _ _ Keeps-get_host (λ host.
      Keeps-on_row (observe host pid) _ _ (Keeps-pure none) (λ owner _.
        Keeps-bind _ _
          (Keeps-modify _ (λ db f. record {
            rows =
                RowsFit-annotate f.rows (has_id request_id) (with_owner owner.0 owner.1 start time)
                  (λ r. refl) (λ q r. owner_unused q r owner.0 owner.1 start time);
            same_pools = f.same_pools;
          }))
          (λ _. Keeps-pure (some owner))))

  lease_if_active-Fits :
      (r : HostResourceRequest) (a : RequestArgs) (time : ℕ) (owner : Option (ℕ × ℕ))
      → Keeps (Fits pools) (lease_if_active r a time owner)
  unfolding lease_if_active
  lease_if_active-Fits r a time owner = search (keeps_rules, create_lease-Fits) depth 10

  pub admit-Fits :
      (key : String) (a : RequestArgs) (capacity : ℕ) (request_id idempotency : String) (time : ℕ)
      (rejection : Option String)
      → capacity ≡ capacity_in pools key
      → Keeps (Fits pools) (admit key a capacity request_id idempotency time rejection)
  unfolding admit
  admit-Fits key a capacity request_id idempotency time rejection e =
      Keeps-bind _ _ Keeps-read_clock (λ created.
        Keeps-bind _ _
          (Keeps-run _ (
            insert_admitted-Leaves pools key a capacity request_id idempotency created rejection e))
          (λ r.
            search (keeps_rules, record_explicit_owner-Fits, lease_if_active-Fits, event-Fits) depth
              20))
