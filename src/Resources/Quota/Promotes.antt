-- ===== src/Resources/Quota/Promotes.antt =====
-- Promotion, the ledgers and the leases keep the quotas.
use dotclaude_ecosystem.Db.{
  Db, HostResourceRequestState, HostResourceRequest, HostResourceLease, HostResourcePool,
}
use dotclaude_ecosystem.Session.Keeps.{
  Keeps, Leaves, Keeps-bind, Keeps-pure, Keeps-run, Keeps-modify, Keeps-read_clock, Keeps-uuid4,
  Keeps-on_row, keeps_rules,
}
use dotclaude_ecosystem.Resources.Rows.{
  in_pool, has_id, event_at, event, insert_lease, create_lease, in_source,
}
use dotclaude_ecosystem.Resources.Promotion.{
  eligible, activate, take_eligible, promote, promote_first, promote_related,
}
use dotclaude_ecosystem.Resources.Quota.{Quota, pool, slot, source, uses, RowsFit, Fits}
use dotclaude_ecosystem.Resources.Quota.Updates.{RowsFit-activate}
use dotclaude_ecosystem.Resources.Quota.Room.{Found, Room, quota_room, eligible-Found}
use dotclaude_ecosystem.Prelude.{
  ℕ, String, ◌≡◌, refl, sym, ◌∙◌, subst, inl, inr, Bool, true, ◌&&◌, ◌||◌, Option, none, some, List,
  [], ◌∷◌, Bool-cases, Option-cases, &&-left, &&-right, any, update, ◌==◌, ==→≡,
}

abbrev found_like : String → HostResourceRequest → HostResourceRequest → Bool
found_like key r x = in_pool key x && (x.slot_key == r.slot_key)

uses-alike :
    (q : Quota) (x y : HostResourceRequest)
    → x.state ≡ y.state
    → x.resource_key ≡ y.resource_key
    → x.slot_key ≡ y.slot_key
    → uses q x ≡ uses q y
unfolding in_source
uses-alike (pool key) x y s k n = rw (s, k)
uses-alike (slot key name) x y s k n = rw (s, k, n)
uses-alike (source name) x y s k n = rw (s, k)

Found-alike :
    (db : Db) (key : String) (r x : HostResourceRequest)
    → Found db key r
    → found_like key r x ≡ true
    → (x.resource_key ≡ r.resource_key) × (x.slot_key ≡ r.slot_key)
Found-alike db key r x f h = (==→≡ _ _ (&&-left _ _ h) ∙ sym f.in_key, ==→≡ _ _ (&&-right _ _ h))

activate-RowsFit :
    (db : Db) (key : String) (r : HostResourceRequest)
    → RowsFit db.pools db.requests
    → Found db key r
    → RowsFit db.pools (update (has_id r.request_id) activate db.requests)
activate-RowsFit db key r fit f =
    RowsFit-activate fit activate (found_like key r) r (λ x. refl)
      (λ q x h.
        let (k, n) = Found-alike db key r x f h in uses-alike q (activate x) (activate r) refl k n)
      f.listed
      (λ q h.
        quota_room db (activate r) (subst (λ k. Room db k (r.slot_key)) (sym f.in_key) f.room) q h)

module _ {pools : List HostResourcePool} where
  take_eligible-Leaves :
      (key : String) (db : Db) → Fits pools db → Leaves (Fits pools) (take_eligible key db)
  unfolding take_eligible
  take_eligible-Leaves key db f = elim (Option-cases (eligible db key)) [
    | inl e ↦ rw (e, Leaves) f
    | inr (r, e) ↦
        rw (e, Leaves)
          (record {
            rows =
                subst (λ ps. RowsFit ps (update (has_id r.request_id) activate db.requests))
                  f.same_pools
                  (activate-RowsFit db key r
                    (subst (λ ps. RowsFit ps db.requests) (sym f.same_pools) f.rows)
                    (eligible-Found db key r e));
            same_pools = f.same_pools;
          })
  ]

  pub event_at-Fits :
      (time : ℕ) (request_id : String) (lease_id : Option String)
      (previous : Option HostResourceRequestState) (next : HostResourceRequestState)
      (actor reason details : String) (event_id : Option String)
      → Keeps
          (Fits pools)
          (event_at time request_id lease_id previous next actor reason details event_id)
  unfolding event_at
  event_at-Fits time request_id lease_id previous next actor reason details event_id =
      Keeps-bind _ _ Keeps-uuid4
        (λ hex. Keeps-modify _ (λ db f. record { rows = f.rows; same_pools = f.same_pools }))

  pub event-Fits :
      (request_id : String) (lease_id : Option String) (previous : Option HostResourceRequestState)
      (next : HostResourceRequestState) (actor reason : String)
      → Keeps (Fits pools) (event request_id lease_id previous next actor reason)
  unfolding event
  event-Fits request_id lease_id previous next actor reason =
      Keeps-bind _ _ Keeps-read_clock
        (λ time. event_at-Fits time request_id lease_id previous next actor reason "{}" none)

  insert_lease-Leaves :
      (l : HostResourceLease) (db : Db) → Fits pools db → Leaves (Fits pools) (insert_lease l db)
  unfolding insert_lease
  insert_lease-Leaves l db f =
      elim (Bool-cases (
        any (λ x. (x.lease_id == l.lease_id) || (x.request_id == l.request_id))
          db.resource_leases)) [
            | inl e ↦ rw e tt
            | inr e ↦ rw e (record { rows = f.rows; same_pools = f.same_pools })
          ]

  pub create_lease-Fits :
      (r : HostResourceRequest) (ttl time : ℕ) (pid start : Option ℕ)
      → Keeps (Fits pools) (create_lease r ttl time pid start)
  unfolding create_lease
  create_lease-Fits r ttl time pid start =
      Keeps-bind _ _ Keeps-uuid4
        (λ id. Keeps-bind _ _ (Keeps-run _ (insert_lease-Leaves _)) (λ _. Keeps-pure id))

  promote-Fits : (key actor : String) → Keeps (Fits pools) (promote key actor)
  unfolding promote
  promote-Fits key actor =
      Keeps-bind _ _ (Keeps-run _ (take_eligible-Leaves key))
        (λ taken. search (keeps_rules, create_lease-Fits, event-Fits) depth 12)

  promote_first-Fits :
      (rows : List HostResourceRequest) (actor : String)
      → Keeps (Fits pools) (promote_first rows actor)
  unfolding promote_first
  promote_first-Fits [] actor = Keeps-pure none
  promote_first-Fits (r ∷ rs) actor =
      Keeps-bind _ _ (promote-Fits (r.resource_key) actor) (λ promoted.
        Keeps-on_row promoted _ _ (promote_first-Fits rs actor) (λ p _. Keeps-pure (some p)))

  pub promote_related-Fits : (key actor : String) → Keeps (Fits pools) (promote_related key actor)
  unfolding promote_related
  promote_related-Fits key actor = search (keeps_rules, promote-Fits, promote_first-Fits) depth 10
