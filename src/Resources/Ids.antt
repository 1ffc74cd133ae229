-- ===== src/Resources/Ids.antt =====
-- The sweep adds and removes no request: the ids stay as they are.
use dotclaude_ecosystem.Db.{Db, HostResourceRequestState, HostResourceRequest, HostResourceLease}
use dotclaude_ecosystem.Session.{modify}
use dotclaude_ecosystem.Session.Keeps.{
  Keeps, Leaves, Keeps-bind, Keeps-pure, Keeps-gets, Keeps-run, Keeps-modify, Keeps-uuid4,
  Keeps-on_row, keeps_rules,
}
use dotclaude_ecosystem.Resources.Rows.{has_id, event_at, event, insert_lease, create_lease}
use dotclaude_ecosystem.Resources.Promotion.{
  eligible, activate, take_eligible, promote, promote_first, promote_related,
}
use dotclaude_ecosystem.Resources.Sweep.{
  free, fence_work_item, revoke_attempt, drop_request, save_release_receipt, auto_release,
}
use dotclaude_ecosystem.Prelude.{
  ℕ, String, ◌≡◌, refl, ◌∙◌, inl, inr, Bool, ◌||◌, Option, none, some, List, [], ◌∷◌, map,
  Bool-cases, Option-cases, any, update, ◌==◌,
}

abbrev pub ids_of : List HostResourceRequest → List String
ids_of rows = map (λ r. r.request_id) rows

abbrev pub SameIds : List String → Db → Type 0
SameIds ids db = ids_of db.requests ≡ ids

ids_of-update :
    (p : HostResourceRequest → Bool) (f : HostResourceRequest → HostResourceRequest)
    (rows : List HostResourceRequest)
    → ((r : HostResourceRequest) → (f r).request_id ≡ r.request_id)
    → ids_of (update p f rows) ≡ ids_of rows
unfolding update
ids_of-update p f [] same = refl
ids_of-update p f (r ∷ rs) same = elim (Bool-cases (p r)) [
  | inl e ↦ rw (e, same r, ids_of-update p f rs same) refl
  | inr e ↦ rw (e, ids_of-update p f rs same) refl
]

module _ {ids : List String} where
  updating :
      (p : HostResourceRequest → Bool) (f : HostResourceRequest → HostResourceRequest) (db : Db)
      → ((r : HostResourceRequest) → (f r).request_id ≡ r.request_id)
      → SameIds ids db
      → ids_of (update p f db.requests) ≡ ids
  updating p f db same h = ids_of-update p f db.requests same ∙ h

  event_at-SameIds :
      (time : ℕ) (request_id : String) (lease_id : Option String)
      (previous : Option HostResourceRequestState) (next : HostResourceRequestState)
      (actor reason details : String) (event_id : Option String)
      → Keeps
          (SameIds ids)
          (event_at time request_id lease_id previous next actor reason details event_id)
  unfolding event_at
  event_at-SameIds time request_id lease_id previous next actor reason details event_id =
      Keeps-bind _ _ Keeps-uuid4 (λ hex. Keeps-modify _ (λ db h. h))

  event-SameIds :
      (request_id : String) (lease_id : Option String) (previous : Option HostResourceRequestState)
      (next : HostResourceRequestState) (actor reason : String)
      → Keeps (SameIds ids) (event request_id lease_id previous next actor reason)
  unfolding event
  event-SameIds request_id lease_id previous next actor reason =
      search (keeps_rules, event_at-SameIds) depth 8

  insert_lease-SameIds :
      (l : HostResourceLease) (db : Db) → SameIds ids db → Leaves (SameIds ids) (insert_lease l db)
  unfolding insert_lease
  insert_lease-SameIds l db h =
      elim (Bool-cases (
        any (λ x. (x.lease_id == l.lease_id) || (x.request_id == l.request_id))
          db.resource_leases)) [ inl e ↦ rw e tt | inr e ↦ rw e h ]

  create_lease-SameIds :
      (r : HostResourceRequest) (ttl time : ℕ) (pid start : Option ℕ)
      → Keeps (SameIds ids) (create_lease r ttl time pid start)
  unfolding create_lease
  create_lease-SameIds r ttl time pid start =
      Keeps-bind _ _ Keeps-uuid4
        (λ id. Keeps-bind _ _ (Keeps-run _ (insert_lease-SameIds _)) (λ _. Keeps-pure id))

  take_eligible-SameIds :
      (key : String) (db : Db) → SameIds ids db → Leaves (SameIds ids) (take_eligible key db)
  unfolding take_eligible
  take_eligible-SameIds key db h = elim (Option-cases (eligible db key)) [
    | inl e ↦ rw (e, Leaves) h
    | inr (r, e) ↦ rw (e, Leaves) (updating (has_id r.request_id) activate db (λ x. refl) h)
  ]

  promote-SameIds : (key actor : String) → Keeps (SameIds ids) (promote key actor)
  unfolding promote
  promote-SameIds key actor =
      Keeps-bind _ _ (Keeps-run _ (take_eligible-SameIds key))
        (λ taken. search (keeps_rules, create_lease-SameIds, event-SameIds) depth 12)

  promote_first-SameIds :
      (rows : List HostResourceRequest) (actor : String)
      → Keeps (SameIds ids) (promote_first rows actor)
  unfolding promote_first
  promote_first-SameIds [] actor = Keeps-pure none
  promote_first-SameIds (r ∷ rs) actor =
      Keeps-bind _ _ (promote-SameIds (r.resource_key) actor) (λ promoted.
        Keeps-on_row promoted _ _ (promote_first-SameIds rs actor) (λ p _. Keeps-pure (some p)))

  promote_related-SameIds : (key actor : String) → Keeps (SameIds ids) (promote_related key actor)
  unfolding promote_related
  promote_related-SameIds key actor =
      search (keeps_rules, promote-SameIds, promote_first-SameIds) depth 10

  drop_request-SameIds :
      (r : HostResourceRequest) (lease : Option HostResourceLease) (reason : String) (time : ℕ)
      → Keeps (SameIds ids) (modify (drop_request r lease reason time))
  drop_request-SameIds r lease reason time =
      Keeps-modify _ (λ db h. updating (has_id r.request_id) (free time reason) db (λ x. refl) h)

  revoke_attempt-SameIds :
      (attempt_id reason : String) (time : ℕ)
      → Keeps (SameIds ids) (modify (revoke_attempt attempt_id reason time))
  revoke_attempt-SameIds attempt_id reason time =
      Keeps-modify _ (λ db h. updating _ (free time reason) db (λ x. refl) h)

  fence_work_item-SameIds :
      (attempt_id actor reason : String) (time : ℕ)
      → Keeps (SameIds ids) (fence_work_item attempt_id actor reason time)
  unfolding fence_work_item
  fence_work_item-SameIds attempt_id actor reason time = Keeps-bind _ _ (Keeps-gets _) (λ target.
      Keeps-on_row target _ _ (Keeps-pure tt) (λ w _.
        Keeps-bind _ _ (Keeps-modify _ (λ db h. h))
          (λ _. Keeps-bind _ _ Keeps-uuid4 (λ id. Keeps-modify _ (λ db h. h)))))

  save_release_receipt-SameIds :
      (r : HostResourceRequest) (e : String) → Keeps (SameIds ids) (save_release_receipt r e)
  unfolding save_release_receipt
  save_release_receipt-SameIds r e =
      Keeps-bind _ _ Keeps-uuid4 (λ _. Keeps-bind _ _ Keeps-uuid4 (λ _. Keeps-modify _ (λ db h. h)))

  pub auto_release-SameIds :
      (r : HostResourceRequest) (e actor : String) (time : ℕ)
      → Keeps (SameIds ids) (auto_release r e actor time)
  unfolding auto_release
  auto_release-SameIds r e actor time =
      search
        (
          keeps_rules, drop_request-SameIds, revoke_attempt-SameIds, fence_work_item-SameIds,
          save_release_receipt-SameIds, event_at-SameIds, promote_related-SameIds,
        )
        depth 25
