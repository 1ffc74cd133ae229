-- ===== src/Resources/Frees.antt =====
-- Lemmas on the promotion that follows a release or a recovery.
use dotclaude_ecosystem.Db.{
  Db, HostResourceRequestState, queued, released, recovery_required, HostResourceRequest,
  HostResourceLease,
}
use dotclaude_ecosystem.Session.{Host, Session, ◌>>=◌, pure, gets, modify, read_clock}
use dotclaude_ecosystem.Session.Keeps.{Leaves}
use dotclaude_ecosystem.Session.Sees.{
  Sees, Sees-bind, Sees-pure, Sees-read_clock, Sees-uuid4, Sees-modify, Sees-run, Sees-on_row,
  sees_rules,
}
use dotclaude_ecosystem.Resources.Rows.{
  is_queued, in_pool, has_id, find_pool, source_full, event_at, event, insert_lease, create_lease,
  set_request,
}
use dotclaude_ecosystem.Resources.Promotion.{
  Promoted, waiting, promotable, has_room, eligible, activate, take_eligible, promote,
  promote_first, promote_related,
}
use dotclaude_ecosystem.Resources.Methods.{
  freed, event_lease, release_fields, free_fenced, recovery_reason, free_request,
}
use dotclaude_ecosystem.Prelude.Counts.{count-update_same}
use dotclaude_ecosystem.Prelude.Members.{from_order_by, from_select, none-counted}
use mathlib.Core.List.Memᴰ.{head, tail}
use dotclaude_ecosystem.Prelude.{
  ℕ, String, ◌≡◌, refl, sym, ◌∙◌, subst, inl, inr, Bool, true, false, not, ◌&&◌, ◌||◌, Option, none,
  some, List, [], ◌∷◌, arith, Bool-cases, Option-cases, first, any, count, update, &&-right, ◌==◌,
  ==→≡, Memᴰ,
}

-- A row of the id that is not RELEASED.
abbrev is_released : HostResourceRequestState → Bool
is_released released = true
is_released _ = false

abbrev pub held_by : String → HostResourceRequest → Bool
held_by id r = has_id id r && not (is_released r.state)

-- Every row of the id is RELEASED.
abbrev pub IsFreed : String → Db → Type 0
IsFreed id db = count (held_by id) db.requests ≡ 0

first-Memᴰ :
    (p : HostResourceRequest → Bool) (xs : List HostResourceRequest) (x : HostResourceRequest)
    → first p xs ≡ some x
    → Memᴰ x xs
unfolding first
first-Memᴰ p [] x h = cc h
first-Memᴰ p (y ∷ ys) x h = elim (Bool-cases (p y)) [
  | inl e ↦ head (sym (the (rw e at h)))
  | inr e ↦ tail (first-Memᴰ p ys x (rw e at h))
]
  where
    the : {a b : HostResourceRequest} → some a ≡ some b → a ≡ b
    the k = cc k

-- What is promoted was waiting.
eligible-queued :
    (db : Db) (key : String) (r : HostResourceRequest)
    → eligible db key ≡ some r
    → Memᴰ r db.requests × (is_queued r.state ≡ true)
unfolding eligible waiting
eligible-queued db key r h = elim (Bool-cases (source_full db key)) [
  | inl e ↦ cc (rw e at h)
  | inr e ↦ elim (Option-cases (find_pool db key)) [
    | inl g ↦ cc (rw (e, g) at h)
    | inr (pool, g) ↦ elim (Bool-cases (has_room db key pool)) [
      | inl k ↦ queued_row (first-Memᴰ (promotable db key) (waiting db key) r (rw (e, g, k) at h))
      | inr k ↦ cc (rw (e, g, k) at h)
    ]
  ]
]
  where
    queued_row : Memᴰ r (waiting db key) → Memᴰ r db.requests × (is_queued r.state ≡ true)
    queued_row m =
        let (n, e) =
          from_select (λ x. in_pool key x && is_queued x.state) db.requests (from_order_by _ _ m) in
        (n, &&-right (in_pool key r) (is_queued r.state) e)

queued_not-released : (s : HostResourceRequestState) → is_queued s ≡ true → is_released s ≡ false
queued_not-released queued h = refl
queued_not-released _ h = cc h

module _ (id : String) where
  other_id :
      (db : Db) (r : HostResourceRequest)
      → IsFreed id db
      → Memᴰ r db.requests × (is_queued r.state ≡ true)
      → has_id id r ≡ false
  other_id db r done (m, q) =
      let unheld : held_by id r ≡ false = none-counted (held_by id) done m in
      let waits : is_released r.state ≡ false = queued_not-released r.state q in
      ground (arith, unheld, waits)

  take_eligible-IsFreed :
      (key : String) (db : Db) → IsFreed id db → Leaves (IsFreed id) (take_eligible key db)
  unfolding take_eligible
  take_eligible-IsFreed key db done = elim (Option-cases (eligible db key)) [
    | inl e ↦ rw (e, Leaves) done
    | inr (r, e) ↦
        rw (e, Leaves)
          (count-update_same (held_by id) (has_id r.request_id) activate db.requests
              (λ x same. unaffected r x (other_id db r done (eligible-queued db key r e)) same)
            ∙ done)
  ]
    where
      unaffected :
          (r x : HostResourceRequest)
          → has_id id r ≡ false
          → has_id r.request_id x ≡ true
          → held_by id (activate x) ≡ held_by id x
      unaffected r x other same =
          let apart : (x.request_id == id) ≡ false =
            subst (λ i. (i == id) ≡ false) (sym (==→≡ x.request_id r.request_id same)) other in
          rw apart refl

  event-IsFreed :
      (request_id : String) (lease_id : Option String) (previous : Option HostResourceRequestState)
      (next : HostResourceRequestState) (actor reason : String)
      → Sees (IsFreed id) (event request_id lease_id previous next actor reason)
  unfolding event event_at
  event-IsFreed request_id lease_id previous next actor reason =
      Sees-bind _ _ Sees-read_clock
        (λ time. Sees-bind _ _ Sees-uuid4 (λ hex. Sees-modify _ (λ db h. h)))

  insert_lease-IsFreed :
      (l : HostResourceLease) (db : Db) → IsFreed id db → Leaves (IsFreed id) (insert_lease l db)
  unfolding insert_lease
  insert_lease-IsFreed l db h =
      elim (Bool-cases (
        any (λ x. (x.lease_id == l.lease_id) || (x.request_id == l.request_id))
          db.resource_leases)) [ inl e ↦ rw e tt | inr e ↦ rw e h ]

  create_lease-IsFreed :
      (r : HostResourceRequest) (ttl time : ℕ) (pid start : Option ℕ)
      → Sees (IsFreed id) (create_lease r ttl time pid start)
  unfolding create_lease
  create_lease-IsFreed r ttl time pid start =
      Sees-bind _ _ Sees-uuid4
        (λ lease. Sees-bind _ _ (Sees-run _ (insert_lease-IsFreed _)) (λ _. Sees-pure lease))

  promote-IsFreed : (key actor : String) → Sees (IsFreed id) (promote key actor)
  unfolding promote
  promote-IsFreed key actor =
      Sees-bind _ _ (Sees-run _ (take_eligible-IsFreed key))
        (λ taken. search (sees_rules, create_lease-IsFreed, event-IsFreed) depth 12)

  promote_first-IsFreed :
      (rows : List HostResourceRequest) (actor : String)
      → Sees (IsFreed id) (promote_first rows actor)
  unfolding promote_first
  promote_first-IsFreed [] actor = Sees-pure none
  promote_first-IsFreed (r ∷ rs) actor =
      Sees-bind _ _ (promote-IsFreed r.resource_key actor) (λ promoted.
        Sees-on_row promoted _ _ (promote_first-IsFreed rs actor) (λ p _. Sees-pure (some p)))

  promote_related-IsFreed : (key actor : String) → Sees (IsFreed id) (promote_related key actor)
  unfolding promote_related
  promote_related-IsFreed key actor =
      search (sees_rules, promote-IsFreed, promote_first-IsFreed) depth 10

set_request-IsFreed :
    (id : String) (f : HostResourceRequest → HostResourceRequest) (db : Db)
    → ((x : HostResourceRequest) → held_by id (f x) ≡ false)
    → IsFreed id (set_request id f db)
unfolding count update
set_request-IsFreed id f db h = rows db.requests
  where
    rows : (xs : List HostResourceRequest) → count (held_by id) (update (has_id id) f xs) ≡ 0
    rows [] = refl
    rows (x ∷ xs) = elim (Bool-cases (has_id id x)) [
      | inl e ↦ rw (e, h x, rows xs) refl
      | inr e ↦ rw (e, e, rows xs) refl
    ]

module _ (r : HostResourceRequest) (actor : String) where
  promoting :
      {A : Type 0} (lease_id : Option String) (previous : HostResourceRequestState)
      (reason : String) (f : Option Promoted → A)
      → Sees (IsFreed r.request_id) (
          event r.request_id lease_id (some previous) released actor reason >>= λ _.
          (promote_related r.resource_key actor >>= λ promoted. pure (f promoted)))
  promoting lease_id previous reason f =
      Sees-bind _ _
        (event-IsFreed r.request_id r.request_id lease_id (some previous) released actor reason)
        (λ _.
          Sees-bind _ _ (promote_related-IsFreed r.request_id r.resource_key actor)
            (λ promoted. Sees-pure _))

  released_row :
      (time : ℕ) (reason : String) (db : Db)
      → IsFreed r.request_id (set_request r.request_id (release_fields (some time) reason) db)
  released_row time reason db =
      set_request-IsFreed r.request_id (release_fields (some time) reason) db
        (λ x. not_held (has_id r.request_id x))
    where
      not_held : (b : Bool) → b && false ≡ false
      not_held b = ground arith

  -- The writes of `release` leave no row of the id that is not RELEASED, nor does the promotion.
  pub free_request-IsFreed :
      (reason : String) (host : Host) (s : Session)
      → IsFreed r.request_id ((free_request r actor reason host s).1).db
  unfolding ◌>>=◌ read_clock modify gets
  free_request-IsFreed reason host s =
      (promoting
          (event_lease
            (set_request r.request_id (release_fields (some (host.clock s.readings)) reason) s.db)
            r)
          r.state reason (λ p. freed p)).after
        host _ (released_row (host.clock s.readings) reason s.db)

  -- Nor do those of `recover`.
  pub free_fenced-IsFreed :
      (lease_id : Option String) (evidence : String) (host : Host) (s : Session)
      → IsFreed r.request_id ((free_fenced r lease_id evidence actor host s).1).db
  unfolding ◌>>=◌ read_clock modify
  free_fenced-IsFreed lease_id evidence host s =
      (promoting lease_id recovery_required (recovery_reason evidence) (λ p. (evidence, p))).after
        host _ (released_row (host.clock s.readings) (recovery_reason evidence) s.db)
