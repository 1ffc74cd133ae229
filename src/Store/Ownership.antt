-- ===== src/Store/Ownership.antt =====
-- Who may write: the claim that owns a work item, and the GO that a claim needs.
use dotclaude_ecosystem.Model.{
  WorkItemState, hold, ready, can_transition, ReasonCode, value, authorization_refusal,
  needs_authorization,
}
use dotclaude_ecosystem.Db.{Lease, Db, WorkItemRow, Attempt, Claim}
use dotclaude_ecosystem.Session.{
  ok, value_error, err, Host, ◌>>=◌, pure, raise, gets, modify, require, commit, read_clock, uuid4,
  on_row, on_connection,
}
use dotclaude_ecosystem.Store.Items.{
  next_generation, take_over, find_item, set_state, add_event, move_item,
  transition_work_item_state, install_claim, get_authorization,
}
use dotclaude_ecosystem.Store.Fence.{
  check_lease, lease_row, named_otherwise, attempt_row, claim_row, revoked_row, swept_request,
  owned_by, owns, validate_worker_attempt_fence,
}
use dotclaude_ecosystem.Store.Commands.{is_ready, authorize_claim, handle_claim}
use dotclaude_ecosystem.Session.{transact}
use dotclaude_ecosystem.Prelude.{
  ℕ, ◌<◌, String, ◌≡◌, refl, sym, ap, subst, inl, inr, Bool, true, false, not, ◌||◌, Option, none,
  some, List, [], ◌∷◌, arith, leb, eqb, leb-false→lt, Bool-cases, Option-cases, first, update, ◌==◌,
}

pub first-update_same :
    {A : Type 0} (p : A → Bool) (f : A → A) (xs : List A) (x : A)
    → first p xs ≡ some x
    → ((y : A) → p y ≡ true → p (f y) ≡ true)
    → first p (update p f xs) ≡ some (f x)
unfolding first update
first-update_same p f [] x h k = cc
first-update_same p f (y ∷ ys) x h k = elim (Bool-cases (p y)) [
  | inl e ↦ rw (e, k y e) (ap (λ o. elim o [ none ↦ none | some z ↦ some (f z) ]) (rw e at h))
  | inr e ↦ rw (e, e) (first-update_same p f ys x (rw e at h) k)
]

pub insert_claim-owner :
    (c : Claim) (db : Db) (w : WorkItemRow)
    → find_item db c.work_item_id ≡ some w
    → find_item (install_claim c w db) c.work_item_id
      ≡ some (take_over c.attempt_id (next_generation w) w)
insert_claim-owner c db w h = first-update_same _ _ db.work_items w h (λ y k. k)

owned_by-other :
    (w : WorkItemRow) (o : Option Claim) (a : Attempt) (winner : String) (generation : ℕ)
    → (winner == a.attempt_id) ≡ false
    → owned_by (some (take_over winner generation w)) o a ≡ false
owned_by-other w none a winner generation h = refl
owned_by-other w (some c) a winner generation h = rw h refl

superseded-owns :
    (c : Claim) (db : Db) (w : WorkItemRow) (a : Attempt)
    → find_item db c.work_item_id ≡ some w
    → a.work_item_id ≡ c.work_item_id
    → (c.attempt_id == a.attempt_id) ≡ false
    → owns (install_claim c w db) a ≡ false
unfolding owns
superseded-owns c db w a h item other =
    let found : find_item (install_claim c w db) a.work_item_id
        ≡ some (take_over c.attempt_id (next_generation w) w) =
      subst
        (λ i.
          find_item (install_claim c w db) i ≡ some (take_over c.attempt_id (next_generation w) w))
        (sym item) (insert_claim-owner c db w h) in
    subst (λ o. owned_by o (claim_row (install_claim c w db) a.attempt_id) a ≡ false) (sym found)
      (owned_by-other w _ a c.attempt_id (next_generation w) other)

-- Once another attempt has claimed the work item, every write of the earlier attempt is rejected at
-- the fence: at any time, for any lease and any generation that it names.
pub superseded-rejected :
    (c : Claim) (db : Db) (w : WorkItemRow) (a : Attempt) (item lease : Option String)
    (generation time : ℕ)
    → find_item db c.work_item_id ≡ some w
    → attempt_row db a.attempt_id ≡ some a
    → not (a.attempt_id == "") ≡ true
    → a.work_item_id ≡ c.work_item_id
    → (c.attempt_id == a.attempt_id) ≡ false
    → validate_worker_attempt_fence a.attempt_id item lease generation time (install_claim c w db)
      ≡ err (value_error "REAPED_LEASE_REJECTED")
unfolding validate_worker_attempt_fence
superseded-rejected c db w a item lease generation time h row named same other =
    let lost : owns (install_claim c w db) a ≡ false = superseded-owns c db w a h same other in
    let proper : (a.attempt_id == "") ≡ false = ground (arith, named) in
    elim (Bool-cases (revoked_row a || swept_request db a.attempt_id)) [
      | inl k ↦ rw (proper, row, k) refl
      | inr k ↦ rw (proper, row, k, lost) refl
    ]

pub is_ready-true : (s : WorkItemState) → s ≡ ready → is_ready s ≡ true
is_ready-true s e = rw e refl

ready-hold : (s : WorkItemState) → s ≡ ready → can_transition s hold ≡ true
unfolding can_transition
ready-hold s e = rw e refl

-- A claim of READY work of class R2 or R3 that has no valid GO is refused: the work item goes to HOLD, which the
-- event log records with the refusal's code, and no attempt, claim or lease is made.
pub handle_claim-hold :
    (claimant instance_ : String) (host : Host) (db : Db) (w : WorkItemRow) (refusal : ReasonCode)
    → find_item db w.work_item_id ≡ some w
    → w.state ≡ ready
    → needs_authorization w.risk_class ≡ true
    → authorization_refusal
        (get_authorization db w.work_item_id)
        w.scope_digest_sha256
        (host.clock 0)
      ≡ some refusal
    → transact (handle_claim w.work_item_id claimant instance_) host db ≡ (
      err (value_error "requires operator R2/R3 authorization"),
      add_event
          (record {
            event_id = host.uuid 0;
            work_item_id = w.work_item_id;
            attempt_id = none;
            previous_state = w.state;
            next_state = hold;
            actor_identity = claimant;
            reason_code = value refusal;
            recorded_at_utc = host.clock 1;
          })
          (set_state w.work_item_id hold db),
    )
unfolding handle_claim authorize_claim transition_work_item_state on_connection transact gets on_row
    ◌>>=◌ require raise pure move_item modify commit read_clock uuid4
handle_claim-hold claimant instance_ host db w refusal found at_ready risky invalid =
    let r : is_ready w.state ≡ true = is_ready-true w.state at_ready in
    let t : can_transition w.state hold ≡ true = ready-hold w.state at_ready in
    rw (found, r, risky, invalid, found, t) refl

check_lease-ok :
    (lease : Option String) (generation time : ℕ) (a b : Attempt) (l : Lease)
    → check_lease lease generation time a l ≡ ok b
    → (check_lease lease generation time a l ≡ ok a)
      × (time < l.expires_at_utc)
      × (l.lease_generation ≡ generation)
unfolding check_lease
check_lease-ok lease generation time a b l h = elim (Bool-cases (leb l.expires_at_utc time)) [
  | inl e ↦ cc (rw e at h)
  | inr e ↦ elim (Bool-cases (named_otherwise lease l.lease_id)) [
    | inl k ↦ cc (rw (e, k) at h)
    | inr k ↦ elim (Bool-cases (eqb generation l.lease_generation)) [
      | inr m ↦ cc (rw (e, k, m) at h)
      | inl m ↦ (rw (e, k, m) refl, leb-false→lt _ _ e, ground (arith, m))
    ]
  ]
]

-- A worker's write that the fence lets pass comes from a known attempt that is not revoked, that
-- owns the work item by its current claim and generation, and whose lease lives and has the
-- generation that the worker names.
pub validate_worker_attempt_fence-ok :
    (attempt_id : String) (item lease : Option String) (generation time : ℕ) (db : Db) (b : Attempt)
    → validate_worker_attempt_fence attempt_id item lease generation time db ≡ ok b
    → (a : Attempt) × (attempt_row db attempt_id ≡ some a)
      × ((revoked_row a || swept_request db attempt_id ≡ false) × (owns db a ≡ true))
      × ((l : Lease) × (lease_row db attempt_id ≡ some l)
          × (time < l.expires_at_utc)
          × (l.lease_generation ≡ generation))
unfolding validate_worker_attempt_fence
validate_worker_attempt_fence-ok attempt_id item lease generation time db b h =
    elim (Bool-cases (attempt_id == "")) [
      | inl e ↦ cc (rw e at h)
      | inr e ↦ elim (Option-cases (attempt_row db attempt_id)) [
        | inl n ↦ cc (rw (e, n) at h)
        | inr (a, n) ↦
            elim (Bool-cases (
              revoked_row a
              || swept_request db attempt_id
              || not (owns db a)
              || named_otherwise item a.work_item_id)) [
                | inl k ↦ cc (rw (e, n, k) at h)
                | inr k ↦ elim (Option-cases (lease_row db attempt_id)) [
                  | inl m ↦ cc (rw (e, n, k, m) at h)
                  | inr (l, m) ↦
                      let (same, live, right) =
                        check_lease-ok lease generation time a b l (rw (e, n, k, m) at h) in
                      (a, n, (ground (arith, k), ground (arith, k)), (l, m, live, right))
                ]
              ]
      ]
    ]
