-- ===== src/Scheduler/Claiming.antt =====
-- What the scheduler selects can be claimed.
use dotclaude_ecosystem.Model.{
  WorkItemState, ready, claimed, can_transition, needs_authorization, authorization_refusal,
}
use dotclaude_ecosystem.Model.Authorization.{authorization_refusal-none_iff}
use dotclaude_ecosystem.Db.{Db, WorkItemRow, Attempt, Claim, Lease}
use dotclaude_ecosystem.Session.{
  ok, ending, Result, Tx, Session, Host, ◌>>=◌, pure, gets, modify, require, commit, read_clock,
  uuid4, on_row, on_connection, transact, run,
}
use dotclaude_ecosystem.Store.Items.{
  next_generation, take_over, find_item, move_item, transition_work_item_state, install_claim,
  get_authorization, save_attempt, save_claim, save_lease, upsert_attempt, insert_claim,
  upsert_lease,
}
use dotclaude_ecosystem.Store.Commands.{
  is_ready, authorize_claim, handle_claim, take_claim, new_attempt, new_claim, new_lease,
}
use dotclaude_ecosystem.Store.Ownership.{insert_claim-owner, is_ready-true}
use dotclaude_ecosystem.Scheduler.{select_next_work_item}
use dotclaude_ecosystem.Scheduler.Choice.{select-IsRunnable}
use dotclaude_ecosystem.Prelude.{
  ℕ, suc, String, ◌≡◌, refl, sym, ap, ◌∙◌, subst, inl, inr, true, false, Option, none, some, List,
  [], ◌∷◌, ◌++◌, arith, Bool-cases, any, ◌==◌, eq_refl,
}

-- The ids that `uuid4` gives the new attempt, claim and lease are not yet taken.
pub record IsFresh (host : Host) (db : Db) : Type 0 where
  pub new_attempt_id : any (λ a. a.attempt_id == host.uuid 0) db.attempts ≡ false
  pub new_claim_id : any (λ c. c.claim_id == host.uuid 1) db.claims ≡ false
  pub new_lease_id : any (λ l. l.lease_id == host.uuid 2) db.leases ≡ false

any-snoc :
    (id : String) (a : Attempt) (xs : List Attempt)
    → (a.attempt_id == id) ≡ true
    → any (λ x. x.attempt_id == id) (xs ++ a ∷ []) ≡ true
unfolding any
any-snoc id a [] h = rw h refl
any-snoc id a (x ∷ xs) h = ground (arith, any-snoc id a xs h)

ready-claimed : (s : WorkItemState) → s ≡ ready → can_transition s claimed ≡ true
unfolding can_transition
ready-claimed s e = rw e refl

bind-ok :
    {A B : Type 0} (m : Tx A) (f : A → Tx B) (host : Host) (s t : Session) (a : A)
    → m host s ≡ (ok a, t)
    → (m >>= f) host s ≡ f a host t
unfolding ◌>>=◌
bind-ok m f host s t a e = rw e refl

bind-pure :
    {A B : Type 0} (m : Tx A) (host : Host) (s : Session) (a : A) (b : B)
    → (m host s).0 ≡ ok a
    → ((m >>= λ _. pure b) host s).0 ≡ ok b
unfolding ◌>>=◌ pure
bind-pure m host s a b e = rw e refl

abbrev stored : Db → Session → Session
stored db s = record s { db = db; committed = db }

connection-run :
    {A : Type 0} (f : Db → Result (A × Db)) (host : Host) (s : Session) (a : A) (db : Db)
    → f s.db ≡ ok (a, db)
    → on_connection (run f) host s ≡ (ok a, stored db s)
unfolding on_connection run ◌>>=◌ commit pure
connection-run f host s a db e = rw e refl

-- An allowed transition of a recorded work item succeeds.
transition-ok :
    (id : String) (target : WorkItemState) (actor reason : String) (by : Option String)
    (host : Host) (s : Session) (w : WorkItemRow)
    → find_item (s.db) id ≡ some w
    → can_transition w.state target ≡ true
    → (transition_work_item_state id target actor reason by host s).0 ≡ ok tt
unfolding transition_work_item_state on_connection gets on_row ◌>>=◌ require pure move_item modify
    read_clock uuid4 commit
transition-ok id target actor reason by host s w found allowed = rw (found, allowed) refl

abbrev with_attempt : Attempt → Db → Db
with_attempt a db = record db { attempts = db.attempts ++ a ∷ [] }

upsert_attempt-fresh :
    (a : Attempt) (db : Db) (w : WorkItemRow)
    → any (λ x. x.attempt_id == a.attempt_id) db.attempts ≡ false
    → find_item db a.work_item_id ≡ some w
    → upsert_attempt a db ≡ ok (tt, with_attempt a db)
unfolding upsert_attempt
upsert_attempt-fresh a db w e found = rw (e, found) refl

insert_claim-fresh :
    (c : Claim) (db : Db) (w : WorkItemRow)
    → find_item db c.work_item_id ≡ some w
    → any (λ x. x.claim_id == c.claim_id) db.claims ≡ false
    → any (λ x. x.attempt_id == c.attempt_id) db.attempts ≡ true
    → insert_claim c db ≡ ok (tt, install_claim c w db)
unfolding insert_claim
insert_claim-fresh c db w found e f = rw (found, insert_claim) (rw (e, f) refl)

abbrev with_lease : Lease → Db → Db
with_lease l db = record db { leases = db.leases ++ l ∷ [] }

upsert_lease-fresh :
    (l : Lease) (db : Db)
    → any (λ x. x.lease_id == l.lease_id) db.leases ≡ false
    → any (λ x. x.attempt_id == l.attempt_id) db.attempts ≡ true
    → upsert_lease l db ≡ ok (true, with_lease l db)
unfolding upsert_lease
upsert_lease-fresh l db e f = rw (e, f) refl

-- Under fresh ids every statement of `take_claim` succeeds.
take_claim-fresh :
    (claimant instance_ : String) (host : Host) (db : Db) (w : WorkItemRow) (n : ℕ)
    → find_item db w.work_item_id ≡ some w
    → w.state ≡ ready
    → IsFresh host db
    → (take_claim w.work_item_id claimant instance_ host
        (record { db = db; committed = db; readings = n; draws = 0 })).0
      ≡ ok (host.uuid 0, host.uuid 2)
unfolding take_claim save_attempt save_claim save_lease read_clock uuid4 ◌>>=◌
take_claim-fresh claimant instance_ host db w n found at_ready fresh =
    let a : Attempt = new_attempt (host.uuid 0) w.work_item_id claimant instance_ in
    let c : Claim = new_claim (host.uuid 1) w.work_item_id (host.uuid 0) claimant in
    let l : Lease =
      new_lease (host.uuid 2) (host.uuid 0) instance_ (host.clock n) (host.clock (suc n)) in
    let d1 : Db = with_attempt a db in
    let d2 : Db = install_claim c w d1 in
    let d3 : Db = with_lease l d2 in
    let s0 : Session = record { db = db; committed = db; readings = suc (suc n); draws = 3 } in
    let known : any (λ x. x.attempt_id == host.uuid 0) d1.attempts ≡ true =
      any-snoc (host.uuid 0) a db.attempts (eq_refl (host.uuid 0)) in
    ap (λ r. r.0)
      (bind-ok (save_attempt a) _ host s0 (stored d1 s0) tt (
          connection-run _ host s0 tt d1 (upsert_attempt-fresh a db w (fresh.new_attempt_id) found))
        ∙ bind-ok (save_claim c) _ host (stored d1 s0) (stored d2 s0) tt (
            connection-run _ host (stored d1 s0) tt d2
              (insert_claim-fresh c d1 w found (fresh.new_claim_id) known))
        ∙ bind-ok (save_lease l) _ host (stored d2 s0) (stored d3 s0) true (
            connection-run _ host (stored d2 s0) true d3
              (upsert_lease-fresh l d2 (fresh.new_lease_id) known)))
    ∙ bind-pure
        (transition_work_item_state w.work_item_id claimed claimant "WORK_ITEM_CLAIMED"
          (some (host.uuid 0)))
        host (stored d3 s0) tt (host.uuid 0, host.uuid 2)
        (transition-ok w.work_item_id claimed claimant "WORK_ITEM_CLAIMED" (some (host.uuid 0)) host
          (stored d3 s0) (take_over (host.uuid 0) (next_generation w) w)
          (insert_claim-owner c d1 w found) (ready-claimed w.state at_ready))

ending-ok : {A : Type 0} (r : Result A) (s : Session) (a : A) → r ≡ ok a → (ending r s).0 ≡ ok a
ending-ok r s a e = rw e refl

-- A claim of a READY work item whose GO, where it needs one, is valid succeeds under fresh ids.
claim-ready :
    (claimant instance_ : String) (host : Host) (db : Db) (w : WorkItemRow)
    → find_item db w.work_item_id ≡ some w
    → w.state ≡ ready
    → (needs_authorization w.risk_class ≡ true
        → authorization_refusal
            (get_authorization db w.work_item_id)
            w.scope_digest_sha256
            (host.clock 0)
          ≡ none)
    → IsFresh host db
    → (transact (handle_claim w.work_item_id claimant instance_) host db).0
      ≡ ok (host.uuid 0, host.uuid 2)
unfolding handle_claim authorize_claim transact gets on_row ◌>>=◌ require pure read_clock
claim-ready claimant instance_ host db w found at_ready go fresh =
    let r : is_ready w.state ≡ true = is_ready-true w.state at_ready in
    elim (Bool-cases (needs_authorization w.risk_class)) [
      | inl e ↦
          rw (found, r, e, go e)
            (ending-ok _ _ _ (take_claim-fresh claimant instance_ host db w 1 found at_ready fresh))
      | inr e ↦
          rw (found, r, e)
            (ending-ok _ _ _ (take_claim-fresh claimant instance_ host db w 0 found at_ready fresh))
    ]

-- A selected work item, the only one of its id, can be claimed at the instant at which its GO was
-- looked at: the claim returns the new attempt and lease, provided the ids drawn for them are
-- fresh.
pub select-claimed :
    (clock : WorkItemRow → ℕ) (repo claimant instance_ : String) (host : Host) (db : Db)
    (w : WorkItemRow)
    → (select_next_work_item clock repo db).selected ≡ some w
    → find_item db w.work_item_id ≡ some w
    → host.clock 0 ≡ clock w
    → IsFresh host db
    → (transact (handle_claim w.work_item_id claimant instance_) host db).0
      ≡ ok (host.uuid 0, host.uuid 2)
select-claimed clock repo claimant instance_ host db w h found now fresh =
    let k = select-IsRunnable clock repo db w h in
    claim-ready claimant instance_ host db w found (k.is_ready)
      (λ risky.
        subst
          (λ t.
            authorization_refusal (get_authorization db w.work_item_id) w.scope_digest_sha256 t
            ≡ none)
          (sym now)
          ((authorization_refusal-none_iff _ w.scope_digest_sha256 (clock w)).1 (k.has_go risky)))
      fresh
