-- ===== src/Store/Handlers.antt =====
-- Every command handler keeps such an invariant.
use dotclaude_ecosystem.Model.{WorkItem, WorkItemState}
use dotclaude_ecosystem.Db.{Db, WorkItemRow, Lease, EvidenceCheckpoint}
use dotclaude_ecosystem.Session.{Error, Result, ok, err, Tx}
use dotclaude_ecosystem.Session.Keeps.{
  Keeps, Leaves, Keeps-bind, Keeps-raise, Keeps-gets, Keeps-run, Keeps-require, Keeps-read_clock,
  Keeps-on_row, keeps_rules,
}
use dotclaude_ecosystem.Session.Connections.{Keeps-on_connection, Keeps-behind}
use dotclaude_ecosystem.Store.Fence.{
  validate_worker_attempt_fence, fence, beat_rows, current_claim, complete_work_item_fenced,
  save_checkpoint_fenced, extend_lease_heartbeat_fenced,
}
use dotclaude_ecosystem.Store.Commands.{
  handle_enqueue, grant_interactive_operator_authorization, authorize_claim, take_claim,
  handle_claim, handle_heartbeat, handle_checkpoint, handle_complete, handle_cancel,
  handle_reconcile, Command, enqueue, authorize, claim, heartbeat, checkpoint, complete, cancel,
  reconcile, resource, unknown, CommandEnvelope, dispatch, handle,
}
use dotclaude_ecosystem.Store.Keeps.{
  Closed, save_work_item-Keeps, move_item-Keeps, transition-Keeps, save_attempt-Keeps,
  save_claim-Keeps, save_lease-Keeps, save_authorization-Keeps, insert_checkpoint-Leaves,
}
use dotclaude_ecosystem.Prelude.{
  ℕ, String, ◌≡◌, refl, ◌⊎◌, inl, inr, Bool, not, ◌&&◌, Option, none, some, Bool-cases, any, ◌==◌,
  opt_eq,
}

module _ {P : Db → Type 0} (closed : Closed P) where
  fence-Keeps :
      (attempt_id : String) (item lease : Option String) (generation : ℕ)
      → Keeps P (fence attempt_id item lease generation)
  unfolding fence
  fence-Keeps attempt_id item lease generation = Keeps-bind _ _ Keeps-read_clock (λ time.
      Keeps-run _ (λ db h.
        elim (judged (validate_worker_attempt_fence attempt_id item lease generation time db)) [
          | inl (a, e) ↦ rw (e, Leaves) h
          | inr (x, e) ↦ rw (e, Leaves) tt
        ]))
    where
      judged : {A : Type 0} (r : Result A) → ((a : A) × (r ≡ ok a)) ⊎ ((x : Error) × (r ≡ err x))
      judged (ok a) = inl (a, refl)
      judged (err x) = inr (x, refl)

  pub complete_work_item_fenced-Keeps :
      (id : String) (target : WorkItemState) (actor reason attempt_id : String) (generation : ℕ)
      → Keeps P (complete_work_item_fenced id target actor reason attempt_id generation)
  unfolding complete_work_item_fenced
  complete_work_item_fenced-Keeps id target actor reason attempt_id generation =
      Keeps-on_connection _ (
        Keeps-bind _ _ (fence-Keeps attempt_id (some id) none generation) (λ a.
          Keeps-bind _ _ (Keeps-gets _) (λ row. Keeps-on_row row _ _ (Keeps-raise _) (λ w _.
            Keeps-behind _ _ _ (λ allowed. Keeps-bind _ _ (Keeps-gets _) (λ b.
              Keeps-bind _ _ (Keeps-require b _)
                (λ _. move_item-Keeps closed _ _ target actor reason _ allowed)))))))

  pub save_checkpoint_fenced-Keeps :
      (c : EvidenceCheckpoint) (attempt_id : String) (generation : ℕ)
      → Keeps P (save_checkpoint_fenced c attempt_id generation)
  unfolding save_checkpoint_fenced
  save_checkpoint_fenced-Keeps c attempt_id generation = Keeps-on_connection _ (
      Keeps-bind _ _ (fence-Keeps attempt_id (some c.work_item_id) none generation) (λ a.
        Keeps-bind _ _ (Keeps-gets _) (λ b.
          Keeps-bind _ _ (Keeps-require b _)
            (λ _. Keeps-run _ (insert_checkpoint-Leaves closed _)))))

  beat_rows-Leaves :
      (l : Lease) (generation : ℕ) (db : Db) → P db → Leaves P (beat_rows l generation db)
  beat_rows-Leaves l generation db h =
      elim (Bool-cases (
        current_claim db l.attempt_id
        && any
            (λ a.
              (a.attempt_id == l.attempt_id)
              && not (a.status == "UNKNOWN")
              && not (opt_eq a.reason_code "STALE_SLOT_AUTO_RELEASED"))
            db.attempts)) [
              | inl e ↦ rw (e, Leaves) (closed.leases _ db h)
              | inr e ↦ rw (e, Leaves) h
            ]

  pub extend_lease_heartbeat_fenced-Keeps :
      (l : Lease) (generation : ℕ) → Keeps P (extend_lease_heartbeat_fenced l generation)
  unfolding extend_lease_heartbeat_fenced
  extend_lease_heartbeat_fenced-Keeps l generation = Keeps-on_connection _ (
      Keeps-bind _ _ (fence-Keeps l.attempt_id none (some l.lease_id) generation)
        (λ a. Keeps-run _ (beat_rows-Leaves l generation)))

  handle_enqueue-Keeps : (i : WorkItem) → Keeps P (handle_enqueue i)
  unfolding handle_enqueue
  handle_enqueue-Keeps i =
      search (keeps_rules, save_work_item-Keeps, transition-Keeps, closed) depth 16

  pub grant-Keeps :
      (id operator : String) (digest : Option String)
      → Keeps P (grant_interactive_operator_authorization id operator digest)
  unfolding grant_interactive_operator_authorization
  grant-Keeps id operator digest =
      search (keeps_rules, save_authorization-Keeps, transition-Keeps, closed) depth 20

  authorize_claim-Keeps : (w : WorkItemRow) (host : String) → Keeps P (authorize_claim w host)
  unfolding authorize_claim
  authorize_claim-Keeps w host = search (keeps_rules, transition-Keeps, closed) depth 16

  take_claim-Keeps : (id host instance_ : String) → Keeps P (take_claim id host instance_)
  unfolding take_claim
  take_claim-Keeps id host instance_ =
      search
        (
          keeps_rules, save_attempt-Keeps, save_claim-Keeps, save_lease-Keeps, transition-Keeps,
          closed,
        )
        depth 24

  handle_claim-Keeps : (id host instance_ : String) → Keeps P (handle_claim id host instance_)
  unfolding handle_claim
  handle_claim-Keeps id host instance_ =
      search (keeps_rules, authorize_claim-Keeps, take_claim-Keeps) depth 16

  handle_heartbeat-Keeps :
      (lease_id attempt_id instance_ : String) (sequence ttl generation : ℕ)
      → Keeps P (handle_heartbeat lease_id attempt_id instance_ sequence ttl generation)
  unfolding handle_heartbeat
  handle_heartbeat-Keeps lease_id attempt_id instance_ sequence ttl generation =
      search (keeps_rules, extend_lease_heartbeat_fenced-Keeps) depth 12

  handle_checkpoint-Keeps :
      (c : EvidenceCheckpoint) (attempt_id : String) (generation : ℕ)
      → Keeps P (handle_checkpoint c attempt_id generation)
  unfolding handle_checkpoint
  handle_checkpoint-Keeps c attempt_id generation =
      search (keeps_rules, save_checkpoint_fenced-Keeps) depth 12

  handle_complete-Keeps :
      (id attempt_id actor : String) (generation : ℕ)
      → Keeps P (handle_complete id attempt_id actor generation)
  unfolding handle_complete
  handle_complete-Keeps id attempt_id actor generation =
      search (keeps_rules, complete_work_item_fenced-Keeps) depth 12

  handle_cancel-Keeps : (id actor : String) → Keeps P (handle_cancel id actor)
  unfolding handle_cancel
  handle_cancel-Keeps id actor = search (keeps_rules, transition-Keeps, closed) depth 12

  handle_reconcile-Keeps : (dry_run : Bool) → Keeps P (handle_reconcile dry_run)
  unfolding handle_reconcile
  handle_reconcile-Keeps dry_run = search (keeps_rules, transition-Keeps, closed) depth 16

  module _ (other : String → Tx String) (others : (name : String) → Keeps P (other name)) where
    dispatch-Keeps : (c : Command) → Keeps P (dispatch other c)
    unfolding dispatch
    dispatch-Keeps (enqueue item) = handle_enqueue-Keeps item
    dispatch-Keeps authorize = Keeps-raise _
    dispatch-Keeps (claim id host instance_) = search (keeps_rules, handle_claim-Keeps) depth 8
    dispatch-Keeps (heartbeat lease_id attempt_id instance_ sequence ttl generation) =
        search (keeps_rules, handle_heartbeat-Keeps) depth 8
    dispatch-Keeps (checkpoint c attempt_id generation) =
        search (keeps_rules, handle_checkpoint-Keeps) depth 8
    dispatch-Keeps (complete id attempt_id actor generation) =
        search (keeps_rules, handle_complete-Keeps) depth 8
    dispatch-Keeps (cancel id actor) = search (keeps_rules, handle_cancel-Keeps) depth 8
    dispatch-Keeps (reconcile dry_run) = search (keeps_rules, handle_reconcile-Keeps) depth 8
    dispatch-Keeps (resource name) = others name
    dispatch-Keeps (unknown name) = Keeps-raise _

    pub handle-Keeps : (e : CommandEnvelope) → Keeps P (handle other e)
    unfolding handle
    handle-Keeps e = search (keeps_rules, dispatch-Keeps) depth 10
