-- ===== src/Resources/Sweep.antt =====
-- `_sweep_stale_slots_locked`: which requests are ghosts, what releasing one writes, and the loop.
mod Evidence
unfoldable pub use Evidence.*
use Prim.Native.Nat.{max}
use Prim.Native.String.{◌++◌ as append}
use dotclaude_ecosystem.Model.{
  second, WorkItemState, claimed, dispatching, running, waiting_external, review,
  recovery_required as item_recovery_required, mem_state,
}
use dotclaude_ecosystem.Db.{
  Db, WorkItemRow, HostResourceRequestState, queued, active, inherited, released, recovery_required,
  HostResourceRequest, HostResourceLease, HostResourceEvent,
}
use dotclaude_ecosystem.Session.{Host, Tx, ◌>>=◌, ◌>>◌, pure, gets, modify, uuid4, get_host, on_row}
use dotclaude_ecosystem.Resources.Liveness.{Identity, all_recorded_owners_gone, recorded}
use dotclaude_ecosystem.Resources.Rows.{
  is_queued, is_active, is_inherited, has_id, lease_of, lease_by_id, oldest_before, find_attempt,
  event_at,
}
use dotclaude_ecosystem.Resources.Promotion.{promote_related}
use dotclaude_ecosystem.Prelude.{
  ℕ, zero, suc, ◌-◌, ◌*◌, String, Bool, true, false, not, ◌&&◌, ◌||◌, Option, none, some, List, [],
  ◌∷◌, ◌++◌, map, ltb, leb, eqb, if◌then◌else◌, or_default, is_some, length, select, first, any,
  update, delete, order_by, ◌==◌, mem_str, opt_eq,
}

abbrev pub release_reason : String → String
release_reason e =
    if e == "CDP_MAX_HOLD_EXCEEDED" then "CDP_MAX_HOLD_EXCEEDED" else "STALE_SLOT_AUTO_RELEASED"

abbrev pub free : ℕ → String → HostResourceRequest → HostResourceRequest
free time reason r = record r {
  state = released;
  released_at_utc = some time;
  reason_code = some reason;
}

-- States from which a reaped attempt's work item is fenced.
abbrev pub fenceable : List WorkItemState
fenceable =
    claimed ∷ dispatching ∷ running ∷ waiting_external ∷ review ∷ item_recovery_required ∷ []

unfoldable pub holds_claim : Db → String → WorkItemRow → Bool
holds_claim db attempt_id w =
    opt_eq w.current_claim_attempt_id attempt_id
    && elim (first (λ c. c.attempt_id == attempt_id) db.claims) [
      | none ↦ false
      | some c ↦ elim w.current_claim_generation [
        | none ↦ false
        | some g ↦ eqb g c.claim_generation
      ]
    ]

-- The work item that the attempt still owns, if it is at work.
unfoldable pub fence_target : Db → String → Option WorkItemRow
unfolding holds_claim
fence_target db attempt_id = elim (find_attempt db attempt_id) [
  | none ↦ none
  | some a ↦ elim (first (λ w. w.work_item_id == a.work_item_id) db.work_items) [
    | none ↦ none
    | some w ↦
        if not (a.work_item_id == "") && mem_state w.state fenceable && holds_claim db attempt_id w
        then some w
        else none
  ]
]

abbrev pub set_item_state : String → WorkItemState → Db → Db
set_item_state id s db = record db {
  work_items =
      update (λ w. w.work_item_id == id) (λ w. record w { item = record (w.item) { state = s } })
        db.work_items;
}

unfoldable pub fence_work_item : String → String → String → ℕ → Tx (Unit {0})
unfolding fence_target
fence_work_item attempt_id actor reason time = do
  target ← gets (λ db. fence_target db attempt_id)
  on_row target (pure tt) (λ w. do
    modify (set_item_state w.work_item_id item_recovery_required)
    id ← uuid4
    modify (λ db. record db {
      events =
          db.events
          ++ record {
            event_id = id;
            work_item_id = w.work_item_id;
            attempt_id = some attempt_id;
            previous_state = w.state;
            next_state = item_recovery_required;
            actor_identity = actor;
            reason_code = reason;
            recorded_at_utc = time;
          }
            ∷ [];
    }))

-- The attempt's outcome becomes UNKNOWN, its waiting requests and its lease go.
abbrev pub revoke_attempt : String → String → ℕ → Db → Db
revoke_attempt attempt_id reason time db = record db {
  requests =
      update (λ r. (r.attempt_id == attempt_id) && is_queued r.state) (free time reason)
        db.requests;
  leases = delete (λ l. l.attempt_id == attempt_id) db.leases;
  attempts =
      update (λ a. a.attempt_id == attempt_id)
        (λ a. record a { status = "UNKNOWN"; reason_code = some reason; ended_at_utc = some time })
        db.attempts;
}

-- The request is released and its own lease deleted; a parent's lease stays.
abbrev pub drop_request : HostResourceRequest → Option HostResourceLease → String → ℕ → Db → Db
drop_request r lease reason time db = record db {
  requests = update (has_id r.request_id) (free time reason) db.requests;
  resource_leases =
      delete
        (λ l.
          (l.request_id == r.request_id)
          || not (is_inherited r.state) && elim lease [
            | none ↦ false
            | some own ↦ (own.request_id == r.request_id) && (own.lease_id == l.lease_id)
          ])
        db.resource_leases;
}

-- The receipt's result and the event's details stand for the evidence that both record.
unfoldable pub save_release_receipt : HostResourceRequest → String → Tx (Unit {0})
save_release_receipt r e = do
  receipt_id ← uuid4
  command_id ← uuid4
  modify (λ db. record db {
    receipts =
        db.receipts
        ++ record {
          receipt_id = receipt_id;
          command_id = command_id;
          idempotency_key = append "stale_slot_auto_release_" (r.request_id);
          status = "SUCCESS";
          result = e;
          error_message = none;
        }
          ∷ [];
  })

unfoldable pub auto_release : HostResourceRequest → String → String → ℕ → Tx (Unit {0})
unfolding fence_work_item save_release_receipt held_lease
auto_release r e actor time = do
  lease ← gets (λ db. lease_row db r)
  lease_id ← gets (λ db. held_lease db r)
  let reason = release_reason e
  modify (drop_request r lease reason time)
  if r.attempt_id == "" then pure tt else do
    modify (revoke_attempt r.attempt_id reason time)
    fence_work_item r.attempt_id actor reason time
  event_at time r.request_id lease_id (some r.state) released actor reason e none
  save_release_receipt r e
  promote_related r.resource_key actor
  pure tt

unfoldable pub sweep_rows :
    Cutoffs → ℕ → Bool → String → List HostResourceRequest → List String → Tx (List String)
unfolding verdict auto_release
sweep_rows c time dry_run actor [] swept = pure swept
sweep_rows c time dry_run actor (r ∷ rs) swept = do
  host ← get_host
  found ← gets (verdict c host time swept r)
  on_row found (sweep_rows c time dry_run actor rs swept) (λ e. do
    if dry_run then pure tt else auto_release r e actor time
    sweep_rows c time dry_run actor rs (swept ++ r.request_id ∷ []))

abbrev pub sweepable : Bool → HostResourceRequestState → Bool
sweepable include_active queued = true
sweepable include_active recovery_required = true
sweepable include_active inherited = true
sweepable include_active active = include_active
sweepable include_active _ = false

abbrev pub in_scope : Option String → HostResourceRequest → Bool
in_scope none r = true
in_scope (some key) r = r.resource_key == key

unfoldable pub candidates : Bool → Option String → Db → List HostResourceRequest
unfolding oldest_before
candidates include_active key db =
    order_by oldest_before
      (select (λ r. sweepable include_active r.state && in_scope key r) db.requests)

-- `while True:` until a round sweeps nothing.
unfoldable pub sweep_rounds :
    ℕ → Cutoffs → ℕ → Bool → String → Bool → Option String → List String → Tx (List String)
unfolding sweep_rows candidates
sweep_rounds zero c time dry_run actor include_active key swept = pure swept
sweep_rounds (suc fuel) c time dry_run actor include_active key swept = do
  rows ← gets (candidates include_active key)
  swept' ← sweep_rows c time dry_run actor rows swept
  let more = sweep_rounds fuel c time dry_run actor include_active key swept'
  if eqb (length swept') (length swept) then pure swept' else more

-- Every round but the last sweeps a request that no round swept before, so there are at most as
-- many rounds as requests, and one more.
unfoldable pub sweep_stale_slots :
    Cutoffs → ℕ → Bool → String → Bool → Option String → Tx (List String)
unfolding sweep_rounds
sweep_stale_slots c time dry_run actor include_active key =
    if leb c.ttl 0 && leb c.cdp_max_hold 0 then pure [] else do
      fuel ← gets (λ db. suc (length db.requests))
      sweep_rounds fuel c time dry_run actor include_active key []
