-- ===== src/Scheduler/Runnable.antt =====
-- When a READY work item may run.
use dotclaude_ecosystem.Model.{
  AuthorizationRecord, WorkItemState, ready, completed, same_state, needs_authorization, ReasonCode,
}
use dotclaude_ecosystem.Model.Authorization.{IsValidGo}
use dotclaude_ecosystem.Model.Transitions.{same_state→≡}
use dotclaude_ecosystem.Db.{Db, WorkItemRow, HostResourceRequest, HostResourceRequestState}
use dotclaude_ecosystem.Store.Items.{get_authorization}
use dotclaude_ecosystem.Resources.Keys.{resource_key}
use dotclaude_ecosystem.Resources.Rows.{is_active, is_fenced, fills_pool, in_pool, fills}
use dotclaude_ecosystem.Scheduler.{
  list_work_items, resource_purpose, is_completed, host_is_busy, in_repo, unmet, unauthorized,
  kept_out, or_else,
}
use mathlib.Core.List.Memᴰ.{head, tail}
use dotclaude_ecosystem.Prelude.Members.{
  from_select, into_select, any-true, any-witness, from_order_by, into_order_by, count-none,
  none-counted,
}
use dotclaude_ecosystem.Prelude.{
  ℕ, String, ◌≡◌, refl, subst, ◌≢◌, ◌↔◌, inl, inr, Bool, true, false, not, ◌&&◌, ◌||◌, Option, none,
  some, List, [], ◌∷◌, arith, ltb, Bool-cases, select, ◌==◌, eq_iff, ==→≡, Memᴰ,
}

-- The work item `id` is recorded as COMPLETED.
abbrev pub IsDone : Db → String → Type 0
IsDone db id =
    (c : WorkItemRow) × Memᴰ c db.work_items × (c.state ≡ completed) × (c.work_item_id ≡ id)

-- A work item that may start: READY, of the repository asked for, with every dependency
-- completed; with a valid GO if it is of risk class R2 or R3; and, if it runs a heavy test suite,
-- with no request that fills the pool host:heavy.
pub record IsRunnable (db : Db) (repo : String) (now : ℕ) (w : WorkItemRow) : Type 0 where
  pub listed : Memᴰ w db.work_items
  pub is_ready : w.state ≡ ready
  pub of_repo : in_repo repo w ≡ true
  pub deps_done : (id : String) → Memᴰ id w.dependency_ids → IsDone db id
  pub has_go :
      needs_authorization w.risk_class ≡ true
      → (a : AuthorizationRecord) × (get_authorization db w.work_item_id ≡ some a)
        × IsValidGo a w.scope_digest_sha256 now
  pub host_free :
      resource_purpose w ≢ none
      → (r : HostResourceRequest) → Memᴰ r db.requests
      → fills resource_key r ≡ false

pub listed-Memᴰ :
    (s : WorkItemState) (db : Db) (w : WorkItemRow)
    → Memᴰ w (list_work_items s db)
    → Memᴰ w db.work_items × (same_state w.state s ≡ true)
unfolding list_work_items
listed-Memᴰ s db w m = from_select (λ w. same_state w.state s) db.work_items (from_order_by _ _ m)

pub is_completed→IsDone : (db : Db) (id : String) → is_completed db id ≡ true → IsDone db id
is_completed→IsDone db id h = found (any-witness _ _ h)
  where
    found :
        (c : WorkItemRow) × Memᴰ c (list_work_items completed db) × ((c.work_item_id == id) ≡ true)
        → IsDone db id
    found (c, m, e) = place (listed-Memᴰ completed db c m)
      where
        place : Memᴰ c db.work_items × (same_state c.state completed ≡ true) → IsDone db id
        place (l, k) = (c, l, same_state→≡ c.state completed k, ==→≡ c.work_item_id id e)

pub IsDone→is_completed : (db : Db) (id : String) → IsDone db id → is_completed db id ≡ true
unfolding list_work_items same_state
IsDone→is_completed db id (c, m, s, e) =
    any-true (λ w. w.work_item_id == id)
      (into_order_by _ _ (into_select (λ w. same_state w.state completed) m (rw s refl)))
      ((eq_iff c.work_item_id id).1 e)

pub unmet-none : (w : WorkItemRow) (ds : List String) → unmet w ds ≡ none → ds ≡ []
unmet-none w [] h = refl
unmet-none w (d ∷ ds) h = cc

pub select-none :
    (p : String → Bool) (ds : List String) (id : String)
    → select p ds ≡ []
    → Memᴰ id ds
    → p id ≡ false
select-none p ds id h m = elim (Bool-cases (p id)) [
  | inl e ↦ elim (subst (λ l. Memᴰ id l) h (into_select p m e)) [ ]
  | inr e ↦ e
]

pub select-empty :
    (p : String → Bool) (ds : List String)
    → ((id : String) → Memᴰ id ds → p id ≡ false)
    → select p ds ≡ []
unfolding select
select-empty p [] h = refl
select-empty p (d ∷ ds) h = rw (h d (head refl), select-empty p ds (λ id m. h id (tail m))) refl

pub not-false : (b : Bool) → not b ≡ false → b ≡ true
not-false true h = refl
not-false false h = cc

pub or_else-none : {A : Type 0} (a b : Option A) → or_else a b ≡ none → (a ≡ none) × (b ≡ none)
or_else-none none b h = (refl, h)
or_else-none (some x) b h = cc

pub unauthorized-none :
    (w : WorkItemRow) (r : Option ReasonCode) → unauthorized w r ≡ none → r ≡ none
unauthorized-none w none h = refl
unauthorized-none w (some r) h = cc

pub kept_out-none :
    (w : WorkItemRow) (b : Bool) (o : Option String) → kept_out w b o ≡ none → o ≢ none → b ≡ false
kept_out-none w b none h k = elim (k refl) [ ]
kept_out-none w false (some p) h k = refl
kept_out-none w true (some p) h k = cc

fills-split :
    (s : HostResourceRequestState) (b : Bool)
    → (fills_pool s && b ≡ false → (is_active s && b ≡ false) × (is_fenced s && b ≡ false))
      × (is_active s && b ≡ false → is_fenced s && b ≡ false → fills_pool s && b ≡ false)
fills-split s b = (λ h. (ground (arith, h), ground (arith, h)), λ h k. ground (arith, h, k))

positive-or : (m n : ℕ) → (ltb 0 m || ltb 0 n) ≡ false → (m ≡ 0) × (n ≡ 0)
positive-or m n h = (ground (arith, h), ground (arith, h))

-- The pool host:heavy counts as busy exactly when a request fills it.
pub host_is_busy-false_iff :
    (db : Db)
    → (host_is_busy db ≡ false)
      ↔ ((r : HostResourceRequest) → Memᴰ r db.requests → fills resource_key r ≡ false)
unfolding host_is_busy
host_is_busy-false_iff db = (
  λ h r m.
      let zeros = positive-or _ _ h in
      (fills-split r.state (in_pool resource_key r)).1
        (none-counted (λ r. is_active r.state && in_pool resource_key r) (zeros.0) m)
        (none-counted (λ r. is_fenced r.state && in_pool resource_key r) (zeros.1) m),
  λ h.
      rw
        (
          count-none (λ r. is_active r.state && in_pool resource_key r) db.requests
              (λ r m. ((fills-split r.state (in_pool resource_key r)).0 (h r m)).0),
          count-none (λ r. is_fenced r.state && in_pool resource_key r) db.requests
              (λ r m. ((fills-split r.state (in_pool resource_key r)).0 (h r m)).1),
        )
        refl,
)
