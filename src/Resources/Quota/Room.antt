-- ===== src/Resources/Quota/Room.antt =====
-- What the tests of `request` and `_promote_locked` leave room for.
use dotclaude_ecosystem.Db.{Db, HostResourceRequest, HostResourcePool}
use dotclaude_ecosystem.Prelude.Counts.{
  count_imp, any-false→count, first-count, first-holds, count-order_by, count-select-le,
  count-select-zero,
}
use dotclaude_ecosystem.Resources.Keys.{provider_source_by_pool, pools_of}
use dotclaude_ecosystem.Resources.Rows.{
  is_queued, fills_source, in_pool, has_id, fills, in_source, source_capacity, source_full,
  slot_taken, queue_before, find_pool,
}
use dotclaude_ecosystem.Resources.Promotion.{waiting, promotable, has_room, eligible}
use dotclaude_ecosystem.Resources.Quota.{Quota, pool, slot, source, uses, capacity_in, bound}
use dotclaude_ecosystem.Resources.Quota.Tables.{source_of_pool}
use dotclaude_ecosystem.Prelude.{
  ◌<◌, String, ◌≡◌, subst, inl, inr, Bool, true, false, not, ◌&&◌, some, arith, leb-false→lt,
  Bool-cases, Option-cases, &&-left, &&-right, select, first, any, count, ◌==◌, eq_refl, mem_str,
  get, ==→≡,
}

pub record Room (db : Db) (key name : String) : Type 0 where
  pub pool_room : count (fills key) db.requests < capacity_in db.pools key
  pub slot_free : slot_taken db key name ≡ false
  pub source_room : source_full db key ≡ false

-- A source that is not full has room for one more request at work.
pub source_quota_room :
    (db : Db) (key name : String)
    → source_full db key ≡ false
    → mem_str key (pools_of name provider_source_by_pool) ≡ true
    → count (uses (source name)) db.requests < source_capacity name
unfolding source_full
source_quota_room db key name free m =
    let e : get provider_source_by_pool key ≡ some name = source_of_pool name key m in
    omega (
      arith,
      leb-false→lt (source_capacity name)
          (count (λ r. fills_source r.state && in_source name r) db.requests)
          (rw (e, source_full) at free),
      count_imp (λ r. fills_source r.state && in_source name r) (uses (source name)) db.requests
          (λ r h. ground (arith, h)),
    )

free_slot :
    (db : Db) (key name : String)
    → slot_taken db key name ≡ false
    → not (name == "") ≡ true
    → any (λ x. fills key x && (x.slot_key == name)) db.requests ≡ false
unfolding slot_taken
free_slot db key name free given = ground (arith, free, given)

module _ (db : Db) (r : HostResourceRequest) (room : Room db (r.resource_key) (r.slot_key)) where
  pool_quota_room :
      (key : String)
      → r.resource_key ≡ key
      → count (uses (pool key)) db.requests < bound db.pools (pool key)
  pool_quota_room key e =
      subst (λ k. count (uses (pool k)) db.requests < bound db.pools (pool k)) e
        (omega (
          arith,
          room.pool_room,
          count_imp (fills (r.resource_key)) (uses (pool (r.resource_key))) db.requests
              (λ x h. ground (arith, h)),
        ))

  slot_quota_room :
      (key name : String)
      → r.resource_key ≡ key
      → r.slot_key ≡ name
      → not (name == "") ≡ true
      → count (uses (slot key name)) db.requests < 1
  slot_quota_room key name ek en given =
      let free : any (λ x. fills key x && (x.slot_key == name)) db.requests ≡ false =
        free_slot db key name
          (subst (λ k. slot_taken db k name ≡ false) ek
            (subst (λ n. slot_taken db (r.resource_key) n ≡ false) en room.slot_free))
          given in
      omega (
        arith,
        any-false→count (λ x. fills key x && (x.slot_key == name)) db.requests free,
        count_imp (λ x. fills key x && (x.slot_key == name)) (uses (slot key name)) db.requests
            (λ x h. ground (arith, h)),
      )

  -- So the row may go to work: every quota that it would use has room.
  pub quota_room : (q : Quota) → uses q r ≡ true → count (uses q) db.requests < bound db.pools q
  unfolding in_source
  quota_room (pool key) h = pool_quota_room key (==→≡ _ _ (&&-right _ _ h))
  quota_room (slot key name) h =
      slot_quota_room key name (==→≡ _ _ (&&-right _ _ (&&-left _ _ h)))
        (==→≡ _ _ (&&-right _ _ (&&-right _ _ h))) (&&-left _ _ (&&-right _ _ h))
  quota_room (source name) h =
      source_quota_room db (r.resource_key) name room.source_room (&&-right _ _ h)

-- A row that the promotion finds is a waiting row of the pool, and the pool has room for it.
pub record Found (db : Db) (key : String) (r : HostResourceRequest) : Type 0 where
  pub in_key : r.resource_key ≡ key
  pub room : Room db key (r.slot_key)
  pub listed :
      0
      < count
          (λ x. has_id r.request_id x && (in_pool key x && (x.slot_key == r.slot_key)))
          db.requests

first-waiting-in_pool :
    (p : HostResourceRequest → Bool) (db : Db) (key : String) (r : HostResourceRequest)
    → first p (waiting db key) ≡ some r
    → r.resource_key ≡ key
unfolding waiting
first-waiting-in_pool p db key r h = elim (Bool-cases (in_pool key r)) [
  | inl e ↦ ==→≡ _ _ e
  | inr e ↦ absurd (
      omega (
        arith,
        first-count p (λ x. not (in_pool key x)) (waiting db key) r h (rw e),
        count-order_by queue_before (λ x. not (in_pool key x))
            (select (λ x. in_pool key x && is_queued x.state) db.requests),
        count-select-zero (λ x. not (in_pool key x)) (λ x. in_pool key x && is_queued x.state)
            db.requests (λ x k. ground (arith, k)),
      ))
]

waiting-listed :
    (p s : HostResourceRequest → Bool) (db : Db) (key : String) (r : HostResourceRequest)
    → first p (waiting db key) ≡ some r
    → s r ≡ true
    → 0 < count s db.requests
unfolding waiting
waiting-listed p s db key r h k = omega (
  arith,
  first-count p s (waiting db key) r h k,
  count-order_by queue_before s (select (λ x. in_pool key x && is_queued x.state) db.requests),
  count-select-le s (λ x. in_pool key x && is_queued x.state) db.requests,
)

not-true : {b : Bool} → not b ≡ true → b ≡ false
not-true {b} h = ground (arith, h)

Found-first :
    (db : Db) (key : String) (r : HostResourceRequest) (p : HostResourcePool)
    → source_full db key ≡ false
    → find_pool db key ≡ some p
    → has_room db key p ≡ true
    → first (promotable db key) (waiting db key) ≡ some r
    → Found db key r
unfolding has_room promotable
Found-first db key r p free kept roomy h =
    let e : r.resource_key ≡ key = first-waiting-in_pool (promotable db key) db key r h in
    record {
      in_key = e;
      room = record {
        pool_room = rw (kept, capacity_in) (ground (arith, roomy));
        slot_free = not-true (&&-left _ _ (first-holds (promotable db key) (waiting db key) r h));
        source_room = free;
      };
      listed = waiting-listed (promotable db key) _ db key r h (simp (e, eq_refl));
    }

-- `_promote_locked` picks a row that may go to work.
pub eligible-Found :
    (db : Db) (key : String) (r : HostResourceRequest) → eligible db key ≡ some r → Found db key r
unfolding eligible
eligible-Found db key r h = elim (Bool-cases (source_full db key)) [
  | inl full ↦ cc (rw full at h)
  | inr free ↦ elim (Option-cases (find_pool db key)) [
    | inl gone ↦ cc (rw (free, gone) at h)
    | inr (p, kept) ↦ elim (Bool-cases (has_room db key p)) [
      | inl roomy ↦ Found-first db key r p free kept roomy (rw (free, kept, roomy) at h)
      | inr packed ↦ cc (rw (free, kept, packed) at h)
    ]
  ]
]
