-- ===== src/Resources/Quota/Pools.antt =====
-- Opening a manager makes or raises a pool, so that it keeps the quotas.
use dotclaude_ecosystem.Db.{Db, HostResourceRequest, HostResourcePool}
use dotclaude_ecosystem.Resources.Keys.{default_pool_capacities}
use dotclaude_ecosystem.Resources.Rows.{find_pool}
use dotclaude_ecosystem.Resources.Quota.{
  Quota, pool, slot, source, uses, bound, capacity_in, RowsFit, IsWithinQuota,
}
use dotclaude_ecosystem.Resources.Methods.{
  of_old_capacity, ensure_from, save_resource_pool, default_pool, ensure_pool,
}
use dotclaude_ecosystem.Prelude.{
  ◌≤◌, String, ◌≡◌, refl, sym, subst, inl, inr, Bool, true, false, Option, none, some, List, [],
  ◌∷◌, ◌++◌, arith, Bool-cases, or_default, is_some, &&-left, first, count, update, ◌==◌, eq_iff,
  eq_refl, mem_str, get, ==→≡,
}

abbrev same_key : HostResourcePool → HostResourcePool → Bool
same_key p q = q.resource_key == p.resource_key

capacity_in-update_other :
    (p : HostResourcePool) (key : String) (pools : List HostResourcePool)
    → (p.resource_key == key) ≡ false
    → capacity_in (update (same_key p) (λ q. p) pools) key ≡ capacity_in pools key
unfolding first update
capacity_in-update_other p key [] e = refl
capacity_in-update_other p key (q ∷ qs) e = ground (
  arith,
  e,
  eq_iff (p.resource_key) key,
  eq_iff (q.resource_key) key,
  eq_iff (q.resource_key) (p.resource_key),
  capacity_in-update_other p key qs e,
)

capacity_in-update_same :
    (p : HostResourcePool) (pools : List HostResourcePool)
    → capacity_in pools p.resource_key ≤ p.capacity
    → capacity_in pools p.resource_key
      ≤ capacity_in (update (same_key p) (λ q. p) pools) p.resource_key
unfolding first update
capacity_in-update_same p [] h = ground arith
capacity_in-update_same p (q ∷ qs) h =
    ground (arith, h, eq_refl (p.resource_key), capacity_in-update_same p qs)

capacity_in-snoc :
    (p : HostResourcePool) (key : String) (pools : List HostResourcePool)
    → capacity_in pools key ≤ capacity_in (pools ++ p ∷ []) key
unfolding first
capacity_in-snoc p key [] = ground arith
capacity_in-snoc p key (q ∷ qs) = ground (arith, capacity_in-snoc p key qs)

-- An upsert that does not lower the capacity of its pool lowers none.
save_resource_pool-capacity_in :
    (p : HostResourcePool) (db : Db) (key : String)
    → capacity_in db.pools p.resource_key ≤ p.capacity
    → capacity_in db.pools key ≤ capacity_in (save_resource_pool p db).pools key
unfolding save_resource_pool
save_resource_pool-capacity_in p db key h =
    elim (Bool-cases (is_some (find_pool db p.resource_key))) [
      | inl e ↦ elim (Bool-cases (p.resource_key == key)) [
        | inl k ↦ rw e (
            subst
              (λ n. capacity_in db.pools n ≤ capacity_in (update (same_key p) (λ q. p) db.pools) n)
              (==→≡ _ _ k) (capacity_in-update_same p db.pools h))
        | inr k ↦ rw (e, capacity_in-update_other p key db.pools k) (omega arith)
      ]
      | inr e ↦ rw e (capacity_in-snoc p key db.pools)
    ]

browser_capacity :
    (key : String)
    → mem_str key ("cdp:chatgpt" ∷ "cdp:perplexity" ∷ []) ≡ true
    → 3 ≤ or_default (get default_pool_capacities key) 1
browser_capacity key m = elim (Bool-cases (key == "cdp:chatgpt")) [
  | inl e ↦
      subst (λ k. 3 ≤ or_default (get default_pool_capacities k) 1) (sym (==→≡ _ _ e)) (omega arith)
  | inr e ↦ elim (Bool-cases (key == "cdp:perplexity")) [
    | inl k ↦
        subst (λ k. 3 ≤ or_default (get default_pool_capacities k) 1) (sym (==→≡ _ _ k))
          (omega arith)
    | inr k ↦ cc (rw (e, k) at m)
  ]
]

ensure_from-capacity_in :
    (key other : String) (db : Db) (found : Option HostResourcePool)
    → find_pool db key ≡ found
    → capacity_in db.pools other ≤ capacity_in (ensure_from key db found).pools other
ensure_from-capacity_in key other db none e =
    save_resource_pool-capacity_in (default_pool key true) db other
      (rw (e, capacity_in) (omega arith))
ensure_from-capacity_in key other db (some p) e = elim (Bool-cases (of_old_capacity key p)) [
  | inl b ↦ rw b (
      save_resource_pool-capacity_in (default_pool key p.enabled) db other
        (rw (e, capacity_in) (raised b)))
  | inr b ↦ rw b (omega arith)
]
  where
    raised :
        of_old_capacity key p ≡ true → p.capacity ≤ or_default (get default_pool_capacities key) 1
    raised b =
        let known : p.capacity ≡ 3 = ground (arith, b) in
        omega (arith, known, browser_capacity key (&&-left _ _ (&&-left _ _ b)))

ensure_pool-capacity_in :
    (key other : String) (db : Db)
    → capacity_in db.pools other ≤ capacity_in (ensure_pool key db).pools other
unfolding ensure_pool
ensure_pool-capacity_in key other db = ensure_from-capacity_in key other db (find_pool db key) refl

ensure_pool-requests : (key : String) (db : Db) → (ensure_pool key db).requests ≡ db.requests
unfolding ensure_pool save_resource_pool
ensure_pool-requests key db = ground arith

RowsFit-grow :
    {pools pools' : List HostResourcePool} {rows : List HostResourceRequest}
    → RowsFit pools rows
    → ((key : String) → capacity_in pools key ≤ capacity_in pools' key)
    → RowsFit pools' rows
RowsFit-grow {pools} {pools'} {rows} f h = record { unique = f.unique; bounded = fit }
  where
    fit : (q : Quota) → count (uses q) rows ≤ bound pools' q
    fit (pool key) = omega (arith, f.bounded (pool key), h key)
    fit (slot key name) = f.bounded (slot key name)
    fit (source name) = f.bounded (source name)

pub ensure_pool-IsWithinQuota :
    (key : String) (db : Db) → IsWithinQuota db → IsWithinQuota (ensure_pool key db)
ensure_pool-IsWithinQuota key db f =
    subst (λ rows. RowsFit (ensure_pool key db).pools rows) (sym (ensure_pool-requests key db))
      (RowsFit-grow f (λ other. ensure_pool-capacity_in key other db))
