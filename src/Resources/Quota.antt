-- ===== src/Resources/Quota.antt =====
-- The quotas that admission promises: so many active requests in a pool, one in a slot of a pool,
-- so many requests at work for a provider source. The proofs that every method keeps them are in
-- the modules below.
pub mod Tables
pub mod Updates
pub mod Room
pub mod Promotes
pub mod Sweeps
pub mod Admits
pub mod Requests
pub mod Fences
pub mod Records
pub mod Pools
pub mod Calls
use dotclaude_ecosystem.Db.{Db, HostResourceRequest, HostResourcePool}
use dotclaude_ecosystem.Resources.Rows.{
  is_active, is_inherited, in_pool, has_id, in_source, source_capacity,
}
use dotclaude_ecosystem.Prelude.{
  ℕ, zero, suc, ◌+◌, ◌-◌, ◌*◌, ◌≤◌, ◌<◌, String, ◌≡◌, refl, sym, ap, ◌∙◌, subst, ◌≢◌, ◌↔◌, ◌⊎◌, inl,
  inr, Bool, true, false, not, ◌&&◌, ◌||◌, Option, none, some, List, [], ◌∷◌, ◌++◌, map, arith, ltb,
  leb, eqb, if◌then◌else◌, ltb→lt, leb-false→lt, Bool-cases, Option-cases, or_default, is_some,
  &&-left, &&-right, length, select, first, any, count, update, delete, insert_by, order_by, ◌==◌,
  starts_with, eq_iff, eq_refl, str_ltb, mem_str, get, opt_eq, ==→≡,
}

pub data Quota : Type 0 where
  pool : String → Quota
  slot : String → String → Quota
  source : String → Quota

-- The requests that use up a quota.
abbrev pub uses : Quota → HostResourceRequest → Bool
uses (pool key) r = is_active r.state && in_pool key r
uses (slot key name) r =
    is_active r.state && in_pool key r && (not (name == "") && (r.slot_key == name))
uses (source name) r = (is_active r.state || is_inherited r.state) && in_source name r

abbrev pub capacity_in : List HostResourcePool → String → ℕ
capacity_in pools key = elim (first (λ p. p.resource_key == key) pools) [
  | none ↦ 0
  | some p ↦ p.capacity
]

abbrev pub bound : List HostResourcePool → Quota → ℕ
bound pools (pool key) = capacity_in pools key
bound pools (slot key name) = 1
bound pools (source name) = source_capacity name

-- Request ids are distinct and no quota is exceeded.
pub record RowsFit (pools : List HostResourcePool) (rows : List HostResourceRequest) : Type 0 where
  pub unique : (id : String) → count (has_id id) rows ≤ 1
  pub bounded : (q : Quota) → count (uses q) rows ≤ bound pools q

-- The invariant of a transaction that leaves the pools alone.
pub record Fits (pools : List HostResourcePool) (db : Db) : Type 0 where
  pub rows : RowsFit pools db.requests
  pub same_pools : db.pools ≡ pools

-- The invariant of the database.
abbrev pub IsWithinQuota : Db → Type 0
IsWithinQuota db = RowsFit db.pools db.requests
