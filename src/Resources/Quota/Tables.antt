-- ===== src/Resources/Quota/Tables.antt =====
-- The pools of a source, read backwards.
use dotclaude_ecosystem.Resources.Keys.{provider_source_by_pool, pools_of}
use dotclaude_ecosystem.Prelude.{
  String, ◌≡◌, refl, Bool, true, false, not, ◌&&◌, ◌||◌, some, List, [], ◌∷◌, arith, ◌==◌, eq_iff,
  mem_str, get,
}

abbrev has_key : List (String × String) → String → Bool
has_key [] k = false
has_key ((j, v) ∷ rest) k = (k == j) || has_key rest k

abbrev distinct : List (String × String) → Bool
distinct [] = true
distinct ((j, v) ∷ rest) = not (has_key rest j) && distinct rest

mem-pools_of-has_key :
    (s k : String) (table : List (String × String))
    → mem_str k (pools_of s table) ≡ true
    → has_key table k ≡ true
unfolding pools_of
mem-pools_of-has_key s k [] h = h
mem-pools_of-has_key s k ((j, v) ∷ rest) h = ground (arith, mem-pools_of-has_key s k rest, h)

get-pools_of :
    (s k : String) (table : List (String × String))
    → distinct table ≡ true
    → mem_str k (pools_of s table) ≡ true
    → get table k ≡ some s
unfolding pools_of
get-pools_of s k [] d h = cc
get-pools_of s k ((j, v) ∷ rest) d h = ground (
  arith,
  d,
  h,
  eq_iff k j,
  eq_iff j k,
  eq_iff v s,
  mem-pools_of-has_key s k rest,
  get-pools_of s k rest,
)

-- A pool among those of a source has that source.
pub source_of_pool :
    (s k : String)
    → mem_str k (pools_of s provider_source_by_pool) ≡ true
    → get provider_source_by_pool k ≡ some s
source_of_pool s k h = get-pools_of s k provider_source_by_pool refl h
