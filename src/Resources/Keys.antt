-- ===== src/Resources/Keys.antt =====
-- The closed sets and tables of scripts/conductor_resources.py, the routing of a request to its
-- pool and the checks on a request's arguments.
use dotclaude_ecosystem.Session.{value_error, Result, ok, err}
use dotclaude_ecosystem.Prelude.{
  ℕ, String, Bool, true, false, not, ◌&&◌, ◌||◌, none, some, List, [], ◌∷◌, ◌++◌, ltb,
  if◌then◌else◌, ◌==◌, starts_with, mem_str, get,
}

abbrev pub resource_key : String
resource_key = "host:heavy"

abbrev pub default_lease_ttl_seconds : ℕ
default_lease_ttl_seconds = 300

abbrev pub cdp_pools : List String
cdp_pools = "cdp:perplexity" ∷ "cdp:chatgpt" ∷ "cdp:gemini" ∷ "cdp:tv" ∷ []

abbrev pub provider_pools : List String
provider_pools =
    "provider:chatgpt" ∷ "provider:perplexity" ∷ "provider:cursor" ∷ "provider:antigravity"
    ∷ "provider:zai" ∷ "provider:claude" ∷ []

abbrev pub provider_source_by_pool : List (String × String)
provider_source_by_pool =
    ("provider:chatgpt", "chatgpt")
    ∷ ("provider:perplexity", "perplexity")
    ∷ ("provider:cursor", "cursor")
    ∷ ("provider:antigravity", "antigravity")
    ∷ ("provider:zai", "zai")
    ∷ ("provider:claude", "claude")
    ∷ ("cdp:chatgpt", "chatgpt")
    ∷ ("cdp:perplexity", "perplexity")
    ∷ ("cdp:gemini", "antigravity")
    ∷ []

abbrev pub provider_source_capacity : ℕ
provider_source_capacity = 3

abbrev pub known_resource_keys : List String
known_resource_keys = resource_key ∷ (cdp_pools ++ provider_pools)

abbrev pub default_pool_capacities : List (String × ℕ)
default_pool_capacities =
    ("provider:chatgpt", 3)
    ∷ ("provider:perplexity", 3)
    ∷ ("provider:cursor", 3)
    ∷ ("provider:antigravity", 3)
    ∷ ("provider:zai", 3)
    ∷ ("provider:claude", 3)
    ∷ ("host:heavy", 1)
    ∷ ("cdp:perplexity", 4)
    ∷ ("cdp:chatgpt", 4)
    ∷ ("cdp:gemini", 1)
    ∷ ("cdp:tv", 1)
    ∷ []

abbrev pub role_to_resource_key : List (String × String)
role_to_resource_key =
    ("chrome_ppl", "cdp:perplexity")
    ∷ ("chrome_gpt", "cdp:chatgpt")
    ∷ ("chrome_gemini", "cdp:gemini")
    ∷ ("chrome_tv", "cdp:tv")
    ∷ []

abbrev pub provider_purpose_to_pool : List (String × String)
provider_purpose_to_pool =
    ("provider_chatgpt", "provider:chatgpt")
    ∷ ("provider_perplexity", "provider:perplexity")
    ∷ ("provider_cursor", "provider:cursor")
    ∷ ("provider_antigravity", "provider:antigravity")
    ∷ ("provider_zai", "provider:zai")
    ∷ ("provider_claude", "provider:claude")
    ∷ []

abbrev pub purpose_to_resource_key : List (String × String)
purpose_to_resource_key =
    provider_purpose_to_pool
    ++ ("pytest_full", "host:heavy")
      ∷ ("pytest_heavy", "host:heavy")
      ∷ ("cdp_perplexity", "cdp:perplexity")
      ∷ ("cdp_chatgpt", "cdp:chatgpt")
      ∷ ("cdp_gemini", "cdp:gemini")
      ∷ ("cdp_tv", "cdp:tv")
      ∷ []

abbrev pub cdp_purposes : List String
cdp_purposes = "cdp_provider" ∷ "cdp_perplexity" ∷ "cdp_chatgpt" ∷ "cdp_gemini" ∷ "cdp_tv" ∷ []

abbrev pub valid_purposes : List String
valid_purposes =
    "provider_chatgpt" ∷ "provider_perplexity" ∷ "provider_cursor" ∷ "provider_antigravity"
    ∷ "provider_zai" ∷ "provider_claude" ∷ "pytest_full" ∷ "pytest_heavy" ∷ "pytest_focused"
    ∷ "playwright" ∷ cdp_purposes

unfoldable pub is_cdp_purpose : String → Bool
is_cdp_purpose purpose = mem_str purpose cdp_purposes

-- Where the source leaves out an argument it passes `None`; the tests on the three arguments are
-- for truth, which `None` and the empty text fail alike. Both are the empty text here.
unfoldable pub named_key : String → String → String
unfolding is_cdp_purpose
named_key purpose key = if (key == resource_key) && is_cdp_purpose purpose then "" else key

unfoldable pub route_unnamed : String → String → Result String
unfolding is_cdp_purpose
route_unnamed purpose role = elim (get role_to_resource_key role) [
  | some key ↦ ok key
  | none ↦ elim (get purpose_to_resource_key purpose) [
    | some key ↦ ok key
    | none ↦
        if is_cdp_purpose purpose
        then err (value_error "CDP purpose requires --role or --resource-key")
        else ok resource_key
  ]
]

unfoldable pub route : String → String → String → Result String
unfolding route_unnamed
route purpose role key =
    if not (key == "")
    then (if mem_str key known_resource_keys
        then ok key
        else err (value_error "unknown resource key"))
    else route_unnamed purpose role

unfoldable pub resolve_resource_key : String → String → String → Result String
unfolding named_key route
resolve_resource_key purpose role key =
    if (purpose == "pytest_focused") && (key == "") && (role == "")
    then err (value_error "pytest_focused does not acquire a host resource")
    else route purpose role (named_key purpose key)

-- `"provider_" + resource_key.split(":", 1)[1]` for a provider pool, by its table.
abbrev pub purpose_of_provider_pool : List (String × String)
purpose_of_provider_pool =
    ("provider:chatgpt", "provider_chatgpt")
    ∷ ("provider:perplexity", "provider_perplexity")
    ∷ ("provider:cursor", "provider_cursor")
    ∷ ("provider:antigravity", "provider_antigravity")
    ∷ ("provider:zai", "provider_zai")
    ∷ ("provider:claude", "provider_claude")
    ∷ []

-- The pool that a purpose is pinned to differs from the one asked for, for the purposes that
-- `pinned` selects.
abbrev pub pinned_elsewhere : (String → Bool) → List (String × String) → String → String → Bool
pinned_elsewhere pinned table purpose key = elim (get table purpose) [
  | none ↦ false
  | some pool ↦ pinned pool && not (pool == key)
]

unfoldable pub provider_mismatch : String → String → Bool
provider_mismatch purpose key = elim (get purpose_of_provider_pool key) [
  | some wanted ↦ not (wanted == purpose)
  | none ↦ false
]

unfoldable pub cross_contaminates : String → String → Bool
cross_contaminates purpose key =
    (starts_with purpose "pytest_" || (purpose == "playwright")) && starts_with key "cdp:"
    || not (starts_with purpose "pytest_") && (key == resource_key)

-- A ttl or a priority below 0 takes the branch of the refusal too; here both are natural numbers.
unfoldable pub validate_request : String → String → String → ℕ → ℕ → String → Result (Unit {0})
unfolding provider_mismatch cross_contaminates
validate_request purpose attempt_id agent_instance ttl priority key =
    if not (mem_str purpose valid_purposes)
    then err (value_error "unsupported resource purpose")
    else if (attempt_id == "") || (agent_instance == "")
    then err (value_error "attempt_id and agent_instance are required")
    else if ltb ttl 1
    then err (value_error "lease TTL must be positive")
    else if ltb 1000 priority
    then err (value_error "priority must be between 0 and 1000")
    else if provider_mismatch purpose key
    then err (value_error "provider pool requires its actual source purpose")
    else if pinned_elsewhere (λ pool. true) provider_purpose_to_pool purpose key
    then err (value_error "provider purpose must use its actual source pool")
    else if cross_contaminates purpose key
    then err (value_error "purpose cannot consume pool")
    else if pinned_elsewhere (λ pool. starts_with pool "cdp:") purpose_to_resource_key purpose key
    then err (value_error "purpose cannot consume pool")
    else ok tt

-- The pools of one provider source.
unfoldable pub pools_of : String → List (String × String) → List String
pools_of source [] = []
pools_of source ((pool, provider) ∷ rest) =
    let others = pools_of source rest in if provider == source then pool ∷ others else others
