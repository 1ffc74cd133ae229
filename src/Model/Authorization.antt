-- ===== src/Model/Authorization.antt =====
-- When a recorded operator GO still authorizes a scope (scripts/conductor_model.py).
use dotclaude_ecosystem.Model.{
  AuthorizationRecord, unreadable, authorization_expired, authorization_expiry,
  authorization_refusal, second, authorization_ttl_seconds,
}
use dotclaude_ecosystem.Prelude.{
  ℕ, ◌+◌, ◌*◌, ◌≤◌, ◌<◌, String, ◌≡◌, refl, ◌≢◌, ◌↔◌, true, Option, none, some, arith, eq_iff,
}

-- What a valid GO is.
pub record IsValidGo (auth : AuthorizationRecord) (scope : String) (now : ℕ) : Type 0 where
  pub proven : auth.interactive_provenance_proven ≡ true
  pub live : now < authorization_expiry auth
  pub in_scope : auth.scope_digest_sha256 ≡ scope

valid_go_passes :
    (a b : AuthorizationRecord) (scope : String) (now : ℕ)
    → some a ≡ some b
    → IsValidGo b scope now
    → authorization_refusal (some a) scope now ≡ none
unfolding authorization_refusal
valid_go_passes a b scope now e v =
    ground (arith, e, v.proven, v.live, v.in_scope, eq_iff b.scope_digest_sha256 scope)

-- `authorization_refusal` lets work pass exactly on a record whose provenance is proven, whose
-- expiry lies ahead and whose scope digest is that of the work item.
pub authorization_refusal-none_iff :
    (auth : Option AuthorizationRecord) (scope : String) (now : ℕ)
    → (authorization_refusal auth scope now ≡ none)
      ↔ ((a : AuthorizationRecord) × (auth ≡ some a) × IsValidGo a scope now)
unfolding authorization_refusal
authorization_refusal-none_iff none scope now = (λ h. cc, λ v. cc (v.1))
authorization_refusal-none_iff (some a) scope now = (
  λ h. (a, refl, ground (arith, eq_iff a.scope_digest_sha256 scope)),
  λ (b, e, v). valid_go_passes a b scope now e v,
)

-- Once refused as expired, a GO stays refused at every later instant, whatever the scope becomes.
pub expired_stays_refused :
    (a : AuthorizationRecord) (scope other : String) (now later : ℕ)
    → authorization_refusal (some a) scope now ≡ some authorization_expired
    → now ≤ later
    → authorization_refusal (some a) other later ≡ some authorization_expired
unfolding authorization_refusal
expired_stays_refused a scope other now later h le = ground arith

-- A GO recorded without an expiry, or with an unreadable one, is not eternal: the first ends its
-- TTL of seven days after its issue, the second authorizes nothing.
pub no_eternal_go :
    (a : AuthorizationRecord) (scope : String) (now : ℕ)
    → (a.expires_at_utc ≡ none
        → a.issued_at_utc + authorization_ttl_seconds * second ≤ now
        → authorization_refusal (some a) scope now ≢ none)
      × (a.expires_at_utc ≡ some unreadable → authorization_refusal (some a) scope now ≢ none)
unfolding authorization_refusal
no_eternal_go a scope now = (λ h le. ground arith, λ h. ground arith)
