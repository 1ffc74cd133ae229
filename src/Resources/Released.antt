-- ===== src/Resources/Released.antt =====
-- What a call of `release` that returns leaves behind.
use dotclaude_ecosystem.Db.{
  Db, HostResourceRequestState, released, quarantined, HostResourceRequest,
}
use dotclaude_ecosystem.Session.{Result, ok}
use dotclaude_ecosystem.Resources.Rows.{is_active, is_fenced}
use dotclaude_ecosystem.Resources.Admission.{children, own_lease_id}
use dotclaude_ecosystem.Resources.Methods.{ReleaseStatus, already_released}
use dotclaude_ecosystem.Prelude.{◌≡◌, ◌⊎◌, Bool, true, false, ◌&&◌, ltb, or_default}
use dotclaude_ecosystem.Resources.Frees.{IsFreed}

-- Children run under the request's own lease.
abbrev pub own_child : Db → HostResourceRequest → Bool
own_child db r = ltb 0 (children db (or_default (own_lease_id db r.request_id) ""))

abbrev pub is_over : HostResourceRequestState → Bool
is_over released = true
is_over quarantined = true
is_over _ = false

-- What a release of `r`, found in state `s`, comes to where it returns.
abbrev pub Releases :
    Db → HostResourceRequest → HostResourceRequestState → Result ReleaseStatus × Db → Type 0
Releases db r s out =
    (is_fenced s ≡ false)
    × (is_active s && own_child db r ≡ false)
    × (((is_over s ≡ true) × (out ≡ (ok (already_released s), db))) ⊎ IsFreed r.request_id out.1)
