-- ===== src/Resources/Ghosts.antt =====
-- Which requests the sweep may release.
use dotclaude_ecosystem.Db.{Db, HostResourceRequestState, queued, inherited, HostResourceRequest}
use dotclaude_ecosystem.Session.{Host}
use dotclaude_ecosystem.Resources.Rows.{lease_of}
use dotclaude_ecosystem.Resources.Liveness.{Identity, owner_liveness}
use dotclaude_ecosystem.Resources.Sweep.{lease_row, lease_owner, request_owner}
use dotclaude_ecosystem.Prelude.{Bool, not, some, List, ◌++◌}

-- The identities that the sweep asks psutil about.
abbrev pub owners_by : HostResourceRequestState → Db → HostResourceRequest → List Identity
owners_by queued db r = request_owner r
owners_by inherited db r = lease_owner (lease_of db r.request_id) ++ request_owner r
owners_by _ db r = lease_owner (lease_row db r) ++ request_owner r

abbrev pub recorded_owners : Db → HostResourceRequest → List Identity
recorded_owners db r = owners_by r.state db r

-- Not proven gone.
abbrev pub may_live : Host → Identity → Bool
may_live host (pid, start) = not (owner_liveness host (some pid) start).0
