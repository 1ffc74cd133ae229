-- ===== src/Store/Ledger.antt =====
-- The event log: every state change that a command records is one of the table.
use dotclaude_ecosystem.Model.{can_transition}
use dotclaude_ecosystem.Db.{Db, EventRecord}
use dotclaude_ecosystem.Session.Keeps.{Keeps}
use dotclaude_ecosystem.Store.Commands.{Command, resource}
use dotclaude_ecosystem.Prelude.{◌≡◌, Bool, true, false, not, count}

abbrev pub unlawful : EventRecord → Bool
unlawful e = not (can_transition e.previous_state e.next_state)

abbrev pub LawfulLog : Db → Type 0
LawfulLog db = count unlawful db.events ≡ 0

-- The commands of the resource manager and of the status report.
abbrev pub is_resource : Command → Bool
is_resource (resource name) = true
is_resource _ = false
