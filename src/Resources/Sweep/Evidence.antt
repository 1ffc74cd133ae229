-- ===== src/Resources/Sweep/Evidence.antt =====
-- The evidence on which the sweep of `_sweep_stale_slots_locked` may release a request.
use Prim.Native.Nat.{max}
use dotclaude_ecosystem.Model.{second}
use dotclaude_ecosystem.Db.{
  Db, HostResourceRequestState, queued, inherited, HostResourceRequest, HostResourceLease,
  HostResourceEvent,
}
use dotclaude_ecosystem.Session.{Host}
use dotclaude_ecosystem.Resources.Liveness.{Identity, all_recorded_owners_gone, recorded}
use dotclaude_ecosystem.Resources.Rows.{is_active, is_inherited, lease_of, lease_by_id}
use dotclaude_ecosystem.Prelude.{
  ℕ, ◌-◌, ◌*◌, String, Bool, true, false, not, ◌&&◌, ◌||◌, Option, none, some, List, [], ◌∷◌, ◌++◌,
  map, ltb, leb, if◌then◌else◌, or_default, is_some, select, any, ◌==◌, mem_str, opt_eq,
}

-- The three cutoffs, in seconds; 0 switches a rule off.
pub record Cutoffs : Type 0 where
  pub ttl : ℕ
  pub cdp_max_hold : ℕ
  pub queued_unrecorded_ttl : ℕ

-- MAX(...) and MIN(...) over instants.
abbrev pub latest : List ℕ → Option ℕ
latest [] = none
latest (t ∷ ts) = some (elim (latest ts) [ none ↦ t | some u ↦ max t u ])

abbrev pub earliest : List ℕ → Option ℕ
earliest [] = none
earliest (t ∷ ts) = some (elim (earliest ts) [ none ↦ t | some u ↦ if ltb u t then u else t ])

abbrev pub event_times : (HostResourceEvent → Bool) → Db → List ℕ
event_times p db = map (λ e. e.recorded_at_utc) (select p db.resource_events)

-- Since when an active request holds its slot.
unfoldable pub activation : Db → HostResourceRequest → ℕ
activation db r =
    elim (latest (
      event_times
        (λ e. (e.request_id == r.request_id) && (e.reason_code == "HOST_RESOURCE_PROMOTED")) db)) [
          | some t ↦ t
          | none ↦
              or_default
                (earliest
                  (event_times (λ e. (e.request_id == r.request_id) && is_some e.lease_id) db))
                r.created_at_utc
        ]

unfoldable pub max_hold_exceeded : Cutoffs → ℕ → Db → HostResourceRequest → Bool
unfolding activation
max_hold_exceeded c time db r =
    is_active r.state
    && mem_str r.resource_key ("cdp:chatgpt" ∷ "cdp:perplexity" ∷ [])
    && ltb 0 c.cdp_max_hold
    && leb (c.cdp_max_hold * second) (time - activation db r)

-- The request's own lease, else the parent's.
unfoldable pub lease_row : Db → HostResourceRequest → Option HostResourceLease
lease_row db r = elim (lease_of db r.request_id) [
  | some l ↦ some l
  | none ↦ elim r.parent_lease_id [ none ↦ none | some id ↦ lease_by_id db id ]
]

unfoldable pub heartbeat_expired : ℕ → Option HostResourceLease → Bool
heartbeat_expired time none = true
heartbeat_expired time (some l) = leb l.expires_at_utc time

abbrev pub counts_as_activity : HostResourceRequest → HostResourceEvent → Bool
counts_as_activity r e =
    (e.request_id == r.request_id)
    && not (
        mem_str e.reason_code
          ("LEASE_EXPIRED" ∷ "STALE_SLOT_AUTO_RELEASED" ∷ "CDP_MAX_HOLD_EXCEEDED" ∷ []))

-- The later of creation, heartbeat, owner sighting and state change.
unfoldable pub latest_activity : Db → HostResourceRequest → ℕ
unfolding lease_row
latest_activity db r = max r.created_at_utc (
    max (elim (lease_row db r) [ none ↦ 0 | some l ↦ l.last_heartbeat_utc ])
      (max (or_default r.owner_last_seen_at_utc 0)
        (or_default (latest (event_times (counts_as_activity r) db)) 0)))

-- A row that still shows life, or is not old enough, is passed over.
unfoldable pub too_young : Cutoffs → ℕ → Db → HostResourceRequest → Bool
unfolding lease_row heartbeat_expired latest_activity
too_young c time db r =
    (is_active r.state || is_inherited r.state) && not (heartbeat_expired time (lease_row db r))
    || leb c.ttl 0
    || ltb (time - latest_activity db r) (c.ttl * second)

-- `OWNER_DEAD` where owners are recorded and every one is proven gone.
unfoldable pub dead_owners : Host → List Identity → Option String
unfolding all_recorded_owners_gone
dead_owners host owners =
    if (all_recorded_owners_gone host owners).0 then some "OWNER_DEAD" else none

abbrev pub lease_owner : Option HostResourceLease → List Identity
lease_owner none = []
lease_owner (some l) = recorded l.process_pid l.process_start_time

abbrev pub request_owner : HostResourceRequest → List Identity
request_owner r = recorded r.owner_process_pid r.owner_process_start_time

abbrev pub unless_unrecorded : Host → List Identity → Option String → Option String
unless_unrecorded host [] otherwise = otherwise
unless_unrecorded host (o ∷ os) otherwise = dead_owners host (o ∷ os)

abbrev pub state_evidence :
    HostResourceRequestState → Cutoffs → Host → ℕ → Db → HostResourceRequest → Option String
state_evidence inherited c host time db r =
    unless_unrecorded host (lease_owner (lease_of db r.request_id) ++ request_owner r) none
state_evidence queued c host time db r = unless_unrecorded host (request_owner r) (
    if leb c.queued_unrecorded_ttl 0
      || ltb (time - latest_activity db r) (c.queued_unrecorded_ttl * second)
    then none
    else some "OWNER_UNRECORDED")
state_evidence _ c host time db r =
    unless_unrecorded host (lease_owner (lease_row db r) ++ request_owner r)
      (some "OWNER_UNRECORDED")

-- The evidence on which a row may be released, if there is any.
unfoldable pub evidence : Cutoffs → Host → ℕ → Db → HostResourceRequest → Option String
unfolding max_hold_exceeded too_young dead_owners
evidence c host time db r =
    if max_hold_exceeded c time db r
    then some "CDP_MAX_HOLD_EXCEEDED"
    else if too_young c time db r
    then none
    else state_evidence r.state c host time db r

-- The lease through which children hold on to the row.
unfoldable pub held_lease : Db → HostResourceRequest → Option String
unfolding lease_row
held_lease db r = elim (lease_row db r) [ some l ↦ some l.lease_id | none ↦ r.parent_lease_id ]

abbrev pub surviving_child : String → List String → String → HostResourceRequest → Bool
surviving_child lease_id swept request_id child =
    opt_eq child.parent_lease_id lease_id
    && is_inherited child.state
    && not (mem_str child.request_id swept)
    && not (child.request_id == request_id)

unfoldable pub has_children : Db → List String → HostResourceRequest → Bool
unfolding held_lease
has_children db swept r = elim (held_lease db r) [
  | none ↦ false
  | some lease_id ↦
      not (lease_id == "") && any (surviving_child lease_id swept r.request_id) db.requests
]

-- What the sweep decides about one candidate.
unfoldable pub verdict : Cutoffs → Host → ℕ → List String → HostResourceRequest → Db → Option String
unfolding evidence has_children
verdict c host time swept r db =
    if mem_str r.request_id swept then none else elim (evidence c host time db r) [
      | none ↦ none
      | some e ↦ if has_children db swept r then none else some e
    ]
