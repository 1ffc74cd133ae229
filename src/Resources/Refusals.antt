-- ===== src/Resources/Refusals.antt =====
-- What the methods refuse, and that a refusal changes nothing.
use dotclaude_ecosystem.Db.{Db, recovery_required, HostResourceRequest, HostResourceLease}
use dotclaude_ecosystem.Session.{
  Error, admission_error, busy_error, Result, ok, err, Host, started, Session, Tx, ◌>>=◌, pure,
  raise, gets, run, modify, require, read_clock, uuid4, get_host, on_row, transact, settle, ending,
}
use dotclaude_ecosystem.Session.Sees.{is_ok}
use dotclaude_ecosystem.Model.{second}
use dotclaude_ecosystem.Resources.Keys.{provider_source_by_pool}
use dotclaude_ecosystem.Resources.Rows.{event, find_request, lease_of}
use dotclaude_ecosystem.Resources.Liveness.{owner_liveness, distance}
use dotclaude_ecosystem.Resources.Promotion.{promote_related, promote}
use dotclaude_ecosystem.Resources.Admission.{children}
use dotclaude_ecosystem.Resources.Methods.{
  active_lease, extend_lease, heartbeat, recovery_evidence, settled, recover_row, recover,
  set_lease, beat,
}
use dotclaude_ecosystem.Prelude.{
  ℕ, ◌+◌, ◌*◌, ◌≤◌, ◌<◌, String, ◌≡◌, refl, sym, ◌∙◌, inl, inr, Bool, true, false, not, ◌&&◌, some,
  arith, ltb, leb, leb-false→lt, Bool-cases, Option-cases, is_some, first, count, update, order_by,
  ◌==◌, get,
}

-- The transaction raises the error and the database stays as it was.
abbrev pub Refuses : {A : Type 0} → Tx A → Host → Db → Error → Type 0
Refuses m host db e = transact m host db ≡ (err e, db)

recovery_evidence-alive :
    (host : Host) (l : HostResourceLease) (provider attested : Bool) (reason : String)
    → owner_liveness host l.process_pid l.process_start_time ≡ (false, "OWNER_PROCESS_ALIVE")
    → recovery_evidence host (some l) provider attested reason
      ≡ err (admission_error "OWNER_PROCESS_ALIVE")
unfolding recovery_evidence
recovery_evidence-alive host l provider attested reason alive = rw alive refl

-- The start times differ by at most a second.
alive-judged :
    (host : Host) (pid observed recorded : ℕ)
    → host.probe pid ≡ started observed
    → distance observed recorded ≤ second
    → owner_liveness host (some pid) (some recorded) ≡ (false, "OWNER_PROCESS_ALIVE")
unfolding owner_liveness
alive-judged host pid observed recorded p close =
    let near : ltb second (distance observed recorded) ≡ false = ground (arith, close) in
    rw (p, near) refl

-- Where the lease of a fenced request records a process and its start time, and that process still
-- runs, `recover` raises and changes nothing, whatever the caller attests.
pub recover-alive :
    (request_id : String) (attested : Bool) (reason actor : String) (host : Host) (db : Db)
    (r : HostResourceRequest) (l : HostResourceLease) (pid observed recorded : ℕ)
    → find_request db request_id ≡ some r
    → r.state ≡ recovery_required
    → lease_of db r.request_id ≡ some l
    → l.process_pid ≡ some pid
    → l.process_start_time ≡ some recorded
    → host.probe pid ≡ started observed
    → distance observed recorded ≤ second
    → (e : Error) × Refuses (recover request_id attested reason actor) host db e
unfolding recover recover_row transact gets on_row raise ◌>>=◌ require settled get_host count
    owner_liveness read_clock modify event uuid4 promote_related promote order_by update first
recover-alive request_id attested reason actor host db r l pid observed recorded e s held p t runs
      close =
    let alive : owner_liveness host l.process_pid l.process_start_time
        ≡ (false, "OWNER_PROCESS_ALIVE") =
      rw (p, t) (alive-judged host pid observed recorded runs close) in
    let provider = is_some (get provider_source_by_pool r.resource_key) in
    elim (Bool-cases (not (provider && not (attested && not (reason == ""))))) [
      | inr g ↦ (admission_error "RETAINED_PROVIDER_TERMINAL_UNPROVEN", rw (e, s, g) refl)
      | inl g ↦ elim (Bool-cases (ltb 0 (children db l.lease_id))) [
        | inl k ↦ (busy_error "INHERITED_CHILD_ACTIVE", rw (e, s, g, held, k) refl)
        | inr k ↦ (
          admission_error "OWNER_PROCESS_ALIVE",
          rw (e, s, g, held, k, recovery_evidence-alive host l provider attested reason alive) refl,
        )
      ]
    ]

extend_lease-ok :
    (lease_id : String) (sequence ttl time : ℕ) (db : Db)
    → is_ok (extend_lease lease_id sequence ttl time db) ≡ true
    → (l : HostResourceLease) × (active_lease db lease_id ≡ some l)
      × (l.heartbeat_sequence < sequence)
      × (time < l.expires_at_utc)
      × (extend_lease lease_id sequence ttl time db
          ≡ ok (
            time + ttl * second,
            set_lease lease_id (beat sequence (time + ttl * second) time) db,
          ))
unfolding extend_lease
extend_lease-ok lease_id sequence ttl time db h = elim (Option-cases (active_lease db lease_id)) [
  | inl e ↦ cc (rw (e, is_ok) at h)
  | inr (l, e) ↦ elim (Bool-cases (leb sequence l.heartbeat_sequence)) [
    | inl k ↦ cc (rw (e, k, is_ok) at h)
    | inr k ↦ elim (Bool-cases (leb l.expires_at_utc time)) [
      | inl m ↦ cc (rw (e, k, m, is_ok) at h)
      | inr m ↦ (l, e, leb-false→lt _ _ k, leb-false→lt _ _ m, rw (extend_lease, e, k, m) refl)
    ]
  ]
]

is_ok-settle :
    {A : Type 0} (m : Result (A × Db)) (s : Session)
    → is_ok (ending (settle m s).0 (settle m s).1).0 ≡ is_ok m
is_ok-settle (ok a) s = refl
is_ok-settle (err e) s = refl

-- A heartbeat that succeeds found the lease of an active request, not yet expired, with a smaller
-- sequence number. The lease then has the number given, expires the ttl after the time of the call,
-- and nothing else changes.
pub heartbeat-extends :
    (lease_id : String) (sequence ttl : ℕ) (host : Host) (db : Db)
    → is_ok (transact (heartbeat lease_id sequence ttl) host db).0 ≡ true
    → (l : HostResourceLease) × (active_lease db lease_id ≡ some l)
      × (l.heartbeat_sequence < sequence)
      × (host.clock 0 < l.expires_at_utc)
      × (transact (heartbeat lease_id sequence ttl) host db ≡ (
        ok (host.clock 0 + ttl * second),
        set_lease lease_id (beat sequence (host.clock 0 + ttl * second) (host.clock 0)) db,
      ))
unfolding heartbeat transact ◌>>=◌ require read_clock run pure raise
heartbeat-extends lease_id sequence ttl host db h =
    elim (Bool-cases (leb 1 sequence && leb 1 ttl)) [
      | inr e ↦ cc (rw (e, is_ok) at h)
      | inl e ↦
          let h' : is_ok (extend_lease lease_id sequence ttl (host.clock 0) db) ≡ true =
            sym (is_ok-settle (extend_lease lease_id sequence ttl (host.clock 0) db) _)
            ∙ (rw e at h) in
          let (l, found, later, live, is) =
            extend_lease-ok lease_id sequence ttl (host.clock 0) db h' in
          (l, found, later, live, rw (e, is) refl)
    ]
