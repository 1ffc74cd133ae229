-- ===== src/Resources/Replays.antt =====
-- A call of `request` under an idempotency key that was used.
use dotclaude_ecosystem.Db.{Db, HostResourceRequest}
use dotclaude_ecosystem.Session.{
  Error, admission_error, Result, ok, err, Host, ◌>>=◌, pure, raise, gets, read_clock, on_row,
  transact,
}
use dotclaude_ecosystem.Resources.Keys.{validate_request}
use dotclaude_ecosystem.Resources.Sweep.{Cutoffs}
use dotclaude_ecosystem.Resources.Admission.{
  RequestArgs, RequestResult, same_request, own_lease_id, replay, checked, given_or_fresh, request,
}
use dotclaude_ecosystem.Prelude.{
  String, ◌≡◌, refl, sym, subst, ◌∙◌, ◌⊎◌, inl, inr, Bool, true, false, ◌&&◌, some, arith,
  if◌then◌else◌, Bool-cases, first, ◌==◌, ◌↔◌, ==→≡, eq_refl,
}
use dotclaude_ecosystem.Session.Sees.{is_ok}

-- The six fields that a replayed call has to name again.
abbrev pub SameFields : String → RequestArgs → HostResourceRequest → Type 0
SameFields key a r =
    (r.resource_key ≡ key)
    × (r.purpose ≡ a.purpose)
    × (r.attempt_id ≡ a.attempt_id)
    × (r.agent_instance ≡ a.agent_instance)
    × (r.slot_key ≡ a.slot_key)
    × (r.command_sha256 ≡ a.command_sha256)

six :
    (a b c d e f : Bool)
    → (a && b && c && d && e && f) ≡ true
    → (a ≡ true) × (b ≡ true) × (c ≡ true) × (d ≡ true) × (e ≡ true) × (f ≡ true)
six a b c d e f h = ground (arith, h)

same_request_iff :
    (key : String) (a : RequestArgs) (r : HostResourceRequest)
    → same_request key a r ≡ true ↔ SameFields key a r
same_request_iff key a r = (split, join)
  where
    split : same_request key a r ≡ true → SameFields key a r
    split h =
        let (k, p, i, g, s, c) = six _ _ _ _ _ _ h in
        (
          ==→≡ r.resource_key key k,
          ==→≡ r.purpose a.purpose p,
          ==→≡ r.attempt_id a.attempt_id i,
          ==→≡ r.agent_instance a.agent_instance g,
          ==→≡ r.slot_key a.slot_key s,
          ==→≡ r.command_sha256 a.command_sha256 c,
        )

    join : SameFields key a r → same_request key a r ≡ true
    join (k, p, i, g, s, c) =
        rw
          (
            k,
            p,
            i,
            g,
            s,
            c,
            eq_refl key,
            eq_refl a.purpose,
            eq_refl a.attempt_id,
            eq_refl a.agent_instance,
            eq_refl a.slot_key,
            eq_refl a.command_sha256,
          )
          refl

abbrev pub valid_args : String → RequestArgs → Result (Unit {0})
valid_args key a =
    validate_request a.purpose a.attempt_id a.agent_instance a.lease_ttl_seconds a.priority key

abbrev pub stored_result : Db → HostResourceRequest → RequestResult
stored_result db r = record {
  request = r;
  lease_id = own_lease_id db r.request_id;
  idempotent_replay = true;
}

-- What a call of `request` may do where a request is stored under its idempotency key.
abbrev pub Replays :
    String → RequestArgs → HostResourceRequest → Db → Result RequestResult × Db → Type 0
Replays key a r db (result, after) =
    (after ≡ db)
    × (is_ok result ≡ true ↔ (valid_args key a ≡ ok tt) × SameFields key a r)
    × ((is_ok result ≡ false) ⊎ (result ≡ ok (stored_result db r)))

module _ (c : Cutoffs) (key : String) (a : RequestArgs) (host : Host) (db : Db)
    (idempotency : String) (r : HostResourceRequest) where
  request-invalid :
      (e : Error) → valid_args key a ≡ err e → transact (request c key a) host db ≡ (err e, db)
  unfolding request transact ◌>>=◌ checked raise
  request-invalid e invalid = rw invalid refl

  request-stored :
      valid_args key a ≡ ok tt
      → a.idempotency_key ≡ some idempotency
      → (idempotency == "") ≡ false
      → first (λ x. x.idempotency_key == idempotency) db.requests ≡ some r
      → transact (request c key a) host db ≡ (
        if same_request key a r
            then ok (stored_result db r)
            else err (admission_error "RESOURCE_IDEMPOTENCY_CONFLICT"),
        db,
      )
  unfolding request replay transact ◌>>=◌ gets on_row checked given_or_fresh read_clock pure raise
  request-stored valid given proper found = elim (Bool-cases (same_request key a r)) [
    | inl e ↦ rw (valid, given, proper, found, e) refl
    | inr e ↦ rw (valid, given, proper, found, e) refl
  ]

  stored-Replays :
      (b : Bool)
      → same_request key a r ≡ b
      → valid_args key a ≡ ok tt
      → Replays key a r db (
        if b
            then ok (stored_result db r)
            else err (admission_error "RESOURCE_IDEMPOTENCY_CONFLICT"),
        db,
      )
  stored-Replays true e valid =
      (refl, ((λ _. (valid, (same_request_iff key a r).0 e)), (λ _. refl)), inr refl)
  stored-Replays false e valid =
      (refl, ((λ h. cc h), (λ (_, same). cc (sym e ∙ (same_request_iff key a r).1 same))), inl refl)

-- Where a request is stored under the idempotency key of a call, the call changes nothing. It
-- returns exactly when its arguments are valid and name the same pool, purpose, attempt, agent, slot
-- and command digest as the stored request, and then it returns that request as it now is.
pub request-Replays :
    (c : Cutoffs) (key : String) (a : RequestArgs) (host : Host) (db : Db) (idempotency : String)
    (r : HostResourceRequest)
    → a.idempotency_key ≡ some idempotency
    → (idempotency == "") ≡ false
    → first (λ x. x.idempotency_key == idempotency) db.requests ≡ some r
    → Replays key a r db (transact (request c key a) host db)
request-Replays c key a host db idempotency r given proper found =
    by_arguments (valid_args key a) refl
  where
    by_arguments :
        (v : Result (Unit {0}))
        → valid_args key a ≡ v
        → Replays key a r db (transact (request c key a) host db)
    by_arguments (err e) h =
        subst (Replays key a r db) (sym (request-invalid c key a host db idempotency r e h))
          (refl, ((λ k. cc k), (λ (valid, _). cc (sym h ∙ valid))), inl refl)
    by_arguments (ok tt) h =
        subst (Replays key a r db)
          (sym (request-stored c key a host db idempotency r h given proper found))
          (stored-Replays c key a host db idempotency r (same_request key a r) refl h)
