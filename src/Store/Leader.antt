-- ===== src/Store/Leader.antt =====
-- `acquire_leader_lock` of scripts/conductor_store.py, under the write lock of BEGIN IMMEDIATE, and
-- what it excludes. Start times are microseconds.
use dotclaude_ecosystem.Model.{second}
use dotclaude_ecosystem.Session.{Host, Probe, started}
use dotclaude_ecosystem.Resources.Liveness.{distance}
use dotclaude_ecosystem.Prelude.Counts.{first-holds}
use dotclaude_ecosystem.Prelude.{
  ℕ, String, ◌≡◌, refl, sym, subst, inl, inr, Bool, true, false, ◌&&◌, Option, none, some, List, [],
  ◌∷◌, ◌++◌, ltb, eqb, if◌then◌else◌, Bool-cases, &&-left, first, count, update, ◌==◌, eq_refl,
  ==→≡,
}

pub record LeaderLock : Type 0 where
  pub lock_name : String
  pub leader_id : String
  pub pid : ℕ
  pub process_start_time : ℕ
  pub acquired_at_utc : ℕ
  pub last_heartbeat_utc : ℕ

-- The store that asks: its leader id, its process and the time.
pub record Caller : Type 0 where
  pub leader_id : String
  pub pid : ℕ
  pub now : ℕ

abbrev pub start_of : Probe → ℕ
start_of (started t) = t
start_of _ = 0

abbrev pub runs_since : Probe → ℕ → Bool
runs_since (started t) recorded = ltb (distance t recorded) second
runs_since _ recorded = false

-- Whether the process that the row names still runs.
abbrev pub is_alive : Host → LeaderLock → Bool
is_alive host l = runs_since (host.probe l.pid) l.process_start_time

abbrev pub of_name : String → LeaderLock → Bool
of_name name l = l.lock_name == name

abbrev pub owned_lock : String → String → LeaderLock → Bool
owned_lock name leader l = (l.lock_name == name) && (l.leader_id == leader)

abbrev pub renew : Caller → LeaderLock → LeaderLock
renew c l = record l { last_heartbeat_utc = c.now }

abbrev pub steal : Host → Caller → LeaderLock → LeaderLock
steal host c l = record l {
  leader_id = c.leader_id;
  pid = c.pid;
  process_start_time = start_of (host.probe c.pid);
  acquired_at_utc = c.now;
  last_heartbeat_utc = c.now;
}

abbrev pub new_lock : Host → String → Caller → LeaderLock
new_lock host name c = record {
  lock_name = name;
  leader_id = c.leader_id;
  pid = c.pid;
  process_start_time = start_of (host.probe c.pid);
  acquired_at_utc = c.now;
  last_heartbeat_utc = c.now;
}

abbrev pub acquire_from :
    Host → String → Caller → List LeaderLock → Option LeaderLock → Bool × List LeaderLock
acquire_from host name c locks none = (true, locks ++ new_lock host name c ∷ [])
acquire_from host name c locks (some l) =
    if l.leader_id == c.leader_id
    then (true, update (of_name name) (renew c) locks)
    else if is_alive host l
    then (false, locks)
    else (
      eqb (count (owned_lock name l.leader_id) locks) 1,
      update (owned_lock name l.leader_id) (steal host c) locks,
    )

unfoldable pub acquire_leader_lock :
    Host → String → Caller → List LeaderLock → Bool × List LeaderLock
acquire_leader_lock host name c locks = acquire_from host name c locks (first (of_name name) locks)

-- The lock of a running leader is refused to every other caller, and stays as it is.
held-refused :
    (host : Host) (name : String) (c : Caller) (locks : List LeaderLock) (l : LeaderLock)
    → first (of_name name) locks ≡ some l
    → (l.leader_id == c.leader_id) ≡ false
    → is_alive host l ≡ true
    → acquire_leader_lock host name c locks ≡ (false, locks)
unfolding acquire_leader_lock
held-refused host name c locks l found other alive = rw (found, other, alive) refl

first-append :
    (p : LeaderLock → Bool) (xs : List LeaderLock) (y : LeaderLock)
    → first p xs ≡ none
    → p y ≡ true
    → first p (xs ++ y ∷ []) ≡ some y
unfolding first
first-append p [] y h k = rw k refl
first-append p (x ∷ xs) y h k = elim (Bool-cases (p x)) [
  | inl e ↦ cc (rw e at h)
  | inr e ↦ rw e (first-append p xs y (rw e at h) k)
]

some_inj : {a b : LeaderLock} → some a ≡ some b → a ≡ b
some_inj h = cc h

-- An update of the rows of `q`, each one of `p`, where the first of `p` is one of `q`.
first-update_within :
    (p q : LeaderLock → Bool) (f : LeaderLock → LeaderLock) (xs : List LeaderLock) (x : LeaderLock)
    → first p xs ≡ some x
    → q x ≡ true
    → p (f x) ≡ true
    → ((y : LeaderLock) → q y ≡ true → p y ≡ true)
    → first p (update q f xs) ≡ some (f x)
unfolding first update
first-update_within p q f [] x h k l m = cc h
first-update_within p q f (y ∷ ys) x h k l m = elim (Bool-cases (p y)) [
  | inl e ↦
      let z : y ≡ x = some_inj (rw e at h) in
      subst
        (λ v.
          (if p (if q v then f v else v)
            then some (if q v then f v else v)
            else first p (update q f ys))
          ≡ some (f x))
        (sym z) (rw (k, l) refl)
  | inr e ↦ elim (Bool-cases (q y)) [
    | inl g ↦ cc (m y g, e)
    | inr g ↦ rw (g, e) (first-update_within p q f ys x (rw e at h) k l m)
  ]
]

-- The lock's row, where the caller was granted it, is the caller's.
granted-leader :
    (host : Host) (name : String) (c : Caller) (locks : List LeaderLock) (o : Option LeaderLock)
    → first (of_name name) locks ≡ o
    → (acquire_from host name c locks o).0 ≡ true
    → (l : LeaderLock) × (first (of_name name) ((acquire_from host name c locks o).1) ≡ some l)
      × (l.leader_id ≡ c.leader_id)
granted-leader host name c locks none found h = (
  new_lock host name c,
  first-append (of_name name) locks (new_lock host name c) found (eq_refl name),
  refl,
)
granted-leader host name c locks (some l) found h =
    let named : of_name name l ≡ true = first-holds (of_name name) locks l found in
    elim (Bool-cases (l.leader_id == c.leader_id)) [
      | inl e ↦ (
        renew c l,
        rw e (
            first-update_within (of_name name) (of_name name) (renew c) locks l found named named
              (λ y k. k)),
        ==→≡ _ _ e,
      )
      | inr e ↦ elim (Bool-cases (is_alive host l)) [
        | inl a ↦ cc (rw (e, a) at h)
        | inr a ↦ (
          steal host c l,
          rw (e, a)
              (first-update_within (of_name name) (owned_lock name l.leader_id) (steal host c) locks
                l found (rw (named, eq_refl l.leader_id) refl) named (λ y k. &&-left _ _ k)),
          refl,
        )
      ]
    ]

-- Two leaders never hold the lock at once: after a caller was granted it, every caller with another
-- leader id is refused, and changes nothing, for as long as the process that the row names runs.
pub acquire_leader_lock-excludes :
    (host later : Host) (name : String) (c d : Caller) (locks : List LeaderLock)
    → (acquire_leader_lock host name c locks).0 ≡ true
    → (c.leader_id == d.leader_id) ≡ false
    → ((l : LeaderLock)
        → first (of_name name) ((acquire_leader_lock host name c locks).1) ≡ some l
        → is_alive later l ≡ true)
    → acquire_leader_lock later name d ((acquire_leader_lock host name c locks).1)
      ≡ (false, (acquire_leader_lock host name c locks).1)
unfolding acquire_leader_lock
acquire_leader_lock-excludes host later name c d locks h other alive =
    refused (granted-leader host name c locks (first (of_name name) locks) refl h)
  where
    refused :
        (l : LeaderLock) × (first (of_name name) ((acquire_leader_lock host name c locks).1)
            ≡ some l)
          × (l.leader_id ≡ c.leader_id)
        → acquire_leader_lock later name d ((acquire_leader_lock host name c locks).1)
          ≡ (false, (acquire_leader_lock host name c locks).1)
    refused (l, found, own) =
        held-refused later name d _ l found
          (subst (λ i. (i == d.leader_id) ≡ false) (sym own) other) (alive l found)
