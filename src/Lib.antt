-- ===== src/Lib.antt =====
-- A model of the conductor: the state machine of work items, the store that guards who may write
-- them, the processor of command envelopes, and the manager that admits consumers to the limited
-- resources of a host; the scheduler that picks the next work item, and the evidence gates of
-- TruthDeck. Paths are from the repository's root.
--
-- The parts and their files
--   Model        scripts/conductor_model.py: WorkItemState, VALID_TRANSITIONS, authorization_refusal
--                and the entities. Model.Transitions and Model.Authorization hold what is proved.
--   Db           the tables of the database (scripts/conductor_store.py, `_init_db` and migrations)
--   Session      `ConductorStore._connection`: a transaction is a function of the host and of what
--                the connection sees and what is committed. It commits when it returns and rolls
--                back to the last commit when it raises. Session.Keeps and Session.Connections give
--                one rule for each way to build a transaction that keeps an invariant;
--                Session.Sees does so for what holds only of uncommitted writes.
--   Resources    scripts/conductor_resources.py, `HostResourceManager`: Keys (tables, routing,
--                `_validate_request`), Rows (row filters, `_source_full_locked`, `_event`,
--                `_insert_request`, `_create_lease_locked`), Promotion (`_promote_locked`,
--                `_promote_related_locked`), Liveness (`_owner_liveness`), Sweep
--                (`_sweep_stale_slots_locked`; Sweep.Evidence decides, Sweep writes and loops), Admission
--                (`request`; its decisions in Admission.Decision), Methods (constructor, heartbeat
--                and release in Methods.Releases; reconcile, recover and the fences) and
--                Observed (retain_observed_attempt, _log_focused_request). Resources.Quota states
--                the capacities and proves them kept; Ghosts, Rounds, Refusals, Recovery,
--                Replays, Released and Routing hold the rest of what is proved, Ids a lemma on the
--                sweep and Frees one on promotions.
--   Store        scripts/conductor_store.py and scripts/conductor_commands.py: Items (save_work_item,
--                transition_work_item_state, save_attempt, save_claim, save_lease, authorizations,
--                receipts), Fence (the worker fence and the three fenced methods) and Commands
--                (process_envelope and its handlers; enqueue, GO and claim in Commands.Claims).
--                Gate models adjudicate_recovery and evaluate_gate_verdict, Leader the leader lock.
--                Keeps, Handlers, Ledger, Receipts, Ownership and Verdicts hold what is proved.
--   Scheduler    scripts/conductor_scheduler.py: get_eligible_work_items and select_next_work_item.
--                Runnable says when a work item may run; Passing, Choice, Accounts and Claiming hold
--                what is proved.
--   Truthdeck    scripts/truthdeck_model.py (facts, gates, stages) and scripts/truthdeck_gates.py:
--                Gates (the six gates of a repository), Evaluate (freshness, conflicts, the order of
--                repositories) and Action (select_next_action, overall_state, evaluate). Json is
--                the JSON form of a gate result, with its round trip. Grounds, Evidence, Proven,
--                Actions, Conflicts and Disputes hold what else is proved.
--   Tests        test data and the theorems at concrete inputs.
--
-- How the parts interact: the command processor calls methods of the store, each on a connection of
-- its own; the resource commands call the manager, whose handlers are a parameter of the processor
-- here. The manager and the store share the database; the sweep fences the work item of an attempt
-- that it reaps. The scheduler reads the store and the manager's counts, and what it selects is
-- claimed through the command processor. TruthDeck stands apart and reads facts alone.
--
-- Conventions: a table is a list of rows in insertion order, and an INSERT tests its keys. Instants
-- and process start times are natural numbers of microseconds. A host supplies the readings of the
-- clock, the draws of uuid4 and what psutil says of a process, the same for one process throughout a
-- transaction. Identifiers are the draws without their prefixes. JSON columns are opaque texts. The
-- sweep's loop runs on fuel, one more than the number of requests: every round but the last sweeps a
-- request that no round swept before, and a swept request is passed over from then on.
--
-- Not modelled: the files of receipts, the reports (status, blocking holders), the reading of the
-- cutoffs from the environment (an argument here), the stripping of blanks, negative priorities and
-- ttls, the run of pytest as a subprocess with the rows that run_bounded_pytest writes around it,
-- migrations, the column dispatch_idempotency_key of an attempt with its UNIQUE constraint, the codes
-- of the model's ReasonCode that no modelled operation writes, an issue time of an authorization that
-- cannot be read (its expiry may be unreadable, and one that is absent or empty is `none`),
-- the headlines of the gate verdicts, the rest of TruthDeck's JSON form, and the other tools of the
-- repository.
pub mod Prelude
pub mod Model
pub mod Db
pub mod Session
pub mod Resources
pub mod Store
pub mod Scheduler
pub mod Truthdeck
pub mod Tests
