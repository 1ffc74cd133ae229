-- ===== src/Truthdeck/Actions.antt =====
-- What the next action and the overall state say of the gates.
use dotclaude_ecosystem.Truthdeck.{
  GateState, pass, hold, blocked, unknown, Stage, stage_index, Value, GateResult,
}
use dotclaude_ecosystem.Truthdeck.Evaluate.{mem_stage, rank_in}
use dotclaude_ecosystem.Truthdeck.Action.{
  is_pending, pending_before, ready_for_review, verify, pending_gates, act_on, select_next_action,
  same_gate_state, has_state, overall_state,
}
use mathlib.Core.List.Memᴰ.{head}
use dotclaude_ecosystem.Prelude.Members.{
  from_select, into_select, any-false, any-witness, from_order_by, into_order_by,
}
use dotclaude_ecosystem.Prelude.Orders.{lex, lex-asym, lex_trans, IsSortKey, order_by-least}
use dotclaude_ecosystem.Prelude.{
  ℕ, ◌≤◌, String, ◌≡◌, refl, sym, ap, ◌∙◌, subst, ◌↔◌, inl, inr, Bool, true, false, ◌&&◌, ◌||◌,
  Option, List, [], ◌∷◌, arith, if◌then◌else◌, Bool-cases, select, any, order_by, Memᴰ,
}

-- A required gate that is BLOCKED, UNKNOWN or on HOLD.
abbrev pub open_gate : List Stage → GateResult → Bool
open_gate required g = mem_stage g.stage required && is_pending g.state

select-twice :
    (p q : GateResult → Bool) (xs : List GateResult)
    → select q (select p xs) ≡ select (λ x. p x && q x) xs
unfolding select
select-twice p q [] = refl
select-twice p q (x ∷ xs) = elim (Bool-cases (p x)) [
  | inl e ↦ rw e (ap (λ l. if q x then x ∷ l else l) (select-twice p q xs))
  | inr e ↦ rw e (select-twice p q xs)
]

states-pending :
    (b : Bool) (s : GateState)
    → (b && is_pending s) ≡ (
        (b && same_gate_state s blocked)
        || ((b && same_gate_state s unknown) || (b && same_gate_state s hold)))
states-pending b s = ground arith

any-or :
    (p q : GateResult → Bool) (xs : List GateResult)
    → any (λ x. p x || q x) xs ≡ (any p xs || any q xs)
unfolding any
any-or p q [] = refl
any-or p q (x ∷ xs) = ground (arith, any-or p q xs)

any-same :
    (p q : GateResult → Bool) (xs : List GateResult)
    → ((x : GateResult) → p x ≡ q x)
    → any p xs ≡ any q xs
unfolding any
any-same p q [] h = refl
any-same p q (x ∷ xs) h = rw (h x, any-same p q xs h) refl

open-states :
    (gates : List GateResult) (required : List Stage)
    → any (open_gate required) gates ≡ (
        has_state blocked gates required
        || (has_state unknown gates required || has_state hold gates required))
open-states gates required =
    any-same _ _ gates (λ g. states-pending (mem_stage g.stage required) g.state)
    ∙ any-or _ _ gates
    ∙ ap (λ b. has_state blocked gates required || b) (any-or _ _ gates)

overall_state-pass :
    (gates : List GateResult) (required : List Stage)
    → (overall_state gates required ≡ pass) ↔ (any (open_gate required) gates ≡ false)
unfolding overall_state
overall_state-pass gates required = three _ _ _ _ (open-states gates required)
  where
    three :
        (a b c d : Bool)
        → d ≡ (a || (b || c))
        → ((if a then blocked else if b then unknown else if c then hold else pass) ≡ pass)
          ↔ (d ≡ false)
    three true b c d e = (λ h. cc h, λ h. cc (sym e ∙ h))
    three false true c d e = (λ h. cc h, λ h. cc (sym e ∙ h))
    three false false true d e = (λ h. cc h, λ h. cc (sym e ∙ h))
    three false false false d e = (λ h. e, λ h. refl)

select-none : (p : GateResult → Bool) (xs : List GateResult) → any p xs ≡ false → select p xs ≡ []
unfolding any select
select-none p [] h = refl
select-none p (x ∷ xs) h = elim (Bool-cases (p x)) [
  | inl e ↦ cc (rw e at h)
  | inr e ↦ rw e (select-none p xs (rw e at h))
]

act_on-ready :
    (gs : List GateResult) (risk : Option Value) → act_on gs risk ≡ ready_for_review risk → gs ≡ []
act_on-ready [] risk h = refl
act_on-ready (g ∷ gs) risk h = cc

-- The pending gates in the order in which one is picked.
queue_of : List GateResult → List Stage → List (Option String) → List GateResult
queue_of gates required repos = order_by (pending_before repos) (pending_gates gates required)

queued-Memᴰ :
    (gates : List GateResult) (required : List Stage) (repos : List (Option String))
    (g : GateResult)
    → Memᴰ g gates
    → open_gate required g ≡ true
    → Memᴰ g (queue_of gates required repos)
unfolding queue_of
queued-Memᴰ gates required repos g m h =
    into_order_by _ _
      (subst (λ l. Memᴰ g l) (sym (select-twice _ _ gates)) (into_select (open_gate required) m h))

queue-empty_iff :
    (gates : List GateResult) (required : List Stage) (repos : List (Option String))
    → (queue_of gates required repos ≡ []) ↔ (any (open_gate required) gates ≡ false)
unfolding queue_of order_by
queue-empty_iff gates required repos = (
  λ e. elim (Bool-cases (any (open_gate required) gates)) [
    | inl h ↦ absent e (any-witness (open_gate required) gates h)
    | inr h ↦ h
  ],
  λ h. ap (order_by (pending_before repos)) (select-twice _ _ gates ∙ select-none _ gates h),
)
  where
    absent :
        queue_of gates required repos ≡ []
        → (g : GateResult) × Memᴰ g gates × (open_gate required g ≡ true)
        → any (open_gate required) gates ≡ false
    absent e (g, m, h) = elim (subst (λ l. Memᴰ g l) e (queued-Memᴰ gates required repos g m h)) [ ]

-- Without a boundary violation the next action is the operator's review exactly when the overall
-- state of the required gates is PASS, in whatever order the repositories stand.
pub select_next_action-pass_iff :
    (gates : List GateResult) (required : List Stage) (risk : Option Value)
    (repos : List (Option String))
    → (select_next_action gates required false risk repos ≡ ready_for_review risk)
      ↔ (overall_state gates required ≡ pass)
unfolding select_next_action queue_of
select_next_action-pass_iff gates required risk repos = (
  λ h.
      (overall_state-pass gates required).1
        ((queue-empty_iff gates required repos).0 (act_on-ready _ risk h)),
  λ h.
      ap (λ l. act_on l risk)
        ((queue-empty_iff gates required repos).1 ((overall_state-pass gates required).0 h)),
)

pending_before-IsSortKey : (repos : List (Option String)) → IsSortKey (pending_before repos)
unfolding pending_before
pending_before-IsSortKey repos = record {
  asym = λ a b h.
      lex-asym (stage_index a.stage) (stage_index b.stage) _ _
        (lex-asym (rank_in repos a.repo_id) (rank_in repos b.repo_id) _ _ (λ e. ground (arith, e)))
        h;
  trans = λ a b c h k.
      lex_trans (stage_index a.stage) (stage_index b.stage) (stage_index c.stage) _ _ _
        (lex_trans (rank_in repos a.repo_id) (rank_in repos b.repo_id) (rank_in repos c.repo_id) _ _
          _ (λ e f. ground (arith, e, f)))
        h k;
}

queue-head :
    (gates : List GateResult) (required : List Stage) (repos : List (Option String))
    (l : List GateResult) (v : GateResult)
    → queue_of gates required repos ≡ l
    → Memᴰ v l
    → (g : GateResult) × (gs : List GateResult) × (queue_of gates required repos ≡ g ∷ gs)
queue-head gates required repos [] v e m = elim m [ ]
queue-head gates required repos (g ∷ gs) v e m = (g, gs, e)

-- While a required gate is BLOCKED, UNKNOWN or on HOLD, the next action is to verify such a gate, and
-- no such gate is of an earlier stage.
pub select_next_action-earliest :
    (gates : List GateResult) (required : List Stage) (risk : Option Value)
    (repos : List (Option String)) (v : GateResult)
    → Memᴰ v gates
    → open_gate required v ≡ true
    → (g : GateResult) × Memᴰ g gates
      × (open_gate required g ≡ true)
      × (select_next_action gates required false risk repos ≡ verify g risk)
      × (stage_index g.stage ≤ stage_index v.stage)
unfolding select_next_action queue_of
select_next_action-earliest gates required risk repos v m h =
    picked (queue-head gates required repos _ v refl (queued-Memᴰ gates required repos v m h))
  where
    no_later : (a b : ℕ) (r : Bool) → lex b a r ≡ false → a ≤ b
    no_later a b r h = ground (arith, h)

    picked :
        (g : GateResult) × (gs : List GateResult) × (queue_of gates required repos ≡ g ∷ gs)
        → (g : GateResult) × Memᴰ g gates
          × (open_gate required g ≡ true)
          × (select_next_action gates required false risk repos ≡ verify g risk)
          × (stage_index g.stage ≤ stage_index v.stage)
    picked (g, gs, e) =
        let c = from_select (open_gate required) gates (
          subst (λ l. Memᴰ g l) (select-twice _ _ gates)
            (from_order_by (pending_before repos) _ (subst (λ l. Memᴰ g l) (sym e) (head refl)))) in
        let w =
          any-false (λ x. pending_before repos x g)
            (order_by-least (pending_before-IsSortKey repos) (pending_gates gates required) g gs e)
            (subst (λ l. Memᴰ v l) (sym (select-twice _ _ gates))
              (into_select (open_gate required) m h)) in
        (g, c.0, c.1, ap (λ l. act_on l risk) e, no_later _ _ _ w)
