-- ===== src/Model/Transitions.antt =====
-- What the transition table of scripts/conductor_model.py allows along whole histories.
use dotclaude_ecosystem.Model.{
  WorkItemState, discovered, queued, hold, ready, claimed, completed, cancelled, quarantined,
  same_state, mem_state, can_transition,
}
use dotclaude_ecosystem.Prelude.{◌≡◌, refl, ◌⊎◌, inl, inr, Bool, true, false, List, [], ◌∷◌, arith}

pub same_state→≡ : (s t : WorkItemState) → same_state s t ≡ true → s ≡ t
unfolding same_state
same_state→≡ s t h = ground arith

abbrev pub is_terminal : WorkItemState → Bool
is_terminal completed = true
is_terminal cancelled = true
is_terminal quarantined = true
is_terminal _ = false

-- A state is terminal exactly when no transition leaves it, and every other state can still be
-- cancelled.
pub terminal_iff_stuck :
    (s : WorkItemState)
    → (is_terminal s ≡ true → (t : WorkItemState) → can_transition s t ≡ false)
      × (is_terminal s ≡ false → can_transition s cancelled ≡ true)
unfolding can_transition
terminal_iff_stuck completed = (λ h t. refl, λ h. cc)
terminal_iff_stuck cancelled = (λ h t. refl, λ h. cc)
terminal_iff_stuck quarantined = (λ h t. refl, λ h. cc)
terminal_iff_stuck s = (λ h. cc, λ h. refl)

-- A history is a list of states, the last one reached first.
pub data History : WorkItemState → List WorkItemState → Type 0 where
  start : History discovered (discovered ∷ [])
  next :
      {s : WorkItemState} {past : List WorkItemState} (t : WorkItemState)
      → History s past
      → can_transition s t ≡ true
      → History t (t ∷ past)

-- States that only a work item that has been claimed can reach.
abbrev pub needs_claim : WorkItemState → Bool
needs_claim discovered = false
needs_claim queued = false
needs_claim hold = false
needs_claim ready = false
needs_claim cancelled = false
needs_claim quarantined = false
needs_claim _ = true

-- From a state that needs a claim the step came from one, or it is the claim itself.
needs_claim_back :
    (s t : WorkItemState)
    → can_transition s t ≡ true
    → needs_claim t ≡ true
    → (t ≡ claimed) ⊎ (needs_claim s ≡ true)
unfolding can_transition
needs_claim_back s t h k = ground arith

-- No work item reaches COMPLETED, nor any other state past READY but the terminal CANCELLED and
-- QUARANTINED, unless its history holds CLAIMED.
pub History-claimed :
    {s : WorkItemState} {past : List WorkItemState}
    → History s past
    → needs_claim s ≡ true
    → mem_state claimed past ≡ true
unfolding mem_state
History-claimed start k = cc
History-claimed (next {s} {past} t h ok) k = elim (needs_claim_back s t ok k) [
  | inl e ↦ rw e refl
  | inr k' ↦ ground (arith, History-claimed h k')
]
