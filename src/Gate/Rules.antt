-- ===== src/Gate/Rules.antt =====
-- What the default gate decides, against an independent reading of the Constitution's Articles I
-- and II.
use deep_thought.Prelude.{inl, inr, ◌≡◌, ◌≢◌, ◌↔◌, ◌⊎◌, true, none, some, [], arith, truthy}
use deep_thought.Schema.Status.{blackbox, scoped_engagement, GateOutcome, proceed, hold, refuse}
use deep_thought.Gate.{GateContext, Gate, evaluate, is_well_formed}

-- A basis is there, and where the target is a black box or the basis is a scoped engagement, so is
-- a reference.
pub record IsAuthorized (c : GateContext) : Type 0 where
  pub basis : c.authorization_basis ≢ none
  pub reference :
      (c.source_type ≡ some blackbox) ⊎ (c.authorization_basis ≡ some scoped_engagement)
      → truthy c.authorization_ref ≡ true

IsAuthorized-of_proceed :
    (c : GateContext) → (evaluate c).outcome ≡ proceed → IsAuthorized c × (c.scope_allowlist ≢ [])
unfolding evaluate
IsAuthorized-of_proceed c h = ground arith

IsAuthorized-of_hold :
    (c : GateContext) → (evaluate c).outcome ≡ hold → IsAuthorized c × (c.scope_allowlist ≡ [])
unfolding evaluate
IsAuthorized-of_hold c h = ground arith

proceed_of_authorized :
    (c : GateContext) → IsAuthorized c → c.scope_allowlist ≢ [] → (evaluate c).outcome ≡ proceed
unfolding evaluate
proceed_of_authorized c a h = ground arith

hold_of_authorized :
    (c : GateContext) → IsAuthorized c → c.scope_allowlist ≡ [] → (evaluate c).outcome ≡ hold
unfolding evaluate
hold_of_authorized c a h = ground arith

not-IsAuthorized_of_refuse : (c : GateContext) → (evaluate c).outcome ≡ refuse → ¬ IsAuthorized c
unfolding evaluate
not-IsAuthorized_of_refuse c h a = ground arith

outcome_cases : (o : GateOutcome) → (o ≡ proceed) ⊎ ((o ≡ hold) ⊎ (o ≡ refuse))
outcome_cases o = ground arith

refuse_of_not_authorized : (c : GateContext) → ¬ IsAuthorized c → (evaluate c).outcome ≡ refuse
refuse_of_not_authorized c n = elim (outcome_cases (evaluate c).outcome) [
  | inl p ↦ absurd (n (IsAuthorized-of_proceed c p).0)
  | inr (inl h) ↦ absurd (n (IsAuthorized-of_hold c h).0)
  | inr (inr r) ↦ r
]

-- The gate proceeds exactly for an authorized context with a scope, holds exactly for an
-- authorized one without, and refuses exactly the contexts that are not authorized.
pub evaluate-IsAuthorized :
    (c : GateContext)
    → (((evaluate c).outcome ≡ proceed) ↔ (IsAuthorized c × (c.scope_allowlist ≢ [])))
      × (((evaluate c).outcome ≡ hold) ↔ (IsAuthorized c × (c.scope_allowlist ≡ [])))
      × (((evaluate c).outcome ≡ refuse) ↔ (¬ IsAuthorized c))
evaluate-IsAuthorized c = (
  (IsAuthorized-of_proceed c, λ h. proceed_of_authorized c h.0 h.1),
  (IsAuthorized-of_hold c, λ h. hold_of_authorized c h.0 h.1),
  (not-IsAuthorized_of_refuse c, refuse_of_not_authorized c),
)

-- A hold or a refusal carries a reason.
pub evaluate-is_well_formed : (c : GateContext) → is_well_formed (evaluate c) ≡ true
unfolding evaluate is_well_formed
evaluate-is_well_formed c = ground (arith)

-- `DefaultGate`, as a gate
abbrev pub default_gate : Gate
default_gate = record { evaluate = evaluate; decides = evaluate-is_well_formed }
