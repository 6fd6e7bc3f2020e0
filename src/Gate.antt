-- ===== src/Gate.antt =====
-- The authorization and scope check that runs before any session
-- (src/deepthought/protocol/gate.py).
pub mod Rules
use deep_thought.Prelude.{
  String, Bool, true, false, ◌&&◌, not, Option, none, some, List, [], ◌∷◌, ◌≡◌, is_some, truthy,
  if◌then◌else◌,
}
use deep_thought.Schema.Status.{
  SourceType, blackbox, AuthorizationBasis, SessionType, GateOutcome, proceed, hold, refuse,
  is_proceed,
}
use deep_thought.Schema.Project.{Project, is_scoped}

pub record GateContext : Type 0 where
  pub session_type : SessionType
  pub source_type : Option SourceType
  pub authorization_basis : Option AuthorizationBasis
  pub authorization_ref : Option String
  pub scope_allowlist : List String
  pub project_id : Option String

-- the class method `from_project`
unfoldable pub from_project : Project → SessionType → GateContext
from_project p session_type = record {
  session_type = session_type;
  source_type = some p.source_type;
  authorization_basis = p.authorization_basis;
  authorization_ref = p.authorization_ref;
  scope_allowlist = p.scope_allowlist;
  project_id = some p.id;
}

pub record GateDecision : Type 0 where
  pub outcome : GateOutcome
  pub reason : Option String

-- the test of `__post_init__`: whether a decision may be constructed
unfoldable pub is_well_formed : GateDecision → Bool
is_well_formed d = if is_proceed d.outcome then true else truthy d.reason

-- the property `proceeds`
abbrev pub proceeds : GateDecision → Bool
proceeds d = is_proceed d.outcome

-- The abstract class: what a session may rely on whichever gate is configured.
pub record Gate : Type 0 where
  pub evaluate : GateContext → GateDecision
  pub decides : (c : GateContext) → is_well_formed (evaluate c) ≡ true

abbrev pub is_blackbox : Option SourceType → Bool
is_blackbox (some blackbox) = true
is_blackbox _ = false

abbrev pub is_empty {ℓ} : {A : Type ℓ} → List A → Bool
is_empty [] = true
is_empty (_ ∷ _) = false

-- `DefaultGate.evaluate`
unfoldable pub evaluate : GateContext → GateDecision
evaluate c =
    if not (is_some c.authorization_basis)
    then (record {
      outcome = refuse;
      reason = some "no authorization basis; refused per Constitution Article II";
    })
    else if is_blackbox c.source_type && not (truthy c.authorization_ref)
    then (record {
      outcome = refuse;
      reason = some "blackbox target requires an authorization_ref";
    })
    else if is_scoped c.authorization_basis && not (truthy c.authorization_ref)
    then (record {
      outcome = refuse;
      reason = some "scoped_engagement requires an authorization_ref";
    })
    else if is_empty c.scope_allowlist
    then (record { outcome = hold; reason = some "scope allowlist is empty; nothing is in scope" })
    else (record { outcome = proceed; reason = none })
