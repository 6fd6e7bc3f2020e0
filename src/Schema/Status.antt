-- ===== src/Schema/Status.antt =====
-- The enumerations of src/deepthought/schema, with their values as texts and the equality that
-- `is` tests.
use deep_thought.Prelude.{
  ℕ, String, ◌≡◌, ◌↔◌, Bool, true, false, Option, none, some, ◌==◌, eqb, arith, if◌then◌else◌,
}

pub data FindingStatus : Type 0 where
  candidate verified disclosed patched : FindingStatus

pub data SourceType : Type 0 where
  open_source blackbox : SourceType

pub data AuthorizationBasis : Type 0 where
  own_code permissive_oss scoped_engagement : AuthorizationBasis

pub data ProjectStatus : Type 0 where
  active paused closed : ProjectStatus

pub data SessionType : Type 0 where
  new_project status discover map verify sibling_hunt disclosure : SessionType

pub data GateOutcome : Type 0 where
  proceed hold refuse : GateOutcome

pub data CloseState : Type 0 where
  clean interrupted : CloseState

pub data CoverageMethod : Type 0 where
  read static fuzz manual : CoverageMethod

pub data CoverageDepth : Type 0 where
  touched explored exhausted : CoverageDepth

-- What the loop can do; the last two are escalations.
pub data ActionKind : Type 0 where
  status map discover sibling_hunt disclosure verify_escalation disclosure_send : ActionKind

pub data StopReason : Type 0 where
  fixed_point budget_exhausted hard_stop gate_held gate_refused : StopReason

abbrev pub status_value : FindingStatus → String
status_value candidate = "candidate"
status_value verified = "verified"
status_value disclosed = "disclosed"
status_value patched = "patched"

abbrev pub basis_value : AuthorizationBasis → String
basis_value own_code = "own_code"
basis_value permissive_oss = "permissive_oss"
basis_value scoped_engagement = "scoped_engagement"

-- `CoverageDepth(value)`, where the value is legal
abbrev pub depth_of : String → Option CoverageDepth
depth_of value =
    if value == "touched"
    then some touched
    else if value == "explored"
    then some explored
    else if value == "exhausted"
    then some exhausted
    else none

abbrev pub outcome_value : GateOutcome → String
outcome_value proceed = "proceed"
outcome_value hold = "hold"
outcome_value refuse = "refuse"

abbrev pub kind_value : ActionKind → String
kind_value ActionKind.status = "status"
kind_value ActionKind.map = "map"
kind_value ActionKind.discover = "discover"
kind_value ActionKind.sibling_hunt = "sibling_hunt"
kind_value ActionKind.disclosure = "disclosure"
kind_value ActionKind.verify_escalation = "verify_escalation"
kind_value ActionKind.disclosure_send = "disclosure_send"

abbrev pub stop_value : StopReason → String
stop_value fixed_point = "fixed_point"
stop_value budget_exhausted = "budget_exhausted"
stop_value hard_stop = "hard_stop"
stop_value gate_held = "gate_held"
stop_value gate_refused = "gate_refused"

-- The members of an enumeration by their place, for the tests `is` and `==`.
abbrev status_rank : FindingStatus → ℕ
status_rank candidate = 0
status_rank verified = 1
status_rank disclosed = 2
status_rank patched = 3

abbrev type_rank : SessionType → ℕ
type_rank new_project = 0
type_rank SessionType.status = 1
type_rank SessionType.discover = 2
type_rank SessionType.map = 3
type_rank verify = 4
type_rank SessionType.sibling_hunt = 5
type_rank SessionType.disclosure = 6

abbrev kind_rank : ActionKind → ℕ
kind_rank ActionKind.status = 0
kind_rank ActionKind.map = 1
kind_rank ActionKind.discover = 2
kind_rank ActionKind.sibling_hunt = 3
kind_rank ActionKind.disclosure = 4
kind_rank ActionKind.verify_escalation = 5
kind_rank ActionKind.disclosure_send = 6

abbrev pub is_status : FindingStatus → FindingStatus → Bool
is_status a b = eqb (status_rank a) (status_rank b)

abbrev pub is_type : SessionType → SessionType → Bool
is_type a b = eqb (type_rank a) (type_rank b)

abbrev pub is_kind : ActionKind → ActionKind → Bool
is_kind a b = eqb (kind_rank a) (kind_rank b)

abbrev pub is_proceed : GateOutcome → Bool
is_proceed proceed = true
is_proceed _ = false

abbrev pub is_clean : CloseState → Bool
is_clean clean = true
is_clean interrupted = false

pub is_status_iff : (a b : FindingStatus) → (is_status a b ≡ true) ↔ (a ≡ b)
is_status_iff a b = ground arith

pub is_kind_iff : (a b : ActionKind) → (is_kind a b ≡ true) ↔ (a ≡ b)
is_kind_iff a b = ground arith
