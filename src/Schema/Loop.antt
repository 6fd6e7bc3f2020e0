-- ===== src/Schema/Loop.antt =====
-- src/deepthought/schema/loop.py. Seconds are counted in microseconds, so that every limit that
-- passes the validator's test for a finite number is a number here.
use deep_thought.Prelude.{
  ℕ, ◌+◌, String, Bool, true, false, ◌&&◌, ◌||◌, not, Option, none, some, List, ltb, leb, is_some,
  truthy, if◌then◌else◌,
}
use deep_thought.Schema.Status.{
  ActionKind, verify_escalation, disclosure_send, StopReason, GateOutcome, CloseState,
}
use deep_thought.Schema.Session.{ContextCost}

pub record LoopSpend : Type 0 where
  pub sessions : ℕ
  pub wall_seconds : ℕ
  pub tokens : ℕ

abbrev pub no_spend : LoopSpend
no_spend = record { sessions = 0; wall_seconds = 0; tokens = 0 }

unfoldable pub plus : LoopSpend → ContextCost → LoopSpend
plus s cost = record {
  sessions = s.sessions + 1;
  wall_seconds = s.wall_seconds + cost.wall_seconds;
  tokens = s.tokens + cost.tokens;
}

pub record LoopBudget : Type 0 where
  pub max_sessions : Option ℕ
  pub max_wall_seconds : Option ℕ
  pub max_context_tokens : Option ℕ

abbrev is_positive : Option ℕ → Bool
is_positive none = true
is_positive (some n) = ltb 0 n

-- the model validator: at least one limit, and every limit that is set is above 0
unfoldable pub is_bounded : LoopBudget → Bool
is_bounded b =
    (is_some b.max_sessions || is_some b.max_wall_seconds || is_some b.max_context_tokens)
    && (is_positive b.max_sessions
        && is_positive b.max_wall_seconds
        && is_positive b.max_context_tokens)

-- `limit is not None and x >= limit`
abbrev pub reached : Option ℕ → ℕ → Bool
reached none x = false
reached (some limit) x = leb limit x

-- `limit is not None and x > limit`
abbrev pub over : Option ℕ → ℕ → Bool
over none x = false
over (some limit) x = ltb limit x

unfoldable pub would_exceed : LoopBudget → LoopSpend → Bool
would_exceed b spent =
    if over b.max_sessions (spent.sessions + 1)
    then true
    else if reached b.max_wall_seconds spent.wall_seconds
    then true
    else if reached b.max_context_tokens spent.tokens
    then true
    else false

abbrev pub is_escalation_kind : ActionKind → Bool
is_escalation_kind verify_escalation = true
is_escalation_kind disclosure_send = true
is_escalation_kind _ = false

pub record LoopAction : Type 0 where
  pub kind : ActionKind
  pub project : String
  pub area : Option String
  pub finding : Option String
  pub human_action : Option String

-- the property `is_escalation`
abbrev pub is_escalation : LoopAction → Bool
is_escalation a = is_escalation_kind a.kind

-- the model validator of an action
unfoldable pub carries_human_action : LoopAction → Bool
carries_human_action a =
    if is_escalation_kind a.kind then truthy a.human_action else not (is_some a.human_action)

pub record LoopStep : Type 0 where
  pub kind : ActionKind
  pub session_id : Option String
  pub area : Option String
  pub finding : Option String
  pub gate_outcome : Option GateOutcome
  pub close_state : Option CloseState

pub record LoopRun : Type 0 where
  pub id : String
  pub project : String
  pub started : String
  pub stopped : Option String
  pub stop_reason : StopReason
  pub sessions_run : ℕ
  pub context_cost : ContextCost
  pub budget : LoopBudget
  pub trace : List LoopStep
  pub outstanding_actions : List String
  pub body : String
