-- ===== src/Loop/Driver/Turn.antt =====
-- The state of the loop's driver (src/deepthought/loop/driver.py), the session that an action becomes,
-- and what follows a session that returned.
use deep_thought.Prelude.{
  ℕ, String, ◌&◌, Option, none, some, List, [], ◌∷◌, ◌++◌, ◌==◌, if◌then◌else◌,
}
use deep_thought.Prelude.Text.{repr, or_none, or_empty}
use deep_thought.Result.{Error, Result, ok, raise, value_error}
use deep_thought.Schema.Status.{
  ActionKind, StopReason, gate_held, gate_refused, GateOutcome, proceed, hold, refuse,
  outcome_value, kind_value,
}
use deep_thought.Schema.Session.{Session}
use deep_thought.Schema.Loop.{LoopAction, LoopSpend, LoopStep, no_spend, plus}
use deep_thought.Store.{Store}
use deep_thought.Protocol.{BaseSession, Ran}
use deep_thought.Loop.Policy.{Done, Key}

-- the constructors of the runnable sessions
pub record Sessions : Type 0 where
  pub status : String → BaseSession
  pub map : String → BaseSession
  pub discover : String → BaseSession
  pub sibling_hunt : String → String → BaseSession
  pub disclosure : String → String → BaseSession

-- `_build_session`, by kind
build_kind : Sessions → ActionKind → String → String → Result BaseSession
build_kind b ActionKind.status project finding = ok (b.status project)
build_kind b ActionKind.map project finding = ok (b.map project)
build_kind b ActionKind.discover project finding = ok (b.discover project)
build_kind b ActionKind.sibling_hunt project finding = ok (b.sibling_hunt project finding)
build_kind b ActionKind.disclosure project finding = ok (b.disclosure project finding)
build_kind b kind project finding =
    raise (value_error ("kind " & (repr (kind_value kind) & " is not a runnable loop session")))

unfoldable pub build_session : Sessions → LoopAction → Result BaseSession
unfolding build_kind
build_session b a = build_kind b a.kind a.project (or_empty a.finding)

-- `action.finding or action.project`
abbrev pub target : Option String → String → String
target none project = project
target (some f) project = if f == "" then project else f

-- `_key`
abbrev pub key : LoopAction → Key
key a = (a.kind, target a.finding a.project)

-- the variables of `run_loop`'s `while` loop, with the store and the calls of the clock
pub record LoopState : Type 0 where
  pub store : Store
  pub calls : ℕ
  pub spent : LoopSpend
  pub done : Done
  pub trace : List LoopStep
  pub outstanding : List String

abbrev pub initial : Store → ℕ → LoopState
initial s calls = record {
  store = s;
  calls = calls;
  spent = no_spend;
  done = [];
  trace = [];
  outstanding = [];
}

-- what a round of the loop comes to
pub data Round : Type 0 where
  stop : StopReason → Option LoopAction → LoopState → Round
  again : LoopState → Round
  fail : Error → Store → Round

-- the trace row of a session that ran, and of an escalation
abbrev pub step_of : LoopAction → Session → LoopStep
step_of a r = record {
  kind = a.kind;
  session_id = some r.id;
  area = a.area;
  finding = a.finding;
  gate_outcome = r.gate_outcome;
  close_state = some r.close_state;
}

abbrev pub escalation_step : LoopAction → LoopStep
escalation_step a = record {
  kind = a.kind;
  session_id = none;
  area = none;
  finding = a.finding;
  gate_outcome = none;
  close_state = none;
}

-- the state after a session that returned
unfoldable pub advanced : LoopAction → Session → Ran → LoopState → LoopState
advanced a r ran st = record st {
  store = ran.store;
  calls = ran.calls;
  spent = plus st.spent r.context_cost;
  done = key a ∷ st.done;
  trace = st.trace ++ step_of a r ∷ [];
}

abbrev pub outcome_text : Option GateOutcome → String
outcome_text none = "unknown"
outcome_text (some g) = outcome_value g

unfoldable pub blocked : LoopAction → Session → LoopState → LoopState
blocked a r st = record st {
  outstanding =
      st.outstanding
      ++ ("Gate "
          & (outcome_text r.gate_outcome
              & (" on "
                  & (repr a.project
                      & (": "
                          & (or_none r.gate_reason
                              & " — resolve authorization/scope, then re-run."))))))
        ∷ [];
}

-- what follows a session that returned, by the gate's outcome
unfoldable pub after_gate : Option GateOutcome → LoopAction → Session → LoopState → Round
unfolding blocked
after_gate (some proceed) a r st = again st
after_gate (some hold) a r st = stop gate_held none (blocked a r st)
after_gate (some refuse) a r st = stop gate_refused none (blocked a r st)
after_gate none a r st = stop gate_refused none (blocked a r st)

unfoldable pub returned : LoopAction → LoopState → Ran → Result Session → Round
unfolding after_gate
returned a st ran (raise e) = fail e ran.store
returned a st ran (ok r) = after_gate r.gate_outcome a r (advanced a r ran st)
