-- ===== src/Loop/Driver.antt =====
-- The loop's driver (src/deepthought/loop/driver.py). The `while` loop takes fuel. The sessions that
-- it may run are an interface, `Sessions`; `drafts_ok` is `disclosure_drafts_ok` of
-- src/deepthought/check.py.
pub mod Record
pub mod Turn
pub mod Budget
pub mod Progress
pub mod Once
use deep_thought.Prelude.{
  ℕ, zero, suc, ◌+◌, ◌-◌, String, ◌&◌, Bool, not, Option, none, some, List, [], ◌∷◌, ◌++◌, ◌==◌,
  is_some, leb, map, if◌then◌else◌,
}
use deep_thought.Prelude.Text.{repr, or_none, or_empty}
use deep_thought.Prelude.Time.{Clock}
use deep_thought.Ids.{safe_record_id}
use deep_thought.Result.{Error, Result, ok, raise, value_error}
use deep_thought.Schema.Status.{
  ActionKind, StopReason, fixed_point, budget_exhausted, hard_stop, gate_held, gate_refused,
  GateOutcome, proceed, hold, refuse, SessionType, outcome_value, kind_value,
}
use deep_thought.Schema.Project.{Project}
use deep_thought.Schema.Session.{Session}
use deep_thought.Schema.Loop.{
  LoopAction, LoopBudget, LoopRun, LoopSpend, LoopStep, no_spend, plus, would_exceed, reached,
  is_escalation,
}
use deep_thought.Store.{Store, get_project, save_loop_run}
use deep_thought.Gate.{Gate, GateDecision, from_project, proceeds}
use deep_thought.Protocol.{BaseSession, Ran, run_session}
use deep_thought.Loop.Policy.{Done, Key, select_next_action, pending_escalations}
use deep_thought.Loop.Driver.Record.{build_run}
use deep_thought.Loop.Driver.Turn.{
  Sessions, build_session, LoopState, initial, Round, stop, again, fail, escalation_step, returned,
  blocked, after_gate,
}

module _ (drafts_ok : Store → String → Bool) (sessions : Sessions) (gate : Gate) (clock : Clock)
    (budget : LoopBudget) (project : Project) (start : ℕ) where
  -- seconds since the start, at the next call of the clock
  abbrev elapsed : LoopState → ℕ
  elapsed st = clock st.calls - start

  -- the state after the call of the clock that `_wall_exceeded` makes if a limit is set
  abbrev pub watched : LoopState → LoopState
  watched st = if is_some budget.max_wall_seconds then (record st { calls = st.calls + 1 }) else st

  abbrev wall_exceeded : LoopState → Bool
  wall_exceeded st = reached budget.max_wall_seconds (elapsed st)

  -- `_live_spend`
  abbrev pub live_spend : LoopState → LoopSpend
  live_spend st = record {
    sessions = st.spent.sessions;
    wall_seconds = elapsed st;
    tokens = st.spent.tokens;
  }

  abbrev pub ticked : LoopState → LoopState
  ticked st = record st { calls = st.calls + 1 }

  -- every outstanding escalation, in one pass
  escalated : LoopState → LoopState
  escalated st =
      let pending = pending_escalations drafts_ok st.store project in
      record st {
        outstanding = st.outstanding ++ map (λ (a : LoopAction). or_none a.human_action) pending;
        trace = st.trace ++ map (λ a. escalation_step a) pending;
      }

  perform_built : LoopAction → LoopState → Result BaseSession → Round
  unfolding returned
  perform_built a st (raise e) = fail e st.store
  perform_built a st (ok session) =
      let ran = run_session clock st.calls gate session st.store in returned a st ran ran.result

  perform : LoopAction → LoopState → Round
  unfolding perform_built
  perform a st = perform_built a st (build_session sessions a)

  attempt : LoopAction → LoopState → Round
  unfolding perform escalated
  attempt a st =
      let st' = watched st in
      if wall_exceeded st
      then stop budget_exhausted (some a) st'
      else if is_escalation a
      then stop hard_stop none (escalated st')
      else if would_exceed budget (live_spend st')
      then stop budget_exhausted (some a) (ticked st')
      else perform a (ticked st')

  abbrev at_end : List String → StopReason
  at_end [] = fixed_point
  at_end (_ ∷ _) = hard_stop

  chosen : Option LoopAction → LoopState → Round
  unfolding attempt
  chosen none st = stop (at_end st.outstanding) none st
  chosen (some a) st = attempt a st

  -- one round of the `while` loop
  unfoldable pub round : LoopState → Round
  unfolding chosen
  round st = chosen (select_next_action drafts_ok st.store project st.done) st

  -- how the loop leaves: by a `break`, or by an exception
  continue : Round → (LoopState → Option Round) → Option Round
  continue (again st) loop = loop st
  continue (stop r p st) loop = some (stop r p st)
  continue (fail e s) loop = some (fail e s)

  unfoldable pub rounds : ℕ → LoopState → Option Round
  unfolding continue
  rounds zero st = none
  rounds (suc fuel) st = continue (round st) (rounds fuel)

-- The store and the run, or the error; `none` if the fuel ran out.
abbrev pub Looped : Type 0
Looped = Option (Store × Result LoopRun)

-- the durable record of a run that left the loop
recorded : Clock → LoopBudget → Project → ℕ → Option Round → Looped
recorded clock budget project start none = none
recorded clock budget project start (some (fail e s)) = some (s, raise e)
recorded clock budget project start (some (again st)) = none
recorded clock budget project start (some (stop reason planned st)) =
    let run =
      build_run st.store project.id budget start (clock st.calls) reason st.spent st.trace
        st.outstanding planned in
    some (save_loop_run st.store run, ok run)

abbrev gate_stop : GateOutcome → StopReason
gate_stop hold = gate_held
gate_stop _ = gate_refused

-- the refusal of a project that is not registered, which is not saved
unregistered : Clock → ℕ → LoopBudget → Store → String → Store × Result LoopRun
unregistered clock calls budget s project_id = (
  s,
  ok (
      build_run s (safe_record_id project_id "unknown") budget (clock calls) (clock (calls + 1))
        gate_refused no_spend []
        (("Project "
            & (repr project_id
                & " is not registered — register and authorize it (a gated NEW PROJECT session), then re-run the loop."))
          ∷ [])
        none),
)

-- a run that the gate stops before the loop
stopped_at_gate : Clock → ℕ → LoopBudget → Store → Project → GateDecision → Store × Result LoopRun
stopped_at_gate clock calls budget s project d =
    let run =
      build_run s project.id budget (clock calls) (clock (calls + 1)) (gate_stop d.outcome) no_spend
        []
        (("Gate "
            & (outcome_value d.outcome
                & (" on "
                    & (repr project.id
                        & (": "
                            & (or_none d.reason
                                & " — resolve authorization/scope, then re-run the loop."))))))
          ∷ [])
        none in
    (save_loop_run s run, ok run)

module _ (drafts_ok : Store → String → Bool) (sessions : Sessions) (gate : Gate)
    (clock : Clock) where
  looped : ℕ → ℕ → LoopBudget → Store → String → Option Project → Looped
  unfolding recorded unregistered stopped_at_gate
  looped fuel calls budget s project_id none = some (unregistered clock calls budget s project_id)
  looped fuel calls budget s project_id (some project) =
      let d = gate.evaluate (from_project project SessionType.status) in
      if not (proceeds d)
      then some (stopped_at_gate clock calls budget s project d)
      else recorded clock budget project (clock calls) (
          rounds drafts_ok sessions gate clock budget project (clock calls) fuel
            (initial s (calls + 1)))

  unfoldable pub run_loop : ℕ → ℕ → LoopBudget → Store → String → Looped
  unfolding looped
  run_loop fuel calls budget s project_id =
      looped fuel calls budget s project_id (get_project s project_id)
