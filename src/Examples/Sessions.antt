-- ===== src/Examples/Sessions.antt =====
-- The gate, the harness and the loop at concrete inputs.
use deep_thought.Prelude.{String, ◌≡◌, ◌≢◌, ◌↔◌, refl, true, false, none, some, [], ◌∷◌, arith}
use deep_thought.Result.{Result, ok}
use deep_thought.Schema.Status.{proceed, hold, refuse, SessionType, candidate}
use deep_thought.Schema.Loop.{LoopBudget}
use deep_thought.Store.{Store}
use deep_thought.Ids.{is_record_id}
use deep_thought.Gate.{Gate, GateContext, evaluate, proceeds}
use deep_thought.Gate.Rules.{IsAuthorized, evaluate-IsAuthorized, default_gate}
use deep_thought.Protocol.{BaseSession, SessionOutcome, generate_session_id, run_session}
use deep_thought.Protocol.Closing.{Ends, run_session-Ends, run_session_unworked, instead}
use deep_thought.Loop.Policy.{Snapshot, verify_action, select_from}
use deep_thought.Loop.Policy.Priority.{IsFirst, select_from-IsFirst}
use deep_thought.Loop.Policy.FixedPoint.{IsRested, select_from-IsRested}
use deep_thought.Loop.Driver.{run_loop}
use deep_thought.Loop.Driver.Progress.{Bounded, run_loop-Bounded}
use deep_thought.Examples.Samples.{store, finding_at, idle, outcome, sessions, clock}

abbrev context : GateContext
context = record {
  session_type = SessionType.status;
  source_type = none;
  authorization_basis = none;
  authorization_ref = none;
  scope_allowlist = [];
  project_id = none;
}

evaluate-IsAuthorized_example :
    (((evaluate context).outcome ≡ proceed)
      ↔ (IsAuthorized context × (context.scope_allowlist ≢ [])))
    × (((evaluate context).outcome ≡ hold)
        ↔ (IsAuthorized context × (context.scope_allowlist ≡ [])))
    × (((evaluate context).outcome ≡ refuse) ↔ (¬ IsAuthorized context))
evaluate-IsAuthorized_example = evaluate-IsAuthorized context

run_session-Ends_example :
    let ran = run_session clock 0 default_gate (idle "php-src") store in
    Ends (generate_session_id store (clock 0)) ran.store ran.result
run_session-Ends_example =
    run_session-Ends clock 0 default_gate (idle "php-src") store (unfold is_record_id in refl)

-- a session whose context the gate refuses
abbrev unauthorized : BaseSession
unauthorized = record (idle "php-src") { build_gate_context = λ s. ok context }

refused :
    (t : Store) (x : GateContext)
    → unauthorized.build_gate_context t ≡ ok x
    → proceeds (default_gate.evaluate x) ≡ false
unfolding evaluate
refused t x h = ground arith

-- work that would write the store
abbrev hostile : Gate → Store → String → Store × Result SessionOutcome
hostile g s sid = (record s { findings = [] }, ok outcome)

run_session_unworked_example :
    run_session clock 0 default_gate (instead clock default_gate unauthorized hostile) store
    ≡ run_session clock 0 default_gate unauthorized store
run_session_unworked_example =
    run_session_unworked clock default_gate unauthorized hostile 0 store refused

abbrev budget : LoopBudget
budget = record { max_sessions = some 2; max_wall_seconds = none; max_context_tokens = none }

run_loop-Bounded_example :
    Bounded 2 (run_loop (λ s id. false) sessions default_gate clock 3 0 budget store "php-src")
run_loop-Bounded_example =
    run_loop-Bounded (λ s id. false) sessions default_gate clock 0 budget 2 refl store "php-src"

-- a project that is mapped and searched, with one candidate
abbrev seen : Snapshot
seen = record {
  has_status = true;
  has_coverage = true;
  unmapped = [];
  discover_current = true;
  findings = finding_at candidate ∷ [];
  hunted_before = [];
  drafted = [];
}

seen_selects : select_from seen "php-src" [] ≡ some (verify_action "php-src" "F-0001")
unfolding select_from
seen_selects = refl

select_from-IsFirst_example : IsFirst seen "php-src" [] (verify_action "php-src" "F-0001")
select_from-IsFirst_example =
    select_from-IsFirst seen "php-src" [] (verify_action "php-src" "F-0001") seen_selects

select_from-IsRested_example : (select_from seen "php-src" [] ≡ none) ↔ IsRested seen
select_from-IsRested_example = select_from-IsRested seen "php-src"
