-- ===== src/Protocol.antt =====
-- The session harness (src/deepthought/protocol/session.py): gate, work, teach back, close. A clock
-- is the sequence of its answers; a run carries the number of calls made so far. What was saved
-- before an exception stays saved, so the store comes back beside the error too.
pub mod Closing
use deep_thought.Prelude.{
  ℕ, ◌+◌, String, ◌&◌, Bool, true, false, not, Option, none, some, List, [], ◌==◌, is_some, keep,
  length, if◌then◌else◌,
}
use deep_thought.Prelude.Text.{strip, strip_of, after, pad, repr, or_none}
use deep_thought.Prelude.Time.{Clock, iso_z, date}
use deep_thought.Ids.{is_record_id}
use deep_thought.Result.{Error, Result, ok, raise}
use deep_thought.Schema.Status.{
  SessionType, GateOutcome, refuse, CloseState, clean, interrupted, is_clean, outcome_value,
}
use deep_thought.Schema.Session.{ContextCost, no_cost, Session, has_next_steps}
use deep_thought.Store.{Store, list_sessions, save_session}
use deep_thought.Gate.{GateContext, GateDecision, Gate, proceeds}

pub record SessionOutcome : Type 0 where
  pub summary : String
  pub next_steps : String
  pub findings_touched : List String
  pub coverage_changed : List String
  pub context_cost : ContextCost

-- One typed session: what the gate is to evaluate, and the work, which is handed the gate and the
-- session's id. Either may raise.
pub record BaseSession : Type 0 where
  pub type : SessionType
  pub project_id : Option String
  pub build_gate_context : Store → Result GateContext
  pub run : Gate → Store → String → Store × Result SessionOutcome

abbrev pub id_prefix : ℕ → String
id_prefix now = "S-" & (date now & "-")

-- the `used` ids
abbrev starts : String → String → Bool
starts prefix s = is_some (after prefix s)

unfoldable pub generate_session_id : Store → ℕ → String
unfolding after pad
generate_session_id s now =
    id_prefix now
    & pad 4
        (length (keep (λ (r : Session). starts (id_prefix now) r.id) (list_sessions s none)) + 1)

unfoldable pub render_body : SessionOutcome → String
unfolding strip_of
render_body o =
    let summary = strip o.summary in
    let steps = strip o.next_steps in
    let shown = if summary == "" then "(no summary)" else summary in
    let body = "## Summary\n\n" & shown in
    strip (if steps == "" then body else body & ("\n\n## Next steps\n\n" & steps))

abbrev is_resumable : Session → Bool
is_resumable r = if is_clean r.close_state then false else not (is_some r.closed)

unfoldable pub find_resumable : Store → Option String → List Session
find_resumable s project = keep (λ r. is_resumable r) (list_sessions s project)

-- the record that a session starts life with
unfoldable pub opened : String → SessionType → Option String → ℕ → Session
opened sid type project now = record {
  id = sid;
  type = type;
  project = project;
  started = iso_z now;
  closed = none;
  gate_outcome = none;
  gate_reason = none;
  close_state = interrupted;
  findings_touched = [];
  coverage_changed = [];
  context_cost = no_cost;
  body = "";
}

-- The store, the calls of the clock made so far, and the record or the error.
pub record Ran : Type 0 where
  pub store : Store
  pub calls : ℕ
  pub result : Result Session

abbrev plain_outcome : String → String → SessionOutcome
plain_outcome summary steps = record {
  summary = summary;
  next_steps = steps;
  findings_touched = [];
  coverage_changed = [];
  context_cost = no_cost;
}

-- the record with what the session taught back
abbrev pub taught : Session → SessionOutcome → Session
taught r o = record r {
  body = render_body o;
  findings_touched = o.findings_touched;
  coverage_changed = o.coverage_changed;
  context_cost = o.context_cost;
}

abbrev pub returned : Store → ℕ → Session → Ran
returned s calls r = record { store = save_session s r; calls = calls; result = ok r }

-- a session without next steps does not close
abbrev pub unfinished : ℕ → Store → Session → Ran
unfinished calls s r = returned s calls (record r { close_state = interrupted })

abbrev pub finished : Clock → ℕ → Store → Session → Ran
finished clock calls s r =
    returned s (calls + 1) (record r { closed = some (iso_z (clock calls)); close_state = clean })

-- teach back, validate, close
unfoldable pub finish : Clock → ℕ → Store → Session → SessionOutcome → Ran
finish clock calls s r o =
    if not (has_next_steps (render_body o))
    then unfinished calls s (taught r o)
    else finished clock calls s (taught r o)

-- The text of an exception is its message.
abbrev pub message : Error → String
message (Error.duplicate_project m) = m
message (Error.not_found m) = m
message (Error.value_error m) = m
message (Error.sandbox_error m) = m
message (Error.execution_disabled m) = m
message (Error.signoff_required m) = m
message (Error.isolation_unavailable m) = m
message (Error.os_error m) = m
message (Error.sarif_error m) = m

-- the work, if the gate lets it start, and what follows an exception
worked : Clock → ℕ → Session → Store × Result SessionOutcome → Ran
unfolding finish
worked clock calls r (s, ok o) = finish clock calls s r o
worked clock calls r (s, raise e) = record {
  store = save_session s (record r {
    body = "## Summary\n\nInterrupted before completion: " & message e;
    close_state = interrupted;
  });
  calls = calls;
  result = raise e;
}

-- the record with the gate's decision
abbrev pub judged : Session → GateDecision → Session
judged r d = record r { gate_outcome = some d.outcome; gate_reason = d.reason }

-- after the gate
decided : Clock → ℕ → Gate → BaseSession → Store → Session → GateDecision → Ran
unfolding finish worked
decided clock calls gate session s r d =
    let r' = judged r d in
    let why = outcome_value d.outcome & (": " & or_none d.reason) in
    let stopped = finish clock calls s r' (plain_outcome ("Gate " & why) ("Resolve gate " & why)) in
    let work = worked clock calls r' (session.run gate s r.id) in
    if not (proceeds d) then stopped else work

gated : Clock → ℕ → Gate → BaseSession → Store → Session → Result GateContext → Ran
unfolding decided
gated clock calls gate session s r (raise e) = record { store = s; calls = calls; result = raise e }
gated clock calls gate session s r (ok context) =
    decided clock calls gate session s r (gate.evaluate context)

-- a project id that is no record id
refused_id : Clock → ℕ → BaseSession → Store → String → String → ℕ → Ran
unfolding opened
refused_id clock calls session s sid project now =
    let r = opened sid session.type none now in
    let why = "invalid project id " & repr project in
    let r' = record r {
      gate_outcome = some refuse;
      gate_reason = some why;
      body = render_body (
          plain_outcome ("Refused: " & (why & "."))
            "Provide a valid project id — a single safe path segment.");
      closed = some (iso_z (clock calls));
      close_state = clean;
    } in
    record { store = save_session (save_session s r) r'; calls = calls + 1; result = ok r' }

abbrev bad_project : Option String → Option String
bad_project none = none
bad_project (some p) = if is_record_id p then none else some p

run_named : Clock → ℕ → Gate → BaseSession → Store → String → ℕ → Option String → Ran
unfolding refused_id gated opened
run_named clock calls gate session s sid now (some project) =
    refused_id clock calls session s sid project now
run_named clock calls gate session s sid now none =
    let r = opened sid session.type session.project_id now in
    let s' = save_session s r in gated clock calls gate session s' r (session.build_gate_context s')

-- `session_id` is generated where the caller gives none
unfoldable pub run_session : Clock → ℕ → Gate → BaseSession → Store → Ran
unfolding generate_session_id run_named render_body
run_session clock calls gate session s =
    let now = clock calls in
    run_named clock (calls + 1) gate session s (generate_session_id s now) now
      (bad_project session.project_id)
