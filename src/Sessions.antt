-- ===== src/Sessions.antt =====
-- The sessions (src/deepthought/sessions), each as a `BaseSession` of the harness. Here is what they
-- share: the project that the gate is asked about.
pub mod Verify
pub mod NewProject
pub mod Map
pub mod Status
pub mod Discover
pub mod Disclosure
use deep_thought.Prelude.{String, ◌&◌, Option, none, some, List, []}
use deep_thought.Prelude.Text.{repr}
use deep_thought.Result.{Result, ok, raise, not_found}
use deep_thought.Schema.Project.{Project}
use deep_thought.Schema.Status.{SessionType}
use deep_thought.Schema.Session.{no_cost}
use deep_thought.Store.{Store, get_project}
use deep_thought.Gate.{GateContext, from_project}
use deep_thought.Protocol.{SessionOutcome}

pub found_project : String → Option Project → Result Project
found_project id none = raise (not_found ("project " & (repr id & " not found")))
found_project id (some p) = ok p

-- `_project`
unfoldable pub project_of : Store → String → Result Project
unfolding found_project
project_of s id = found_project id (get_project s id)

abbrev pub context_of : SessionType → Result Project → Result GateContext
context_of type (ok p) = ok (from_project p type)
context_of type (raise e) = raise e

-- `build_gate_context` of every session of a registered project
unfoldable pub project_context : SessionType → String → Store → Result GateContext
unfolding project_of
project_context type id s = context_of type (project_of s id)

-- what a session teaches back; the fields that it does not name are empty
abbrev pub teach : String → String → List String → List String → SessionOutcome
teach summary next_steps findings_touched coverage_changed = record {
  summary = summary;
  next_steps = next_steps;
  findings_touched = findings_touched;
  coverage_changed = coverage_changed;
  context_cost = no_cost;
}
