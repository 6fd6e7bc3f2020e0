-- ===== src/Sessions/Verify.antt =====
-- VERIFY (src/deepthought/sessions/verify.py): runs the repro of a candidate in the sandbox and asks
-- the lifecycle guard to promote it on paged evidence. Evidence and Outcomes hold its texts, Run its
-- steps; Kept, Promotion and Backed are about the status of the findings after a run.
pub mod Evidence
pub mod Outcomes
pub mod Run
pub mod Kept
pub mod Promotion
pub mod Backed
use deep_thought.Prelude.{
  ℕ, String, ◌&◌, Bool, true, false, not, Option, none, some, List, [], ◌∷◌, ◌++◌, ◌==◌, map,
  is_some, truthy, if◌then◌else◌,
}
use deep_thought.Prelude.Text.{repr, show, join, or_none, concat}
use deep_thought.Prelude.Time.{iso_z}
use deep_thought.Prelude.Ints.{show_int}
use deep_thought.Schema.Json.{Float}
use deep_thought.Schema.Status.{
  FindingStatus, candidate, verified, is_status, status_value, SessionType,
}
use deep_thought.Schema.Finding.{Finding, TransitionLogEntry}
use deep_thought.Result.{Result, ok, raise, not_found, sandbox_error}
use deep_thought.Store.{Store, get_finding, save_finding}
use deep_thought.Store.Detail.{write_detail, detail_ref}
use deep_thought.Store.Lifecycle.{TransitionResult, transition_finding}
use deep_thought.Protocol.{BaseSession, SessionOutcome}
use deep_thought.Sandbox.{SandboxSpec, SandboxResult, CrashReport}
use deep_thought.Sandbox.Seam.{Sandbox}
use deep_thought.Sessions.{project_context, teach}

pub record VerifySession : Type 0 where
  pub project_id : String
  pub finding_id : String
  pub spec : SandboxSpec
  pub sandbox : Sandbox
  pub dry_run : Bool
