-- ===== src/Sessions/Verify/Outcomes.antt =====
-- What VERIFY teaches back on each of its ways out, and the entry that it writes to a finding's log
-- (src/deepthought/sessions/verify.py).
use deep_thought.Prelude.{ℕ, String, ◌&◌, false, some, [], ◌∷◌}
use deep_thought.Prelude.Text.{repr, or_none, concat}
use deep_thought.Prelude.Time.{iso_z}
use deep_thought.Prelude.Ints.{show_int}
use deep_thought.Schema.Json.{Float}
use deep_thought.Schema.Status.{verified, status_value}
use deep_thought.Schema.Finding.{Finding, TransitionLogEntry}
use deep_thought.Store.Lifecycle.{TransitionResult}
use deep_thought.Protocol.{SessionOutcome}
use deep_thought.Sandbox.{SandboxResult}
use deep_thought.Sessions.{teach}
use deep_thought.Sessions.Verify.{VerifySession}
use deep_thought.Sessions.Verify.Evidence.{truth}

-- the refusals before the sandbox is asked
pub wrong_project : VerifySession → Finding → SessionOutcome
wrong_project v f =
    let p = repr v.project_id in
    let other = repr f.project in
    teach
      (concat (
        "VERIFY on "
        ∷ p
        ∷ ": finding "
        ∷ repr f.id
        ∷ " belongs to project "
        ∷ other
        ∷ ", not "
        ∷ p
        ∷ " — refusing. No repro was run; scope unchanged."
        ∷ []))
      (concat (
        "Run VERIFY under the finding's own project (" ∷ other
        ∷ ") so its gate governs, or pass a finding that belongs to " ∷ p ∷ "." ∷ []))
      [] []

pub not_candidate : VerifySession → Finding → SessionOutcome
not_candidate v f =
    let id = repr f.id in
    let status = repr (status_value f.status) in
    teach
      (concat (
        "VERIFY on "
        ∷ repr v.project_id
        ∷ ": finding "
        ∷ id
        ∷ " is "
        ∷ status
        ∷ ", not a candidate — refusing to verify. No repro was run; scope unchanged."
        ∷ []))
      (concat (
        "VERIFY only promotes a candidate. " ∷ id ∷ " is " ∷ status
        ∷ "; nothing to do. If it must be re-examined, move it back to candidate through the Store lifecycle guard first, then re-run VERIFY."
        ∷ []))
      [] []

pub wrong_sandbox : VerifySession → String → SessionOutcome
wrong_sandbox v other =
    let p = repr v.project_id in
    let o = repr other in
    teach
      (concat (
        "VERIFY on " ∷ p ∷ ": the injected sandbox is scoped to project " ∷ o ∷ ", not " ∷ p
        ∷ " — refusing. Its sign-off authorizes " ∷ o
        ∷ " only; running here would widen scope. No repro was run." ∷ []))
      (concat (
        "Provide a sandbox scoped (and signed off) for " ∷ p ∷ ", or run VERIFY under " ∷ o
        ∷ " — the project its sign-off covers." ∷ []))
      [] []

-- `exit_code=…, wall_seconds=…`
run_text : (Float → String) → SandboxResult → String
unfolding show_int
run_text show_float r =
    "exit_code=" & (show_int r.exit_code & (", wall_seconds=" & show_float r.wall_seconds))

pub dry_run_outcome : VerifySession → Finding → SandboxResult → SessionOutcome
unfolding show_int
dry_run_outcome v f r =
    let id = repr f.id in
    teach
      (concat (
        "VERIFY dry-run on "
        ∷ repr v.project_id
        ∷ ": the sandbox executed nothing (NoopSandbox; reproduced="
        ∷ truth r.reproduced
        ∷ ", exit_code="
        ∷ show_int r.exit_code
        ∷ "). The finding "
        ∷ id
        ∷ " is UNCHANGED — no evidence paged, no lifecycle transition, no audit entry. Real execution is the hard stop (sandbox sign-off pending)."
        ∷ []))
      (concat (
        "When a signed-off sandbox backend is wired, run VERIFY for real to reproduce " ∷ id
        ∷ " in isolation and promote it through the Store lifecycle guard on resolving evidence."
        ∷ []))
      [] []

pub promoted : (Float → String) → VerifySession → Finding → String → SandboxResult → SessionOutcome
unfolding run_text
promoted show_float v f ref r =
    let id = repr f.id in
    teach
      (concat (
        "VERIFY on "
        ∷ repr v.project_id
        ∷ ": repro for "
        ∷ id
        ∷ " REPRODUCED ("
        ∷ run_text show_float r
        ∷ "). Paged the typed result as evidence ("
        ∷ ref
        ∷ ") and promoted candidate -> verified through the Store lifecycle guard. Executed via the injected "
        ∷ v.sandbox.name
        ∷ " seam — a NoopSandbox runs nothing; a signed-off executing backend runs the repro in the hardened sandbox."
        ∷ []))
      (concat (
        id
        ∷ " is now verified on resolving evidence. Run `check` (it stays green: a verified finding carries a resolving evidence_ref), then queue disclosure preparation once a CVE and advisory reference are available."
        ∷ []))
      (f.id ∷ []) []

pub blocked : VerifySession → Finding → String → TransitionResult → SessionOutcome
blocked v f ref t =
    let id = repr f.id in
    let why = or_none t.reason in
    teach
      (concat (
        "VERIFY on "
        ∷ repr v.project_id
        ∷ ": repro for "
        ∷ id
        ∷ " reproduced but the Store lifecycle guard rejected the promotion: "
        ∷ why
        ∷ ". Finding remains "
        ∷ repr (status_value t.status)
        ∷ "; evidence paged at "
        ∷ ref
        ∷ "."
        ∷ []))
      (concat (
        "The guard blocked candidate -> verified (" ∷ why ∷ "). Inspect the paged evidence (" ∷ ref
        ∷ ") and the finding's transition log, resolve the block, and re-run VERIFY on " ∷ id ∷ "."
        ∷ []))
      (f.id ∷ []) []

-- the entry that records an attempt without a reproduction
pub negative : ℕ → Finding → String → SandboxResult → TransitionLogEntry
unfolding show_int
negative now f ref r = record {
  at = iso_z now;
  from_status = status_value f.status;
  to_status = status_value verified;
  accepted = false;
  reason = some (
      concat (
        "VERIFY: repro did not reproduce (exit_code="
        ∷ show_int r.exit_code
        ∷ ", timed_out="
        ∷ truth r.timed_out
        ∷ "); no resolving evidence, not promoted. Negative result paged at "
        ∷ ref
        ∷ "."
        ∷ []));
}

pub stays : (Float → String) → VerifySession → Finding → String → SandboxResult → SessionOutcome
unfolding run_text
stays show_float v f ref r =
    let id = repr f.id in
    teach
      (concat (
        "VERIFY on "
        ∷ repr v.project_id
        ∷ ": repro for "
        ∷ id
        ∷ " did NOT reproduce ("
        ∷ run_text show_float r
        ∷ ", timed_out="
        ∷ truth r.timed_out
        ∷ "). Paged the negative result as durable state ("
        ∷ ref
        ∷ ") and recorded the blocked attempt on the finding; left it a candidate — no evidence_ref set, so the lifecycle guard promotes nothing. Ran via the injected "
        ∷ v.sandbox.name
        ∷ " seam — a NoopSandbox executes nothing; a signed-off executing backend DID run the repro in the hardened sandbox and it did not reproduce (a non-crash exit is not 'no code ran')."
        ∷ []))
      (concat (
        id
        ∷ " stays a candidate: the minimized repro did not reproduce the behavior. Refine the repro (the paged negative result is at "
        ∷ ref ∷ ") and re-run VERIFY, or move the finding back if the candidate no longer holds."
        ∷ []))
      (f.id ∷ []) []
