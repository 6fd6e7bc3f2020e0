-- ===== src/Sessions/Verify/Run.antt =====
-- The steps of VERIFY (`VerifySession` of src/deepthought/sessions/verify.py). `now` is the answer of
-- the clock that stamps the finding's log, and `show_float` is Python's `str` of a float.
use deep_thought.Prelude.{
  ℕ, String, ◌&◌, not, Option, none, some, [], ◌∷◌, ◌++◌, ◌==◌, if◌then◌else◌,
}
use deep_thought.Prelude.Text.{repr}
use deep_thought.Schema.Json.{Float}
use deep_thought.Schema.Status.{candidate, verified, is_status, SessionType}
use deep_thought.Schema.Finding.{Finding}
use deep_thought.Result.{Result, ok, raise, not_found, sandbox_error}
use deep_thought.Store.{Store, get_finding, save_finding}
use deep_thought.Store.Detail.{write_detail, detail_ref}
use deep_thought.Store.Lifecycle.{TransitionResult, transition_finding}
use deep_thought.Protocol.{BaseSession, SessionOutcome}
use deep_thought.Sandbox.{SandboxResult}
use deep_thought.Sessions.{project_context}
use deep_thought.Sessions.Verify.{VerifySession}
use deep_thought.Sessions.Verify.Evidence.{evidence_name, evidence_body}
use deep_thought.Sessions.Verify.Outcomes.{
  wrong_project, not_candidate, wrong_sandbox, dry_run_outcome, promoted, blocked, negative, stays,
}

abbrev pub Work : Type 0
Work = Store × Result SessionOutcome

-- the finding as it is reloaded, or as it was
reloaded : Finding → Option Finding → Finding
reloaded f none = f
reloaded f (some g) = g

-- after the guard's answer
unfoldable pub answered :
    (Float → String)
    → VerifySession
    → Finding
    → String
    → SandboxResult
    → Store
    → Result (Store × TransitionResult)
    → Work
unfolding reloaded
answered show_float v f ref r s (raise e) = (s, raise e)
answered show_float v f ref r s (ok (s', t)) =
    let g = reloaded (record f { evidence_ref = some ref }) (get_finding s' f.id) in
    if t.accepted
    then (s', ok (promoted show_float v f ref r))
    else (save_finding s' (record g { evidence_ref = f.evidence_ref }), ok (blocked v g ref t))

-- `_promote`
unfoldable pub promote :
    (Float → String) → ℕ → VerifySession → Store → Finding → String → SandboxResult → Work
unfolding answered
promote show_float now v s f ref r =
    let s' = save_finding s (record f { evidence_ref = some ref }) in
    answered show_float v f ref r s' (transition_finding now s' f.id verified)

-- `_leave_candidate`
unfoldable pub leave_candidate :
    (Float → String) → ℕ → VerifySession → Store → Finding → String → SandboxResult → Work
leave_candidate show_float now v s f ref r = (
  save_finding s (record f { transition_log = f.transition_log ++ negative now f ref r ∷ [] }),
  ok (stays show_float v f ref r),
)

-- after the typed result
unfoldable pub concluded :
    (Float → String) → ℕ → VerifySession → String → Finding → Store → SandboxResult → Work
unfolding promote leave_candidate
concluded show_float now v sid f s r =
    let s' = write_detail s sid evidence_name (evidence_body show_float f v.spec r) in
    let ref = detail_ref sid evidence_name in
    if v.dry_run
    then (s, ok (dry_run_outcome v f r))
    else if r.reproduced
    then promote show_float now v s' f ref r
    else leave_candidate show_float now v s' f ref r

-- after the `with` block
unfoldable pub came_back :
    (Float → String)
    → ℕ
    → VerifySession
    → String
    → Finding
    → Store × Result (Option SandboxResult)
    → Work
unfolding concluded
came_back show_float now v sid f (s, raise e) = (s, raise e)
came_back show_float now v sid f (s, ok none) =
    (s, raise (sandbox_error ("sandbox " & (v.sandbox.name & " returned no SandboxResult"))))
came_back show_float now v sid f (s, ok (some r)) = concluded show_float now v sid f s r

-- a sandbox that is scoped to another project
unfoldable pub foreign : String → Option String → Option String
foreign id none = none
foreign id (some p) = if p == id then none else some p

unfoldable pub sandboxed :
    (Float → String) → ℕ → VerifySession → Store → String → Finding → Option String → Work
unfolding came_back
sandboxed show_float now v s sid f (some other) = (s, ok (wrong_sandbox v other))
sandboxed show_float now v s sid f none =
    came_back show_float now v sid f (v.sandbox.within s v.spec)

unfoldable pub verify_finding :
    (Float → String) → ℕ → VerifySession → Store → String → Option Finding → Work
unfolding sandboxed foreign
verify_finding show_float now v s sid none =
    (s, raise (not_found ("finding " & (repr v.finding_id & " not found"))))
verify_finding show_float now v s sid (some f) =
    if not (f.project == v.project_id)
    then (s, ok (wrong_project v f))
    else if not (is_status f.status candidate)
    then (s, ok (not_candidate v f))
    else sandboxed show_float now v s sid f (foreign v.project_id v.sandbox.project)

-- `VerifySession.run`
unfoldable pub verify_run : (Float → String) → ℕ → VerifySession → Store → String → Work
unfolding verify_finding
verify_run show_float now v s sid =
    verify_finding show_float now v s sid (get_finding s v.finding_id)

unfoldable pub verify_session : (Float → String) → ℕ → VerifySession → BaseSession
unfolding project_context verify_run
verify_session show_float now v = record {
  type = SessionType.verify;
  project_id = some v.project_id;
  build_gate_context = project_context SessionType.verify v.project_id;
  run = λ gate s sid. verify_run show_float now v s sid;
}
