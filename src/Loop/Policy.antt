-- ===== src/Loop/Policy.antt =====
-- The selection policy (src/deepthought/loop/policy.py). The parameter `drafts_ok` is
-- `disclosure_drafts_ok` of src/deepthought/check.py: whether a session's drafts resolve and
-- validate.
pub mod Proposals
pub mod FixedPoint
pub mod Priority
use Prim.Native.String.{compare}
use text.Mathlib.Text.{is_lt}
use deep_thought.Prelude.{
  ℕ, String, ◌&◌, Bool, true, false, not, ◌&&◌, ◌||◌, Option, none, some, List, [], ◌∷◌, ◌++◌, ◌==◌,
  any, first, keep, map, member, is_some, if◌then◌else◌,
}
use deep_thought.Prelude.Text.{strip, strip_of}
use deep_thought.Schema.Status.{
  FindingStatus, candidate, verified, SessionType, GateOutcome, CloseState, ActionKind,
  verify_escalation, disclosure_send, is_proceed, is_clean, is_status, is_type, is_kind,
}
use deep_thought.Schema.Finding.{Finding}
use deep_thought.Schema.Project.{Project}
use deep_thought.Schema.Session.{Session}
use deep_thought.Schema.Coverage.{Coverage}
use deep_thought.Schema.Loop.{LoopAction, LoopStep, LoopRun}
use deep_thought.Store.{Store, list_sessions, list_findings, list_coverage, list_loop_runs}

-- the keys of the work that a run has dispatched
abbrev pub Key : Type 0
Key = ActionKind × String

abbrev pub Done : Type 0
Done = List Key

-- `key in done`; the value of a kind names the kind
abbrev pub in_done : Key → Done → Bool
in_done k = any (λ (e : Key). is_kind e.0 k.0 && e.1 == k.1)

-- `_completed`, of a session or of a step
abbrev pub completed : Option GateOutcome → Option CloseState → Bool
completed (some g) (some c) = is_proceed g && is_clean c
completed _ _ = false

abbrev pub session_completed : Session → Bool
session_completed s = completed s.gate_outcome (some s.close_state)

abbrev pub step_completed : LoopStep → Bool
step_completed s = completed s.gate_outcome s.close_state

-- an action that is no escalation
abbrev pub action : ActionKind → String → Option String → LoopAction
action kind project finding = record {
  kind = kind;
  project = project;
  area = none;
  finding = finding;
  human_action = none;
}

abbrev pub verify_note : String
verify_note = " needs VERIFY under a real sandbox — human sign-off required"

abbrev pub send_note : String
send_note =
    " disclosure drafted — human review and send required (Article V); Deep Thought drafts only, never transmits"

unfoldable pub verify_action : String → String → LoopAction
verify_action pid fid = record {
  kind = verify_escalation;
  project = pid;
  area = none;
  finding = some fid;
  human_action = some (fid & verify_note);
}

unfoldable pub send_action : String → String → LoopAction
send_action pid fid = record {
  kind = disclosure_send;
  project = pid;
  area = none;
  finding = some fid;
  human_action = some (fid & send_note);
}

-- `[a.strip() for a in scope if a.strip()]`
in_scope : List String → List String
unfolding strip_of
in_scope areas = keep (λ a. not (a == "")) (map strip areas)

-- `max(..., default="")` of texts
latest : List String → String
latest [] = ""
latest (s ∷ ss) = let best = latest ss in if is_lt (compare s best) then best else s

-- the findings of the sessions' completed drafts
drafted_by : (Store → String → Bool) → Store → List Session → List String
drafted_by drafts_ok store [] = []
drafted_by drafts_ok store (s ∷ ss) =
    let rest = drafted_by drafts_ok store ss in
    if is_type s.type SessionType.disclosure && session_completed s && drafts_ok store s.id
    then s.findings_touched ++ rest
    else rest

-- the findings that a run's trace has as hunted
hunted_in : List LoopStep → List String
hunted_in [] = []
hunted_in (step ∷ steps) =
    let rest = hunted_in steps in
    if is_kind step.kind ActionKind.sibling_hunt && step_completed step
    then elim step.finding [ none ↦ rest | some f ↦ if f == "" then rest else f ∷ rest ]
    else rest

hunted_by : List LoopRun → List String
unfolding hunted_in
hunted_by [] = []
hunted_by (run ∷ runs) = hunted_in run.trace ++ hunted_by runs

-- What the policy reads from the store.
pub record Snapshot : Type 0 where
  pub has_status : Bool
  pub has_coverage : Bool
  pub unmapped : List String
  pub discover_current : Bool
  pub findings : List Finding
  pub hunted_before : List String
  pub drafted : List String

module _ (drafts_ok : Store → String → Bool) where
  -- `_drafted_findings`
  unfoldable pub drafted_findings : Store → List Session → List String
  unfolding drafted_by
  drafted_findings store sessions = drafted_by drafts_ok store sessions

  unfoldable pub snapshot : Store → Project → Snapshot
  unfolding drafted_findings in_scope latest hunted_by
  snapshot store p =
      let sessions = list_sessions store (some p.id) in
      let coverage = list_coverage store (some p.id) in
      let covered = map (λ (c : Coverage). c.area) coverage in
      let maps = keep (λ s. not (s == "")) (map (λ (c : Coverage). c.last_session) coverage) in
      let discovers =
        map (λ (s : Session). s.id)
          (keep (λ s. is_type s.type SessionType.discover && session_completed s) sessions) in
      record {
        has_status = any (λ s. is_type s.type SessionType.status && session_completed s) sessions;
        has_coverage = any (λ _. true) covered;
        unmapped = keep (λ a. not (member a covered)) (in_scope p.scope_allowlist);
        discover_current =
            not (latest discovers == "") && not (is_lt (compare (latest discovers) (latest maps)));
        findings = list_findings store (some p.id);
        hunted_before = hunted_by (list_loop_runs store (some p.id));
        drafted = drafted_findings store sessions;
      }

abbrev pub is_verified : Finding → Bool
is_verified f = is_status f.status verified

abbrev pub is_candidate : Finding → Bool
is_candidate f = is_status f.status candidate

-- `fresh`
abbrev pub fresh : Done → ActionKind → String → Bool
fresh done kind target = not (in_done (kind, target) done)

-- The findings that each of the last four rungs looks for, in the order of the rungs.
abbrev pub to_hunt : Snapshot → Done → Finding → Bool
to_hunt n done f =
    is_verified f && (not (member f.id n.hunted_before) && fresh done ActionKind.sibling_hunt f.id)

abbrev pub to_draft : Snapshot → Done → Finding → Bool
to_draft n done f =
    is_verified f && (not (member f.id n.drafted) && fresh done ActionKind.disclosure f.id)

abbrev pub to_send : Snapshot → Done → Finding → Bool
to_send n done f = is_verified f && (member f.id n.drafted && fresh done disclosure_send f.id)

abbrev pub to_verify : Done → Finding → Bool
to_verify done f = is_candidate f && fresh done verify_escalation f.id

-- one rung: an action for the first such finding, or the rungs below
abbrev pub rung : Option Finding → (String → LoopAction) → Option LoopAction → Option LoopAction
rung none make below = below
rung (some f) make below = some (make f.id)

abbrev pub finding_rungs : Snapshot → String → Done → Option LoopAction
finding_rungs n pid done =
    rung (first (to_hunt n done) n.findings) (λ fid. action ActionKind.sibling_hunt pid (some fid))
      (rung (first (to_draft n done) n.findings)
        (λ fid. action ActionKind.disclosure pid (some fid))
        (rung (first (to_send n done) n.findings) (send_action pid)
          (rung (first (to_verify done) n.findings) (verify_action pid) none)))

abbrev is_empty : List String → Bool
is_empty [] = true
is_empty (_ ∷ _) = false

unfoldable pub select_from : Snapshot → String → Done → Option LoopAction
select_from n pid done =
    if not n.has_status && fresh done ActionKind.status pid
    then some (action ActionKind.status pid none)
    else if not (is_empty n.unmapped) && fresh done ActionKind.map pid
    then some (action ActionKind.map pid none)
    else if n.has_coverage && (not n.discover_current && fresh done ActionKind.discover pid)
    then some (action ActionKind.discover pid none)
    else finding_rungs n pid done

module _ (drafts_ok : Store → String → Bool) where
  unfoldable pub select_next_action : Store → Project → Done → Option LoopAction
  unfolding snapshot select_from
  select_next_action store p done = select_from (snapshot drafts_ok store p) p.id done

  unfoldable pub pending_escalations : Store → Project → List LoopAction
  unfolding drafted_findings
  pending_escalations store p =
      let findings = list_findings store (some p.id) in
      let drafted = drafted_findings drafts_ok store (list_sessions store (some p.id)) in
      map (λ (f : Finding). send_action p.id f.id)
        (keep (λ f. is_verified f && member f.id drafted) findings)
      ++ map (λ (f : Finding). verify_action p.id f.id) (keep (λ f. is_candidate f) findings)
