-- ===== src/Sessions/Status.antt =====
-- STATUS (src/deepthought/sessions/status.py): reports what is on file for a project, and reads only.
pub mod Counts
use deep_thought.Prelude.{
  ℕ, ◌+◌, String, ◌&◌, Option, none, some, List, [], ◌∷◌, ◌==◌, length, map, eqb, if◌then◌else◌,
}
use deep_thought.Prelude.Text.{repr, show, join, concat}
use deep_thought.Prelude.Dirs.{Dir, lookup, write}
use deep_thought.Schema.Status.{
  SessionType, CoverageDepth, touched, explored, exhausted, status_value,
}
use deep_thought.Schema.Finding.{Finding}
use deep_thought.Schema.Coverage.{Coverage}
use deep_thought.Schema.Project.{Project}
use deep_thought.Result.{Result, ok, raise}
use deep_thought.Store.{Store, list_findings, list_coverage}
use deep_thought.Protocol.{BaseSession, SessionOutcome}
use deep_thought.Sessions.{project_of, project_context, teach}

-- `Counter.get(key, 0)`
abbrev pub or_zero : Option ℕ → ℕ
or_zero none = 0
or_zero (some n) = n

abbrev pub count_of : String → Dir ℕ → ℕ
count_of key counts = or_zero (lookup key counts)

-- `Counter(keys)`, in the order of its keys
unfoldable pub tally : List String → Dir ℕ
unfolding lookup write
tally [] = []
tally (k ∷ ks) = let counts = tally ks in write k (count_of k counts + 1) counts

abbrev depth_value : CoverageDepth → String
depth_value touched = "touched"
depth_value explored = "explored"
depth_value exhausted = "exhausted"

-- `f"{n} {key}"` for each count
counted : Dir ℕ → List String
unfolding show
counted [] = []
counted ((key, n) ∷ counts) = (show n & (" " & key)) ∷ counted counts

-- `', '.join(texts) or default`
joined : List String → String → String
unfolding join
joined texts default = let text = join ", " texts in if text == "" then default else text

-- `_suggest_next`
unfoldable pub suggest_next : Dir ℕ → List Coverage → String
unfolding lookup show
suggest_next by_status coverage =
    let candidates = count_of "candidate" by_status in
    if eqb (length coverage) 0
    then "Run a MAP session to record attack-surface coverage (feature 002)."
    else if eqb candidates 0
    then "Extend coverage to the untouched in-scope areas."
    else show candidates
      & " candidate finding(s) await evidence. Queue a VERIFY session once the sandbox lands (feature 003)."

-- the findings of a project, counted by status
unfoldable pub by_status : List Finding → Dir ℕ
unfolding tally
by_status findings = tally (map (λ f. status_value f.status) findings)

by_depth : List Coverage → Dir ℕ
unfolding tally
by_depth coverage = tally (map (λ c. depth_value c.depth) coverage)

-- what is reported of a project
pub report : Project → List Finding → List Coverage → SessionOutcome
unfolding by_status by_depth counted joined suggest_next show
report p findings coverage =
    teach
      (concat (
        "Project "
        ∷ repr p.id
        ∷ ": "
        ∷ show (length findings)
        ∷ " finding(s) ["
        ∷ joined (counted (by_status findings)) "no findings yet"
        ∷ "]; "
        ∷ show (length coverage)
        ∷ " coverage area(s) ["
        ∷ joined (counted (by_depth coverage)) "no coverage recorded"
        ∷ "]. Scope: "
        ∷ joined p.scope_allowlist "(none)"
        ∷ ". No finding status was changed."
        ∷ []))
      (suggest_next (by_status findings) coverage) [] []

reported : Store → Result Project → Store × Result SessionOutcome
unfolding report
reported s (raise e) = (s, raise e)
reported s (ok p) = (s, ok (report p (list_findings s (some p.id)) (list_coverage s (some p.id))))

-- `StatusSession.run`
unfoldable pub status_run : String → Store → Store × Result SessionOutcome
unfolding reported project_of
status_run id s = reported s (project_of s id)

unfoldable pub status_session : String → BaseSession
unfolding project_context status_run
status_session id = record {
  type = SessionType.status;
  project_id = some id;
  build_gate_context = project_context SessionType.status id;
  run = λ gate s sid. status_run id s;
}
