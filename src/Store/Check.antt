-- ===== src/Store/Check.antt =====
-- What src/deepthought/check.py asks of the records of a store: that no identity is registered
-- twice, and that every reference names a record that is there. A record that does not parse is no
-- record here, so `_check_schema` only collects the records, in the order of `raw_records`.
pub mod Links
pub mod Identities
use deep_thought.Prelude.{
  String, ◌&◌, Bool, true, false, not, ◌&&◌, Option, none, some, List, [], ◌∷◌, ◌++◌, map, member,
  if◌then◌else◌,
}
use deep_thought.Prelude.Text.{repr}
use deep_thought.Prelude.Dirs.{Dir, lookup, values}
use deep_thought.Schema.Project.{Project, identity}
use deep_thought.Schema.Finding.{Finding}
use deep_thought.Schema.Session.{Session}
use deep_thought.Schema.Coverage.{Coverage, ref}
use deep_thought.Schema.Loop.{LoopStep, LoopRun}
use deep_thought.Store.{Store, list_coverage}

-- a loop whose body reports errors
unfoldable pub each {ℓ} : {A : Type ℓ} → (A → List String) → List A → List String
each f [] = []
each f (x ∷ xs) = f x ++ each f xs

-- `if not ok: report.fail(message)`
abbrev pub require : Bool → String → List String
require ok message = if ok then [] else message ∷ []

abbrev pub project_ids : Store → List String
project_ids s = map (λ (p : Project). p.id) (values s.projects)

abbrev pub finding_ids : Store → List String
finding_ids s = map (λ (f : Finding). f.id) (values s.findings)

abbrev pub session_ids : Store → List String
session_ids s = map (λ (r : Session). r.id) (values s.sessions)

-- `x is None or x in ids`
abbrev pub resolves : Option String → List String → Bool
resolves none ids = true
resolves (some x) ids = member x ids

-- `{x!r}` of an optional text
abbrev shown : Option String → String
shown none = "None"
shown (some x) = repr x

abbrev pub finding_errors : Store → Finding → List String
finding_errors s f =
    require (member f.project (project_ids s))
      ("finding " & (repr f.id & (" references unknown project " & repr f.project)))

abbrev pub coverage_errors : Store → Coverage → List String
coverage_errors s c =
    require (member c.project (project_ids s))
      ("coverage " & (repr (ref c) & (" references unknown project " & repr c.project)))

abbrev pub touched_errors : Store → Session → String → List String
touched_errors s r fid =
    require (member fid (finding_ids s))
      ("session " & (repr r.id & (" touched unknown finding " & repr fid)))

abbrev pub session_errors : Store → Session → List String
session_errors s r =
    require (resolves r.project (project_ids s))
      ("session " & (repr r.id & (" references unknown project " & shown r.project)))
    ++ each (touched_errors s r) r.findings_touched

abbrev pub step_errors : Store → LoopRun → LoopStep → List String
step_errors s run step =
    require (resolves step.finding (finding_ids s))
      ("loop run " & (repr run.id & (" trace references unknown finding " & shown step.finding)))
    ++ require (resolves step.session_id (session_ids s)) (
        "loop run "
        & (repr run.id & (" trace references unknown session " & shown step.session_id)))

abbrev pub run_errors : Store → LoopRun → List String
run_errors s run =
    require (member run.project (project_ids s))
      ("loop run " & (repr run.id & (" references unknown project " & repr run.project)))
    ++ each (step_errors s run) run.trace

-- `_check_orphans`
unfoldable pub orphan_errors : Store → List String
unfolding each
orphan_errors s =
    each (finding_errors s) (values s.findings)
    ++ (each (coverage_errors s) (list_coverage s none)
        ++ (each (session_errors s) (values s.sessions) ++ each (run_errors s) (values s.loop)))

-- the loop of `_check_duplicate_identity`, with the identities seen and whose they are
unfoldable pub duplicates : Dir String → List Project → List String
unfolding lookup
duplicates seen [] = []
duplicates seen (p ∷ ps) = elim (lookup (identity p) seen) [
  | none ↦ duplicates ((identity p, p.id) ∷ seen) ps
  | some id ↦
      ("duplicate project identity "
        & (repr (identity p) & (": " & (repr id & (" and " & repr p.id)))))
      ∷ duplicates seen ps
]

-- `_check_duplicate_identity`
unfoldable pub identity_errors : Store → List String
unfolding duplicates
identity_errors s = duplicates [] (values s.projects)
