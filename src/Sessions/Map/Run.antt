-- ===== src/Sessions/Map/Run.antt =====
-- `MapSession` of src/deepthought/sessions/map.py: the root, the loop, and what is taught back.
use deep_thought.Prelude.{
  String, ◌&◌, not, ◌&&◌, Option, none, some, List, [], ◌∷◌, ◌==◌, length, map, eqb, truthy,
  if◌then◌else◌,
}
use deep_thought.Prelude.Text.{repr, show, join, concat, strip, or_empty, path_parts, root_part}
use deep_thought.Schema.Status.{SessionType}
use deep_thought.Schema.Project.{Project}
use deep_thought.Result.{Result, ok, raise}
use deep_thought.Store.{Store}
use deep_thought.Protocol.{BaseSession, SessionOutcome}
use deep_thought.Sessions.{project_of, project_context, teach}
use deep_thought.Sessions.Map.{Files}
use deep_thought.Sessions.Map.Loop.{fromkeys, Progress, visit_all}

-- `', '.join(areas) or '(none)'`
areas_text : List String → String
unfolding join
areas_text areas = let text = join ", " areas in if text == "" then "(none)" else text

-- `_suggest_next`
unfoldable pub suggest_next : List String → List String → String
unfolding areas_text show join
suggest_next allowlist refused =
    let step = concat (
      "Run a DISCOVER session over the mapped in-scope areas ("
      ∷ areas_text allowlist
      ∷ ") to reason over code and any SARIF for candidate findings."
      ∷ []) in
    if eqb (length refused) 0
    then step
    else concat (
        step
        ∷ " Fix "
        ∷ show (length refused)
        ∷ " scope entry(ies) that resolve outside the root and were refused: "
        ∷ join ", " refused
        ∷ "."
        ∷ [])

pub record MapSession : Type 0 where
  pub project_id : String
  pub root : Option String

-- `self.root or project.local_path`
unfoldable pub candidate_root : MapSession → Project → Option String
candidate_root v p = if truthy v.root then v.root else p.local_path

-- `str(Path(s))`
path_text : String → String
unfolding join path_parts root_part
path_text s =
    let text = join "" (root_part s) & join "/" (beyond_root (root_part s) (path_parts s)) in
    if text == "" then "." else text
  where
    beyond_root : List String → List String → List String
    beyond_root [] parts = parts
    beyond_root (r ∷ rs) [] = []
    beyond_root (r ∷ rs) (p ∷ parts) = parts

abbrev pub Work : Type 0
Work = Store × Result SessionOutcome

no_root : MapSession → Project → SessionOutcome
unfolding candidate_root areas_text
no_root v p =
    let wanted = candidate_root v p in
    let requested = if truthy wanted then or_empty wanted else "(none)" in
    teach
      (concat (
        "Project "
        ∷ repr p.id
        ∷ ": no readable root to map (requested "
        ∷ repr requested
        ∷ "). Recorded no coverage."
        ∷ []))
      (concat (
        "Provide a local checkout for "
        ∷ repr p.id
        ∷ " (set the project's local_path or pass a root), then re-run MAP over the in-scope areas: "
        ∷ areas_text p.scope_allowlist
        ∷ "."
        ∷ []))
      [] []

refused_note : List String → String
unfolding show join
refused_note refused =
    if eqb (length refused) 0
    then ""
    else concat (
        " Refused "
        ∷ show (length refused)
        ∷ " area(s) that resolve outside the root (containment): "
        ∷ join ", " refused
        ∷ "."
        ∷ [])

-- what is taught after the loop
pub mapped : Project → String → Progress → SessionOutcome
unfolding refused_note path_text suggest_next show
mapped p root g =
    teach
      (concat (
        "Mapped "
        ∷ show (length g.recorded)
        ∷ " in-scope area(s) of "
        ∷ repr p.id
        ∷ " under "
        ∷ repr (path_text root)
        ∷ ", read-only: "
        ∷ show g.explored_count
        ∷ " explored, "
        ∷ show g.touched_count
        ∷ " touched. No code executed; scope unchanged."
        ∷ refused_note g.refused
        ∷ []))
      (suggest_next p.scope_allowlist g.refused) [] g.recorded

abbrev pub fresh_progress : Store → Progress
fresh_progress s = record {
  store = s;
  recorded = [];
  refused = [];
  explored_count = 0;
  touched_count = 0;
}

-- the areas of a project, stripped and each once
abbrev pub areas_of : Project → List String
areas_of p = fromkeys [] (map (λ a. strip a) p.scope_allowlist)

module _ (sha1 : String → String) (fs : Files) (v : MapSession) (sid : String) where
  unfoldable pub map_under : Project → Store → String → Work
  unfolding visit_all fromkeys mapped
  map_under p s root =
      let g = visit_all sha1 fs (fs.root_of root) p.id sid (areas_of p) (fresh_progress s) in
      (g.store, ok (mapped p root g))

  -- `_resolve_root`, and the loop from there
  unfoldable pub map_from : Project → Store → Option String → Work
  unfolding map_under no_root
  map_from p s none = (s, ok (no_root v p))
  map_from p s (some root) =
      if not (root == "") && fs.is_dir root then map_under p s root else (s, ok (no_root v p))

  unfoldable pub map_project : Store → Result Project → Work
  unfolding map_from candidate_root
  map_project s (raise e) = (s, raise e)
  map_project s (ok p) = map_from p s (candidate_root v p)

  -- `MapSession.run`
  unfoldable pub map_run : Store → Work
  unfolding map_project project_of
  map_run s = map_project s (project_of s v.project_id)

unfoldable pub map_session : (String → String) → Files → MapSession → BaseSession
unfolding project_context map_run
map_session sha1 fs v = record {
  type = SessionType.map;
  project_id = some v.project_id;
  build_gate_context = project_context SessionType.map v.project_id;
  run = λ gate s sid. map_run sha1 fs v sid s;
}
