-- ===== src/Sessions/Map/Loop.antt =====
-- The loop of MAP over the areas of the allowlist (src/deepthought/sessions/map.py). SHA-1, for the names
-- of the coverage files, is a parameter.
use deep_thought.Prelude.{
  ℕ, ◌+◌, String, ◌&◌, Option, none, some, List, [], ◌∷◌, ◌++◌, ◌==◌, member, eqb, if◌then◌else◌,
}
use deep_thought.Prelude.Text.{show, concat}
use deep_thought.Schema.Status.{CoverageMethod, touched, explored}
use deep_thought.Schema.Coverage.{Coverage, ref}
use deep_thought.Scope.{resolve_within}
use deep_thought.Store.{Store}
use deep_thought.Store.Areas.{save_coverage}
use deep_thought.Sessions.Map.{Files, count_files}

-- `_area_body`
unfoldable pub area_body : String → ℕ → String
unfolding show
area_body area files_found =
    if eqb files_found 0
    then "Read-only map of `" & (area & "`: no files found (area missing or empty). Touched only.")
    else concat (
        "Read-only map of `"
        ∷ area
        ∷ "`: "
        ∷ show files_found
        ∷ " file(s) present. Surface recorded; nothing executed. DISCOVER next."
        ∷ [])

-- `dict.fromkeys(areas)`, after the keys that were seen
unfoldable pub fromkeys : List String → List String → List String
fromkeys seen [] = []
fromkeys seen (a ∷ rest) =
    let fresh = fromkeys (a ∷ seen) rest in
    let stale = fromkeys seen rest in if member a seen then stale else a ∷ fresh

-- what the loop keeps: the store, the areas recorded and refused, and their counts
pub record Progress : Type 0 where
  pub store : Store
  pub recorded : List String
  pub refused : List String
  pub explored_count : ℕ
  pub touched_count : ℕ

module _ (sha1 : String → String) (fs : Files) (root : List String) (project sid : String) where
  -- the coverage of an area with so many files
  abbrev pub covered : String → ℕ → Coverage
  covered area files_found = record {
    project = project;
    area = area;
    method = CoverageMethod.read;
    depth = if eqb files_found 0 then touched else explored;
    last_session = sid;
    body = area_body area files_found;
  }

  unfoldable pub recorded_area : String → ℕ → Progress → Progress
  unfolding area_body
  recorded_area area files_found g =
      let c = covered area files_found in
      record {
        store = save_coverage sha1 g.store c;
        recorded = g.recorded ++ ref c ∷ [];
        refused = g.refused;
        explored_count = if eqb files_found 0 then g.explored_count else g.explored_count + 1;
        touched_count = if eqb files_found 0 then g.touched_count + 1 else g.touched_count;
      }

  unfoldable pub refused_area : String → Progress → Progress
  refused_area name g = record g { refused = g.refused ++ name ∷ [] }

  -- an area by where it resolves to
  unfoldable pub visit_at : String → Option (List String) → Progress → Progress
  unfolding recorded_area refused_area count_files
  visit_at area none g = refused_area area g
  visit_at area (some path) g = recorded_area area (count_files (fs.tree path)) g

  -- the body of the loop
  unfoldable pub visit : String → Progress → Progress
  unfolding refused_area visit_at resolve_within
  visit area g =
      if area == ""
      then refused_area "(blank)" g
      else visit_at area (resolve_within fs.resolve root area) g

  unfoldable pub visit_all : List String → Progress → Progress
  unfolding visit
  visit_all [] g = g
  visit_all (a ∷ rest) g = visit_all rest (visit a g)
