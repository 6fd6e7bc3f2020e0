-- ===== src/Sessions/Map.antt =====
-- MAP (src/deepthought/sessions/map.py): records the coverage of the areas in scope, read-only. Here is
-- the file system below the root, a parameter, and the count of files; Loop is the loop over the areas,
-- Run the session.
pub mod Loop
pub mod Run
pub mod Contained
use deep_thought.Prelude.{
  ℕ, ◌+◌, String, ◌&◌, Bool, true, false, not, ◌&&◌, Option, none, some, List, [], ◌∷◌, ◌++◌, ◌==◌,
  length, map, member, eqb, is_some, truthy, if◌then◌else◌,
}
use deep_thought.Prelude.Text.{repr, show, join, concat, strip, or_empty, path_parts, root_part}
use deep_thought.Schema.Status.{SessionType, CoverageMethod, CoverageDepth, touched, explored}
use deep_thought.Schema.Coverage.{Coverage, ref}
use deep_thought.Schema.Project.{Project}
use deep_thought.Scope.{resolve_within}
use deep_thought.Result.{Result, ok, raise}
use deep_thought.Store.{Store}
use deep_thought.Store.Areas.{save_coverage}
use deep_thought.Protocol.{BaseSession, SessionOutcome}
use deep_thought.Sessions.{project_of, project_context, teach}

-- What stands at a path: a file, a directory with what it lists by name, or something else, such as
-- a socket. A directory that cannot be read lists nothing; a link to one is listed as `other`.
mutual
  pub data Node : Type 0 where
    file : Node
    other : Node
    directory : Nodes → Node

  pub data Nodes : Type 0 where
    nothing : Nodes
    entry : String → Node → Nodes → Nodes

-- the file system: whether a path is a directory, its parts with every link followed, and the tree
-- below a path
pub record Files : Type 0 where
  pub is_dir : String → Bool
  pub root_of : String → List String
  pub resolve : List String → Option (List String)
  pub tree : List String → Option Node

abbrev pub ignored_dirs : List String
ignored_dirs =
    ".git" ∷ ".hg" ∷ ".svn" ∷ "node_modules" ∷ ".venv" ∷ "venv" ∷ "__pycache__" ∷ ".pytest_cache"
    ∷ ".mypy_cache" ∷ ".ruff_cache" ∷ ".tox" ∷ []

-- the files of a walk, without the directories that it prunes
walked : Nodes → ℕ
walked nothing = 0
walked (entry name (directory below) rest) =
    let here = walked below in
    let beside = walked rest in if member name ignored_dirs then beside else here + beside
walked (entry name _ rest) = 1 + walked rest

-- `_count_files`
unfoldable pub count_files : Option Node → ℕ
unfolding walked
count_files (some file) = 1
count_files (some (directory below)) = walked below
count_files _ = 0
