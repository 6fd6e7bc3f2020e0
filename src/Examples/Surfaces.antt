-- ===== src/Examples/Surfaces.antt =====
-- MAP of a small checkout, and STATUS of a project.
use deep_thought.Prelude.{String, ◌≡◌, refl, some, [], ◌∷◌, ◌==◌}
use deep_thought.Prelude.Dirs.{lookup}
use deep_thought.Ids.{is_record_id}
use deep_thought.Store.{get_project}
use deep_thought.Sessions.Map.{Files, Node, file, directory, nothing, entry, count_files}
use deep_thought.Sessions.Map.Loop.{fromkeys}
use deep_thought.Sessions.Map.Run.{MapSession, candidate_root}
use deep_thought.Examples.Samples.{store, project}

abbrev pub sha1 : String → String
sha1 s = "0123456789abcdef"

abbrev tree : Node
tree =
    directory (entry ".git" (directory (entry "HEAD" file nothing)) (entry "soap.c" file nothing))

abbrev files : Files
files = record {
  is_dir = λ path. path == "/src/php";
  root_of = λ path. "/" ∷ "src" ∷ "php" ∷ [];
  resolve = λ parts. some parts;
  tree = λ parts. some tree;
}

one_file : count_files (some tree) ≡ 1
unfolding count_files
one_file = refl

kept_once : fromkeys [] ("b" ∷ "a" ∷ "b" ∷ []) ≡ "b" ∷ "a" ∷ []
unfolding fromkeys
kept_once = refl

abbrev session : MapSession
session = record { project_id = "php-src"; root = some "/src/php" }

found : get_project store "php-src" ≡ some project
unfolding get_project is_record_id lookup
found = refl

chosen : candidate_root session project ≡ some "/src/php"
unfolding candidate_root
chosen = refl
