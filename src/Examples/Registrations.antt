-- ===== src/Examples/Registrations.antt =====
-- NEW PROJECT on an empty store.
use deep_thought.Prelude.{
  String, Bool, ◌≡◌, ◌≢◌, refl, sym, ap, ◌∙◌, true, false, none, some, [], ◌∷◌,
}
use deep_thought.Prelude.Dirs.{lookup, values, write}
use deep_thought.Schema.Status.{open_source, own_code}
use deep_thought.Schema.Project.{Project, is_well_formed}
use deep_thought.Store.{Store, empty, list_projects}
use deep_thought.Store.Projects.{resolve_project, save_project}
use deep_thought.Store.Projects.Unique.{IsRegistry}
use deep_thought.Sessions.NewProject.{
  NewProjectSession, derive_project_id, without_git, proposed, new_project_run,
}
use deep_thought.Sessions.NewProject.Registration.{new_project_run_once}

abbrev cjson : NewProjectSession
cjson = record {
  name = "cJSON";
  source_type = open_source;
  git_url = some "https://github.com/DaveGamble/cJSON.git/";
  local_path = none;
  authorization_basis = some own_code;
  authorization_ref = none;
  scope_allowlist = "cJSON.c" ∷ [];
  explicit_id = none;
  notes = "";
  verify_url = λ url. true;
}

abbrev invalid : Project → String
invalid p = "invalid"

derived : derive_project_id cjson.name cjson.git_url cjson.local_path ≡ "cjson"
unfolding derive_project_id
derived = refl

before_line_feed : without_git "a.git.git\n" ≡ "a.git\n"
unfolding without_git
before_line_feed = refl

not_found : (k : String) (p : Project) → lookup k empty.projects ≢ some p
unfolding lookup
not_found k p h = cc

empty-IsRegistry : IsRegistry empty.projects
empty-IsRegistry = record {
  named = λ k p h. absurd (not_found k p h);
  unique = λ k j p q h i e. absurd (not_found k p h);
}

abbrev renamed : NewProjectSession
renamed = record cjson { explicit_id = some "cjson"; scope_allowlist = "." ∷ []; notes = "again" }

abbrev is_empty : Store → Bool
is_empty s = elim s.projects [ [] ↦ true | f ∷ fs ↦ false ]

is_registered : is_empty (new_project_run invalid cjson empty).0 ≡ false
unfolding new_project_run resolve_project list_projects values is_well_formed proposed save_project
    write
is_registered = refl

is_unregistered : is_empty empty ≡ true
is_unregistered = refl

has_changed : (new_project_run invalid cjson empty).0 ≢ empty
has_changed same =
    let e : true ≡ false = sym is_unregistered ∙ sym (ap (λ s. is_empty s) same) ∙ is_registered in
    cc

new_project_run_once_example :
    (new_project_run invalid renamed (new_project_run invalid cjson empty).0).0
    ≡ (new_project_run invalid cjson empty).0
new_project_run_once_example =
    new_project_run_once invalid cjson renamed empty refl refl has_changed
