-- ===== src/Sessions/NewProject.antt =====
-- NEW PROJECT (src/deepthought/sessions/new_project.py): registers a target under the gate.
-- `verify_url` is the injected check that a git URL resolves, and `invalid` what pydantic says of a
-- project that its validators refuse.
pub mod Registration
use deep_thought.Prelude.{
  String, ◌&◌, Bool, true, false, not, ◌&&◌, Option, none, some, List, [], ◌∷◌, ◌==◌, ℕ, length,
  eqb, truthy, if◌then◌else◌,
}
use deep_thought.Prelude.Text.{repr, show, join, concat, lower, rstrip_of, or_empty}
use deep_thought.Prelude.FilePaths.{basename}
use deep_thought.Schema.Status.{
  SessionType, SourceType, open_source, blackbox, AuthorizationBasis, own_code, permissive_oss,
  scoped_engagement, active,
}
use deep_thought.Schema.Project.{Project, is_well_formed, identity}
use deep_thought.Ids.{is_record_id, safe_record_id}
use deep_thought.Result.{Error, Result, ok, raise, duplicate_project, value_error}
use deep_thought.Store.{Store}
use deep_thought.Store.Projects.{save_project, resolve_project}
use deep_thought.Gate.{GateContext}
use deep_thought.Protocol.{BaseSession, SessionOutcome}
use deep_thought.Sessions.{teach}

pub record NewProjectSession : Type 0 where
  pub name : String
  pub source_type : SourceType
  pub git_url : Option String
  pub local_path : Option String
  pub authorization_basis : Option AuthorizationBasis
  pub authorization_ref : Option String
  pub scope_allowlist : List String
  pub explicit_id : Option String
  pub notes : String
  pub verify_url : String → Bool

abbrev source_value : SourceType → String
source_value open_source = "open_source"
source_value blackbox = "blackbox"

-- `basis.value if basis else None` in a format
abbrev basis_text : Option AuthorizationBasis → String
basis_text none = "None"
basis_text (some own_code) = "own_code"
basis_text (some permissive_oss) = "permissive_oss"
basis_text (some scoped_engagement) = "scoped_engagement"

-- `re.sub(r"\.git$", "", t)`: the end is before a last line feed too
unfoldable pub without_git : String → String
without_git String.[] = ""
without_git (String.◌∷◌ c s) =
    let t = String.◌∷◌ c s in
    let rest = without_git s in
    if t == ".git" then "" else if t == ".git\n" then "\n" else String.◌∷◌ c rest

-- `git_url or local_path`
abbrev url_or_path : Option String → Option String → Option String
url_or_path git_url local_path = if truthy git_url then git_url else local_path

-- `derive_project_id`
unfoldable pub derive_project_id : String → Option String → Option String → String
unfolding rstrip_of basename without_git lower safe_record_id
derive_project_id name git_url local_path =
    let given = url_or_path git_url local_path in
    let source = if truthy given then or_empty given else name in
    let tail = without_git (basename (rstrip_of (λ c. eqb c b'/') source)) in
    safe_record_id (lower tail) "project"

abbrev repr_option : Option String → String
repr_option none = "None"
repr_option (some s) = repr s

-- an explicit id that is not safe
abbrev pub is_unsafe : Option String → Bool
is_unsafe none = false
is_unsafe (some id) = not (is_record_id id)

-- the project that is proposed
unfoldable pub proposed : NewProjectSession → Project
unfolding derive_project_id
proposed v = record {
  id =
      if truthy v.explicit_id
      then or_empty v.explicit_id
      else derive_project_id v.name v.git_url v.local_path;
  name = v.name;
  source_type = v.source_type;
  git_url = v.git_url;
  local_path = v.local_path;
  authorization_basis = v.authorization_basis;
  authorization_ref = v.authorization_ref;
  scope_allowlist = v.scope_allowlist;
  status = active;
  body =
      if v.notes == ""
      then "Registered target " & (repr_option (url_or_path v.git_url v.local_path) & ".")
      else v.notes;
}

-- `', '.join(areas) or '(none)'`
scope_text : List String → String
unfolding join
scope_text areas = let text = join ", " areas in if text == "" then "(none)" else text

-- what is taught on each way out
pub unsafe_id : Option String → SessionOutcome
unsafe_id id =
    teach ("Refused: invalid project id " & (repr_option id & "."))
      "Provide a valid project id — a single safe path segment." [] []

pub already : Project → SessionOutcome
already p =
    teach
      (concat (
        "Project "
        ∷ repr p.id
        ∷ " already registered for "
        ∷ repr (identity p)
        ∷ "; resolved to the existing record."
        ∷ []))
      ("Run a STATUS session on " & (repr p.id & " to review state.")) [] []

pub unresolved : String → SessionOutcome
unresolved url =
    teach ("Refused: git URL " & (repr url & " does not resolve."))
      "Provide a resolvable git_url or a local_path, then retry." [] []

pub taken : String → SessionOutcome
taken why =
    teach ("Refused: " & (why & "."))
      "Two distinct targets derive the same project id; pass an explicit project_id to disambiguate, then retry."
      [] []

pub registered : NewProjectSession → Project → SessionOutcome
unfolding show scope_text
registered v p =
    teach
      (concat (
        "Registered project "
        ∷ repr p.id
        ∷ " ("
        ∷ source_value v.source_type
        ∷ ") with basis "
        ∷ basis_text v.authorization_basis
        ∷ " and "
        ∷ show (length v.scope_allowlist)
        ∷ " scope entr"
        ∷ (if eqb (length v.scope_allowlist) 1 then "y" else "ies")
        ∷ "."
        ∷ []))
      (concat (
        "Run a STATUS session on "
        ∷ repr p.id
        ∷ "; then map the in-scope surface: "
        ∷ scope_text v.scope_allowlist
        ∷ "."
        ∷ []))
      [] []

abbrev pub Work : Type 0
Work = Store × Result SessionOutcome

-- `except DuplicateProjectError`
caught : Error → Result SessionOutcome
caught (duplicate_project why) = ok (taken why)
caught e = raise e

-- after `save_project`
unfoldable pub filed_as : NewProjectSession → Store → Project → Result Store → Work
unfolding caught
filed_as v s p (ok t) = (t, ok (registered v p))
filed_as v s p (raise e) = (s, caught e)

unfoldable pub built : (Project → String) → NewProjectSession → Store → Project → Work
unfolding filed_as
built invalid v s p =
    if is_well_formed p
    then filed_as v s p (save_project s p)
    else (s, raise (value_error (invalid p)))

unfoldable pub resolved : (Project → String) → NewProjectSession → Store → Option Project → Work
unfolding built
resolved invalid v s (some existing) = (s, ok (already existing))
resolved invalid v s none =
    if truthy v.git_url && not (v.verify_url (or_empty v.git_url))
    then (s, ok (unresolved (or_empty v.git_url)))
    else built invalid v s (proposed v)

-- `NewProjectSession.run`
unfoldable pub new_project_run : (Project → String) → NewProjectSession → Store → Work
unfolding resolved
new_project_run invalid v s =
    if is_unsafe v.explicit_id
    then (s, ok (unsafe_id v.explicit_id))
    else resolved invalid v s (resolve_project s v.git_url v.local_path)

unfoldable pub new_project_session : (Project → String) → NewProjectSession → BaseSession
unfolding new_project_run
new_project_session invalid v = record {
  type = SessionType.new_project;
  project_id = none;
  build_gate_context = λ s. ok (record {
    session_type = SessionType.new_project;
    source_type = some v.source_type;
    authorization_basis = v.authorization_basis;
    authorization_ref = v.authorization_ref;
    scope_allowlist = v.scope_allowlist;
    project_id = none;
  });
  run = λ gate s sid. new_project_run invalid v s;
}
