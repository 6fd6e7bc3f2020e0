-- ===== src/Store/Projects.antt =====
-- Registration of projects (`save_project` and `resolve_project` of
-- src/deepthought/store/filestore.py): one record for an identity, one identity for a record.
pub mod Unique
use deep_thought.Prelude.{
  String, ◌&◌, Bool, not, ◌&&◌, Option, none, some, List, [], ◌∷◌, ◌==◌, first, truthy,
  if◌then◌else◌,
}
use deep_thought.Prelude.Text.{repr, or_empty}
use deep_thought.Prelude.Dirs.{write}
use deep_thought.Result.{Result, ok, raise, duplicate_project}
use deep_thought.Schema.Project.{Project, identity}
use deep_thought.Store.{Store, file_name, read_back, list_projects}

-- why a project cannot be saved beside one that is there
unfoldable pub conflict : Project → Project → Option String
conflict p existing =
    if not (existing.id == p.id) && identity existing == identity p
    then some
        ("project identity " & (repr (identity p) & (" already registered as " & repr existing.id)))
    else if existing.id == p.id && not (identity existing == identity p)
    then some (
        "project id "
        & (repr p.id
            & (" already registered for a different identity " & repr (identity existing))))
    else none

-- the loop over the projects that are there
unfoldable pub first_conflict : Project → List Project → Option String
unfolding conflict
first_conflict p [] = none
first_conflict p (existing ∷ es) = elim (conflict p existing) [
  | some m ↦ some m
  | none ↦ first_conflict p es
]

-- a project as its file gives it back
abbrev pub filed : Project → Project
filed p = record p { body = read_back p.body }

saved : Store → Project → Option String → Result Store
saved s p (some m) = raise (duplicate_project m)
saved s p none = ok (record s { projects = write (file_name p.id) (filed p) s.projects })

unfoldable pub save_project : Store → Project → Result Store
unfolding first_conflict saved
save_project s p = saved s p (first_conflict p (list_projects s))

abbrev pub has_identity : String → Project → Bool
has_identity i p = identity p == i

-- `git_url or local_path` of the keyword arguments
unfoldable pub resolve_project : Store → Option String → Option String → Option Project
resolve_project s git_url local_path =
    let wanted = if truthy git_url then or_empty git_url else or_empty local_path in
    if wanted == "" then none else first (has_identity wanted) (list_projects s)
