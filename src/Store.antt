-- ===== src/Store.antt =====
-- The file store (src/deepthought/store/filestore.py). A directory of Markdown files is a list of
-- its records by file name. A record is written and read back through its Markdown form, which
-- keeps the fields and gives the body back stripped and with plain line ends.
pub mod Records
pub mod Projects
pub mod Detail
pub mod Lifecycle
pub mod Check
pub mod Areas
use deep_thought.Prelude.{
  ℕ, String, ◌&◌, Bool, true, false, Option, none, some, List, [], ◌∷◌, ◌++◌, ◌==◌, keep,
  if◌then◌else◌,
}
use deep_thought.Prelude.Text.{strip, strip_of, newlines}
use deep_thought.Prelude.Dirs.{Dir, lookup, write, values}
use deep_thought.Ids.{is_record_id}
use deep_thought.Schema.Project.{Project, identity}
use deep_thought.Schema.Finding.{Finding}
use deep_thought.Schema.Session.{Session}
use deep_thought.Schema.Coverage.{Coverage, Methodology}
use deep_thought.Schema.Loop.{LoopRun}

pub record Store : Type 0 where
  pub projects : Dir Project
  pub findings : Dir Finding
  pub sessions : Dir Session
  pub coverage : Dir (Dir Coverage)  -- a directory for each project
  pub methodology : Dir Methodology
  pub loop : Dir LoopRun
  pub detail : Dir String

-- the store in a new directory
abbrev pub empty : Store
empty = record {
  projects = [];
  findings = [];
  sessions = [];
  coverage = [];
  methodology = [];
  loop = [];
  detail = [];
}

-- `f"{id}.md"`
abbrev pub file_name : String → String
file_name id = id & ".md"

-- the body of a record that has been written and read
unfoldable pub read_back : String → String
unfolding strip_of newlines
read_back body = newlines (strip body)

-- `get_*`: an unsafe id names no file
abbrev pub get_record : {V : Type 0} → Dir V → String → Option V
get_record d id = if is_record_id id then lookup (file_name id) d else none

unfoldable pub get_project : Store → String → Option Project
get_project s id = get_record s.projects id

unfoldable pub list_projects : Store → List Project
list_projects s = values s.projects

unfoldable pub get_finding : Store → String → Option Finding
get_finding s id = get_record s.findings id

-- `project is None or record.project == project`
abbrev pub in_project : Option String → String → Bool
in_project none p = true
in_project (some project) p = p == project

unfoldable pub list_findings : Store → Option String → List Finding
list_findings s project = keep (λ f. in_project project f.project) (values s.findings)

unfoldable pub save_finding : Store → Finding → Store
save_finding s f = record s {
  findings = write (file_name f.id) (record f { body = read_back f.body }) s.findings;
}

unfoldable pub get_session : Store → String → Option Session
get_session s id = get_record s.sessions id

abbrev pub of_project : Option String → Option String → Bool
of_project none p = true
of_project (some project) none = false
of_project (some project) (some p) = p == project

unfoldable pub list_sessions : Store → Option String → List Session
list_sessions s project = keep (λ r. of_project project r.project) (values s.sessions)

unfoldable pub save_session : Store → Session → Store
save_session s r = record s {
  sessions = write (file_name r.id) (record r { body = read_back r.body }) s.sessions;
}

unfoldable pub get_loop_run : Store → String → Option LoopRun
get_loop_run s id = get_record s.loop id

unfoldable pub list_loop_runs : Store → Option String → List LoopRun
list_loop_runs s project = keep (λ r. in_project project r.project) (values s.loop)

unfoldable pub save_loop_run : Store → LoopRun → Store
save_loop_run s r = record s {
  loop = write (file_name r.id) (record r { body = read_back r.body }) s.loop;
}

unfoldable pub get_methodology : Store → String → Option Methodology
get_methodology s id = get_record s.methodology id

unfoldable pub list_methodology : Store → List Methodology
list_methodology s = values s.methodology

unfoldable pub save_methodology : Store → Methodology → Store
save_methodology s m = record s {
  methodology = write (file_name m.id) (record m { body = read_back m.body }) s.methodology;
}

-- the records of every project, in the order of `sorted(base.glob("*/*.md"))`
all_coverage : Dir (Dir Coverage) → List Coverage
all_coverage [] = []
all_coverage ((project, d) ∷ ds) = values d ++ all_coverage ds

-- `sorted((base / project).glob("*.md"))`
project_coverage : Option (Dir Coverage) → List Coverage
project_coverage none = []
project_coverage (some d) = values d

unfoldable pub list_coverage : Store → Option String → List Coverage
unfolding all_coverage project_coverage
list_coverage s none = all_coverage s.coverage
list_coverage s (some project) =
    if is_record_id project then project_coverage (lookup project s.coverage) else []
