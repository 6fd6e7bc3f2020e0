-- ===== src/Schema/Project.antt =====
-- src/deepthought/schema/project.py
use deep_thought.Prelude.{
  String, Bool, true, false, not, ◌||◌, ◌&&◌, Option, some, List, truthy, if◌then◌else◌,
}
use deep_thought.Prelude.Text.{or_empty}
use deep_thought.Schema.Status.{SourceType, AuthorizationBasis, scoped_engagement, ProjectStatus}

pub record Project : Type 0 where
  pub id : String
  pub name : String
  pub source_type : SourceType
  pub git_url : Option String
  pub local_path : Option String
  pub authorization_basis : Option AuthorizationBasis
  pub authorization_ref : Option String
  pub scope_allowlist : List String
  pub status : ProjectStatus
  pub body : String

-- `authorization_basis is AuthorizationBasis.scoped_engagement`
abbrev pub is_scoped : Option AuthorizationBasis → Bool
is_scoped (some scoped_engagement) = true
is_scoped _ = false

-- the two model validators: whether a project may be constructed
unfoldable pub is_well_formed : Project → Bool
is_well_formed p =
    (truthy p.git_url || truthy p.local_path)
    && not (is_scoped p.authorization_basis && not (truthy p.authorization_ref))

unfoldable pub identity : Project → String
identity p = if truthy p.git_url then or_empty p.git_url else or_empty p.local_path
