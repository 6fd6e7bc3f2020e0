-- ===== src/Schema/Coverage.antt =====
-- src/deepthought/schema/coverage.py and src/deepthought/schema/methodology.py
use deep_thought.Prelude.{String, ◌&◌}
use deep_thought.Schema.Status.{CoverageMethod, CoverageDepth}

pub record Coverage : Type 0 where
  pub project : String
  pub area : String
  pub method : CoverageMethod
  pub depth : CoverageDepth
  pub last_session : String
  pub body : String

-- the property `ref`
unfoldable pub ref : Coverage → String
ref c = c.project & ("/" & c.area)

pub record Methodology : Type 0 where
  pub id : String
  pub purpose : String
  pub version : String
  pub body : String
