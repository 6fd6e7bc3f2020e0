-- ===== src/Examples/Samples.antt =====
-- The records that the examples share.
use deep_thought.Prelude.{ℕ, String, none, some, [], ◌∷◌}
use deep_thought.Result.{ok}
use deep_thought.Schema.Status.{
  FindingStatus, candidate, disclosed, SessionType, open_source, own_code, active,
}
use deep_thought.Schema.Finding.{Finding}
use deep_thought.Schema.Project.{Project}
use deep_thought.Schema.Session.{no_cost}
use deep_thought.Store.{Store, empty}
use deep_thought.Gate.{from_project}
use deep_thought.Protocol.{BaseSession, SessionOutcome}
use deep_thought.Loop.Driver.Turn.{Sessions}

abbrev pub finding_at : FindingStatus → Finding
finding_at status = record {
  id = "F-0001";
  project = "php-src";
  summary = "heap overflow in soap";
  status = status;
  severity = none;
  affected = [];
  references = record { type = "ADVISORY"; url = "https://example.org/a" } ∷ [];
  aliases = [];
  cve = some "CVE-2026-0001";
  disclosure = none;
  evidence_ref = some "detail/S-1/verify-result.txt";
  downstream_impact = none;
  published = none;
  modified = none;
  transition_log = [];
  body = "";
}

abbrev pub unproved : Finding
unproved = record (finding_at disclosed) { evidence_ref = none }

abbrev pub project : Project
project = record {
  id = "php-src";
  name = "PHP";
  source_type = open_source;
  git_url = some "https://github.com/php/php-src";
  local_path = none;
  authorization_basis = some own_code;
  authorization_ref = none;
  scope_allowlist = "ext/soap" ∷ [];
  status = active;
  body = "";
}

-- a project, a finding under each status that the tests need, and one paged artifact
abbrev pub store : Store
store = record empty {
  projects = ("php-src.md", project) ∷ [];
  findings = ("F-0001.md", finding_at candidate) ∷ [];
  detail = ("detail/S-1/verify-result.txt", "reproduced: True") ∷ [];
}

abbrev pub outcome : SessionOutcome
outcome = record {
  summary = "Looked.";
  next_steps = "Map it.";
  findings_touched = [];
  coverage_changed = [];
  context_cost = no_cost;
}

-- a session that changes nothing
abbrev pub idle : String → BaseSession
idle id = record {
  type = SessionType.status;
  project_id = some id;
  build_gate_context = λ s. ok (from_project project SessionType.status);
  run = λ g s sid. (s, ok outcome);
}

abbrev pub sessions : Sessions
sessions = record {
  status = λ p. idle p;
  map = λ p. idle p;
  discover = λ p. idle p;
  sibling_hunt = λ p f. idle p;
  disclosure = λ p f. idle p;
}

-- a clock that goes on by a second at each call
abbrev pub clock : ℕ → ℕ
clock n = Prim.Native.Nat.◌*◌ 1000000 n
