-- ===== src/Ingest/Findings.antt =====
-- `sarif_to_findings` of src/deepthought/ingest/sarif.py: one candidate for each accepted result.
pub mod Bounded
use deep_thought.Prelude.{
  ℕ, ◌+◌, ◌-◌, String, ◌&◌, ◌&&◌, Option, none, some, List, [], ◌∷◌, leb, truthy, if◌then◌else◌,
}
use deep_thought.Prelude.Text.{or_empty, pad}
use deep_thought.Ids.{size, take_chars}
use deep_thought.Schema.Json.{Fields}
use deep_thought.Schema.Status.{candidate}
use deep_thought.Schema.Finding.{Finding, Reference}
use deep_thought.Ingest.Patterns.{first_line, is_safe_http_url}
use deep_thought.Ingest.Documents.{Location, first_location, rule_help_uri, known_vuln_ids}
use deep_thought.Ingest.Results.{Accepted, rule_id_of, accepted_results}
use deep_thought.Ingest.Scope.{Resolve}

abbrev pub summary_max : ℕ
summary_max = 200

abbrev pub ref_url_max : ℕ
ref_url_max = 2048

abbrev pub location_max : ℕ
location_max = 512

abbrev pub body_max : ℕ
body_max = 4096

-- the summary, on one line
unfoldable pub summary_of : String → Option String → String
unfolding first_line take_chars
summary_of message rule_id = take_chars summary_max (
    if truthy rule_id
    then first_line (or_empty rule_id) & (": " & first_line message)
    else first_line message)

-- a help link that is bounded and well formed
unfoldable pub references_of : Option String → List Reference
unfolding is_safe_http_url
references_of none = []
references_of (some uri) =
    if leb (size uri) ref_url_max && is_safe_http_url uri
    then record { type = "detection"; url = uri } ∷ []
    else []

abbrev colon_line : String → Option String → String
colon_line uri none = uri
colon_line uri (some line) = uri & (":" & line)

-- the paragraph with the location
unfoldable pub location_part : Location → String
unfolding take_chars
location_part (none, line) = ""
location_part (some uri, line) =
    "\n\n**Location:** `" & (take_chars location_max (colon_line uri line) & "`")

-- the paragraph with the weakness
unfoldable pub weakness_part : Option String → String
weakness_part none = ""
weakness_part (some cwe) = "\n\n**Weakness:** `" & (cwe & "`")

abbrev pub header : String
header = "## Root cause\n\n"

-- the body before its last slice
unfoldable pub whole_body : String → String → String → String
unfolding take_chars
whole_body message location weakness =
    let budget = body_max - size header - size location - size weakness in
    header & (take_chars budget message & (location & weakness))

unfoldable pub body_of : String → String → String → String
unfolding whole_body take_chars
body_of message location weakness = take_chars body_max (whole_body message location weakness)

-- `[cve] if cve else []`
abbrev pub aliases_of : Option String → List String
aliases_of none = []
aliases_of (some cve) = cve ∷ []

-- the candidate of one result
unfoldable pub finding_of : String → ℕ → Accepted → Finding
unfolding summary_of references_of rule_help_uri rule_id_of known_vuln_ids body_of location_part
    weakness_part first_location pad
finding_of project n a =
    let (cve, cwe) = known_vuln_ids a.result a.rule in
    record {
      id = "F-" & pad 4 n;
      project = project;
      summary = summary_of a.message (rule_id_of a.result);
      status = candidate;
      severity = none;
      affected = [];
      references = references_of (rule_help_uri a.rule);
      aliases = aliases_of cve;
      cve = none;
      disclosure = none;
      evidence_ref = none;
      downstream_impact = none;
      published = none;
      modified = none;
      transition_log = [];
      body = body_of a.message (location_part (first_location a.result)) (weakness_part cwe);
    }

unfoldable pub numbered : String → ℕ → List Accepted → List Finding
unfolding finding_of
numbered project n [] = []
numbered project n (a ∷ rest) = finding_of project n a ∷ numbered project (n + 1) rest

module _ (decode : List ℕ → String) (resolve : Resolve) (scope : Option (List String))
    (root : Option (List String)) where
  -- `sarif_to_findings`, from an id on
  unfoldable pub sarif_to_findings : Fields → String → ℕ → List Finding
  unfolding numbered accepted_results
  sarif_to_findings sarif project id_start =
      numbered project id_start (accepted_results decode resolve scope root sarif)
