-- ===== src/Examples/Signatures.antt =====
-- Signatures of findings that a document led to, and DISCLOSURE of a verified finding.
use deep_thought.Prelude.{String, ◌≡◌, refl, none, some, [], ◌∷◌}
use deep_thought.Schema.Finding.{Finding}
use deep_thought.Schema.Envelope.{Primitive, suspected}
use deep_thought.Ingest.Findings.{body_of, location_part, weakness_part}
use deep_thought.Sibling.Signature.{
  locus_pattern, match_terms, capability_of, signature_from_finding,
}
use deep_thought.Sibling.Signature.Derived.{IsDerived, signature_from_finding-IsDerived}
use deep_thought.Schema.Status.{verified}
use deep_thought.Examples.Samples.{finding_at}
use deep_thought.Examples.Documents.{is_wide}
use deep_thought.Prelude.{map, ◌&◌}
use deep_thought.Result.{ok}
use deep_thought.Prelude.Dirs.{lookup, write}
use deep_thought.Ids.{is_record_id}
use deep_thought.Schema.Json.{null, text}
use deep_thought.Store.{Store}
use deep_thought.Sessions.Disclosure.{Exporters, DisclosureSession, disclosure_run}
use deep_thought.Examples.Samples.{store}

-- a finding whose message has a location of its own
abbrev told : String → Finding
told message = record (finding_at verified) {
  summary = "php/sqli: query built from input";
  body = body_of message (location_part (some "ext/soap/q.c", some "12")) (weakness_part none);
}

last_wins : locus_pattern (told "see **Location:** `other.c` too") ≡ some "ext/soap/q.c:12"
unfolding locus_pattern body_of location_part weakness_part
last_wins = refl

-- A message that opens a location and does not close it takes the opening backtick of the real one
-- for its end: the location that is read is the message's.
open_wins : locus_pattern (told "see **Location:** `other.c") ≡ some "other.c\n\n**Location:**"
unfolding locus_pattern body_of location_part weakness_part
open_wins = refl

abbrev bound : Primitive
bound = record {
  kind = "leak:info";
  target_locus = "q.c";
  preconditions = [];
  grants = "leak:info" ∷ [];
  confidence = suspected;
  evidence_ref = none;
  finding_ref = "F-0001";
}

terms : match_terms "leak:info" ≡ "info-leak" ∷ "sensitive-exposure" ∷ "cwe-200" ∷ []
unfolding match_terms
terms = refl

by_summary : capability_of is_wide (told "m") [] ≡ some "inject:sql"
unfolding capability_of
by_summary = refl

signature_from_finding-IsDerived_example :
    IsDerived
      (told "m")
      (capability_of is_wide (told "m") (bound ∷ []))
      (signature_from_finding is_wide (told "m") (bound ∷ []))
signature_from_finding-IsDerived_example =
    signature_from_finding-IsDerived is_wide (told "m") (bound ∷ [])

abbrev exporters : Exporters
exporters = record {
  finding_to_advisory = λ f. ok ("# Advisory for " & f.id);
  finding_to_csaf = λ f. ok (text "csaf");
  finding_to_openvex = λ f. ok (text "vex");
  finding_to_cve_draft = λ f. ok null;
  json_text = λ doc. "{}";
}

abbrev sure_store : Store
sure_store = record store { findings = ("F-0001.md", finding_at verified) ∷ [] }

abbrev disclosure : DisclosureSession
disclosure = record { project_id = "php-src"; finding_id = "F-0001" }

four_pages :
    map
      (λ (d : String × String). d.0)
      (disclosure_run exporters disclosure "S-3" sure_store).0.detail
    ≡ "detail/S-1/verify-result.txt" ∷ "detail/S-3/disclosure-advisory.md"
      ∷ "detail/S-3/disclosure-csaf.json" ∷ "detail/S-3/disclosure-cve-draft.json"
      ∷ "detail/S-3/disclosure-openvex.json" ∷ []
unfolding disclosure_run is_record_id lookup write
four_pages = refl
