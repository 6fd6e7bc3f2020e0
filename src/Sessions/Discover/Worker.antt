-- ===== src/Sessions/Discover/Worker.antt =====
-- `_run_marvin_worker` of src/deepthought/sessions/discover.py: writes the findings and the detail, and
-- returns one envelope, which it builds before it writes.
use deep_thought.Prelude.{
  String, ◌&◌, true, Option, some, List, [], ◌∷◌, ◌++◌, keep, map, length, truthy, if◌then◌else◌,
}
use deep_thought.Prelude.Text.{concat, join, repr, show, or_empty}
use deep_thought.Schema.Json.{Fields}
use deep_thought.Schema.Session.{no_cost}
use deep_thought.Schema.Project.{Project}
use deep_thought.Schema.Finding.{Finding}
use deep_thought.Schema.Envelope.{
  Primitive, confidence_value, Outcome, resolved, empty, blocked, CoverageDelta, Envelope,
  envelope_ok, fits,
}
use deep_thought.Result.{Result, ok, raise, sarif_error, value_error}
use deep_thought.Store.{Store, save_finding}
use deep_thought.Store.Detail.{write_detail, detail_ref}
use deep_thought.Ingest.Documents.{load_sarif}
use deep_thought.Ingest.Findings.{sarif_to_findings}
use deep_thought.Ingest.Primitives.{sarif_to_primitives}
use deep_thought.Sessions.Discover.{Outside, attestation_ref, coverage_areas, next_finding_index}

-- `_hints`
unfoldable pub hints : List Finding → List Primitive → List String
unfolding show
hints [] primitives = []
hints (f ∷ fs) primitives =
    concat (
      show (length (f ∷ fs))
      ∷ " candidate finding(s) with "
      ∷ show (length primitives)
      ∷ " suspected primitive(s); queue VERIFY once the sandbox lands (feature 003)."
      ∷ [])
    ∷ []

abbrev finding_line : Finding → String
finding_line f = concat ("- " ∷ f.id ∷ ": " ∷ f.summary ∷ [])

abbrev primitive_line : Primitive → String
primitive_line p = concat (
    "- "
    ∷ p.kind
    ∷ " @ "
    ∷ p.target_locus
    ∷ " ("
    ∷ confidence_value p.confidence
    ∷ ") -> "
    ∷ p.finding_ref
    ∷ [])

-- `_detail_body`
unfoldable pub detail_body :
    Project → Option String → List Finding → List Primitive → String → String
unfolding join
detail_body p sarif_path findings primitives note = join "\n" (
    ("# DISCOVER worker detail for " & p.id)
      ∷ ""
      ∷ ("SARIF: " & (if truthy sarif_path then or_empty sarif_path else "(none)"))
      ∷ note
      ∷ ""
      ∷ "## Candidate findings"
      ∷ map (λ f. finding_line f) findings
    ++ ("" ∷ "## Suspected primitives" ∷ map (λ q. primitive_line q) primitives ++ "" ∷ []))

unfoldable pub save_findings : List Finding → Store → Store
unfolding save_finding
save_findings [] s = s
save_findings (f ∷ fs) s = save_findings fs (save_finding s f)

-- what the document came to
pub record Reasoned : Type 0 where
  pub findings : List Finding
  pub primitives : List Primitive
  pub note : String

abbrev pub nothing_to_reason : Reasoned
nothing_to_reason = record {
  findings = [];
  primitives = [];
  note = "no SARIF provided; nothing to reason over";
}

abbrev pub Work : Type 0
Work = Store × Result Envelope

module _ (w : Outside) (sid : String) (p : Project) (sarif_path : Option String)
    (root : Option (List String)) where
  -- the areas of the delta, which must fit its field
  unfoldable pub claimed : List CoverageDelta
  unfolding coverage_areas
  claimed =
      map (λ a. record { area = a; method = "read"; depth = "touched" })
        (keep (λ a. fits 128 a) (coverage_areas w p root))

  unfoldable pub envelope_of : Outcome → Reasoned → List CoverageDelta → Envelope
  unfolding attestation_ref hints
  envelope_of outcome r delta = record {
    envelope_version = "1.0";
    session_ref = sid;
    worker_id = "marvin-discover";
    task_ref = concat ("discover candidates for " ∷ p.id ∷ " from SARIF" ∷ []);
    outcome = outcome;
    primitives = r.primitives;
    findings_written = map (λ f. f.id) r.findings;
    coverage_delta = delta;
    next_step_hints = hints r.findings r.primitives;
    context_cost = no_cost;
    detail_ref = some (detail_ref sid "discover.txt");
    gate_attestation = record { scope_ok = true; authorization_ref = attestation_ref p };
  }

  -- the envelope, if its checks pass; pydantic's message for the ones that fail is not spelled out
  unfoldable pub made : Envelope → Result Envelope
  unfolding envelope_ok
  made e = if envelope_ok e then ok e else raise (value_error "validation errors for Envelope")

  -- a document that does not load: the reason is paged before the envelope is made
  unfoldable pub block : Store → String → Work
  unfolding envelope_of made write_detail
  block s why = (
    write_detail s sid "discover.txt"
        (concat ("DISCOVER worker for " ∷ p.id ∷ ": SARIF load failed: " ∷ why ∷ "\n" ∷ [])),
    made (envelope_of blocked nothing_to_reason []),
  )

  -- the document's findings, numbered from the next free index, and its primitives
  unfoldable pub reasoned : Store → String → Fields → Reasoned
  unfolding sarif_to_findings sarif_to_primitives coverage_areas next_finding_index show
  reasoned s path sarif =
      let scope = some (coverage_areas w p root) in
      let findings =
        sarif_to_findings w.decode w.resolve scope root sarif p.id (next_finding_index s) in
      let primitives =
        sarif_to_primitives w.is_wide w.decode w.resolve scope root sarif
          (map (λ f. f.id) findings) in
      record {
        findings = findings;
        primitives = primitives;
        note = concat (
            "parsed SARIF "
            ∷ repr path
            ∷ ": "
            ∷ show (length findings)
            ∷ " candidate finding(s), "
            ∷ show (length primitives)
            ∷ " suspected primitive(s)"
            ∷ []);
      }

  -- the findings and the detail, if the envelope is there
  unfoldable pub write_out : Store → Reasoned → Result Envelope → Work
  unfolding save_findings detail_body write_detail
  write_out s r (raise e) = (s, raise e)
  write_out s r (ok e) = (
    write_detail (save_findings r.findings s) sid "discover.txt"
        (detail_body p sarif_path r.findings r.primitives r.note),
    ok e,
  )

  abbrev pub outcome_of : List Finding → Outcome
  outcome_of [] = empty
  outcome_of (f ∷ fs) = resolved

  unfoldable pub conclude : Store → Reasoned → List CoverageDelta → Work
  unfolding write_out made envelope_of
  conclude s r delta = write_out s r (made (envelope_of (outcome_of r.findings) r delta))

  unfoldable pub after_load : Store → String → Result Fields → Work
  unfolding conclude block reasoned claimed
  after_load s path (ok sarif) = conclude s (reasoned s path sarif) claimed
  after_load s path (raise (sarif_error why)) = block s why
  after_load s path (raise e) = (s, raise e)

  -- `_run_marvin_worker`
  unfoldable pub run_marvin_worker : Store → Work
  unfolding conclude after_load load_sarif
  run_marvin_worker s =
      let path = or_empty sarif_path in
      if truthy sarif_path
      then after_load s path (load_sarif w.json_repr path (w.read path))
      else conclude s nothing_to_reason []
