-- ===== src/Sessions/Discover/Run.antt =====
-- `DiscoverSession.run` of src/deepthought/sessions/discover.py: one worker, its envelope through the
-- conductor, and the coverage that the envelope attests, as far as the project allows it.
use deep_thought.Prelude.{
  ℕ, String, ◌&◌, not, ◌||◌, Option, none, some, List, [], ◌∷◌, ◌==◌, member, length, truthy, eqb,
  if◌then◌else◌,
}
use deep_thought.Prelude.Text.{concat, join, repr, show, or_none}
use deep_thought.Schema.Json.{Json}
use deep_thought.Schema.Status.{SessionType, CoverageMethod, CoverageDepth, depth_of}
use deep_thought.Schema.Coverage.{Coverage, ref}
use deep_thought.Schema.Project.{Project}
use deep_thought.Schema.Envelope.{Outcome, blocked, CoverageDelta, Envelope}
use deep_thought.Result.{Result, ok, raise}
use deep_thought.Store.{Store}
use deep_thought.Store.Areas.{save_coverage}
use deep_thought.Orchestrator.Conductor.{Validated, Raw, typed, Conductor, new, ingest}
use deep_thought.Protocol.{BaseSession, SessionOutcome}
use deep_thought.Sessions.{project_of, project_context, teach}
use deep_thought.Sessions.Discover.{Outside, DiscoverSession, resolve_checkout, coverage_areas}
use deep_thought.Sessions.Discover.Worker.{run_marvin_worker}

-- `_suggest_next`
unfoldable pub suggest_next : Project → ℕ → Outcome → String
unfolding join show
suggest_next p n_findings blocked = concat (
    "The DISCOVER worker was blocked. Inspect the paged detail "
    ∷ "(detail/<session>/discover.txt in the state store) for the block "
    ∷ "reason (e.g. a malformed or unsupported SARIF), fix it, and re-run "
    ∷ "DISCOVER on "
    ∷ repr p.id
    ∷ "."
    ∷ [])
suggest_next p n_findings outcome =
    let areas = join ", " p.scope_allowlist in
    if eqb n_findings 0
    then concat (
        "No candidates surfaced for "
        ∷ repr p.id
        ∷ ". Provide tool SARIF over the in-scope areas ("
        ∷ (if areas == "" then "(none)" else areas)
        ∷ ") and re-run DISCOVER."
        ∷ [])
    else concat (
        show n_findings
        ∷ " candidate finding(s) recorded for "
        ∷ repr p.id
        ∷ ". Queue a VERIFY session (feature 003) to promote them on evidence — VERIFY runs "
        ∷ "only behind the egress-controlled sandbox; nothing executes until then."
        ∷ [])

abbrev plural : String → ℕ → String
plural word n = if eqb n 1 then word else word & "s"

-- the summary of a run whose envelope was ingested
unfoldable pub summary_of : Project → Envelope → Outcome → ℕ → ℕ → String
unfolding show
summary_of p e blocked nodes areas = concat (
    "DISCOVER on "
    ∷ repr p.id
    ∷ " (READ-ONLY): worker was BLOCKED — no findings or primitives ingested, no coverage "
    ∷ "recorded. No code executed; scope unchanged."
    ∷ [])
summary_of p e outcome nodes areas =
    let n_findings = length e.findings_written in
    let n_primitives = length e.primitives in
    concat (
      "DISCOVER on "
      ∷ repr p.id
      ∷ " (READ-ONLY): worker returned "
      ∷ show n_findings
      ∷ " candidate "
      ∷ plural "finding" n_findings
      ∷ " and "
      ∷ show n_primitives
      ∷ " suspected "
      ∷ plural "primitive" n_primitives
      ∷ ". Ingested the envelope only; "
      ∷ show nodes
      ∷ " primitive(s) now in the ledger; recorded read coverage for "
      ∷ show areas
      ∷ " in-scope area(s). No code executed; scope unchanged."
      ∷ [])

abbrev read_body : String → String
read_body area = concat (
    "Read-only DISCOVER reasoning over `" ∷ area
    ∷ "`: static signals and SARIF surveyed for candidates. Nothing executed." ∷ [])

module _ (project sid : String) where
  abbrev pub covered : String → CoverageDepth → Coverage
  covered area depth = record {
    project = project;
    area = area;
    method = CoverageMethod.read;
    depth = depth;
    last_session = sid;
    body = read_body area;
  }

  -- the coverage that an entry of the delta may record
  unfoldable pub permitted : List String → CoverageDelta → Option Coverage
  permitted allowed d =
      if not (member d.area allowed) || not (d.method == "read")
      then none
      else elim (depth_of d.depth) [ none ↦ none | some depth ↦ some (covered d.area depth) ]

abbrev pub onto_refs : Option Coverage → List String → List String
onto_refs none refs = refs
onto_refs (some c) refs = ref c ∷ refs

module _ (sha1 : String → String) where
  abbrev pub onto_saved : Option Coverage → Store → Store
  onto_saved none s = s
  onto_saved (some c) s = save_coverage sha1 s c

  -- `_write_read_coverage`: the store, and the references of what was recorded
  unfoldable pub write_read_coverage :
      String → String → List String → List CoverageDelta → Store → Store × List String
  unfolding permitted save_coverage ref
  write_read_coverage project sid allowed [] s = (s, [])
  write_read_coverage project sid allowed (d ∷ ds) s =
      let c = permitted project sid allowed d in
      let (s', refs) = write_read_coverage project sid allowed ds (onto_saved c s) in
      (s', onto_refs c refs)

abbrev pub Work : Type 0
Work = Store × Result SessionOutcome

unfoldable pub rejected : Project → Option String → SessionOutcome
rejected p reason =
    teach
      (concat (
        "DISCOVER on "
        ∷ repr p.id
        ∷ ": worker envelope rejected at ingest ("
        ∷ or_none reason
        ∷ "). Ledger unchanged; no candidates ingested."
        ∷ []))
      "Re-run DISCOVER with a well-formed worker envelope; inspect the paged detail for the worker's block reason."
      [] []

module _ (sha1 : String → String) (model_validate : Json → Validated) (w : Outside)
    (v : DiscoverSession) (sid : String) where
  -- what is taught back of an envelope that was ingested
  unfoldable pub taught : Project → Option (List String) → Conductor → Envelope → Store → Work
  unfolding write_read_coverage coverage_areas summary_of suggest_next
  taught p root c e s =
      let (s', refs) =
        write_read_coverage sha1 p.id sid (coverage_areas w p root) e.coverage_delta s in
      (
        s',
        ok (
            teach (summary_of p e e.outcome (length c.ledger.nodes) (length refs))
              (suggest_next p (length e.findings_written) e.outcome) e.findings_written refs),
      )

  unfoldable pub teach_ingested :
      Project → Option (List String) → Conductor → Option String → Option Envelope → Store → Work
  unfolding taught rejected
  teach_ingested p root c reason none s = (s, ok (rejected p reason))
  teach_ingested p root c reason (some e) s = taught p root c e s

  -- the run from what the worker hands back, an envelope or a dictionary
  unfoldable pub take_in : Project → Option (List String) → Raw → Store → Work
  unfolding teach_ingested ingest
  take_in p root raw s =
      let (c, result) = ingest model_validate new raw in
      teach_ingested p root c result.reason result.envelope s

  abbrev pub after_worker : Project → Option (List String) → Store × Result Envelope → Work
  after_worker p root (s, raise e) = (s, raise e)
  after_worker p root (s, ok e) = take_in p root (typed e) s

  -- `self.root or project.local_path`
  unfoldable pub candidate_root : Project → Option String
  candidate_root p = if truthy v.root then v.root else p.local_path

  unfoldable pub discover_project : Store → Result Project → Work
  unfolding take_in run_marvin_worker resolve_checkout candidate_root
  discover_project s (raise e) = (s, raise e)
  discover_project s (ok p) =
      let root = resolve_checkout w (candidate_root p) in
      after_worker p root (run_marvin_worker w sid p v.sarif_path root s)

  -- `DiscoverSession.run`
  unfoldable pub discover_run : Store → Work
  unfolding discover_project project_of
  discover_run s = discover_project s (project_of s v.project_id)

unfoldable pub discover_session :
    (String → String) → (Json → Validated) → Outside → DiscoverSession → BaseSession
unfolding project_context discover_run
discover_session sha1 model_validate w v = record {
  type = SessionType.discover;
  project_id = some v.project_id;
  build_gate_context = project_context SessionType.discover v.project_id;
  run = λ gate s sid. discover_run sha1 model_validate w v sid s;
}
