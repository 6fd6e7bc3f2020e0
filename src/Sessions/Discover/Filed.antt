-- ===== src/Sessions/Discover/Filed.antt =====
-- What DISCOVER reports as touched, and what is on file.
use mathlib.Core.Path.{subst}
use deep_thought.Prelude.{String, ◌≡◌, refl, ap, ◌∙◌, Option, some, List, [], In}
use deep_thought.Prelude.Dirs.{lookup}
use deep_thought.Schema.Json.{Json}
use deep_thought.Schema.Project.{Project}
use deep_thought.Schema.Envelope.{Envelope}
use deep_thought.Result.{Result, ok, raise}
use deep_thought.Store.{Store, file_name, get_project}
use deep_thought.Sessions.Discover.{Outside, DiscoverSession, resolve_checkout}
use deep_thought.Orchestrator.Conductor.{Validated, typed, ingest}
use deep_thought.Protocol.{SessionOutcome}
use deep_thought.Sessions.{project_of}
use deep_thought.Sessions.Discover.Kept.{after_worker-findings}
use deep_thought.Sessions.Discover.Run.{
  after_worker, take_in, teach_ingested, taught, candidate_root, discover_project, discover_run,
}
use deep_thought.Sessions.Discover.Worker.{run_marvin_worker}
use deep_thought.Sessions.Discover.Written.{HasCandidate, IsWritten, run_marvin_worker-IsWritten}

-- what a run teaches back as touched
abbrev pub touched_of : Result SessionOutcome → List String
touched_of (raise e) = []
touched_of (ok o) = o.findings_touched

-- a run that teaches back as touched only candidates on file
abbrev pub IsReported : String → Store × Result SessionOutcome → Type 0
IsReported project o = (id : String) → In id (touched_of o.1) → HasCandidate project id o.0

module _ (sha1 : String → String) (model_validate : Json → Validated) (w : Outside)
    (v : DiscoverSession) (sid : String) where
  take_in-touched :
      (p : Project) (root : Option (List String)) (e : Envelope) (s : Store)
      → touched_of (take_in sha1 model_validate w v sid p root (typed e) s).1 ≡ e.findings_written
  unfolding take_in ingest teach_ingested taught
  take_in-touched p root e s = refl

  after_worker-IsReported :
      (p : Project) (root : Option (List String)) (o : Store × Result Envelope)
      → IsWritten p.id o
      → IsReported p.id (after_worker sha1 model_validate w v sid p root o)
  after_worker-IsReported p root (s, raise e) written id h = absurd h
  after_worker-IsReported p root (s, ok e) written id h =
      let (g, found, named, fine) =
        written id (subst (λ ids. In id ids) (take_in-touched p root e s) h) in
      (
        g,
        ap (λ d. lookup (file_name id) d)
              (after_worker-findings sha1 model_validate w v sid p root (s, ok e))
            ∙ found,
        named,
        fine,
      )

  discover_project-IsReported :
      (s : Store) (p : Project)
      → IsReported p.id (discover_project sha1 model_validate w v sid s (ok p))
  unfolding discover_project
  discover_project-IsReported s p =
      let root = resolve_checkout w (candidate_root sha1 model_validate w v sid p) in
      after_worker-IsReported p root (run_marvin_worker w sid p v.sarif_path root s)
        (run_marvin_worker-IsWritten w sid p v.sarif_path root s)

  -- What DISCOVER reports is there: each finding that a run of a registered project teaches back as
  -- touched is on file after it, as a candidate of the project without evidence and without a CVE.
  pub discover_run-IsReported :
      (s : Store) (p : Project)
      → get_project s v.project_id ≡ some p
      → IsReported p.id (discover_run sha1 model_validate w v sid s)
  unfolding discover_run project_of
  discover_run-IsReported s p h = rw h (discover_project-IsReported s p)
