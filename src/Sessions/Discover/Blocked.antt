-- ===== src/Sessions/Discover/Blocked.antt =====
-- DISCOVER where the document does not load.
use deep_thought.Prelude.{
  ◌≤◌, String, ◌&◌, ◌≡◌, refl, true, false, Option, some, List, [], ◌∷◌, ◌==◌, arith, if_true,
}
use deep_thought.Prelude.Text.{concat, repr}
use deep_thought.Ids.{size}
use deep_thought.Ids.Safe.{size-take_chars}
use deep_thought.Ids.Sizes.{size-append}
use deep_thought.Schema.Json.{Json}
use deep_thought.Schema.Project.{Project}
use deep_thought.Schema.Envelope.{Envelope, blocked, envelope_ok}
use deep_thought.Result.{ok, raise, sarif_error}
use deep_thought.Store.{Store, get_project}
use deep_thought.Store.Detail.{write_detail, detail_ref}
use deep_thought.Sessions.Discover.{resolve_checkout, Outside, DiscoverSession, attestation_ref}
use deep_thought.Orchestrator.Conductor.{Validated, typed, ingest}
use deep_thought.Protocol.{SessionOutcome}
use deep_thought.Ingest.Documents.{load_sarif}
use deep_thought.Sessions.{project_of, teach}
use deep_thought.Sessions.Discover.Run.{
  suggest_next, after_worker, take_in, teach_ingested, taught, candidate_root, discover_project,
  discover_run, summary_of, write_read_coverage,
}
use deep_thought.Sessions.Discover.Worker.{
  after_load, run_marvin_worker, hints, envelope_of, nothing_to_reason, made, block,
}

size-attestation_ref : (p : Project) → size (attestation_ref p) ≤ 256
unfolding attestation_ref
size-attestation_ref p = size-take_chars 256 _

-- The envelope of a blocked worker passes every check, for ids of the length of a record id.
blocked-envelope_ok :
    (w : Outside) (sid : String) (p : Project) (sarif_path : Option String)
    (root : Option (List String))
    → size sid ≤ 128
    → size p.id ≤ 128
    → envelope_ok (envelope_of w sid p sarif_path root blocked nothing_to_reason []) ≡ true
unfolding envelope_ok envelope_of hints
blocked-envelope_ok w sid p sarif_path root hs hp =
    let task : size (concat ("discover candidates for " ∷ p.id ∷ " from SARIF" ∷ [])) ≤ 512 =
      omega (
        arith,
        size-append "discover candidates for " (p.id & " from SARIF"),
        size-append p.id " from SARIF",
      ) in
    let detail : size (detail_ref sid "discover.txt") ≤ 256 =
      omega
        (arith, size-append "detail/" (sid & "/discover.txt"), size-append sid "/discover.txt") in
    ground (arith, task, detail, size-attestation_ref p)

made-ok :
    (w : Outside) (sid : String) (p : Project) (sarif_path : Option String)
    (root : Option (List String)) (e : Envelope)
    → envelope_ok e ≡ true
    → made w sid p sarif_path root e ≡ ok e
unfolding made
made-ok w sid p sarif_path root e h = if_true _ _ h

module _ (sha1 : String → String) (model_validate : Json → Validated) (w : Outside)
    (v : DiscoverSession) (sid : String) where
  -- what a blocked run teaches back
  abbrev pub blocked_outcome : Project → SessionOutcome
  blocked_outcome p =
      teach
        (concat (
          "DISCOVER on "
          ∷ repr p.id
          ∷ " (READ-ONLY): worker was BLOCKED — no findings or primitives ingested, no coverage "
          ∷ "recorded. No code executed; scope unchanged."
          ∷ []))
        (suggest_next p 0 blocked) [] []

  -- the store with the reason on a page of its own
  abbrev pub with_reason : Project → String → Store → Store
  with_reason p why s =
      write_detail s sid "discover.txt"
        (concat ("DISCOVER worker for " ∷ p.id ∷ ": SARIF load failed: " ∷ why ∷ "\n" ∷ []))

  take_in-blocked :
      (p : Project) (sarif_path : Option String) (root : Option (List String)) (s : Store)
      → take_in sha1 model_validate w v sid p root
          (typed (envelope_of w sid p sarif_path root blocked nothing_to_reason []))
          s
        ≡ (s, ok (blocked_outcome p))
  unfolding take_in ingest teach_ingested taught envelope_of write_read_coverage summary_of
  take_in-blocked p sarif_path root s = refl

  block-closes :
      (p : Project) (sarif_path : Option String) (root : Option (List String)) (s : Store)
      (why : String)
      → size sid ≤ 128
      → size p.id ≤ 128
      → after_worker sha1 model_validate w v sid p root (block w sid p sarif_path root s why)
        ≡ (with_reason p why s, ok (blocked_outcome p))
  unfolding block
  block-closes p sarif_path root s why hs hp =
      let e = envelope_of w sid p sarif_path root blocked nothing_to_reason [] in
      rw (made-ok w sid p sarif_path root e (blocked-envelope_ok w sid p sarif_path root hs hp))
        (take_in-blocked p sarif_path root (with_reason p why s))

  worker-blocks :
      (p : Project) (root : Option (List String)) (s : Store) (path why : String)
      → v.sarif_path ≡ some path
      → (path == "") ≡ false
      → load_sarif w.json_repr path (w.read path) ≡ raise (sarif_error why)
      → run_marvin_worker w sid p v.sarif_path root s ≡ block w sid p (some path) root s why
  unfolding run_marvin_worker after_load
  worker-blocks p root s path why given filled fails = rw given (rw filled (rw fails refl))

  -- A document that load_sarif refuses with a SarifError is a blocked run: DISCOVER of a registered
  -- project, given the path of such a document, returns an outcome that says so and touches nothing, and
  -- all that it changes in the store is the page with the reason. The ids of the session and of the
  -- project have at most 128 characters. Another exception of the reading is not covered.
  pub discover_run-blocked :
      (s : Store) (p : Project) (path why : String)
      → get_project s v.project_id ≡ some p
      → v.sarif_path ≡ some path
      → (path == "") ≡ false
      → load_sarif w.json_repr path (w.read path) ≡ raise (sarif_error why)
      → size sid ≤ 128
      → size p.id ≤ 128
      → discover_run sha1 model_validate w v sid s ≡ (with_reason p why s, ok (blocked_outcome p))
  unfolding discover_run discover_project project_of
  discover_run-blocked s p path why found given filled fails hs hp =
      let root = resolve_checkout w (candidate_root sha1 model_validate w v sid p) in
      rw found (
        rw (worker-blocks p root s path why given filled fails)
          (block-closes p (some path) root s why hs hp))
