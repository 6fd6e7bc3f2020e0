-- ===== src/Examples/Discoveries.antt =====
-- DISCOVER of a project with one finding on file.
use deep_thought.Prelude.{
  String, ◌≡◌, refl, sym, ap, ◌∙◌, inl, inr, Bool-cases, true, none, some, [], ◌∷◌, ◌==◌, arith,
  eq_iff, if◌then◌else◌,
}
use deep_thought.Prelude.Dirs.{lookup, values}
use deep_thought.Ids.{is_record_id}
use deep_thought.Schema.Json.{Json, object}
use deep_thought.Schema.Status.{candidate}
use deep_thought.Schema.Finding.{Finding}
use deep_thought.Schema.Envelope.{Envelope, resolved}
use deep_thought.Schema.Session.{no_cost}
use deep_thought.Result.{ok, raise, sarif_error}
use deep_thought.Store.{get_project, file_name}
use deep_thought.Orchestrator.Conductor.{Validated, valid, payload, new, ingest}
use deep_thought.Ingest.Documents.{parsed, not_json, load_sarif}
use deep_thought.Sessions.Discover.{Outside, DiscoverSession, number_of, next_finding_index}
use deep_thought.Sessions.Discover.Run.{take_in, discover_run}
use deep_thought.Sessions.Discover.Attested.{Records, delta_of, refs_of, take_in-Records}
use deep_thought.Sessions.Discover.Kept.{IsFiled, Keeps, discover_run-Keeps}
use deep_thought.Sessions.Discover.Filed.{IsReported, touched_of, discover_run-IsReported}
use deep_thought.Sessions.Discover.Blocked.{with_reason, blocked_outcome, discover_run-blocked}
use deep_thought.Examples.Samples.{store, project, finding_at}
use deep_thought.Examples.Surfaces.{sha1}
use deep_thought.Examples.Documents.{decode, is_wide, resolve, sarif}

abbrev outside : Outside
outside = record {
  is_dir = λ path. path == "/src/php";
  root_of = λ path. "/" ∷ "src" ∷ "php" ∷ [];
  resolve = resolve;
  read = λ path. if path == "scan.sarif" then parsed (object sarif) else not_json "line 1";
  json_repr = λ value. "a value";
  decode = decode;
  is_wide = is_wide;
}

abbrev session : String → DiscoverSession
session path = record { project_id = "php-src"; sarif_path = some path; root = some "/src/php" }

-- what a worker out of the process may claim: an area of the allowlist, one outside, one that was run
abbrev claim : Envelope
claim = record {
  envelope_version = "1.0";
  session_ref = "S-2";
  worker_id = "other";
  task_ref = "look";
  outcome = resolved;
  primitives = [];
  findings_written = [];
  coverage_delta =
      record { area = "ext/soap"; method = "read"; depth = "touched" }
      ∷ record { area = "/etc"; method = "read"; depth = "touched" }
      ∷ record { area = "ext/soap"; method = "fuzz"; depth = "touched" }
      ∷ [];
  next_step_hints = [];
  context_cost = no_cost;
  detail_ref = none;
  gate_attestation = record { scope_ok = true; authorization_ref = "none" };
}

abbrev accept : Json → Validated
accept p = valid claim

found : get_project store "php-src" ≡ some project
unfolding get_project is_record_id lookup
found = refl

numbered : number_of "F-0012" ≡ some 12
unfolding number_of
numbered = refl

next : next_finding_index store ≡ 2
unfolding next_finding_index values
next = refl

one_recorded :
    refs_of
      (take_in sha1 accept outside
        (session "x")
        "S-2"
        project
        none
        (payload (object sarif))
        store).1
    ≡ "php-src/ext/soap" ∷ []
unfolding take_in
one_recorded = refl

one_reported :
    touched_of (discover_run sha1 accept outside (session "scan.sarif") "S-2" store).1
    ≡ "F-0002" ∷ []
unfolding discover_run get_project is_record_id lookup values
one_reported = refl

take_in-Records_example :
    let (t, result) =
      take_in sha1 accept outside (session "x") "S-2" project none (payload (object sarif)) store in
    Records sha1 outside "S-2" project none
      (delta_of (ingest accept new (payload (object sarif))).1.envelope)
      store
      t
      (refs_of result)
take_in-Records_example =
    take_in-Records sha1 accept outside (session "x") "S-2" project none (payload (object sarif))
      store

same_inside : (f g : Finding) → some f ≡ some g → f ≡ g
same_inside f g h = cc

single-IsFiled : (f : Finding) → IsFiled ((file_name f.id, f) ∷ [])
unfolding lookup
single-IsFiled f k g h = elim (Bool-cases (file_name f.id == k)) [
  | inl here ↦
      let same = same_inside f g (rw here at h) in
      sym ((eq_iff (file_name f.id) k).0 here) ∙ ap (λ (x : Finding). file_name x.id) same
  | inr there ↦ let e : none ≡ some g = rw there at h in absurd (cc)
]

discover_run-Keeps_example :
    Keeps store (discover_run sha1 accept outside (session "scan.sarif") "S-2" store).0
discover_run-Keeps_example =
    discover_run-Keeps sha1 accept outside (session "scan.sarif") "S-2" store
      (single-IsFiled (finding_at candidate))

discover_run-IsReported_example :
    IsReported "php-src" (discover_run sha1 accept outside (session "scan.sarif") "S-2" store)
discover_run-IsReported_example =
    discover_run-IsReported sha1 accept outside (session "scan.sarif") "S-2" store project found

unreadable :
    load_sarif outside.json_repr "bad.sarif" (outside.read "bad.sarif")
    ≡ raise (sarif_error "file is not valid JSON: line 1")
unfolding load_sarif
unreadable = refl

discover_run-blocked_example :
    discover_run sha1 accept outside (session "bad.sarif") "S-2" store ≡ (
      with_reason sha1 accept outside
          (session "bad.sarif")
          "S-2"
          project
          "file is not valid JSON: line 1"
          store,
      ok (blocked_outcome sha1 accept outside (session "bad.sarif") "S-2" project),
    )
discover_run-blocked_example =
    discover_run-blocked sha1 accept outside (session "bad.sarif") "S-2" store project "bad.sarif"
      "file is not valid JSON: line 1" found refl refl unreadable (omega arith) (omega arith)
