-- ===== src/Sessions/Discover/Written.antt =====
-- What DISCOVER's worker names as written, and what is on file.
use mathlib.Core.Path.{subst}
use deep_thought.Prelude.{
  String, ◌≡◌, refl, ap, ◌∙◌, inl, inr, Bool, true, false, Option, some, List, [], ◌∷◌, ◌==◌,
  eq_iff, map, truthy, All, In, Bool-cases, if_ind, if_true, if_false, if◌then◌else◌,
}
use deep_thought.Prelude.Text.{or_empty}
use deep_thought.Prelude.Dirs.{lookup, lookup-write}
use deep_thought.Schema.Json.{Fields}
use deep_thought.Schema.Finding.{Finding}
use deep_thought.Schema.Project.{Project}
use deep_thought.Schema.Envelope.{Envelope, CoverageDelta, blocked, envelope_ok}
use deep_thought.Result.{Error, Result, ok, raise, sarif_error}
use deep_thought.Store.{Store, file_name, save_finding, read_back}
use deep_thought.Store.Detail.{write_detail}
use deep_thought.Ingest.Findings.Bounded.{IsInert, IsBounded, sarif_to_findings-IsInert}
use deep_thought.Sessions.Discover.{Outside, next_finding_index, coverage_areas}
use deep_thought.Sessions.Discover.Worker.{
  save_findings, Reasoned, nothing_to_reason, made, write_out, reasoned, after_load, conclude,
  block, envelope_of, outcome_of, claimed, run_marvin_worker,
}

-- under a name stands a candidate of the project without evidence
abbrev pub HasCandidate : String → String → Store → Type 0
HasCandidate project id s =
    (f : Finding) × (lookup (file_name id) s.findings ≡ some f)
    × (file_name f.id ≡ file_name id)
    × IsInert project f

module _ (project : String) where
  -- A file that holds one keeps one while others are saved.
  save_finding-HasCandidate :
      (f : Finding) (id : String) (s : Store)
      → IsInert project f
      → HasCandidate project id s
      → HasCandidate project id (save_finding s f)
  unfolding save_finding
  save_finding-HasCandidate f id s inert (g, found, named, fine) =
      elim (Bool-cases (file_name f.id == file_name id)) [
        | inl same ↦ (
          record f { body = read_back f.body },
          lookup-write (file_name f.id) (file_name id) _ s.findings ∙ if_true _ _ same,
          (eq_iff (file_name f.id) (file_name id)).0 same,
          inert,
        )
        | inr other ↦ (
          g,
          lookup-write (file_name f.id) (file_name id) _ s.findings ∙ (if_false _ _ other ∙ found),
          named,
          fine,
        )
      ]

  save_finding-puts :
      (f : Finding) (s : Store) → IsInert project f → HasCandidate project f.id (save_finding s f)
  unfolding save_finding
  save_finding-puts f s inert = (
    record f { body = read_back f.body },
    lookup-write (file_name f.id) (file_name f.id) _ s.findings
        ∙ if_true _ _ ((eq_iff (file_name f.id) (file_name f.id)).1 refl),
    refl,
    inert,
  )

  save_findings-HasCandidate :
      (fs : List Finding) (id : String) (s : Store)
      → All (λ f. IsInert project f) fs
      → HasCandidate project id s
      → HasCandidate project id (save_findings fs s)
  unfolding save_findings
  save_findings-HasCandidate [] id s inert h = h
  save_findings-HasCandidate (f ∷ fs) id s inert h =
      save_findings-HasCandidate fs id (save_finding s f) inert.1
        (save_finding-HasCandidate f id s inert.0 h)

  save_findings-puts :
      (fs : List Finding) (id : String) (s : Store)
      → All (λ f. IsInert project f) fs
      → In id (map (λ (f : Finding). f.id) fs)
      → HasCandidate project id (save_findings fs s)
  unfolding save_findings
  save_findings-puts [] id s inert h = absurd h
  save_findings-puts (f ∷ fs) id s inert (inl e) =
      save_findings-HasCandidate fs id (save_finding s f) inert.1
        (subst (λ i. HasCandidate project i (save_finding s f)) e (save_finding-puts f s inert.0))
  save_findings-puts (f ∷ fs) id s inert (inr later) =
      save_findings-puts fs id (save_finding s f) inert.1 later

-- a worker's work whose envelope names only candidates on file
abbrev pub IsWritten : String → Store × Result Envelope → Type 0
IsWritten project (s, raise e) = Unit
IsWritten project (s, ok e) = (id : String) → In id e.findings_written → HasCandidate project id s

nothing-IsWritten :
    (project : String) (t : Store) (o : Result Envelope)
    → ((e : Envelope) → o ≡ ok e → e.findings_written ≡ [])
    → IsWritten project (t, o)
nothing-IsWritten project t (raise e) h = tt
nothing-IsWritten project t (ok e) h =
    λ id there. absurd (subst (λ ids. In id ids) (h e refl) there)

All-IsInert :
    (project : String) (fs : List Finding)
    → All (λ f. IsInert project f × IsBounded f) fs
    → All (λ f. IsInert project f) fs
All-IsInert project [] h = tt
All-IsInert project (f ∷ fs) h = (h.0.0, All-IsInert project fs h.1)

ok_of :
    (b : Bool) (e out : Envelope) (why : Error) → (if b then ok e else raise why) ≡ ok out → out ≡ e
ok_of true e out why h = cc
ok_of false e out why h = cc

module _ (w : Outside) (sid : String) (p : Project) (sarif_path : Option String)
    (root : Option (List String)) where
  made-eq : (e out : Envelope) → made w sid p sarif_path root e ≡ ok out → out ≡ e
  unfolding made
  made-eq e out h = ok_of (envelope_ok e) e out _ h

  write_out-IsWritten :
      (s : Store) (r : Reasoned) (o : Result Envelope)
      → All (λ f. IsInert p.id f) r.findings
      → ((e : Envelope) → o ≡ ok e → e.findings_written ≡ map (λ (f : Finding). f.id) r.findings)
      → IsWritten p.id (write_out w sid p sarif_path root s r o)
  unfolding write_out write_detail
  write_out-IsWritten s r (raise e) inert same = tt
  write_out-IsWritten s r (ok e) inert same = λ id h.
      save_findings-puts p.id r.findings id s inert (subst (λ ids. In id ids) (same e refl) h)

  conclude-IsWritten :
      (s : Store) (r : Reasoned) (delta : List CoverageDelta)
      → All (λ f. IsInert p.id f) r.findings
      → IsWritten p.id (conclude w sid p sarif_path root s r delta)
  unfolding conclude envelope_of
  conclude-IsWritten s r delta inert =
      let made_of =
        envelope_of w sid p sarif_path root (outcome_of w sid p sarif_path root r.findings) r
          delta in
      write_out-IsWritten s r (made w sid p sarif_path root made_of) inert
        (λ e came. ap (λ (x : Envelope). x.findings_written) (made-eq made_of e came))

  -- the worker when a document does not load
  block-IsWritten :
      (s : Store) (why : String) → IsWritten p.id (block w sid p sarif_path root s why)
  unfolding block
  block-IsWritten s why =
      let blocked_of = envelope_of w sid p sarif_path root blocked nothing_to_reason [] in
      nothing-IsWritten p.id (block w sid p sarif_path root s why).0
        (made w sid p sarif_path root blocked_of)
        (λ e came. ap (λ (x : Envelope). x.findings_written) (made-eq blocked_of e came))

  reasoned-IsInert :
      (s : Store) (path : String) (sarif : Fields)
      → All (λ f. IsInert p.id f) (reasoned w sid p sarif_path root s path sarif).findings
  unfolding reasoned
  reasoned-IsInert s path sarif = All-IsInert p.id _ (
      sarif_to_findings-IsInert w.decode w.resolve (some (coverage_areas w p root)) root sarif p.id
        (next_finding_index s))

  after_load-IsWritten :
      (s : Store) (path : String) (sarif : Result Fields)
      → IsWritten p.id (after_load w sid p sarif_path root s path sarif)
  unfolding after_load
  after_load-IsWritten s path (ok sarif) =
      conclude-IsWritten s (reasoned w sid p sarif_path root s path sarif)
        (claimed w sid p sarif_path root) (reasoned-IsInert s path sarif)
  after_load-IsWritten s path (raise (sarif_error why)) = block-IsWritten s why
  after_load-IsWritten s path (raise e) = tt

  pub run_marvin_worker-IsWritten :
      (s : Store) → IsWritten p.id (run_marvin_worker w sid p sarif_path root s)
  unfolding run_marvin_worker
  run_marvin_worker-IsWritten s =
      if_ind (λ o. IsWritten p.id o) (truthy sarif_path) _ _
        (λ _. after_load-IsWritten s (or_empty sarif_path) _)
        (λ _. conclude-IsWritten s nothing_to_reason [] tt)
