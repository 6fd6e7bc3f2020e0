-- ===== src/Sessions/Discover/Kept.antt =====
-- The findings on file before and after DISCOVER.
use text.Mathlib.TextLemmas.{append_cancel_right}
use deep_thought.Prelude.{
  ℕ, ◌+◌, ◌≤◌, ◌<◌, String, ◌&◌, ◌≡◌, refl, sym, ap, ◌∙◌, inl, inr, true, false, Option, none, some,
  List, [], ◌∷◌, ◌==◌, eq_iff, keep, truthy, arith, All, Bool-cases, if_ind,
}
use deep_thought.Prelude.Text.{pad, or_empty}
use deep_thought.Prelude.Dirs.{Dir, lookup, values, lookup-write}
use deep_thought.Schema.Json.{Json, Fields}
use deep_thought.Schema.Finding.{Finding}
use deep_thought.Schema.Coverage.{Coverage}
use deep_thought.Schema.Project.{Project}
use deep_thought.Schema.Envelope.{Envelope}
use deep_thought.Result.{Result, ok, raise, sarif_error}
use deep_thought.Store.{Store, file_name, list_findings, save_finding}
use deep_thought.Sessions.Discover.{
  Outside, DiscoverSession, number_of, max_with, highest, next_finding_index, coverage_areas,
  resolve_checkout,
}
use deep_thought.Sessions.Discover.Numbers.{number_of-pad}
use deep_thought.Store.Areas.{save_all, save_coverage}
use deep_thought.Store.Detail.{write_detail}
use deep_thought.Ingest.Results.{Accepted, accepted_results}
use deep_thought.Ingest.Findings.{finding_of, numbered, sarif_to_findings}
use deep_thought.Sessions.Discover.Worker.{
  save_findings, Reasoned, nothing_to_reason, write_out, reasoned, after_load, conclude, block,
  run_marvin_worker,
}
use deep_thought.Orchestrator.Conductor.{Validated, typed}
use deep_thought.Sessions.{project_of}
use deep_thought.Sessions.Discover.Run.{
  after_worker, candidate_root, discover_project, discover_run,
}
use deep_thought.Sessions.Discover.Attested.{take_in-Records}

-- every finding is in the file of its id
abbrev pub IsFiled : Dir Finding → Type 0
IsFiled d = (k : String) (g : Finding) → lookup k d ≡ some g → k ≡ file_name g.id

abbrev everything : Dir Finding → List Finding
everything d = keep (λ (f : Finding). true) (values d)

inside_some : (f g : Finding) → some f ≡ some g → f ≡ g
inside_some f g h = cc

number_le_max : (o : Option ℕ) (m n : ℕ) → o ≡ some m → m ≤ max_with o n
number_le_max none m n h = cc
number_le_max (some k) m n h = ground (arith, h)

le_max : (o : Option ℕ) (n : ℕ) → n ≤ max_with o n
le_max none n = omega arith
le_max (some k) n = ground arith

-- The number of a finding that is found is not above the highest.
found-highest :
    (d : Dir Finding) (k : String) (g : Finding) (m : ℕ)
    → lookup k d ≡ some g
    → number_of g.id ≡ some m
    → m ≤ highest (everything d)
unfolding lookup values highest
found-highest [] k g m h e = cc
found-highest ((j, f) ∷ d) k g m h e = elim (Bool-cases (j == k)) [
  | inl here ↦
      let same : f ≡ g = inside_some f g (rw here at h) in
      number_le_max (number_of f.id) m (highest (everything d))
        (ap (λ (x : Finding). number_of x.id) same ∙ e)
  | inr there ↦ omega (
    arith,
    found-highest d k g m (rw there at h) e,
    le_max (number_of f.id) (highest (everything d)),
  )
]

-- A finding with a larger number goes to another file.
other_file :
    (k : String) (g : Finding) (n : ℕ) (id : String)
    → k ≡ file_name g.id
    → ((m : ℕ) → number_of g.id ≡ some m → m < n)
    → number_of id ≡ some n
    → (file_name id == k) ≡ false
other_file k g n id named below is = elim (Bool-cases (file_name id == k)) [
  | inl same ↦
      let files : file_name id ≡ file_name g.id = (eq_iff (file_name id) k).0 same ∙ named in
      let ids : id ≡ g.id = append_cancel_right id g.id ".md" files in
      absurd (omega (arith, below n (ap (λ i. number_of i) (sym ids) ∙ is)))
  | inr other ↦ other
]

-- Findings that are numbered from `n` on, where `n` is past every number on file, leave a file as it is.
-- Saving them one after the other keeps what is found under a name of a smaller number.
save_findings-keeps :
    (fs : List Finding) (s : Store) (k : String) (g : Finding)
    → All (λ (f : Finding). (file_name f.id == k) ≡ false) fs
    → lookup k s.findings ≡ some g
    → lookup k (save_findings fs s).findings ≡ some g
unfolding save_findings save_finding
save_findings-keeps [] s k g others h = h
save_findings-keeps (f ∷ fs) s k g others h =
    save_findings-keeps fs (save_finding s f) k g others.1
      (lookup-write (file_name f.id) k _ s.findings ∙ rw others.0 h)

numbered-other_file :
    (project : String) (n : ℕ) (results : List Accepted) (k : String) (g : Finding)
    → k ≡ file_name g.id
    → ((m : ℕ) → number_of g.id ≡ some m → m < n)
    → All (λ (f : Finding). (file_name f.id == k) ≡ false) (numbered project n results)
unfolding numbered finding_of
numbered-other_file project n [] k g named below = tt
numbered-other_file project n (a ∷ rest) k g named below = (
  other_file k g n ("F-" & pad 4 n) named below (number_of-pad n),
  numbered-other_file project (n + 1) rest k g named (λ m e. omega (arith, below m e)),
)

-- what a part of the run keeps
abbrev pub Keeps : Store → Store → Type 0
Keeps s t = (k : String) (g : Finding) → lookup k s.findings ≡ some g → lookup k t.findings ≡ some g

module _ (w : Outside) (sid : String) (p : Project) (sarif_path : Option String)
    (root : Option (List String)) (s : Store) (filed : IsFiled s.findings) where
  write_out-Keeps :
      (r : Reasoned) (e : Result Envelope)
      → ((k : String) (g : Finding)
          → lookup k s.findings ≡ some g
          → All (λ (f : Finding). (file_name f.id == k) ≡ false) r.findings)
      → Keeps s (write_out w sid p sarif_path root s r e).0
  unfolding write_out write_detail
  write_out-Keeps r (raise e) others k g h = h
  write_out-Keeps r (ok e) others k g h = save_findings-keeps r.findings s k g (others k g h) h

  reasoned-others :
      (path : String) (sarif : Fields) (k : String) (g : Finding)
      → lookup k s.findings ≡ some g
      → All
          (λ (f : Finding). (file_name f.id == k) ≡ false)
          (reasoned w sid p sarif_path root s path sarif).findings
  unfolding reasoned sarif_to_findings next_finding_index list_findings
  reasoned-others path sarif k g h =
      numbered-other_file p.id (next_finding_index s)
        (accepted_results w.decode w.resolve (some (coverage_areas w p root)) root sarif) k g
        (filed k g h) (λ m e. omega (arith, found-highest s.findings k g m h e))

  after_load-Keeps :
      (path : String) (sarif : Result Fields)
      → Keeps s (after_load w sid p sarif_path root s path sarif).0
  unfolding after_load conclude block write_detail
  after_load-Keeps path (ok sarif) k g h =
      write_out-Keeps (reasoned w sid p sarif_path root s path sarif) _ (reasoned-others path sarif)
        k g h
  after_load-Keeps path (raise (sarif_error why)) k g h = h
  after_load-Keeps path (raise e) k g h = h

  run_marvin_worker-Keeps : Keeps s (run_marvin_worker w sid p sarif_path root s).0
  unfolding run_marvin_worker conclude
  run_marvin_worker-Keeps k g h =
      if_ind (λ (o : Store × Result Envelope). lookup k o.0.findings ≡ some g) (truthy sarif_path) _
        _ (λ _. after_load-Keeps (or_empty sarif_path) _ k g h)
        (λ _. write_out-Keeps nothing_to_reason _ (λ k g h. tt) k g h)

save_all-findings :
    (sha1 : String → String) (cs : List Coverage) (s : Store)
    → (save_all sha1 cs s).findings ≡ s.findings
unfolding save_coverage
save_all-findings sha1 [] s = refl
save_all-findings sha1 (c ∷ cs) s = save_all-findings sha1 cs (save_coverage sha1 s c)

module _ (sha1 : String → String) (model_validate : Json → Validated) (w : Outside)
    (v : DiscoverSession) (sid : String) where
  pub after_worker-findings :
      (p : Project) (root : Option (List String)) (o : Store × Result Envelope)
      → (after_worker sha1 model_validate w v sid p root o).0.findings ≡ o.0.findings
  after_worker-findings p root (s, raise e) = refl
  after_worker-findings p root (s, ok e) =
      let (cs, all, saved, named) =
        take_in-Records sha1 model_validate w v sid p root (typed e) s in
      ap (λ (t : Store). t.findings) saved ∙ save_all-findings sha1 cs s

  discover_project-Keeps :
      (s : Store) (p : Result Project)
      → IsFiled s.findings
      → Keeps s (discover_project sha1 model_validate w v sid s p).0
  unfolding discover_project
  discover_project-Keeps s (raise e) filed k g h = h
  discover_project-Keeps s (ok p) filed k g h =
      let root = resolve_checkout w (candidate_root sha1 model_validate w v sid p) in
      let o = run_marvin_worker w sid p v.sarif_path root s in
      ap (λ d. lookup k d) (after_worker-findings p root o)
      ∙ run_marvin_worker-Keeps w sid p v.sarif_path root s filed k g h

  -- A run of DISCOVER overwrites no finding, whichever way it ends: if every finding on file is in the
  -- file of its id, each is found again afterwards as it was. So a repeat takes no number twice.
  pub discover_run-Keeps :
      (s : Store) → IsFiled s.findings → Keeps s (discover_run sha1 model_validate w v sid s).0
  unfolding discover_run
  discover_run-Keeps s filed = discover_project-Keeps s (project_of s v.project_id) filed
