-- ===== src/Sessions/Map/Contained.antt =====
-- What MAP makes of each area of the allowlist.
use mathlib.Core.Path.{subst}
use deep_thought.Prelude.{
  ℕ, ◌+◌, String, ◌≡◌, ◌⊎◌, inl, inr, map, Bool, eqb, if_false, if◌then◌else◌, refl, sym, ap, ◌∙◌,
  true, false, not, Option, none, some, List, [], ◌∷◌, ◌++◌, ◌==◌, ◌&&◌, length, length-append,
  arith, All, if_ind,
}
use deep_thought.Schema.Status.{CoverageDepth, CoverageMethod, touched, explored}
use deep_thought.Schema.Coverage.{Coverage, ref}
use deep_thought.Schema.Project.{Project}
use deep_thought.Scope.{resolve_within}
use deep_thought.Result.{Result, ok, raise}
use deep_thought.Store.{Store}
use deep_thought.Sessions.{project_of}
use deep_thought.Store.Areas.{save_coverage, save_all}
use deep_thought.Sessions.Map.{Files, count_files}
use deep_thought.Sessions.Map.Loop.{
  covered, area_body, Progress, recorded_area, refused_area, visit_at, visit, visit_all,
}
use deep_thought.Sessions.Map.Run.{
  MapSession, map_under, fresh_progress, areas_of, Work, mapped, map_from, map_project, map_run,
  candidate_root,
}

All-snoc :
    {A : Type 0} (P : A → Type 0) (xs : List A) (x : A) → All P xs → P x → All P (xs ++ x ∷ [])
All-snoc P [] x h p = (p, tt)
All-snoc P (y ∷ ys) x h p = (h.0, All-snoc P ys x h.1 p)

map-snoc :
    (cs : List Coverage) (c : Coverage)
    → map (λ d. ref d) (cs ++ c ∷ []) ≡ map (λ d. ref d) cs ++ ref c ∷ []
map-snoc [] c = refl
map-snoc (d ∷ ds) c = rw (map-snoc ds c) refl

save_all-snoc :
    (sha1 : String → String) (cs : List Coverage) (c : Coverage) (s : Store)
    → save_all sha1 (cs ++ c ∷ []) s ≡ save_coverage sha1 (save_all sha1 cs s) c
save_all-snoc sha1 [] c s = refl
save_all-snoc sha1 (d ∷ ds) c s = save_all-snoc sha1 ds c (save_coverage sha1 s d)

abbrev is_explored : CoverageDepth → Bool
is_explored explored = true
is_explored _ = false

abbrev is_touched : CoverageDepth → Bool
is_touched touched = true
is_touched _ = false

-- how many records have a depth
abbrev pub count_depth : (CoverageDepth → Bool) → List Coverage → ℕ
count_depth p [] = 0
count_depth p (c ∷ cs) = if p c.depth then count_depth p cs + 1 else count_depth p cs

count_depth-snoc :
    (p : CoverageDepth → Bool) (cs : List Coverage) (c : Coverage)
    → count_depth p (cs ++ c ∷ []) ≡ (if p c.depth then count_depth p cs + 1 else count_depth p cs)
count_depth-snoc p [] c = refl
count_depth-snoc p (d ∷ ds) c = ground (arith, count_depth-snoc p ds c)

module _ (sha1 : String → String) (fs : Files) (root : List String) (project sid : String) where
  -- a record that MAP may make: of an area that is not blank and resolves inside the root, by reading
  -- only, explored if there is a file below the area and touched if there is none
  pub record IsContained (c : Coverage) : Type 0 where
    pub of_project : c.project ≡ project
    pub of_session : c.last_session ≡ sid
    pub method : c.method ≡ CoverageMethod.read
    pub not_blank : (c.area == "") ≡ false
    pub path : List String
    pub inside : resolve_within fs.resolve root c.area ≡ some path
    pub without_files : count_files (fs.tree path) ≡ 0 → c.depth ≡ touched
    pub with_files : (count_files (fs.tree path) ≡ 0 → ⊥) → c.depth ≡ explored

  -- an area that MAP refuses: it is blank, or it does not resolve inside the root
  abbrev pub IsRefused : String → Type 0
  IsRefused name = (name ≡ "(blank)") ⊎ (resolve_within fs.resolve root name ≡ none)

  -- the state of the loop after `n` areas
  pub record IsAccounted (s : Store) (n : ℕ) (g : Progress) : Type 0 where
    pub records : List Coverage
    pub contained : All IsContained records
    pub saved : g.store ≡ save_all sha1 records s
    pub taught : g.recorded ≡ map (λ c. ref c) records
    pub refused : All IsRefused g.refused
    pub total : length records + length g.refused ≡ n
    pub explored_count : g.explored_count ≡ count_depth is_explored records
    pub touched_count : g.touched_count ≡ count_depth is_touched records
    pub findings : g.store.findings ≡ s.findings
    pub projects : g.store.projects ≡ s.projects

  covered-IsContained :
      (area : String) (path : List String)
      → (area == "") ≡ false
      → resolve_within fs.resolve root area ≡ some path
      → IsContained (covered sha1 fs root project sid area (count_files (fs.tree path)))
  unfolding area_body
  covered-IsContained area path filled inside = record {
    of_project = refl;
    of_session = refl;
    method = refl;
    not_blank = filled;
    path = path;
    inside = inside;
    without_files = λ h. rw h refl;
    with_files = λ h. if_false {b = eqb (count_files (fs.tree path)) 0} _ _ (ground (arith, h));
  }

  recorded_area-IsAccounted :
      (s : Store) (n : ℕ) (g : Progress) (area : String) (path : List String)
      → IsAccounted s n g
      → (area == "") ≡ false
      → resolve_within fs.resolve root area ≡ some path
      → IsAccounted s
          (n + 1)
          (recorded_area sha1 fs root project sid area (count_files (fs.tree path)) g)
  unfolding recorded_area save_coverage
  recorded_area-IsAccounted s n g area path a filled inside =
      let k = count_files (fs.tree path) in
      let c = covered sha1 fs root project sid area k in
      record {
        records = a.records ++ c ∷ [];
        contained =
            All-snoc _ a.records c a.contained (covered-IsContained area path filled inside);
        saved = ap (λ t. save_coverage sha1 t c) a.saved ∙ sym (save_all-snoc sha1 a.records c s);
        taught = ap (λ rs. rs ++ ref c ∷ []) a.taught ∙ sym (map-snoc a.records c);
        refused = a.refused;
        total = rw length-append (omega (arith, a.total));
        explored_count =
            rw (count_depth-snoc is_explored a.records c) (ground (arith, a.explored_count));
        touched_count =
            rw (count_depth-snoc is_touched a.records c) (ground (arith, a.touched_count));
        findings = a.findings;
        projects = a.projects;
      }

  refused_area-IsAccounted :
      (s : Store) (n : ℕ) (g : Progress) (name : String)
      → IsAccounted s n g
      → IsRefused name
      → IsAccounted s (n + 1) (refused_area sha1 fs root project sid name g)
  unfolding refused_area
  refused_area-IsAccounted s n g name a out = record {
    records = a.records;
    contained = a.contained;
    saved = a.saved;
    taught = a.taught;
    refused = All-snoc _ g.refused name a.refused out;
    total = rw length-append (omega (arith, a.total));
    explored_count = a.explored_count;
    touched_count = a.touched_count;
    findings = a.findings;
    projects = a.projects;
  }

  visit_at-IsAccounted :
      (s : Store) (n : ℕ) (g : Progress) (area : String) (o : Option (List String))
      → IsAccounted s n g
      → (area == "") ≡ false
      → resolve_within fs.resolve root area ≡ o
      → IsAccounted s (n + 1) (visit_at sha1 fs root project sid area o g)
  unfolding visit_at count_files
  visit_at-IsAccounted s n g area none a filled e = refused_area-IsAccounted s n g area a (inr e)
  visit_at-IsAccounted s n g area (some path) a filled e =
      recorded_area-IsAccounted s n g area path a filled e

  visit-IsAccounted :
      (s : Store) (n : ℕ) (g : Progress) (area : String)
      → IsAccounted s n g
      → IsAccounted s (n + 1) (visit sha1 fs root project sid area g)
  unfolding visit
  visit-IsAccounted s n g area a =
      if_ind (IsAccounted s (n + 1)) (area == "") _ _
        (λ _. refused_area-IsAccounted s n g "(blank)" a (inl refl))
        (λ filled. visit_at-IsAccounted s n g area _ a filled refl)

  -- the whole loop
  pub visit_all-IsAccounted :
      (s : Store) (areas : List String) (n : ℕ) (g : Progress)
      → IsAccounted s n g
      → IsAccounted s (n + length areas) (visit_all sha1 fs root project sid areas g)
  unfolding visit_all
  visit_all-IsAccounted s [] n g a = subst (λ (k : ℕ). IsAccounted s k g) (omega arith) a
  visit_all-IsAccounted s (area ∷ rest) n g a =
      subst
        (λ (k : ℕ).
          IsAccounted s k
            (visit_all sha1 fs root project sid rest (visit sha1 fs root project sid area g)))
        (omega arith) (visit_all-IsAccounted s rest (n + 1) _ (visit-IsAccounted s n g area a))

  fresh-IsAccounted : (s : Store) → IsAccounted s 0 (fresh_progress s)
  fresh-IsAccounted s = record {
    records = [];
    contained = tt;
    saved = refl;
    taught = refl;
    refused = tt;
    total = refl;
    explored_count = refl;
    touched_count = refl;
    findings = refl;
    projects = refl;
  }

  loop-IsAccounted :
      (s : Store) (areas : List String)
      → IsAccounted s (length areas) (visit_all sha1 fs root project sid areas (fresh_progress s))
  loop-IsAccounted s areas =
      subst
        (λ (k : ℕ). IsAccounted s k (visit_all sha1 fs root project sid areas (fresh_progress s)))
        (omega arith) (visit_all-IsAccounted s areas 0 (fresh_progress s) (fresh-IsAccounted s))

-- what a run under a root comes to
pub record IsMapped (sha1 : String → String) (fs : Files) (p : Project) (root sid : String)
    (s : Store) (w : Work) : Type 0 where
  pub progress : Progress
  pub ended : w ≡ (progress.store, ok (mapped p root progress))
  pub accounted : IsAccounted sha1 fs (fs.root_of root) p.id sid s (length (areas_of p)) progress

-- the parts of the store that MAP only reads
abbrev pub ReadsOnly : Store → Work → Type 0
ReadsOnly s w = (w.0.findings ≡ s.findings) × (w.0.projects ≡ s.projects)

map_under-ReadsOnly :
    (sha1 : String → String) (fs : Files) (v : MapSession) (sid : String) (p : Project) (s : Store)
    (root : String)
    → ReadsOnly s (map_under sha1 fs v sid p s root)
unfolding map_under
map_under-ReadsOnly sha1 fs v sid p s root =
    let a = loop-IsAccounted sha1 fs (fs.root_of root) p.id sid s (areas_of p) in
    (a.findings, a.projects)

map_from-ReadsOnly :
    (sha1 : String → String) (fs : Files) (v : MapSession) (sid : String) (p : Project) (s : Store)
    (o : Option String)
    → ReadsOnly s (map_from sha1 fs v sid p s o)
unfolding map_from
map_from-ReadsOnly sha1 fs v sid p s none = (refl, refl)
map_from-ReadsOnly sha1 fs v sid p s (some root) =
    if_ind (ReadsOnly s) (not (root == "") && fs.is_dir root) _ _
      (λ _. map_under-ReadsOnly sha1 fs v sid p s root) (λ _. (refl, refl))

map_project-ReadsOnly :
    (sha1 : String → String) (fs : Files) (v : MapSession) (sid : String) (s : Store)
    (r : Result Project)
    → ReadsOnly s (map_project sha1 fs v sid s r)
unfolding map_project
map_project-ReadsOnly sha1 fs v sid s (raise e) = (refl, refl)
map_project-ReadsOnly sha1 fs v sid s (ok p) =
    map_from-ReadsOnly sha1 fs v sid p s (candidate_root v p)

-- MAP only reads the findings and the projects, whichever way it ends.
pub map_run-ReadsOnly :
    (sha1 : String → String) (fs : Files) (v : MapSession) (sid : String) (s : Store)
    → ReadsOnly s (map_run sha1 fs v sid s)
unfolding map_run
map_run-ReadsOnly sha1 fs v sid s =
    map_project-ReadsOnly sha1 fs v sid s (project_of s v.project_id)
