-- ===== src/Sessions/Discover/Attested.antt =====
-- The coverage that DISCOVER records from what a worker attests.
use mathlib.Core.Path.{subst}
use deep_thought.Prelude.{
  String, ◌≡◌, refl, sym, ap, ◌∙◌, inl, inr, Bool, true, false, not, ◌&&◌, Option, none, some, List,
  [], ◌∷◌, ◌==◌, eq_iff, map, keep, member, arith, All, In, Bool-cases, Option-cases,
}
use deep_thought.Prelude.Text.{strip}
use deep_thought.Schema.Json.{Json}
use deep_thought.Schema.Status.{CoverageMethod, CoverageDepth, depth_of}
use deep_thought.Schema.Coverage.{Coverage, ref}
use deep_thought.Schema.Project.{Project}
use deep_thought.Schema.Envelope.{CoverageDelta, Envelope}
use deep_thought.Scope.{area_in_scope}
use deep_thought.Result.{Result, ok, raise}
use deep_thought.Protocol.{SessionOutcome}
use deep_thought.Store.{Store}
use deep_thought.Store.Areas.{save_all}
use deep_thought.Orchestrator.Conductor.{Validated, Raw, Conductor, new, ingest}
use deep_thought.Sessions.Map.Loop.{fromkeys}
use deep_thought.Sessions.Discover.{Outside, DiscoverSession, coverage_areas}
use deep_thought.Sessions.Discover.Run.{
  covered, permitted, onto_saved, onto_refs, write_read_coverage, taught, rejected, teach_ingested,
  take_in,
}

member-fromkeys :
    (a : String) (seen xs : List String) → member a (fromkeys seen xs) ≡ true → member a xs ≡ true
unfolding fromkeys
member-fromkeys a seen [] h = h
member-fromkeys a seen (x ∷ xs) h =
    ground (arith, h, member-fromkeys a seen xs, member-fromkeys a (x ∷ seen) xs)

member_here :
    (p : String → Bool) (a x : String) (xs : List String)
    → p x ≡ true
    → member a (x ∷ keep p xs) ≡ true
    → (member a (keep p xs) ≡ true → (p a ≡ true) × (member a xs ≡ true))
    → (p a ≡ true) × (member a (x ∷ xs) ≡ true)
member_here p a x xs passes h later = elim (Bool-cases (x == a)) [
  | inl same ↦ (ap p (sym ((eq_iff x a).0 same)) ∙ passes, ground arith)
  | inr other ↦ let (pa, found) = later (ground arith) in (pa, ground arith)
]

member-keep :
    (p : String → Bool) (a : String) (xs : List String)
    → member a (keep p xs) ≡ true
    → (p a ≡ true) × (member a xs ≡ true)
member-keep p a [] h = absurd (ground arith)
member-keep p a (x ∷ xs) h = elim (Bool-cases (p x)) [
  | inl passes ↦ member_here p a x xs passes (rw passes at h) (member-keep p a xs)
  | inr fails ↦ let (passes, later) = member-keep p a xs (rw fails at h) in (passes, ground arith)
]

module _ (sha1 : String → String) (w : Outside) (sid : String) (p : Project)
    (root : Option (List String)) where
  -- a record that DISCOVER may make: of this project and this session, by reading only, of an area of
  -- the allowlist that is not blank and stays inside the target, as an entry of the delta names it
  pub record IsAttested (delta : List CoverageDelta) (c : Coverage) : Type 0 where
    pub project : c.project ≡ p.id
    pub session : c.last_session ≡ sid
    pub reading : c.method ≡ CoverageMethod.read
    pub listed : member c.area (map (λ a. strip a) p.scope_allowlist) ≡ true
    pub filled : (c.area == "") ≡ false
    pub inside : area_in_scope w.resolve c.area root ≡ true
    pub entry : (d : CoverageDelta) × In d delta × (d.area ≡ c.area) × (d.method ≡ "read")

  -- a store with the records on top, and their references
  abbrev pub Records : List CoverageDelta → Store → Store → List String → Type 0
  Records delta s t refs =
      (cs : List Coverage) × All (IsAttested delta) cs
      × (t ≡ save_all sha1 cs s)
      × (refs ≡ map (λ c. ref c) cs)

  -- what an entry that is permitted is
  Permitted : List String → CoverageDelta → Coverage → Type 0
  Permitted allowed d c =
      (depth : CoverageDepth) × (member d.area allowed ≡ true)
      × (d.method ≡ "read")
      × (covered p.id sid d.area depth ≡ c)

  permitted-Permitted :
      (allowed : List String) (d : CoverageDelta) (c : Coverage)
      → permitted p.id sid allowed d ≡ some c
      → Permitted allowed d c
  unfolding permitted Permitted
  permitted-Permitted allowed d c h = elim (Option-cases (depth_of d.depth)) [
    | inl illegal ↦ absurd (ground (arith, h, illegal))
    | inr (depth, legal) ↦
        (depth, ground arith, ground (arith, eq_iff d.method "read"), ground (arith, h, legal))
  ]

  permitted-IsAttested :
      (delta : List CoverageDelta) (d : CoverageDelta) (c : Coverage)
      → In d delta
      → permitted p.id sid (coverage_areas w p root) d ≡ some c
      → IsAttested delta c
  unfolding Permitted coverage_areas
  permitted-IsAttested delta d c here h =
      let (depth, allowed, read, e) = permitted-Permitted (coverage_areas w p root) d c h in
      let areas = fromkeys [] (map (λ a. strip a) p.scope_allowlist) in
      let (passes, listed) =
        member-keep (λ a. not (a == "") && area_in_scope w.resolve a root) d.area areas allowed in
      subst (IsAttested delta) e (record {
        project = refl;
        session = refl;
        reading = refl;
        listed = member-fromkeys d.area [] _ listed;
        filled = ground arith;
        inside = ground arith;
        entry = (d, here, refl, read);
      })

  IsAttested-later :
      (d : CoverageDelta) (delta : List CoverageDelta) (cs : List Coverage)
      → All (IsAttested delta) cs
      → All (IsAttested (d ∷ delta)) cs
  IsAttested-later d delta [] h = tt
  IsAttested-later d delta (c ∷ cs) h =
      let (e, found, same, read) = h.0.entry in
      (
        record {
          project = h.0.project;
          session = h.0.session;
          reading = h.0.reading;
          listed = h.0.listed;
          filled = h.0.filled;
          inside = h.0.inside;
          entry = (e, inr found, same, read);
        },
        IsAttested-later d delta cs h.1,
      )

  -- one more entry, in front, by what it is permitted to record
  Records-cons :
      (d : CoverageDelta) (delta : List CoverageDelta) (s t : Store) (refs : List String)
      (o : Option Coverage)
      → permitted p.id sid (coverage_areas w p root) d ≡ o
      → Records delta (onto_saved sha1 o s) t refs
      → Records (d ∷ delta) s t (onto_refs o refs)
  Records-cons d delta s t refs none e (cs, all, saved, named) =
      (cs, IsAttested-later d delta cs all, saved, named)
  Records-cons d delta s t refs (some c) e (cs, all, saved, named) = (
    c ∷ cs,
    (permitted-IsAttested (d ∷ delta) d c (inl refl) e, IsAttested-later d delta cs all),
    saved,
    ap (λ rs. ref c ∷ rs) named,
  )

  write_read_coverage-Records :
      (delta : List CoverageDelta) (s : Store)
      → Records delta s
          ((write_read_coverage sha1 p.id sid (coverage_areas w p root) delta s).0)
          ((write_read_coverage sha1 p.id sid (coverage_areas w p root) delta s).1)
  unfolding write_read_coverage
  write_read_coverage-Records [] s = ([], tt, refl, refl)
  write_read_coverage-Records (d ∷ delta) s =
      let o = permitted p.id sid (coverage_areas w p root) d in
      Records-cons d delta s _ _ o refl (write_read_coverage-Records delta (onto_saved sha1 o s))

-- the entries of the envelope that was ingested, if one was
abbrev pub delta_of : Option Envelope → List CoverageDelta
delta_of none = []
delta_of (some e) = e.coverage_delta

-- what a run teaches back as recorded
abbrev pub refs_of : Result SessionOutcome → List String
refs_of (raise e) = []
refs_of (ok o) = o.coverage_changed

module _ (sha1 : String → String) (model_validate : Json → Validated) (w : Outside)
    (v : DiscoverSession) (sid : String) where
  teach_ingested-Records :
      (p : Project) (root : Option (List String)) (c : Conductor) (reason : Option String)
      (e : Option Envelope) (s : Store)
      → let (t, result) = teach_ingested sha1 model_validate w v sid p root c reason e s in
        Records sha1 w sid p root (delta_of e) s t (refs_of result)
  unfolding teach_ingested taught rejected
  teach_ingested-Records p root c reason none s = ([], tt, refl, refl)
  teach_ingested-Records p root c reason (some e) s =
      write_read_coverage-Records sha1 w sid p root e.coverage_delta s

  -- Whatever a worker hands back, an envelope or a dictionary, DISCOVER changes the store only by
  -- coverage records, one after the other, and teaches back exactly these. Each is of the project and
  -- the session, by the method `read`, and an entry of the ingested envelope names it with that method;
  -- its area is one of the allowlist, not blank, and stays inside the target.
  pub take_in-Records :
      (p : Project) (root : Option (List String)) (raw : Raw) (s : Store)
      → let (t, result) = take_in sha1 model_validate w v sid p root raw s in
        Records sha1 w sid p root
          (delta_of (ingest model_validate new raw).1.envelope)
          s
          t
          (refs_of result)
  unfolding take_in
  take_in-Records p root raw s =
      let (c, result) = ingest model_validate new raw in
      teach_ingested-Records p root c result.reason result.envelope s
