-- ===== src/Sessions/Status/Counts.antt =====
-- What STATUS counts.
use deep_thought.Prelude.{
  ℕ, String, ◌≡◌, refl, ap, ◌∙◌, Option, some, List, [], ◌∷◌, ◌==◌, arith, length, map, keep,
  eq_iff, Bool-cases, inl, inr,
}
use deep_thought.Prelude.Dirs.{lookup, lookup-write}
use deep_thought.Schema.Status.{
  FindingStatus, candidate, verified, disclosed, patched, status_value, is_status,
}
use deep_thought.Schema.Finding.{Finding}
use deep_thought.Schema.Project.{Project}
use deep_thought.Result.{ok}
use deep_thought.Store.{Store, get_project, list_findings, list_coverage}
use deep_thought.Sessions.{project_of, found_project}
use deep_thought.Sessions.Status.{count_of, tally, by_status, report, reported, status_run}

-- how often a key stands in a list
abbrev occurrences : String → List String → ℕ
occurrences key ks = length (keep (λ k. k == key) ks)

count_of-tally : (ks : List String) (key : String) → count_of key (tally ks) ≡ occurrences key ks
unfolding tally
count_of-tally [] key = unfold lookup in refl
count_of-tally (k ∷ ks) key = elim (Bool-cases (k == key)) [
  | inl same ↦
      rw (lookup-write, same)
        (omega (
          arith,
          ap (λ (x : String). count_of x (tally ks)) ((eq_iff k key).0 same),
          count_of-tally ks key,
        ))
  | inr other ↦ rw (lookup-write, other) (count_of-tally ks key)
]

status_value-eq : (x y : FindingStatus) → (status_value x == status_value y) ≡ is_status x y
status_value-eq candidate candidate = refl
status_value-eq candidate verified = refl
status_value-eq candidate disclosed = refl
status_value-eq candidate patched = refl
status_value-eq verified candidate = refl
status_value-eq verified verified = refl
status_value-eq verified disclosed = refl
status_value-eq verified patched = refl
status_value-eq disclosed candidate = refl
status_value-eq disclosed verified = refl
status_value-eq disclosed disclosed = refl
status_value-eq disclosed patched = refl
status_value-eq patched candidate = refl
status_value-eq patched verified = refl
status_value-eq patched disclosed = refl
status_value-eq patched patched = refl

occurrences-map :
    (findings : List Finding) (y : FindingStatus)
    → occurrences (status_value y) (map (λ f. status_value f.status) findings)
      ≡ length (keep (λ f. is_status f.status y) findings)
occurrences-map [] y = refl
occurrences-map (f ∷ fs) y = elim (Bool-cases (is_status f.status y)) [
  | inl here ↦ rw (status_value-eq f.status y, here) (omega (arith, occurrences-map fs y))
  | inr other ↦ rw (status_value-eq f.status y, other) (occurrences-map fs y)
]

-- the counts that are reported
count_of-by_status :
    (findings : List Finding) (y : FindingStatus)
    → count_of (status_value y) (by_status findings)
      ≡ length (keep (λ f. is_status f.status y) findings)
unfolding by_status
count_of-by_status findings y =
    count_of-tally (map (λ f. status_value f.status) findings) (status_value y)
    ∙ occurrences-map findings y

-- STATUS of a registered project leaves the store as it is and reports on the project's own findings and
-- coverage, where the count of a status is the number of those findings that have it.
pub status_run_reports :
    (id : String) (s : Store) (p : Project) (y : FindingStatus)
    → get_project s id ≡ some p
    → (status_run id s
        ≡ (s, ok (report p (list_findings s (some p.id)) (list_coverage s (some p.id)))))
      × (count_of (status_value y) (by_status (list_findings s (some p.id)))
          ≡ length (keep (λ f. is_status f.status y) (list_findings s (some p.id))))
unfolding status_run reported project_of found_project
status_run_reports id s p y found = (
  ap (λ (o : Option Project). reported s (found_project id o)) found,
  count_of-by_status (list_findings s (some p.id)) y,
)
