-- ===== src/Examples/Findings.antt =====
-- The store, the lifecycle and the ids at concrete inputs.
use deep_thought.Prelude.{
  String, ◌≡◌, ◌≢◌, ◌↔◌, refl, true, some, [], ◌∷◌, arith, eq_iff, sym, ap, ◌∙◌,
}
use deep_thought.Prelude.Text.{lower, newlines}
use deep_thought.Prelude.Dirs.{lookup, values, write}
use deep_thought.Result.{ok}
use deep_thought.Ids.{is_record_id}
use deep_thought.Schema.Status.{candidate, verified, disclosed}
use deep_thought.Schema.Finding.{has_reference_type}
use deep_thought.Schema.Project.{Project, identity}
use deep_thought.Store.{Store, empty, get_finding, file_name, list_projects, read_back}
use deep_thought.Store.Detail.{detail_exists, detail_path, detail_ref, read_detail, write_detail}
use deep_thought.Store.Detail.Paths.{read_detail-write_detail}
use deep_thought.Store.Lifecycle.{evaluate_transition, moved}
use deep_thought.Store.Lifecycle.Guard.{HasEvidence, IsPublic, Moves, evaluate_transition-Moves}
use deep_thought.Store.Lifecycle.AtRest.{
  IsBacked, IsAtRest, at_rest_errors, at_rest_errors-IsAtRest, moved-IsBacked,
  undisclose_breaks_check,
}
use deep_thought.Store.Lifecycle.Effects.{Effect, transition_finding-Effect}
use deep_thought.Store.Projects.{save_project, filed}
use deep_thought.Store.Projects.Unique.{IsRegistry, save_project-IsRegistry}
use deep_thought.Examples.Samples.{finding_at, unproved, project, store}

evaluate_transition-Moves_example :
    ((evaluate_transition store (finding_at candidate) verified).allowed ≡ true)
    ↔ Moves store (finding_at candidate) candidate verified
evaluate_transition-Moves_example = evaluate_transition-Moves store (finding_at candidate) verified

evidence : HasEvidence store (finding_at verified)
unfolding detail_exists lookup detail_path
evidence = record { named = refl; resolves = refl }

publication : IsPublic (finding_at disclosed) "advisory"
unfolding has_reference_type lower
publication = record { cve = refl; reference = refl }

at_rest_errors-IsAtRest_example :
    (at_rest_errors store (finding_at verified) ≡ [])
    ↔ IsAtRest store (finding_at verified) verified
at_rest_errors-IsAtRest_example = at_rest_errors-IsAtRest store (finding_at verified)

moved-IsBacked_example :
    let f = finding_at verified in
    let f' = moved 0 (evaluate_transition store f disclosed) f disclosed in
    IsBacked store f' f'.status
moved-IsBacked_example = moved-IsBacked 0 store (finding_at verified) disclosed evidence

undisclose_breaks_check_example :
    (at_rest_errors store unproved ≡ [])
    × ((evaluate_transition store unproved verified).allowed ≡ true)
    × (at_rest_errors store
          (moved 0 (evaluate_transition store unproved verified) unproved verified)
        ≢ [])
undisclose_breaks_check_example =
    undisclose_breaks_check 0 store unproved refl
      (record { cve = publication.cve; reference = unfold has_reference_type lower in refl }) refl

candidate_found : get_finding store "F-0001" ≡ some (finding_at candidate)
unfolding get_finding is_record_id lookup
candidate_found = refl

transition_finding-Effect_example : Effect 0 store (finding_at candidate) verified
transition_finding-Effect_example =
    transition_finding-Effect 0 store (finding_at candidate) verified candidate_found

read_detail-write_detail_example :
    read_detail
      (write_detail empty "S-1" "verify-result.txt" "a\r\nb")
      (detail_ref "S-1" "verify-result.txt")
    ≡ some (newlines "a\r\nb")
read_detail-write_detail_example =
    read_detail-write_detail "S-1" "verify-result.txt" (unfold is_record_id in refl)
      (unfold is_record_id in refl) empty "a\r\nb"

only_project :
    (k : String) (p : Project)
    → lookup k store.projects ≡ some p
    → ("php-src.md" ≡ k) × (project ≡ p)
unfolding lookup
only_project k p h = ground (arith, eq_iff "php-src.md" k)

one_project : IsRegistry store.projects
one_project = record {
  named =
      λ k p h. let (n, e) = only_project k p h in sym n ∙ ap (λ (x : Project). file_name x.id) e;
  unique = λ k j p q h i e. sym (only_project k p h).0 ∙ (only_project j q i).0;
}

-- another project, and one that claims the identity of the first
abbrev other : Project
other = record project { id = "curl"; git_url = some "https://github.com/curl/curl" }

abbrev impostor : Project
impostor = record project { id = "php" }

abbrev two_projects : Store
two_projects = record store { projects = ("curl.md", filed other) ∷ ("php-src.md", project) ∷ [] }

save_other : save_project store other ≡ ok two_projects
unfolding save_project list_projects values identity write lookup read_back
save_other = refl

save_project-IsRegistry_example : IsRegistry two_projects.projects
save_project-IsRegistry_example =
    save_project-IsRegistry store other two_projects one_project save_other

not_same_id : project.id ≢ impostor.id
not_same_id e = ground (arith, eq_iff "php-src" "php")
