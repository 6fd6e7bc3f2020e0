-- ===== src/Sessions/NewProject/Registration.antt =====
-- The registry after a run of NEW PROJECT, and after a second one.
use mathlib.Core.Path.{subst}
use deep_thought.Prelude.{
  ◌⊎◌, String, ◌≡◌, ◌≢◌, refl, sym, ap, ◌∙◌, Bool, true, false, ◌&&◌, ◌||◌, Option, none, some,
  List, [], ◌∷◌, ◌==◌, eq_iff, arith, All, first, truthy, if_ind, if_false, inl, inr, if◌then◌else◌,
}
use deep_thought.Prelude.Text.{or_empty}
use deep_thought.Prelude.Dirs.{lookup, All-lookup}
use deep_thought.Schema.Project.{Project, is_well_formed, identity}
use deep_thought.Result.{Result, ok, raise}
use deep_thought.Store.{Store, list_projects}
use deep_thought.Store.Projects.{filed, has_identity, save_project, resolve_project}
use deep_thought.Store.Projects.Unique.{IsRegistry, save_project-IsRegistry, save_project-lookup}
use deep_thought.Sessions.NewProject.{
  NewProjectSession, Work, is_unsafe, proposed, filed_as, built, resolved, new_project_run,
}

module _ (invalid : Project → String) (v : NewProjectSession) (s : Store) where
  -- the store as it was, or with the proposed project saved
  abbrev Ends : Work → Type 0
  Ends w =
      (w.0 ≡ s) ⊎ ((is_well_formed (proposed v) ≡ true) × (save_project s (proposed v) ≡ ok w.0))

  filed_as-Ends :
      (r : Result Store)
      → is_well_formed (proposed v) ≡ true
      → save_project s (proposed v) ≡ r
      → Ends (filed_as v s (proposed v) r)
  unfolding filed_as
  filed_as-Ends (ok t) fine h = inr (fine, h)
  filed_as-Ends (raise e) fine h = inl refl

  built-Ends : Ends (built invalid v s (proposed v))
  unfolding built
  built-Ends =
      if_ind Ends (is_well_formed (proposed v)) _ _
        (λ fine. filed_as-Ends (save_project s (proposed v)) fine refl) (λ _. inl refl)

  resolved-Ends : (o : Option Project) → Ends (resolved invalid v s o)
  unfolding resolved
  resolved-Ends (some existing) = inl refl
  resolved-Ends none = if_ind Ends _ _ _ (λ _. inl refl) (λ _. built-Ends)

  new_project_run-Ends : Ends (new_project_run invalid v s)
  unfolding new_project_run
  new_project_run-Ends =
      if_ind Ends (is_unsafe v.explicit_id) _ _ (λ _. inl refl)
        (λ _. resolved-Ends (resolve_project s v.git_url v.local_path))

-- A registration, whichever way it ends, keeps the registry: every project in the file of its id, and
-- no identity in two files.
pub new_project_run-IsRegistry :
    (invalid : Project → String) (v : NewProjectSession) (s : Store)
    → IsRegistry s.projects
    → IsRegistry (new_project_run invalid v s).0.projects
new_project_run-IsRegistry invalid v s reg = elim (new_project_run-Ends invalid v s) [
  | inl same ↦ subst IsRegistry (sym (ap (λ (t : Store). t.projects) same)) reg
  | inr (fine, saved) ↦ save_project-IsRegistry s (proposed v) _ reg saved
]

first-none : (f : Project → Bool) (l : List Project) → first f l ≡ none → All (λ p. f p ≡ false) l
first-none f [] h = tt
first-none f (p ∷ l) h = ground (arith, first-none f l)

-- a stored project of an identity is found by it
first-some :
    (s : Store) (k wanted : String) (q : Project)
    → lookup k s.projects ≡ some q
    → identity q ≡ wanted
    → first (has_identity wanted) (list_projects s) ≢ none
unfolding list_projects
first-some s k wanted q found same h =
    let different =
      All-lookup (λ p. has_identity wanted p ≡ false) k s.projects q (first-none _ _ h) found in
    ground (arith, eq_iff (identity q) wanted)

wanted_not_empty :
    (git_url local_path : Option String)
    → (truthy git_url || truthy local_path) ≡ true
    → ((if truthy git_url then or_empty git_url else or_empty local_path) == "") ≡ false
wanted_not_empty none none h = cc
wanted_not_empty none (some l) h = ground arith
wanted_not_empty (some g) none h = ground arith
wanted_not_empty (some g) (some l) h = ground arith

-- once a target is saved, its identity resolves
resolve_project-saved :
    (v : NewProjectSession) (s t : Store)
    → is_well_formed (proposed v) ≡ true
    → save_project s (proposed v) ≡ ok t
    → resolve_project t v.git_url v.local_path ≢ none
unfolding resolve_project is_well_formed proposed
resolve_project-saved v s t fine saved none_found =
    let wanted = if truthy v.git_url then or_empty v.git_url else or_empty v.local_path in
    let one : (truthy v.git_url || truthy v.local_path) ≡ true = and_left _ _ fine in
    first-some t _ wanted (filed (proposed v)) (save_project-lookup s (proposed v) t saved)
      (unfold identity in refl)
      (sym (if_false _ _ (wanted_not_empty v.git_url v.local_path one)) ∙ none_found)
  where
    and_left : (a b : Bool) → (a && b) ≡ true → a ≡ true
    and_left a b h = ground arith

resolved-some :
    (invalid : Project → String) (v : NewProjectSession) (s : Store) (o : Option Project)
    → o ≢ none
    → (resolved invalid v s o).0 ≡ s
unfolding resolved
resolved-some invalid v s none h = absurd (h refl)
resolved-some invalid v s (some p) h = refl

after_save :
    (invalid : Project → String) (v again : NewProjectSession) (s t : Store)
    → again.git_url ≡ v.git_url
    → again.local_path ≡ v.local_path
    → is_well_formed (proposed v) ≡ true
    → save_project s (proposed v) ≡ ok t
    → (new_project_run invalid again t).0 ≡ t
unfolding new_project_run
after_save invalid v again s t same_url same_path fine saved =
    let resolves : resolve_project t again.git_url again.local_path ≢ none =
      rw same_url (rw same_path (resolve_project-saved v s t fine saved)) in
    if_ind (λ (w : Work). w.0 ≡ t) (is_unsafe again.explicit_id) _ _ (λ _. refl)
      (λ _. resolved-some invalid again t _ resolves)

-- A target is registered once: after a registration that changed the store, one of the same git URL and
-- local path leaves it as it is, under whatever name, id, basis and scope it comes.
pub new_project_run_once :
    (invalid : Project → String) (v again : NewProjectSession) (s : Store)
    → again.git_url ≡ v.git_url
    → again.local_path ≡ v.local_path
    → (new_project_run invalid v s).0 ≢ s
    → (new_project_run invalid again (new_project_run invalid v s).0).0
      ≡ (new_project_run invalid v s).0
new_project_run_once invalid v again s same_url same_path changed =
    elim (new_project_run-Ends invalid v s) [
      | inl same ↦ absurd (changed same)
      | inr (fine, saved) ↦ after_save invalid v again s _ same_url same_path fine saved
    ]
