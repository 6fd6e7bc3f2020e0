-- ===== src/Store/Projects/Unique.antt =====
-- The registry of projects after a save.
use mathlib.Core.Path.{subst}
use deep_thought.Prelude.{
  ◌⊎◌, String, ◌≡◌, ◌≢◌, refl, sym, ap, ◌∙◌, inl, inr, Option, none, some, List, [], ◌∷◌, eq_iff,
  eq_refl, arith, All,
}
use deep_thought.Prelude.Dirs.{Dir, lookup, write, values, lookup-write, All-lookup}
use deep_thought.Result.{ok}
use deep_thought.Schema.Project.{Project, identity}
use deep_thought.Store.{Store, file_name, list_projects}
use deep_thought.Store.Projects.{conflict, first_conflict, filed, saved, save_project}

-- Every project is in the file of its id, and an identity is in one file only.
pub record IsRegistry (d : Dir Project) : Type 0 where
  pub named : (k : String) (p : Project) → lookup k d ≡ some p → k ≡ file_name p.id
  pub unique :
      (k j : String) (p q : Project)
      → lookup k d ≡ some p
      → lookup j d ≡ some q
      → identity p ≡ identity q
      → k ≡ j

-- no conflict with any project that is there
no_conflict :
    (p : Project) (es : List Project)
    → first_conflict p es ≡ none
    → All (λ e. conflict p e ≡ none) es
unfolding first_conflict
no_conflict p [] h = tt
no_conflict p (e ∷ es) h = ground (arith, no_conflict p es)

-- what the absence of a conflict means
same_id : (p e : Project) → conflict p e ≡ none → identity e ≡ identity p → e.id ≡ p.id
unfolding conflict
same_id p e h i = ground (arith, eq_iff e.id p.id, eq_iff (identity e) (identity p))

identity-filed : (p : Project) → identity (filed p) ≡ identity p
unfolding identity
identity-filed p = refl

-- A file found after a write is the written one or an old one.
written_cases :
    {V : Type 0} (n k : String) (v q : V) (d : Dir V)
    → lookup k (write n v d) ≡ some q
    → ((n ≡ k) × (v ≡ q)) ⊎ (lookup k d ≡ some q)
written_cases n k v q d h = ground (arith, lookup-write n k v d, eq_iff n k)

module _ (d : Dir Project) (reg : IsRegistry d) (p : Project)
    (free : All (λ e. conflict p e ≡ none) (values d)) where
  abbrev next : Dir Project
  next = write (file_name p.id) (filed p) d

  named-next : (k : String) (q : Project) → lookup k next ≡ some q → k ≡ file_name q.id
  named-next k q h = elim (written_cases (file_name p.id) k (filed p) q d h) [
    | inl (n, v) ↦ sym n ∙ ap (λ (x : Project). file_name x.id) v
    | inr old ↦ reg.named k q old
  ]

  old_is_new :
      (k : String) (q : Project)
      → lookup k d ≡ some q
      → identity q ≡ identity p
      → k ≡ file_name p.id
  old_is_new k q h i = reg.named k q h ∙ ap file_name (same_id p q (All-lookup _ k d q free h) i)

  unique-next :
      (k j : String) (q r : Project)
      → lookup k next ≡ some q
      → lookup j next ≡ some r
      → identity q ≡ identity r
      → k ≡ j
  unique-next k j q r hq hr i = elim (written_cases (file_name p.id) k (filed p) q d hq) [
    | inl (n, v) ↦ elim (written_cases (file_name p.id) j (filed p) r d hr) [
      | inl (m, w) ↦ sym n ∙ m
      | inr old ↦ sym n ∙ sym (old_is_new j r old (sym i ∙ ap identity (sym v) ∙ identity-filed p))
    ]
    | inr old ↦ elim (written_cases (file_name p.id) j (filed p) r d hr) [
      | inl (m, w) ↦ old_is_new k q old (i ∙ ap identity (sym w) ∙ identity-filed p) ∙ m
      | inr older ↦ reg.unique k j q r old older i
    ]
  ]

  IsRegistry-next : IsRegistry next
  IsRegistry-next = record { named = named-next; unique = unique-next }

saved-IsRegistry :
    (s : Store) (p : Project) (o : Option String) (t : Store)
    → first_conflict p (list_projects s) ≡ o
    → IsRegistry s.projects
    → saved s p o ≡ ok t
    → IsRegistry t.projects
unfolding saved list_projects
saved-IsRegistry s p (some m) t c reg h = cc
saved-IsRegistry s p none t c reg h =
    let e : write (file_name p.id) (filed p) s.projects ≡ t.projects = ground arith in
    subst IsRegistry e (IsRegistry-next s.projects reg p (no_conflict p _ c))

-- Saving a project, new or known, keeps the registry: every project in the file of its id, and no
-- identity in two files.
pub save_project-IsRegistry :
    (s : Store) (p : Project) (t : Store)
    → IsRegistry s.projects
    → save_project s p ≡ ok t
    → IsRegistry t.projects
unfolding save_project list_projects
save_project-IsRegistry s p t reg h =
    saved-IsRegistry s p (first_conflict p (list_projects s)) t refl reg h

-- A project whose identity another id holds is refused.
pub save_project_refuses :
    (s : Store) (p e : Project) (k : String)
    → lookup k s.projects ≡ some e
    → identity e ≡ identity p
    → e.id ≢ p.id
    → (t : Store) → save_project s p ≢ ok t
unfolding save_project list_projects
save_project_refuses s p e k h i n t r = refused (first_conflict p (list_projects s)) refl r
  where
    refused : (o : Option String) → first_conflict p (list_projects s) ≡ o → saved s p o ≡ ok t → ⊥
    refused (some m) c r = cc
    refused none c r = n (same_id p e (All-lookup _ k s.projects e (no_conflict p _ c) h) i)

-- A saved project is in the file of its id.
pub save_project-lookup :
    (s : Store) (p : Project) (t : Store)
    → save_project s p ≡ ok t
    → lookup (file_name p.id) t.projects ≡ some (filed p)
unfolding save_project saved
save_project-lookup s p t h = of_conflict (first_conflict p (list_projects s)) h
  where
    of_conflict :
        (o : Option String)
        → saved s p o ≡ ok t
        → lookup (file_name p.id) t.projects ≡ some (filed p)
    of_conflict (some m) r = cc
    of_conflict none r =
        let e : write (file_name p.id) (filed p) s.projects ≡ t.projects = ground arith in
        subst (λ (d : Dir Project). lookup (file_name p.id) d ≡ some (filed p)) e
          (rw (lookup-write, eq_refl))
