-- ===== src/Store/Check/Identities.antt =====
-- What the check for duplicate identities finds: every identity that a second project has.
use deep_thought.Prelude.{
  String, ◌≡◌, ◌≢◌, ◌↔◌, refl, sym, ◌∙◌, none, some, Option, List, [], ◌∷◌, eq_iff, arith, All,
}
use deep_thought.Prelude.Dirs.{Dir, lookup, values}
use deep_thought.Schema.Project.{Project, identity}
use deep_thought.Store.{Store}
use deep_thought.Store.Check.{duplicates, identity_errors}

-- no two projects of a list share an identity
abbrev pub AllDistinct : List Project → Type 0
AllDistinct [] = Unit
AllDistinct (p ∷ ps) = All (λ q. identity p ≢ identity q) ps × AllDistinct ps

-- no project of the list has an identity that was seen
abbrev Unseen : Dir String → List Project → Type 0
Unseen seen ps = All (λ q. lookup (identity q) seen ≡ none) ps

Unseen-cons :
    (i id : String) (seen : Dir String) (ps : List Project)
    → Unseen ((i, id) ∷ seen) ps ↔ (All (λ q. i ≢ identity q) ps × Unseen seen ps)
unfolding lookup
Unseen-cons i id seen [] = (λ _. (tt, tt), λ _. tt)
Unseen-cons i id seen (q ∷ ps) =
    let (to, from) = Unseen-cons i id seen ps in
    let e = eq_iff i (identity q) in
    (
      λ h. (((λ k. ground (arith, h.0, e)), (to h.1).0), (ground (arith, h.0, e), (to h.1).1)),
      λ h. (ground (arith, h.0.0, h.1.0, e), from (h.0.1, h.1.1)),
    )

some_is_not_none : (id : String) → some id ≢ none
some_is_not_none id e = ground arith

-- what the loop does with one project, by what was seen of its identity
duplicates-fresh :
    (seen : Dir String) (p : Project) (ps : List Project)
    → lookup (identity p) seen ≡ none
    → duplicates seen (p ∷ ps) ≡ duplicates ((identity p, p.id) ∷ seen) ps
unfolding duplicates
duplicates-fresh seen p ps h = ground arith

duplicates-seen :
    (seen : Dir String) (p : Project) (ps : List Project) (id : String)
    → lookup (identity p) seen ≡ some id
    → duplicates seen (p ∷ ps) ≢ []
unfolding duplicates
duplicates-seen seen p ps id h e = ground arith

duplicates-cons :
    (seen : Dir String) (p : Project) (ps : List Project) (o : Option String)
    → lookup (identity p) seen ≡ o
    → (duplicates ((identity p, p.id) ∷ seen) ps ≡ [])
      ↔ (Unseen ((identity p, p.id) ∷ seen) ps × AllDistinct ps)
    → (duplicates seen (p ∷ ps) ≡ []) ↔ (Unseen seen (p ∷ ps) × AllDistinct (p ∷ ps))
duplicates-cons seen p ps none h ih =
    let (to, from) = Unseen-cons (identity p) p.id seen ps in
    rw (duplicates-fresh seen p ps h) (
      λ e. let (u, d) = ih.0 e in let (n, v) = to u in ((h, v), (n, d)),
      λ e. ih.1 (from (e.1.0, e.0.1), e.1.1),
    )
duplicates-cons seen p ps (some id) h ih = (
  λ e. absurd (duplicates-seen seen p ps id h e),
  λ e. absurd (some_is_not_none id (sym h ∙ e.0.0)),
)

duplicates-AllDistinct :
    (seen : Dir String) (ps : List Project)
    → (duplicates seen ps ≡ []) ↔ (Unseen seen ps × AllDistinct ps)
unfolding duplicates
duplicates-AllDistinct seen [] = (λ _. (tt, tt), λ _. refl)
duplicates-AllDistinct seen (p ∷ ps) =
    duplicates-cons seen p ps (lookup (identity p) seen) refl
      (duplicates-AllDistinct ((identity p, p.id) ∷ seen) ps)

Unseen-nothing : (ps : List Project) → Unseen [] ps
unfolding lookup
Unseen-nothing [] = tt
Unseen-nothing (p ∷ ps) = (refl, Unseen-nothing ps)

-- The check for duplicate identities reports nothing exactly if no two projects on file have the
-- same identity.
pub identity_errors-AllDistinct :
    (s : Store) → (identity_errors s ≡ []) ↔ AllDistinct (values s.projects)
unfolding identity_errors
identity_errors-AllDistinct s =
    let (to, from) = duplicates-AllDistinct [] (values s.projects) in
    (λ h. (to h).1, λ h. from (Unseen-nothing (values s.projects), h))
