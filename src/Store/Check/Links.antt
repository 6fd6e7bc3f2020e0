-- ===== src/Store/Check/Links.antt =====
-- What a store without errors is: every reference of a record names a record that is there.
use deep_thought.Prelude.{
  String, ◌≡◌, ◌↔◌, refl, Bool, true, false, none, List, [], ◌∷◌, ◌++◌, arith, member, All,
}
use deep_thought.Prelude.Dirs.{values}
use deep_thought.Schema.Finding.{Finding}
use deep_thought.Schema.Session.{Session}
use deep_thought.Schema.Coverage.{Coverage}
use deep_thought.Schema.Loop.{LoopStep, LoopRun}
use deep_thought.Store.{Store, list_coverage}
use deep_thought.Store.Check.{
  each, require, project_ids, finding_ids, session_ids, resolves, finding_errors, coverage_errors,
  touched_errors, session_errors, step_errors, run_errors, orphan_errors,
}

abbrev pub StepLinked : Store → LoopStep → Type 0
StepLinked s t =
    (resolves t.finding (finding_ids s) ≡ true) × (resolves t.session_id (session_ids s) ≡ true)

abbrev pub SessionLinked : Store → Session → Type 0
SessionLinked s r =
    (resolves r.project (project_ids s) ≡ true)
    × All (λ fid. member fid (finding_ids s) ≡ true) r.findings_touched

abbrev pub RunLinked : Store → LoopRun → Type 0
RunLinked s r = (member r.project (project_ids s) ≡ true) × All (StepLinked s) r.trace

-- Every reference of every record resolves.
pub record IsLinked (s : Store) : Type 0 where
  pub findings : All (λ (f : Finding). member f.project (project_ids s) ≡ true) (values s.findings)
  pub coverage :
      All (λ (c : Coverage). member c.project (project_ids s) ≡ true) (list_coverage s none)
  pub sessions : All (SessionLinked s) (values s.sessions)
  pub runs : All (RunLinked s) (values s.loop)

append-nil : (xs ys : List String) → (xs ++ ys ≡ []) ↔ ((xs ≡ []) × (ys ≡ []))
append-nil [] ys = (λ h. (refl, h), λ h. h.1)
append-nil (x ∷ xs) ys = ground arith

require-nil : (b : Bool) (m : String) → (require b m ≡ []) ↔ (b ≡ true)
require-nil true m = (λ _. refl, λ _. refl)
require-nil false m = ground arith

-- two reports, one after the other
both :
    {P Q : Type 0} (xs ys : List String) → (xs ≡ []) ↔ P → (ys ≡ []) ↔ Q → (xs ++ ys ≡ []) ↔ (P × Q)
both xs ys p q = (
  λ h. let (a, b) = (append-nil xs ys).0 h in (p.0 a, q.0 b),
  λ h. (append-nil xs ys).1 (p.1 h.0, q.1 h.1),
)

-- a loop reports nothing exactly if its body reports nothing of any element
each-nil :
    {A : Type 0} (f : A → List String) (P : A → Type 0)
    → ((x : A) → (f x ≡ []) ↔ P x)
    → (xs : List A) → (each f xs ≡ []) ↔ All P xs
unfolding each
each-nil f P e [] = (λ _. tt, λ _. refl)
each-nil f P e (x ∷ xs) = both (f x) (each f xs) (e x) (each-nil f P e xs)

step_errors-nil :
    (s : Store) (r : LoopRun) (t : LoopStep) → (step_errors s r t ≡ []) ↔ StepLinked s t
step_errors-nil s r t = both _ _ (require-nil _ _) (require-nil _ _)

session_errors-nil : (s : Store) (r : Session) → (session_errors s r ≡ []) ↔ SessionLinked s r
session_errors-nil s r =
    both _ _ (require-nil _ _) (each-nil (touched_errors s r) _ (λ fid. require-nil _ _) _)

run_errors-nil : (s : Store) (r : LoopRun) → (run_errors s r ≡ []) ↔ RunLinked s r
run_errors-nil s r =
    both _ _ (require-nil _ _) (each-nil (step_errors s r) _ (step_errors-nil s r) _)

-- The check for orphans reports nothing exactly if every reference of a finding, a coverage
-- record, a session and a loop run, its trace included, names a record of the store.
pub orphan_errors-IsLinked : (s : Store) → (orphan_errors s ≡ []) ↔ IsLinked s
unfolding orphan_errors
orphan_errors-IsLinked s =
    let (to, from) =
      both _ _ (each-nil (finding_errors s) _ (λ f. require-nil _ _) (values s.findings)) (
        both _ _ (each-nil (coverage_errors s) _ (λ c. require-nil _ _) (list_coverage s none)) (
          both _ _ (each-nil (session_errors s) _ (session_errors-nil s) (values s.sessions))
            (each-nil (run_errors s) _ (run_errors-nil s) (values s.loop)))) in
    (
      λ h.
          let (f, (c, (r, l))) = to h in
          record { findings = f; coverage = c; sessions = r; runs = l },
      λ h. from (h.findings, (h.coverage, (h.sessions, h.runs))),
    )
