-- ===== src/Sessions/Verify/Kept.antt =====
-- VERIFY where the sandbox does not report a reproduction.
use deep_thought.Prelude.{
  ℕ, String, ◌≡◌, refl, ap, ◌∙◌, Bool, true, false, not, Option, none, some, [], ◌∷◌, ◌++◌, ◌==◌,
  eq_iff, arith, Bool-cases, inl, inr, if_ind,
}
use deep_thought.Schema.Json.{Float}
use deep_thought.Schema.Status.{FindingStatus, candidate, is_status}
use deep_thought.Schema.Finding.{Finding}
use deep_thought.Ids.{is_record_id}
use deep_thought.Result.{Result, ok, raise}
use deep_thought.Store.{Store, get_finding, save_finding}
use deep_thought.Store.Detail.{write_detail, detail_ref}
use deep_thought.Sessions.Verify.Evidence.{evidence_name, evidence_body}
use deep_thought.Sessions.Verify.Outcomes.{negative}
use deep_thought.Store.Records.{get_finding-save_finding}
use deep_thought.Protocol.{SessionOutcome}
use deep_thought.Sandbox.{SandboxResult}
use deep_thought.Sandbox.Seam.Backed.{reproduces}
use deep_thought.Sessions.Verify.{VerifySession}
use deep_thought.Sessions.Verify.Run.{
  leave_candidate, concluded, came_back, sandboxed, verify_finding, verify_run,
}

abbrev status_in : Option Finding → Option FindingStatus
status_in none = none
status_in (some f) = some f.status

-- the status of a stored finding
abbrev pub status_of : Store → String → Option FindingStatus
status_of s id = status_in (get_finding s id)

-- the finding that is on file under an id, if there is one, carries that id
abbrev pub IsNamed : Store → String → Type 0
IsNamed s id = (f : Finding) → get_finding s id ≡ some f → f.id ≡ id

abbrev SameStatuses : Store → Store → Type 0
SameStatuses t s = (id : String) → status_of t id ≡ status_of s id

found_is_record_id :
    (s : Store) (id : String) (f : Finding) → get_finding s id ≡ some f → is_record_id id ≡ true
unfolding get_finding
found_is_record_id s id f h = ground arith

-- a finding saved over itself, with its status
pub status_of-save_finding :
    (s : Store) (f g : Finding)
    → get_finding s g.id ≡ some f
    → g.status ≡ f.status
    → SameStatuses (save_finding s g) s
status_of-save_finding s f g found same id = elim (Bool-cases (g.id == id)) [
  | inl here ↦
      let e : g.id ≡ id = (eq_iff g.id id).0 here in
      let safe : is_record_id id ≡ true = found_is_record_id s id f (rw (← e) found) in
      rw (get_finding-save_finding s g id, here, safe) (rw (← e) (rw found (ap some same)))
  | inr there ↦ rw (get_finding-save_finding s g id, there)
]

pub get_finding-same :
    (t s : Store) → t.findings ≡ s.findings → (id : String) → get_finding t id ≡ get_finding s id
unfolding get_finding
get_finding-same t s h id = rw h

abbrev SameFindings : Store → Store → Type 0
SameFindings t s = t.findings ≡ s.findings

pub write_detail-findings :
    (s : Store) (sid name content : String)
    → (write_detail s sid name content).findings ≡ s.findings
unfolding write_detail
write_detail-findings s sid name content = refl

status_of-same : (t s : Store) → t.findings ≡ s.findings → SameStatuses t s
status_of-same t s h id = ap status_in (get_finding-same t s h id)

leave_candidate-kept :
    (show_float : Float → String) (now : ℕ) (v : VerifySession) (s : Store) (f : Finding)
    (ref : String) (r : SandboxResult)
    → get_finding s f.id ≡ some f
    → SameStatuses (leave_candidate show_float now v s f ref r).0 s
unfolding leave_candidate
leave_candidate-kept show_float now v s f ref r found =
    let g = record f { transition_log = f.transition_log ++ negative now f ref r ∷ [] } in
    status_of-save_finding s f g found refl

concluded-kept :
    (show_float : Float → String) (now : ℕ) (v : VerifySession) (sid : String) (f : Finding)
    (s : Store) (r : SandboxResult)
    → get_finding s f.id ≡ some f
    → r.reproduced ≡ false
    → SameStatuses (concluded show_float now v sid f s r).0 s
unfolding concluded
concluded-kept show_float now v sid f s r found h id =
    let s' = write_detail s sid evidence_name (evidence_body show_float f v.spec r) in
    let ref = detail_ref sid evidence_name in
    let paged : SameFindings s' s = write_detail-findings s sid evidence_name _ in
    if_ind Keeps v.dry_run _ _ (λ _. refl)
      (λ _.
        if_ind Keeps r.reproduced _ _ (λ y. absurd (yes_and_no h y))
          (λ _.
            leave_candidate-kept show_float now v s' f ref r
              (get_finding-same s' s paged f.id ∙ found) id
            ∙ status_of-same s' s paged id))
  where
    Keeps : Store × Result SessionOutcome → Type 0
    Keeps w = status_of w.0 id ≡ status_of s id

    yes_and_no : {b : Bool} → b ≡ false → b ≡ true → ⊥
    yes_and_no a b = cc

came_back-kept :
    (show_float : Float → String) (now : ℕ) (v : VerifySession) (sid : String) (f : Finding)
    (s : Store) (x : Result (Option SandboxResult))
    → get_finding s f.id ≡ some f
    → reproduces x ≡ false
    → SameStatuses (came_back show_float now v sid f (s, x)).0 s
unfolding came_back
came_back-kept show_float now v sid f s (raise e) found h id = refl
came_back-kept show_float now v sid f s (ok none) found h id = refl
came_back-kept show_float now v sid f s (ok (some r)) found h id =
    concluded-kept show_float now v sid f s r found h id

sandboxed-kept :
    (show_float : Float → String) (now : ℕ) (v : VerifySession) (s : Store) (sid : String)
    (f : Finding) (o : Option String)
    → get_finding s f.id ≡ some f
    → (v.sandbox.within s v.spec).0.findings ≡ s.findings
    → reproduces (v.sandbox.within s v.spec).1 ≡ false
    → SameStatuses (sandboxed show_float now v s sid f o).0 s
unfolding sandboxed
sandboxed-kept show_float now v s sid f (some other) found seam h id = refl
sandboxed-kept show_float now v s sid f none found seam h id =
    let s1 = (v.sandbox.within s v.spec).0 in
    came_back-kept show_float now v sid f s1 (v.sandbox.within s v.spec).1
      (get_finding-same s1 s seam f.id ∙ found) h id
    ∙ status_of-same s1 s seam id

verify_finding-kept :
    (show_float : Float → String) (now : ℕ) (v : VerifySession) (s : Store) (sid : String)
    (o : Option Finding)
    → get_finding s v.finding_id ≡ o
    → IsNamed s v.finding_id
    → (v.sandbox.within s v.spec).0.findings ≡ s.findings
    → reproduces (v.sandbox.within s v.spec).1 ≡ false
    → SameStatuses (verify_finding show_float now v s sid o).0 s
unfolding verify_finding
verify_finding-kept show_float now v s sid none found named seam h id = refl
verify_finding-kept show_float now v s sid (some f) found named seam h id =
    let own : get_finding s f.id ≡ some f = ap (get_finding s) (named f found) ∙ found in
    if_ind Keeps (not (f.project == v.project_id)) _ _ (λ _. refl)
      (λ _.
        if_ind Keeps (not (is_status f.status candidate)) _ _ (λ _. refl)
          (λ _. sandboxed-kept show_float now v s sid f _ own seam h id))
  where
    Keeps : Store × Result SessionOutcome → Type 0
    Keeps w = status_of w.0 id ≡ status_of s id

-- Where the finding on file under the session's finding id carries that id itself, and the sandbox
-- leaves the findings alone and does not report a reproduction, VERIFY changes the status of no finding:
-- whatever it refuses, records or raises, and under a dry run too.
pub verify_run_kept :
    (show_float : Float → String) (now : ℕ) (v : VerifySession) (s : Store) (sid : String)
    → IsNamed s v.finding_id
    → (v.sandbox.within s v.spec).0.findings ≡ s.findings
    → reproduces (v.sandbox.within s v.spec).1 ≡ false
    → (id : String) → status_of (verify_run show_float now v s sid).0 id ≡ status_of s id
unfolding verify_run
verify_run_kept show_float now v s sid named seam h id =
    verify_finding-kept show_float now v s sid (get_finding s v.finding_id) refl named seam h id
