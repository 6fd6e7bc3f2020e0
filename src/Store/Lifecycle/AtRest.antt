-- ===== src/Store/Lifecycle/AtRest.antt =====
-- The legality of a finding at rest (`_check_lifecycle_at_rest` of src/deepthought/check.py), and the
-- transitions of the guard against it.
use deep_thought.Prelude.{
  refl, if_ind, ◌≢◌, ◌↔◌, ℕ, String, ◌&◌, ◌≡◌, Bool, true, false, not, ◌||◌, ◌++◌, List, [], ◌∷◌,
  arith, truthy, if◌then◌else◌,
}
use deep_thought.Prelude.Text.{repr, or_empty}
use deep_thought.Schema.Status.{FindingStatus, candidate, verified, disclosed, patched}
use deep_thought.Schema.Finding.{Finding, has_reference_type}
use deep_thought.Store.{Store}
use deep_thought.Store.Detail.{detail_exists}
use deep_thought.Store.Lifecycle.Guard.{
  HasEvidence, IsPublic, Moves, stay, verify, disclose, patch, unverify, undisclose, unpatch,
  evaluate_transition-Moves,
}
use deep_thought.Store.Lifecycle.{Verdict, evaluate_transition, moved}

abbrev fail_if : Bool → String → List String
fail_if b message = if b then message ∷ [] else []

abbrev about : Finding → String → String
about f rest = "finding " & (repr f.id & rest)

-- the errors that the check reports of one finding
at_rest_errors_of : FindingStatus → Store → Finding → List String
at_rest_errors_of candidate s f = []
at_rest_errors_of verified s f =
    fail_if (not (truthy f.evidence_ref) || not (detail_exists s (or_empty f.evidence_ref)))
      (about f " is verified but has no resolving evidence_ref")
at_rest_errors_of disclosed s f =
    fail_if (not (truthy f.cve)) (about f " is disclosed without a cve")
    ++ fail_if (not (has_reference_type f "advisory"))
        (about f " is disclosed without an advisory reference")
at_rest_errors_of patched s f =
    fail_if (not (truthy f.cve)) (about f " is patched without a cve")
    ++ fail_if (not (has_reference_type f "fix")) (about f " is patched without a fix reference")

unfoldable pub at_rest_errors : Store → Finding → List String
unfolding at_rest_errors_of
at_rest_errors s f = at_rest_errors_of f.status s f

-- What every finding has that came to its status by the guard: evidence for any status but
-- `candidate`, and the CVE and the reference that its publication asked for.
abbrev pub IsBacked : Store → Finding → FindingStatus → Type 0
IsBacked s f candidate = Unit
IsBacked s f verified = HasEvidence s f
IsBacked s f disclosed = HasEvidence s f × IsPublic f "advisory"
IsBacked s f patched = HasEvidence s f × IsPublic f "fix"

IsBacked-Moves :
    {s : Store} {f : Finding} {x y : FindingStatus}
    → Moves s f x y
    → IsBacked s f x
    → IsBacked s f y
IsBacked-Moves (stay x) b = b
IsBacked-Moves (verify e) b = e
IsBacked-Moves (disclose p) b = (b, p)
IsBacked-Moves (patch p) b = (b, p)
IsBacked-Moves unverify b = tt
IsBacked-Moves undisclose b = b.0
IsBacked-Moves unpatch b = b.0

-- What the check at rest asks of a finding by its status: the evidence while it is verified, and the
-- publication after that.
abbrev pub IsAtRest : Store → Finding → FindingStatus → Type 0
IsAtRest s f candidate = Unit
IsAtRest s f verified = HasEvidence s f
IsAtRest s f disclosed = IsPublic f "advisory"
IsAtRest s f patched = IsPublic f "fix"

at_rest_errors_of-IsAtRest :
    (s : Store) (f : Finding) (x : FindingStatus) → (at_rest_errors_of x s f ≡ []) ↔ IsAtRest s f x
unfolding at_rest_errors_of
at_rest_errors_of-IsAtRest s f candidate = (λ h. tt, λ h. refl)
at_rest_errors_of-IsAtRest s f verified =
    (λ h. record { named = ground arith; resolves = ground arith }, λ b. ground arith)
at_rest_errors_of-IsAtRest s f disclosed =
    (λ h. record { cve = ground arith; reference = ground arith }, λ b. ground arith)
at_rest_errors_of-IsAtRest s f patched =
    (λ h. record { cve = ground arith; reference = ground arith }, λ b. ground arith)

-- The check at rest reports nothing of a finding exactly if the finding is a candidate, or is verified
-- and its evidence resolves, or is disclosed with a CVE and an advisory, or is patched with a CVE and a
-- fix.
pub at_rest_errors-IsAtRest :
    (s : Store) (f : Finding) → (at_rest_errors s f ≡ []) ↔ IsAtRest s f f.status
unfolding at_rest_errors
at_rest_errors-IsAtRest s f = at_rest_errors_of-IsAtRest s f f.status

-- The log and the status are all that a transition writes, so it can take no backing away.
IsBacked-moved :
    (now : ℕ) (v : Verdict) (s : Store) (f : Finding) (y x : FindingStatus)
    → IsBacked s f x
    → IsBacked s (moved now v f y) x
unfolding moved has_reference_type
IsBacked-moved now v s f y candidate b = tt
IsBacked-moved now v s f y verified b = record { named = b.named; resolves = b.resolves }
IsBacked-moved now v s f y disclosed b = (
  record { named = b.0.named; resolves = b.0.resolves },
  record { cve = b.1.cve; reference = b.1.reference },
)
IsBacked-moved now v s f y patched b = (
  record { named = b.0.named; resolves = b.0.resolves },
  record { cve = b.1.cve; reference = b.1.reference },
)

status-moved :
    (now : ℕ) (v : Verdict) (f : Finding) (y : FindingStatus)
    → (moved now v f y).status ≡ (if v.allowed then y else f.status)
unfolding moved
status-moved now v f y = refl

-- A transition, allowed or not, leaves a backed finding backed.
pub moved-IsBacked :
    (now : ℕ) (s : Store) (f : Finding) (y : FindingStatus)
    → IsBacked s f f.status
    → let f' = moved now (evaluate_transition s f y) f y in IsBacked s f' f'.status
moved-IsBacked now s f y b =
    let v = evaluate_transition s f y in
    IsBacked-moved now v s f y _ (
      rw status-moved (
        if_ind (IsBacked s f) v.allowed y f.status
          (λ yes_it_is. IsBacked-Moves ((evaluate_transition-Moves s f y).0 yes_it_is) b) (λ _. b)))

-- A step back is not guarded: a disclosed finding whose evidence is gone passes the check at
-- rest, the guard lets it go back to verified, and then it does not pass.
pub undisclose_breaks_check :
    (now : ℕ) (s : Store) (f : Finding)
    → f.status ≡ disclosed
    → IsPublic f "advisory"
    → truthy f.evidence_ref ≡ false
    → (at_rest_errors s f ≡ [])
      × ((evaluate_transition s f verified).allowed ≡ true)
      × (at_rest_errors s (moved now (evaluate_transition s f verified) f verified) ≢ [])
unfolding at_rest_errors evaluate_transition moved
undisclose_breaks_check now s f d p e = (ground arith, ground arith, ground arith)
