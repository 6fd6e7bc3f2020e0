-- ===== src/Store/Lifecycle/Guard.antt =====
-- What the lifecycle guard allows, against the lifecycle as a relation, and what a transition does
-- to the finding and to the store.
use deep_thought.Prelude.{is_some, String, ◌≡◌, ◌↔◌, refl, true, false, arith, truthy}
use deep_thought.Prelude.Text.{or_empty}
use deep_thought.Schema.Status.{FindingStatus, candidate, verified, disclosed, patched}
use deep_thought.Schema.Finding.{Finding, has_reference_type}
use deep_thought.Store.{Store}
use deep_thought.Store.Detail.{detail_exists}
use deep_thought.Store.Lifecycle.{evaluate_transition}

-- The evidence of a finding is there.
pub record HasEvidence (s : Store) (f : Finding) : Type 0 where
  pub named : truthy f.evidence_ref ≡ true
  pub resolves : detail_exists s (or_empty f.evidence_ref) ≡ true

-- A CVE and a reference of a type are there.
pub record IsPublic (f : Finding) (ref_type : String) : Type 0 where
  pub cve : truthy f.cve ≡ true
  pub reference : has_reference_type f ref_type ≡ true

-- The lifecycle, by its edges.
pub data Moves (s : Store) (f : Finding) : FindingStatus → FindingStatus → Type 0 where
  stay : (x : FindingStatus) → Moves s f x x
  verify : HasEvidence s f → Moves s f candidate verified
  disclose : IsPublic f "advisory" → Moves s f verified disclosed
  patch : IsPublic f "fix" → Moves s f verified patched
  unverify : Moves s f verified candidate
  undisclose : Moves s f disclosed verified
  unpatch : Moves s f patched verified

module _ (s : Store) (f : Finding) where
  abbrev with_status : FindingStatus → Finding
  with_status x = record f { status = x }

  has_reference_type-with_status :
      (x : FindingStatus) (t : String)
      → has_reference_type (with_status x) t ≡ has_reference_type f t
  unfolding has_reference_type
  has_reference_type-with_status x t = refl

  Moves-evaluate :
      (x y : FindingStatus)
      → (evaluate_transition s (with_status x) y).allowed ≡ true
      → Moves s f x y
  unfolding evaluate_transition
  Moves-evaluate candidate candidate h = stay candidate
  Moves-evaluate candidate verified h = verify (ground arith)
  Moves-evaluate candidate disclosed h = cc
  Moves-evaluate candidate patched h = cc
  Moves-evaluate verified candidate h = unverify
  Moves-evaluate verified verified h = stay verified
  Moves-evaluate verified disclosed h =
      disclose (ground (arith, has_reference_type-with_status verified "advisory"))
  Moves-evaluate verified patched h =
      patch (ground (arith, has_reference_type-with_status verified "fix"))
  Moves-evaluate disclosed candidate h = cc
  Moves-evaluate disclosed verified h = undisclose
  Moves-evaluate disclosed disclosed h = stay disclosed
  Moves-evaluate disclosed patched h = cc
  Moves-evaluate patched candidate h = cc
  Moves-evaluate patched verified h = unpatch
  Moves-evaluate patched disclosed h = cc
  Moves-evaluate patched patched h = stay patched

  evaluate-Moves :
      {x y : FindingStatus}
      → Moves s f x y
      → (evaluate_transition s (with_status x) y).allowed ≡ true
  unfolding evaluate_transition
  evaluate-Moves (stay candidate) = refl
  evaluate-Moves (stay verified) = refl
  evaluate-Moves (stay disclosed) = refl
  evaluate-Moves (stay patched) = refl
  evaluate-Moves (verify e) = ground arith
  evaluate-Moves (disclose e) = ground (arith, has_reference_type-with_status verified "advisory")
  evaluate-Moves (patch e) = ground (arith, has_reference_type-with_status verified "fix")
  evaluate-Moves unverify = refl
  evaluate-Moves undisclose = refl
  evaluate-Moves unpatch = refl

-- The guard allows a move exactly if the lifecycle has it: the move to a later status with the
-- evidence or the publication that it asks for, any step back, and no other.
pub evaluate_transition-Moves :
    (s : Store) (f : Finding) (y : FindingStatus)
    → ((evaluate_transition s f y).allowed ≡ true) ↔ Moves s f f.status y
evaluate_transition-Moves s f y = (Moves-evaluate s f f.status y, evaluate-Moves s f)

-- A refusal states a reason.
pub evaluate_transition-reason :
    (s : Store) (f : Finding) (y : FindingStatus)
    → (evaluate_transition s f y).allowed ≡ false
    → is_some (evaluate_transition s f y).reason ≡ true
unfolding evaluate_transition
evaluate_transition-reason s f y h = ground arith
