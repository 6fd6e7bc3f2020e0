-- ===== src/Store/Lifecycle.antt =====
-- The lifecycle guard of a finding (src/deepthought/store/base.py and the method
-- `transition_finding` of src/deepthought/store/filestore.py).
pub mod Guard
pub mod AtRest
pub mod Effects
use deep_thought.Prelude.{
  ℕ, String, ◌&◌, Bool, true, false, not, ◌&&◌, Option, none, some, List, [], ◌∷◌, ◌++◌, any, map,
  truthy, if◌then◌else◌,
}
use deep_thought.Prelude.Text.{repr, or_empty}
use deep_thought.Prelude.Time.{iso_z}
use deep_thought.Result.{Result, ok, raise, not_found}
use deep_thought.Schema.Status.{
  FindingStatus, candidate, verified, disclosed, patched, is_status, status_value,
}
use deep_thought.Schema.Finding.{Finding, TransitionLogEntry, has_reference_type}
use deep_thought.Store.{Store, get_finding, save_finding}
use deep_thought.Store.Detail.{detail_exists}

abbrev Edge : Type 0
Edge = FindingStatus × FindingStatus

abbrev is_edge : Edge → Edge → Bool
is_edge e f = is_status e.0 f.0 && is_status e.1 f.1

-- `edge in edges`
abbrev pub in_edges : Edge → List Edge → Bool
in_edges e = any (is_edge e)

abbrev pub forward_edges : List Edge
forward_edges = (candidate, verified) ∷ (verified, disclosed) ∷ (verified, patched) ∷ []

abbrev pub backward_edges : List Edge
backward_edges = map (λ e. (e.1, e.0)) forward_edges

pub record TransitionResult : Type 0 where
  pub accepted : Bool  -- `ok`
  pub status : FindingStatus
  pub reason : Option String

-- the answer of `_evaluate_transition`
pub record Verdict : Type 0 where
  pub allowed : Bool
  pub reason : Option String
  pub backward : Bool

abbrev refused : String → Verdict
refused reason = record { allowed = false; reason = some reason; backward = false }

abbrev granted : Verdict
granted = record { allowed = true; reason = none; backward = false }

-- the entry guard of each forward edge
unfoldable pub entry_guard : Store → Finding → Edge → Verdict
entry_guard s f edge =
    if is_edge edge (candidate, verified)
    then (if not (truthy f.evidence_ref)
        then refused "candidate -> verified requires a non-empty evidence_ref"
        else if not (detail_exists s (or_empty f.evidence_ref))
        then refused ("evidence_ref " & (repr (or_empty f.evidence_ref) & " does not resolve"))
        else granted)
    else if is_edge edge (verified, disclosed)
    then (if not (truthy f.cve)
        then refused "verified -> disclosed requires a cve"
        else if not (has_reference_type f "advisory")
        then refused "verified -> disclosed requires an advisory reference"
        else granted)
    else if is_edge edge (verified, patched)
    then (if not (truthy f.cve)
        then refused "verified -> patched requires a cve"
        else if not (has_reference_type f "fix")
        then refused "verified -> patched requires a fix reference"
        else granted)
    else refused ("unhandled transition " & (status_value edge.0 & (" -> " & status_value edge.1)))

-- `_evaluate_transition`
unfoldable pub evaluate_transition : Store → Finding → FindingStatus → Verdict
unfolding entry_guard
evaluate_transition s f new_status =
    if is_status f.status new_status
    then (record { allowed = true; reason = some "no-op transition"; backward = false })
    else if in_edges (f.status, new_status) backward_edges
    then (record {
      allowed = true;
      reason = some "backward transition: evidence weakened";
      backward = true;
    })
    else if not (in_edges (f.status, new_status) forward_edges)
    then refused
        ("illegal transition " & (status_value f.status & (" -> " & status_value new_status)))
    else entry_guard s f (f.status, new_status)

-- The finding that a transition at time `now` saves: the attempt is logged, and the status changes
-- if the guard allows it.
unfoldable pub moved : ℕ → Verdict → Finding → FindingStatus → Finding
moved now v f new_status =
    let entry : TransitionLogEntry = record {
      at = iso_z now;
      from_status = status_value f.status;
      to_status = status_value new_status;
      accepted = v.allowed;
      reason = v.reason;
    } in
    record f {
      transition_log = f.transition_log ++ entry ∷ [];
      status = if v.allowed then new_status else f.status;
    }

abbrev answer : Verdict → Finding → FindingStatus → TransitionResult
answer v f new_status =
    if v.allowed
    then (record { accepted = true; status = new_status; reason = v.reason })
    else (record { accepted = false; status = f.status; reason = v.reason })

-- the method on a finding that was found, or on none
transition_found :
    ℕ → Store → String → FindingStatus → Option Finding → Result (Store × TransitionResult)
transition_found now s id new_status none =
    raise (not_found ("finding " & (repr id & " not found")))
transition_found now s id new_status (some f) =
    let v = evaluate_transition s f new_status in
    ok (save_finding s (moved now v f new_status), answer v f new_status)

unfoldable pub transition_finding :
    ℕ → Store → String → FindingStatus → Result (Store × TransitionResult)
unfolding transition_found
transition_finding now s id new_status = transition_found now s id new_status (get_finding s id)
