-- ===== src/Loop/Policy/Proposals.antt =====
-- What the policy proposes, by the rung that proposes it.
use text.Mathlib.TextLemmas.{append-ne-nil_of_right_ne-nil}
use mathlib.Core.Path.{subst}
use deep_thought.Prelude.{
  String, ◌&◌, ◌≡◌, ◌≢◌, refl, Bool, true, false, not, ◌&&◌, inl, inr, Bool-cases, Option, none,
  some, List, [], ◌∷◌, ◌==◌, eq_iff, arith, In, first, if_ind,
}
use deep_thought.Schema.Status.{ActionKind}
use deep_thought.Schema.Finding.{Finding}
use deep_thought.Schema.Loop.{LoopAction, carries_human_action}
use deep_thought.Loop.Policy.{
  Done, Snapshot, is_empty, fresh, action, verify_note, send_note, verify_action, send_action,
  to_hunt, to_draft, to_send, to_verify, rung, finding_rungs, select_from,
}

-- The action that the policy proposes, by the rung that proposes it.
pub data Proposed (n : Snapshot) (pid : String) (done : Done) : LoopAction → Type 0 where
  status :
      n.has_status ≡ false
      → fresh done ActionKind.status pid ≡ true
      → Proposed n pid done (action ActionKind.status pid none)
  map :
      n.unmapped ≢ []
      → fresh done ActionKind.map pid ≡ true
      → Proposed n pid done (action ActionKind.map pid none)
  discover :
      n.has_coverage ≡ true
      → n.discover_current ≡ false
      → fresh done ActionKind.discover pid ≡ true
      → Proposed n pid done (action ActionKind.discover pid none)
  hunt :
      (f : Finding)
      → In f n.findings
      → to_hunt n done f ≡ true
      → Proposed n pid done (action ActionKind.sibling_hunt pid (some f.id))
  draft :
      (f : Finding)
      → In f n.findings
      → to_draft n done f ≡ true
      → Proposed n pid done (action ActionKind.disclosure pid (some f.id))
  send :
      (f : Finding)
      → In f n.findings
      → to_send n done f ≡ true
      → Proposed n pid done (send_action pid f.id)
  verify :
      (f : Finding)
      → In f n.findings
      → to_verify done f ≡ true
      → Proposed n pid done (verify_action pid f.id)

pub first-some :
    (p : Finding → Bool) (fs : List Finding) (f : Finding)
    → first p fs ≡ some f
    → In f fs × (p f ≡ true)
first-some p [] f h = cc
first-some p (g ∷ fs) f h = elim (Bool-cases (p g)) [
  | inl yes_it_is ↦ let e : g ≡ f = ground arith in (inl e, subst (λ x. p x ≡ true) e yes_it_is)
  | inr no_it_is_not ↦ let (i, t) = first-some p fs f (rw no_it_is_not at h) in (inr i, t)
]

-- the predicate on what a rung gives
abbrev OnSome : (LoopAction → Type 0) → Option LoopAction → Type 0
OnSome P none = Unit
OnSome P (some a) = P a

rung-OnSome :
    (P : LoopAction → Type 0) (p : Finding → Bool) (fs : List Finding) (make : String → LoopAction)
    (below : Option LoopAction)
    → ((f : Finding) → In f fs → p f ≡ true → P (make f.id))
    → OnSome P below
    → OnSome P (rung (first p fs) make below)
rung-OnSome P p fs make below h b = go (first p fs) refl
  where
    go : (o : Option Finding) → first p fs ≡ o → OnSome P (rung o make below)
    go none e = b
    go (some f) e = let (i, t) = first-some p fs f e in h f i t

finding_rungs-OnSome :
    (n : Snapshot) (pid : String) (done : Done)
    → OnSome (Proposed n pid done) (finding_rungs n pid done)
finding_rungs-OnSome n pid done =
    let P = Proposed n pid done in
    rung-OnSome P (to_hunt n done) n.findings _ _ hunt (
      rung-OnSome P (to_draft n done) n.findings _ _ draft (
        rung-OnSome P (to_send n done) n.findings _ _ send
          (rung-OnSome P (to_verify done) n.findings _ _ verify tt)))

select_from-OnSome :
    (n : Snapshot) (pid : String) (done : Done)
    → OnSome (Proposed n pid done) (select_from n pid done)
unfolding select_from
select_from-OnSome n pid done =
    let P = Proposed n pid done in
    if_ind (OnSome P) (not n.has_status && fresh done ActionKind.status pid) _ _
      (λ h. status (ground arith) (ground arith))
      (λ _.
        if_ind (OnSome P) (not (is_empty n.unmapped) && fresh done ActionKind.map pid) _ _
          (λ h. map (ground arith) (ground arith))
          (λ _.
            if_ind (OnSome P)
              (n.has_coverage && (not n.discover_current && fresh done ActionKind.discover pid)) _ _
              (λ h. discover (ground arith) (ground arith) (ground arith))
              (λ _. finding_rungs-OnSome n pid done)))

-- A proposal comes from one of the seven rungs, under that rung's conditions.
pub select_from-Proposed :
    (n : Snapshot) (pid : String) (done : Done) (a : LoopAction)
    → select_from n pid done ≡ some a
    → Proposed n pid done a
select_from-Proposed n pid done a h =
    subst (OnSome (Proposed n pid done)) h (select_from-OnSome n pid done)

append-is_not_empty : (s t : String) → t ≢ "" → (s & t == "") ≡ false
append-is_not_empty s t h = ground (arith, eq_iff (s & t) "", append-ne-nil_of_right_ne-nil s h)

carries_human_action-Proposed :
    {n : Snapshot} {pid : String} {done : Done} {a : LoopAction}
    → Proposed n pid done a
    → carries_human_action a ≡ true
unfolding carries_human_action send_action verify_action
carries_human_action-Proposed (status _ _) = refl
carries_human_action-Proposed (map _ _) = refl
carries_human_action-Proposed (discover _ _ _) = refl
carries_human_action-Proposed (hunt f _ _) = refl
carries_human_action-Proposed (draft f _ _) = refl
carries_human_action-Proposed (send f _ _) =
    ground (arith, append-is_not_empty f.id send_note (λ e. cc))
carries_human_action-Proposed (verify f _ _) =
    ground (arith, append-is_not_empty f.id verify_note (λ e. cc))

-- Every proposal may be constructed: an escalation has a line for the human, nothing else has one.
pub select_from-carries_human_action :
    (n : Snapshot) (pid : String) (done : Done) (a : LoopAction)
    → select_from n pid done ≡ some a
    → carries_human_action a ≡ true
select_from-carries_human_action n pid done a h =
    carries_human_action-Proposed (select_from-Proposed n pid done a h)
