-- ===== src/Loop/Policy/FixedPoint.antt =====
-- Where the policy finds nothing to do at the start of a run.
use deep_thought.Prelude.{
  String, ◌≡◌, ◌↔◌, refl, Bool, true, false, ◌||◌, inl, inr, Bool-cases, none, List, [], ◌∷◌, arith,
  All, first,
}
use deep_thought.Schema.Finding.{Finding}
use deep_thought.Loop.Policy.{
  Snapshot, is_verified, is_candidate, to_hunt, to_draft, to_send, to_verify, select_from,
}

-- a finding that is neither verified nor a candidate
abbrev pub IsClosed : Finding → Type 0
IsClosed f = (is_verified f || is_candidate f) ≡ false

-- Nothing is left to do: the status is known, every area in scope is mapped, the last discovery is
-- not older than the last map, and every finding is disclosed or patched.
pub record IsRested (n : Snapshot) : Type 0 where
  pub known : n.has_status ≡ true
  pub mapped : n.unmapped ≡ []
  pub discovered : n.has_coverage ≡ true → n.discover_current ≡ true
  pub closed : All IsClosed n.findings

pub first-none :
    (p : Finding → Bool) (fs : List Finding) → first p fs ≡ none → All (λ f. p f ≡ false) fs
first-none p [] h = tt
first-none p (f ∷ fs) h = elim (Bool-cases (p f)) [
  | inl t ↦ cc (h, t)
  | inr t ↦ (t, first-none p fs (rw t at h))
]

none_of_All :
    (p : Finding → Bool) (fs : List Finding) → All (λ f. p f ≡ false) fs → first p fs ≡ none
none_of_All p [] h = refl
none_of_All p (f ∷ fs) h = rw h.0 (none_of_All p fs h.1)

module _ (n : Snapshot) where
  IsClosed-of :
      (fs : List Finding)
      → All (λ f. to_draft n [] f ≡ false) fs
      → All (λ f. to_send n [] f ≡ false) fs
      → All (λ f. to_verify [] f ≡ false) fs
      → All IsClosed fs
  IsClosed-of [] d s v = tt
  IsClosed-of (f ∷ fs) d s v = (ground arith, IsClosed-of fs d.1 s.1 v.1)

  of_closed :
      (p : Finding → Bool)
      → ((f : Finding) → IsClosed f → p f ≡ false)
      → (fs : List Finding) → All IsClosed fs
      → first p fs ≡ none
  of_closed p k [] h = refl
  of_closed p k (f ∷ fs) h = rw (k f h.0) (of_closed p k fs h.1)

  no_finding :
      (pid : String)
      → select_from n pid [] ≡ none
      → (first (to_draft n []) n.findings ≡ none)
        × (first (to_send n []) n.findings ≡ none)
        × (first (to_verify []) n.findings ≡ none)
  unfolding select_from
  no_finding pid h = ground arith

  nothing_to_map :
      (pid : String)
      → select_from n pid [] ≡ none
      → (n.has_status ≡ true)
        × (n.unmapped ≡ [])
        × (n.has_coverage ≡ true → n.discover_current ≡ true)
  unfolding select_from
  nothing_to_map pid h = ground arith

  IsRested-of_none : (pid : String) → select_from n pid [] ≡ none → IsRested n
  IsRested-of_none pid h =
      let (d, s, v) = no_finding pid h in
      let (k, m, c) = nothing_to_map pid h in
      record {
        known = k;
        mapped = m;
        discovered = c;
        closed = IsClosed-of n.findings (first-none _ _ d) (first-none _ _ s) (first-none _ _ v);
      }

  none_of_rested : (pid : String) → IsRested n → select_from n pid [] ≡ none
  unfolding select_from
  none_of_rested pid r =
      let fs = n.findings in
      let hunts = of_closed (to_hunt n []) (λ f c. ground arith) fs r.closed in
      let drafts = of_closed (to_draft n []) (λ f c. ground arith) fs r.closed in
      let sends = of_closed (to_send n []) (λ f c. ground arith) fs r.closed in
      let verifies = of_closed (to_verify []) (λ f c. ground arith) fs r.closed in
      ground (arith, hunts, drafts, sends, verifies)

  -- At the start of a run the policy has nothing to propose exactly if the project is at rest.
  pub select_from-IsRested : (pid : String) → (select_from n pid [] ≡ none) ↔ IsRested n
  select_from-IsRested pid = (IsRested-of_none pid, none_of_rested pid)
