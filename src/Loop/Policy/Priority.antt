-- ===== src/Loop/Policy/Priority.antt =====
-- The order of the policy's rungs.
use mathlib.Core.Path.{subst}
use deep_thought.Prelude.{
  ℕ, ◌+◌, ◌≤◌, String, ◌≡◌, ◌≢◌, refl, sym, ap, ◌∙◌, Bool, true, false, not, ◌&&◌, Bool-cases, inl,
  inr, Option, none, some, Option-cases, List, [], ◌∷◌, eqb, member, arith, All, In, first, if_ind,
  if◌then◌else◌,
}
use deep_thought.Schema.Status.{
  candidate, verified, is_status_iff, ActionKind, status, map, discover, sibling_hunt, disclosure,
  disclosure_send, verify_escalation,
}
use deep_thought.Schema.Finding.{Finding}
use deep_thought.Schema.Loop.{LoopAction}
use deep_thought.Loop.Policy.{
  Done, Snapshot, in_done, is_empty, fresh, action, verify_action, send_action, to_hunt, to_draft,
  to_send, to_verify, rung, finding_rungs, select_from,
}
use deep_thought.Loop.Policy.Proposals.{first-some}
use deep_thought.Loop.Policy.FixedPoint.{first-none}

-- the place of a kind of action in the order
abbrev pub rank : ActionKind → ℕ
rank status = 1
rank map = 2
rank discover = 3
rank sibling_hunt = 4
rank disclosure = 5
rank disclosure_send = 6
rank verify_escalation = 7

abbrev at_rank : ℕ → ActionKind
at_rank n =
    if eqb n 1
    then status
    else if eqb n 2
    then map
    else if eqb n 3
    then discover
    else if eqb n 4
    then sibling_hunt
    else if eqb n 5
    then disclosure
    else if eqb n 6
    then disclosure_send
    else verify_escalation

at_rank-rank : (k : ActionKind) → at_rank (rank k) ≡ k
at_rank-rank status = refl
at_rank-rank map = refl
at_rank-rank discover = refl
at_rank-rank sibling_hunt = refl
at_rank-rank disclosure = refl
at_rank-rank disclosure_send = refl
at_rank-rank verify_escalation = refl

rank_injective : (j k : ActionKind) → rank j ≡ rank k → j ≡ k
rank_injective j k e = sym (at_rank-rank j) ∙ ap (λ r. at_rank r) e ∙ at_rank-rank k

none_of :
    (p : Finding → Bool) (fs : List Finding) (f : Finding)
    → All (λ g. p g ≡ false) fs
    → In f fs
    → p f ≡ false
none_of p [] f h i = absurd i
none_of p (g ∷ fs) f h (inl e) = subst (λ x. p x ≡ false) e h.0
none_of p (g ∷ fs) f h (inr i) = none_of p fs f h.1 i

module _ (n : Snapshot) (pid : String) (done : Done) where
  abbrev IsNew : ActionKind → String → Type 0
  IsNew kind target = in_done (kind, target) done ≡ false

  -- what calls for an action of a kind on a finding
  abbrev pub Wants : ActionKind → Finding → Type 0
  Wants sibling_hunt f =
      (f.status ≡ verified) × (member f.id n.hunted_before ≡ false) × IsNew sibling_hunt f.id
  Wants disclosure f =
      (f.status ≡ verified) × (member f.id n.drafted ≡ false) × IsNew disclosure f.id
  Wants disclosure_send f =
      (f.status ≡ verified) × (member f.id n.drafted ≡ true) × IsNew disclosure_send f.id
  Wants verify_escalation f = (f.status ≡ candidate) × IsNew verify_escalation f.id
  Wants _ f = ⊥

  abbrev OnFinding : ActionKind → LoopAction → Type 0
  OnFinding k a = (f : Finding) × In f n.findings × Wants k f × (a.finding ≡ some f.id)

  -- what calls for an action of a kind
  abbrev pub Due : ActionKind → LoopAction → Type 0
  Due status a = (n.has_status ≡ false) × IsNew status pid × (a.finding ≡ none)
  Due map a = (n.unmapped ≢ []) × IsNew map pid × (a.finding ≡ none)
  Due discover a =
      (n.has_coverage ≡ true)
      × (n.discover_current ≡ false)
      × IsNew discover pid
      × (a.finding ≡ none)
  Due k a = OnFinding k a

  -- nothing that is due comes before a place
  abbrev Least : ℕ → Type 0
  Least r = (k : ActionKind) (b : LoopAction) → Due k b → r ≤ rank k

  -- an action that is due, and that nothing else due comes before
  pub record IsFirst (a : LoopAction) : Type 0 where
    pub of_project : a.project ≡ pid
    pub due : Due a.kind a
    pub least : Least (rank a.kind)

  abbrev OnSome : Option LoopAction → Type 0
  OnSome none = Unit
  OnSome (some a) = IsFirst a

  next : (k : ActionKind) → Least (rank k) → ((b : LoopAction) → Due k b → ⊥) → Least (rank k + 1)
  next k least nothing j b due = elim (Bool-cases (eqb (rank j) (rank k))) [
    | inl same ↦
        absurd (nothing b (subst (λ x. Due x b) (rank_injective j k (ground (arith, same))) due))
    | inr other ↦ ground (arith, least j b due, other)
  ]

  all_least : Least 1
  all_least status b due = omega arith
  all_least map b due = omega arith
  all_least discover b due = omega arith
  all_least sibling_hunt b due = omega arith
  all_least disclosure b due = omega arith
  all_least disclosure_send b due = omega arith
  all_least verify_escalation b due = omega arith

  rung-IsFirst :
      (k : ActionKind) (p : Finding → Bool) (make : String → LoopAction) (below : Option LoopAction)
      → Least (rank k)
      → ((f : Finding) → In f n.findings → p f ≡ true → IsFirst (make f.id))
      → ((b : LoopAction) → Due k b → (f : Finding) × In f n.findings × (p f ≡ true))
      → (Least (rank k + 1) → OnSome below)
      → OnSome (rung (first p n.findings) make below)
  rung-IsFirst k p make below least here calls later = elim (Option-cases (first p n.findings)) [
    | inl nobody ↦ rw nobody (
        later (
          next k least (λ b due.
            let (f, i, yes_it_is) = calls b due in
            cc (yes_it_is, none_of p n.findings f (first-none p n.findings nobody) i))))
    | inr (f, found) ↦
        let (i, yes_it_is) = first-some p n.findings f found in rw found (here f i yes_it_is)
  ]

  verify_rung : Least 7 → OnSome (rung (first (to_verify done) n.findings) (verify_action pid) none)
  unfolding verify_action
  verify_rung least =
      rung-IsFirst verify_escalation (to_verify done) (verify_action pid) none least
        (λ f i h. record {
          of_project = refl;
          due =
              let is : f.status ≡ candidate = (is_status_iff f.status candidate).0 (ground arith) in
              (f, i, (is, ground arith), refl);
          least = least;
        })
        (λ b due.
          let (f, i, (is, new), _) = due in
          let test = (is_status_iff f.status candidate).1 is in (f, i, ground (arith, test, new)))
        (λ _. tt)

  send_rung :
      Least 6
      → OnSome (
          rung
            (first (to_send n done) n.findings)
            (send_action pid)
            (rung (first (to_verify done) n.findings) (verify_action pid) none))
  unfolding send_action
  send_rung least =
      rung-IsFirst disclosure_send (to_send n done) (send_action pid) _ least
        (λ f i h. record {
          of_project = refl;
          due =
              let is : f.status ≡ verified = (is_status_iff f.status verified).0 (ground arith) in
              (f, i, (is, ground arith, ground arith), refl);
          least = least;
        })
        (λ b due.
          let (f, i, (is, drafted, new), _) = due in
          let test = (is_status_iff f.status verified).1 is in
          (f, i, ground (arith, test, drafted, new)))
        verify_rung

  draft_rung :
      Least 5
      → OnSome (
          rung
            (first (to_draft n done) n.findings)
            (λ fid. action disclosure pid (some fid))
            (rung
              (first (to_send n done) n.findings)
              (send_action pid)
              (rung (first (to_verify done) n.findings) (verify_action pid) none)))
  draft_rung least =
      rung-IsFirst disclosure (to_draft n done) (λ fid. action disclosure pid (some fid)) _ least
        (λ f i h. record {
          of_project = refl;
          due =
              let is : f.status ≡ verified = (is_status_iff f.status verified).0 (ground arith) in
              (f, i, (is, ground arith, ground arith), refl);
          least = least;
        })
        (λ b due.
          let (f, i, (is, apart, new), _) = due in
          let test = (is_status_iff f.status verified).1 is in
          (f, i, ground (arith, test, apart, new)))
        send_rung

  finding_rungs-IsFirst : Least 4 → OnSome (finding_rungs n pid done)
  finding_rungs-IsFirst least =
      rung-IsFirst sibling_hunt (to_hunt n done) (λ fid. action sibling_hunt pid (some fid)) _ least
        (λ f i h. record {
          of_project = refl;
          due =
              let is : f.status ≡ verified = (is_status_iff f.status verified).0 (ground arith) in
              (f, i, (is, ground arith, ground arith), refl);
          least = least;
        })
        (λ b due.
          let (f, i, (is, apart, new), _) = due in
          let test = (is_status_iff f.status verified).1 is in
          (f, i, ground (arith, test, apart, new)))
        draft_rung

  discover_rung :
      Least 3
      → OnSome (
          if n.has_coverage && (not n.discover_current && fresh done discover pid)
          then some (action discover pid none)
          else finding_rungs n pid done)
  discover_rung least =
      if_ind OnSome (n.has_coverage && (not n.discover_current && fresh done discover pid)) _ _
        (λ h. record {
          of_project = refl;
          due = (ground arith, ground arith, ground arith, refl);
          least = least;
        })
        (λ no. finding_rungs-IsFirst (
          next discover least (λ b due.
            let (covered, stale, new, _) = due in ground (arith, covered, stale, new, no))))

  map_rung :
      Least 2
      → OnSome (
          if not (is_empty n.unmapped) && fresh done map pid
          then some (action map pid none)
          else if n.has_coverage && (not n.discover_current && fresh done discover pid)
          then some (action discover pid none)
          else finding_rungs n pid done)
  map_rung least =
      if_ind OnSome (not (is_empty n.unmapped) && fresh done map pid) _ _
        (λ h. record { of_project = refl; due = (ground arith, ground arith, refl); least = least })
        (λ no.
          discover_rung
            (next map least (λ b due. let (left, new, _) = due in ground (arith, left, new, no))))

  select_from-OnSome : OnSome (select_from n pid done)
  unfolding select_from
  select_from-OnSome =
      if_ind OnSome (not n.has_status && fresh done status pid) _ _
        (λ h. record {
          of_project = refl;
          due = (ground arith, ground arith, refl);
          least = all_least;
        })
        (λ no. map_rung (
          next status all_least
            (λ b due. let (unknown, new, _) = due in ground (arith, unknown, new, no))))

  -- What the policy proposes is due and comes first. It is due by its kind: STATUS where there was none;
  -- MAP where an area is unmapped; DISCOVER where there is coverage and no current DISCOVER; a hunt, a
  -- draft or an escalation to send for a verified finding of the project that was not hunted, not
  -- drafted, or drafted; an escalation to verify for a candidate. The run has not done it before on the
  -- same target, and no kind of action that is due comes earlier in this order.
  pub select_from-IsFirst : (a : LoopAction) → select_from n pid done ≡ some a → IsFirst a
  select_from-IsFirst a h = subst OnSome h select_from-OnSome
