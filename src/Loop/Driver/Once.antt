-- ===== src/Loop/Driver/Once.antt =====
-- The proposals of the policy against the actions that a run has done.
use deep_thought.Prelude.{String, ◌≡◌, false, inl, inr, some, List, [], ◌∷◌, ◌==◌, arith, In, All}
use deep_thought.Schema.Finding.{Finding}
use deep_thought.Schema.Loop.{LoopAction}
use deep_thought.Loop.Policy.{Done, Snapshot, in_done, send_action, verify_action, select_from}
use deep_thought.Loop.Policy.Proposals.{
  Proposed, status, map, discover, hunt, draft, send, verify, select_from-Proposed,
}
use deep_thought.Loop.Driver.Turn.{key}

-- Ids of records are never empty.
abbrev pub HasId : Finding → Type 0
HasId f = (f.id == "") ≡ false

All-In : (fs : List Finding) (f : Finding) → All HasId fs → In f fs → HasId f
All-In (g ∷ fs) f h (inl e) = rw (← e) h.0
All-In (g ∷ fs) f h (inr i) = All-In fs f h.1 i
All-In [] f h i = absurd i

Proposed-fresh :
    {n : Snapshot} {pid : String} {done : Done} {a : LoopAction}
    → All HasId n.findings
    → Proposed n pid done a
    → in_done (key a) done ≡ false
unfolding send_action verify_action
Proposed-fresh ids (status _ h) = ground arith
Proposed-fresh ids (map _ h) = ground arith
Proposed-fresh ids (discover _ _ h) = ground arith
Proposed-fresh {n} ids (hunt f i h) = ground (arith, All-In n.findings f ids i)
Proposed-fresh {n} ids (draft f i h) = ground (arith, All-In n.findings f ids i)
Proposed-fresh {n} ids (send f i h) = ground (arith, All-In n.findings f ids i)
Proposed-fresh {n} ids (verify f i h) = ground (arith, All-In n.findings f ids i)

-- Where every finding has an id, the policy does not propose what the run has done already.
pub select_from-fresh :
    (n : Snapshot) (pid : String) (done : Done) (a : LoopAction)
    → All HasId n.findings
    → select_from n pid done ≡ some a
    → in_done (key a) done ≡ false
select_from-fresh n pid done a ids h = Proposed-fresh ids (select_from-Proposed n pid done a h)
