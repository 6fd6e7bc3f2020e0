-- ===== src/Loop/Driver/Record.antt =====
-- The durable record of a loop run: its id and its text (the functions `generate_loop_run_id`,
-- `_teach_back` and `_build_run` of src/deepthought/loop/driver.py).
use Prim.Native.Char.{code}
use deep_thought.Prelude.{
  ℕ, ◌+◌, ◌-◌, ◌*◌, String, ◌&◌, Bool, true, false, ◌&&◌, Option, none, some, List, [], ◌∷◌, ◌++◌,
  leb, eqb, ltb, map, if◌then◌else◌,
}
use deep_thought.Prelude.Text.{after, join, pad, show}
use deep_thought.Prelude.Time.{date, iso_z}
use deep_thought.Schema.Status.{StopReason, kind_value, stop_value}
use deep_thought.Schema.Loop.{LoopAction, LoopBudget, LoopRun, LoopSpend, LoopStep}
use deep_thought.Store.{Store, list_loop_runs}

abbrev is_digit : ℕ → Bool
is_digit c = leb b'0' c && leb c b'9'

-- the digits of a number, with single underscores between them; the flag says that a digit stands
-- in front
digits : Bool → ℕ → String → Option ℕ
digits after_digit n String.[] = if after_digit then some n else none
digits after_digit n (String.◌∷◌ c s) =
    let k = code c in
    let number = digits true (n * 10 + (k - b'0')) s in
    let gap = digits false n s in
    if is_digit k then number else if eqb k b'_' && after_digit then gap else none

-- `int(s)` for the characters of a record id; a number below 0 is as good as none here
parse_int : String → Option ℕ
unfolding digits
parse_int s = digits false 0 s

max : ℕ → ℕ → ℕ
max a b = if ltb a b then b else a

-- the highest number among the runs whose ids begin with the prefix
highest : String → ℕ → List LoopRun → ℕ
unfolding parse_int max after
highest prefix best [] = best
highest prefix best (r ∷ rs) =
    highest prefix
      (elim (after prefix r.id) [
        | none ↦ best
        | some tail ↦ elim (parse_int tail) [ none ↦ best | some n ↦ max best n ]
      ])
      rs

unfoldable pub generate_loop_run_id : Store → ℕ → String
unfolding highest pad
generate_loop_run_id s now =
    let prefix = "L-" & (date now & "-") in
    prefix & pad 4 (highest prefix 0 (list_loop_runs s none) + 1)

planned_line : Option LoopAction → List String
planned_line none = []
planned_line (some a) =
    ("Budget exhausted before the next action ("
      & (kind_value a.kind & "); raise the budget and re-run the loop to continue."))
    ∷ []

or_fixed_point : List String → List String
or_fixed_point [] =
    "No further safe work — the loop reached a fixed point. Any candidate findings need real reproduction (human sign-off); any verified findings' disclosure drafts need a human to review and send."
    ∷ []
or_fixed_point (l ∷ ls) = l ∷ ls

-- `_teach_back`
unfoldable pub teach_back : StopReason → ℕ → List String → Option LoopAction → String
unfolding planned_line or_fixed_point join show
teach_back reason sessions_run outstanding planned =
    let summary =
      "Loop ran " & (show sessions_run & (" session(s); stopped: " & (stop_value reason & "."))) in
    let lines = or_fixed_point (outstanding ++ planned_line planned) in
    "## Summary\n\n" & (summary & ("\n\n## Next steps\n\n" & join "\n" (map (λ l. "- " & l) lines)))

-- `_build_run`, with the time at which it asks the clock
unfoldable pub build_run :
    Store
    → String
    → LoopBudget
    → ℕ
    → ℕ
    → StopReason
    → LoopSpend
    → List LoopStep
    → List String
    → Option LoopAction
    → LoopRun
unfolding generate_loop_run_id teach_back
build_run s project_ref budget now stopped reason spent trace outstanding planned = record {
  id = generate_loop_run_id s now;
  project = project_ref;
  started = iso_z now;
  stopped = some (iso_z stopped);
  stop_reason = reason;
  sessions_run = spent.sessions;
  context_cost = record { tokens = spent.tokens; wall_seconds = stopped - now };
  budget = budget;
  trace = trace;
  outstanding_actions = outstanding;
  body = teach_back reason spent.sessions outstanding planned;
}
