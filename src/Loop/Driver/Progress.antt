-- ===== src/Loop/Driver/Progress.antt =====
-- A whole run of the loop.
use deep_thought.Prelude.{
  ℕ, suc, ◌+◌, ◌≤◌, String, ◌≡◌, Bool, not, Option, none, some, arith, if_ind,
}
use deep_thought.Prelude.Time.{Clock}
use deep_thought.Result.{ok, raise}
use deep_thought.Schema.Status.{SessionType}
use deep_thought.Schema.Project.{Project}
use deep_thought.Schema.Loop.{LoopBudget}
use deep_thought.Store.{Store, get_project}
use deep_thought.Gate.{Gate, from_project, proceeds}
use deep_thought.Loop.Driver.Record.{build_run}
use deep_thought.Loop.Driver.Budget.{EndsWithin, rounds-EndsWithin}
use deep_thought.Loop.Driver.Turn.{Sessions, Round, stop, again, fail, initial}
use deep_thought.Loop.Driver.{Looped, recorded, unregistered, stopped_at_gate, looped, run_loop}

-- The run has an end, and what it recorded is within the limit.
abbrev pub Bounded : ℕ → Looped → Type 0
Bounded n none = ⊥
Bounded n (some (s, ok run)) = run.sessions_run ≤ n
Bounded n (some (s, raise e)) = Unit

module _ (drafts_ok : Store → String → Bool) (sessions : Sessions) (gate : Gate) (clock : Clock)
    (calls : ℕ) (budget : LoopBudget) (n : ℕ) (limit : budget.max_sessions ≡ some n) (s : Store)
    (project_id : String) where
  recorded-Bounded :
      (project : Project) (r : Option Round)
      → EndsWithin drafts_ok sessions gate clock budget project (clock calls) n limit r
      → Bounded n (recorded clock budget project (clock calls) r)
  unfolding recorded build_run
  recorded-Bounded project none h = absurd h
  recorded-Bounded project (some (stop reason p st)) h = h
  recorded-Bounded project (some (again st)) h = absurd h
  recorded-Bounded project (some (fail e t)) h = tt

  looped-Bounded :
      (found : Option Project)
      → Bounded n (looped drafts_ok sessions gate clock (suc n) calls budget s project_id found)
  unfolding looped unregistered stopped_at_gate build_run
  looped-Bounded none = omega arith
  looped-Bounded (some project) =
      if_ind (Bounded n) (not (proceeds (gate.evaluate (from_project project SessionType.status))))
        _ _ (λ _. omega arith)
        (λ _. recorded-Bounded project _ (
          rounds-EndsWithin drafts_ok sessions gate clock budget project (clock calls) n limit
            (suc n) (initial s (calls + 1)) (omega arith) (omega arith)))

  -- Under a session limit the loop ends: with one unit of fuel more than the limit it comes to a
  -- record or to an exception, and a record counts no more sessions than the limit.
  pub run_loop-Bounded :
      Bounded n (run_loop drafts_ok sessions gate clock (suc n) calls budget s project_id)
  unfolding run_loop
  run_loop-Bounded = looped-Bounded (get_project s project_id)
