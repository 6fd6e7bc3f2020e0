-- ===== src/Loop/Driver/Budget.antt =====
-- The rounds of the loop against its session limit.
use mathlib.Core.Path.{subst}
use deep_thought.Prelude.{
  ap, ℕ, zero, suc, ◌+◌, ◌≤◌, ◌<◌, String, ◌≡◌, refl, Bool, false, Option, none, some, arith,
  if_ind,
}
use deep_thought.Prelude.Time.{Clock}
use deep_thought.Result.{Result, ok, raise}
use deep_thought.Schema.Status.{GateOutcome, proceed, hold, refuse}
use deep_thought.Schema.Project.{Project}
use deep_thought.Schema.Session.{Session}
use deep_thought.Schema.Loop.{LoopAction, LoopBudget, LoopSpend, plus, would_exceed, is_escalation}
use deep_thought.Store.{Store}
use deep_thought.Gate.{Gate}
use deep_thought.Protocol.{BaseSession, Ran, run_session}
use deep_thought.Loop.Policy.{select_next_action}
use deep_thought.Loop.Driver.Turn.{
  Sessions, LoopState, Round, stop, again, fail, build_session, advanced, after_gate, returned,
}
use deep_thought.Loop.Driver.{
  perform_built, perform, attempt, chosen, round, watched, wall_exceeded, live_spend, ticked,
  rounds, continue,
}

-- The bound on the sessions that a round leaves.
abbrev pub Steps : ℕ → ℕ → Round → Type 0
Steps n before (stop r p st) = st.spent.sessions ≤ n
Steps n before (again st) = (st.spent.sessions ≡ before + 1) × (st.spent.sessions ≤ n)
Steps n before (fail e s) = Unit

-- a session may start
room_for_one :
    (b : LoopBudget) (s : LoopSpend) (n : ℕ)
    → b.max_sessions ≡ some n
    → would_exceed b s ≡ false
    → s.sessions + 1 ≤ n
unfolding would_exceed
room_for_one b s n m h = ground arith

after_gate-Steps :
    (n before : ℕ) (g : Option GateOutcome) (a : LoopAction) (r : Session) (st : LoopState)
    → st.spent.sessions ≡ before + 1
    → before + 1 ≤ n
    → Steps n before (after_gate g a r st)
unfolding after_gate
after_gate-Steps n before (some proceed) a r st e h = (e, omega arith)
after_gate-Steps n before (some hold) a r st e h = omega arith
after_gate-Steps n before (some refuse) a r st e h = omega arith
after_gate-Steps n before none a r st e h = omega arith

returned-Steps :
    (n : ℕ) (a : LoopAction) (st : LoopState) (ran : Ran) (res : Result Session)
    → st.spent.sessions + 1 ≤ n
    → Steps n st.spent.sessions (returned a st ran res)
unfolding returned
returned-Steps n a st ran (raise e) h = tt
returned-Steps n a st ran (ok r) h =
    after_gate-Steps n st.spent.sessions r.gate_outcome a r (advanced a r ran st)
      (unfold advanced plus in refl) h

module _ (drafts_ok : Store → String → Bool) (sessions : Sessions) (gate : Gate) (clock : Clock)
    (budget : LoopBudget) (project : Project) (start : ℕ) (n : ℕ)
    (limit : budget.max_sessions ≡ some n) where
  one_round : LoopState → Round
  one_round = round drafts_ok sessions gate clock budget project start

  perform_built-Steps :
      (a : LoopAction) (st : LoopState) (b : Result BaseSession)
      → st.spent.sessions + 1 ≤ n
      → Steps n st.spent.sessions
          (perform_built drafts_ok sessions gate clock budget project start a st b)
  unfolding perform_built
  perform_built-Steps a st (raise e) h = tt
  perform_built-Steps a st (ok session) h =
      returned-Steps n a st (run_session clock st.calls gate session st.store) _ h

  perform-Steps :
      (a : LoopAction) (st : LoopState)
      → st.spent.sessions + 1 ≤ n
      → Steps n st.spent.sessions (perform drafts_ok sessions gate clock budget project start a st)
  unfolding perform
  perform-Steps a st h = perform_built-Steps a st (build_session sessions a) h

  spent-watched :
      (st : LoopState)
      → (watched drafts_ok sessions gate clock budget project start st).spent ≡ st.spent
  spent-watched st = ground arith

  attempt-Steps :
      (a : LoopAction) (st : LoopState)
      → st.spent.sessions ≤ n
      → Steps n st.spent.sessions (attempt drafts_ok sessions gate clock budget project start a st)
  unfolding attempt
  attempt-Steps a st h =
      let st' = watched drafts_ok sessions gate clock budget project start st in
      let kept = spent-watched st in
      if_ind (Steps n st.spent.sessions)
        (wall_exceeded drafts_ok sessions gate clock budget project start st) _ _ (λ _. rw kept h)
        (λ _.
          if_ind (Steps n st.spent.sessions) (is_escalation a) _ _ (λ _. rw kept h)
            (λ _.
              if_ind (Steps n st.spent.sessions)
                (would_exceed budget
                  (live_spend drafts_ok sessions gate clock budget project start st'))
                _ _ (λ _. rw kept h)
                (λ may.
                  subst
                    (λ k. Steps n k (
                      perform drafts_ok sessions gate clock budget project start a
                        (ticked drafts_ok sessions gate clock budget project start st')))
                    (ap (λ (x : LoopSpend). x.sessions) kept)
                    (perform-Steps a (ticked drafts_ok sessions gate clock budget project start st')
                      (room_for_one budget _ n limit may)))))

  chosen-Steps :
      (a : Option LoopAction) (st : LoopState)
      → st.spent.sessions ≤ n
      → Steps n st.spent.sessions (chosen drafts_ok sessions gate clock budget project start a st)
  unfolding chosen
  chosen-Steps none st h = h
  chosen-Steps (some a) st h = attempt-Steps a st h

  -- A round runs at most one session, and none past the limit.
  round-Steps :
      (st : LoopState)
      → st.spent.sessions ≤ n
      → Steps n st.spent.sessions (round drafts_ok sessions gate clock budget project start st)
  unfolding round
  round-Steps st h = chosen-Steps (select_next_action drafts_ok st.store project st.done) st h

  -- The loop has ended, within the limit, or by an exception.
  abbrev pub EndsWithin : Option Round → Type 0
  EndsWithin none = ⊥
  EndsWithin (some (stop r p st)) = st.spent.sessions ≤ n
  EndsWithin (some (again st)) = ⊥
  EndsWithin (some (fail e s)) = Unit

  continue-EndsWithin :
      (r : Round) (before : ℕ) (loop : LoopState → Option Round)
      → Steps n before r
      → ((st : LoopState)
          → st.spent.sessions ≡ before + 1
          → st.spent.sessions ≤ n
          → EndsWithin (loop st))
      → EndsWithin (continue drafts_ok sessions gate clock budget project start r loop)
  unfolding continue
  continue-EndsWithin (stop r p st) before loop h k = h
  continue-EndsWithin (again st) before loop h k = k st h.0 h.1
  continue-EndsWithin (fail e s) before loop h k = tt

  -- With one unit of fuel for each session that the limit leaves, and one more, the loop ends, and
  -- it has run no more sessions than the limit.
  pub rounds-EndsWithin :
      (fuel : ℕ) (st : LoopState)
      → st.spent.sessions ≤ n
      → n < fuel + st.spent.sessions
      → EndsWithin (rounds drafts_ok sessions gate clock budget project start fuel st)
  unfolding rounds
  rounds-EndsWithin zero st h f = absurd (omega arith)
  rounds-EndsWithin (suc fuel) st h f =
      continue-EndsWithin _ st.spent.sessions _ (round-Steps st h)
        (λ st' e b. rounds-EndsWithin fuel st' b (omega arith))
