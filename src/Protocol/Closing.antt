-- ===== src/Protocol/Closing.antt =====
-- How a session ends.
use deep_thought.Prelude.{
  ◌+◌, if_ind, not, sym, ℕ, String, ◌≡◌, refl, Bool, true, false, Option, none, some, arith,
  is_some, eq_refl,
}
use deep_thought.Prelude.Dirs.{lookup, lookup-write}
use deep_thought.Prelude.Time.{Clock}
use deep_thought.Result.{Result, ok, raise}
use deep_thought.Schema.Status.{interrupted, is_clean}
use deep_thought.Schema.Session.{Session, has_next_steps}
use deep_thought.Store.{Store, file_name, read_back, save_session}
use deep_thought.Gate.{GateContext, GateDecision, Gate, proceeds}
use deep_thought.Protocol.{
  SessionOutcome, BaseSession, Ran, is_resumable, opened, render_body, taught, judged, unfinished,
  finished, finish, finish, worked, decided, gated, refused_id, bad_project, run_named,
  generate_session_id, run_session,
}

-- the record on disk under an id
abbrev pub on_disk : Store → String → Option Session
on_disk s id = lookup (file_name id) s.sessions

on_disk-save :
    (s : Store) (r : Session)
    → on_disk (save_session s r) r.id ≡ some (record r { body = read_back r.body })
unfolding save_session
on_disk-save s r = rw (lookup-write, eq_refl)

-- A session that returned: its record is on disk, and it is closed exactly if it has next steps.
pub record Returned (sid : String) (s : Store) (r : Session) : Type 0 where
  pub named : r.id ≡ sid
  pub saved : on_disk s sid ≡ some (record r { body = read_back r.body })
  pub clean_iff : is_clean r.close_state ≡ has_next_steps r.body
  pub closed_iff : is_some r.closed ≡ has_next_steps r.body

-- A session that raised: its record is on disk, and the next session can resume it.
pub record Left (sid : String) (s : Store) : Type 0 where
  pub left : Session
  pub saved : on_disk s sid ≡ some left
  pub resumable : is_resumable left ≡ true

abbrev pub Ends : String → Store → Result Session → Type 0
Ends sid s (ok r) = Returned sid s r
Ends sid s (raise e) = Left sid s

not-false : (b : Bool) → not b ≡ true → b ≡ false
not-false b h = ground arith

not-true : (b : Bool) → not b ≡ false → b ≡ true
not-true b h = ground arith

finish-Ends :
    (clock : Clock) (calls : ℕ) (s : Store) (r : Session) (o : SessionOutcome)
    → r.closed ≡ none
    → let ran = finish clock calls s r o in Ends r.id ran.store ran.result
unfolding finish
finish-Ends clock calls s r o fresh =
    if_ind (λ (ran : Ran). Ends r.id ran.store ran.result) (not (has_next_steps (render_body o)))
      (unfinished calls s (taught r o)) (finished clock calls s (taught r o))
      (λ h. record {
        named = refl;
        saved = on_disk-save s _;
        clean_iff = sym (not-false _ h);
        closed_iff = rw fresh (sym (not-false _ h));
      })
      (λ h. record {
        named = refl;
        saved = on_disk-save s _;
        clean_iff = sym (not-true _ h);
        closed_iff = sym (not-true _ h);
      })

worked-Ends :
    (clock : Clock) (calls : ℕ) (r : Session) (w : Store × Result SessionOutcome)
    → r.closed ≡ none
    → let ran = worked clock calls r w in Ends r.id ran.store ran.result
unfolding worked
worked-Ends clock calls r (s, ok o) fresh = finish-Ends clock calls s r o fresh
worked-Ends clock calls r (s, raise e) fresh = record {
  left = _;
  saved = on_disk-save s _;
  resumable = rw fresh;
}

decided-Ends :
    (clock : Clock) (calls : ℕ) (gate : Gate) (session : BaseSession) (s : Store) (r : Session)
    (d : GateDecision)
    → r.closed ≡ none
    → let ran = decided clock calls gate session s r d in Ends r.id ran.store ran.result
unfolding decided
decided-Ends clock calls gate session s r d fresh =
    if_ind (λ (ran : Ran). Ends r.id ran.store ran.result) (not (proceeds d)) _ _
      (λ _. finish-Ends clock calls s (judged r d) _ fresh)
      (λ _. worked-Ends clock calls (judged r d) _ fresh)

gated-Ends :
    (clock : Clock) (calls : ℕ) (gate : Gate) (session : BaseSession) (s : Store) (r : Session)
    (c : Result GateContext)
    → r.closed ≡ none
    → r.close_state ≡ interrupted
    → let ran = gated clock calls gate session (save_session s r) r c in
      Ends r.id ran.store ran.result
unfolding gated
gated-Ends clock calls gate session s r (raise e) fresh i = record {
  left = _;
  saved = on_disk-save s r;
  resumable = rw (fresh, i);
}
gated-Ends clock calls gate session s r (ok c) fresh i =
    decided-Ends clock calls gate session (save_session s r) r (gate.evaluate c) fresh

-- A run under a project id that can be one, or under none, ends with its record on disk: closed
-- exactly if its body has next steps, or, where the gate's context or the work raised, resumable.
pub run_session-Ends :
    (clock : Clock) (calls : ℕ) (gate : Gate) (session : BaseSession) (s : Store)
    → bad_project session.project_id ≡ none
    → let ran = run_session clock calls gate session s in
      Ends (generate_session_id s (clock calls)) ran.store ran.result
unfolding run_session run_named opened
run_session-Ends clock calls gate session s named = rw named (
    gated-Ends clock (calls + 1) gate session s
      (opened (generate_session_id s (clock calls)) session.type session.project_id (clock calls)) _
      refl refl)

module _ (clock : Clock) (gate : Gate) (session : BaseSession)
    (w : Gate → Store → String → Store × Result SessionOutcome) where
  -- the session with other work
  abbrev pub instead : BaseSession
  instead = record session { run = w }

  decided_unworked :
      (calls : ℕ) (s : Store) (r : Session) (d : GateDecision)
      → proceeds d ≡ false
      → decided clock calls gate instead s r d ≡ decided clock calls gate session s r d
  unfolding decided
  decided_unworked calls s r d h = rw h

  gated_unworked :
      (calls : ℕ) (s : Store) (r : Session) (c : Result GateContext)
      → ((x : GateContext) → c ≡ ok x → proceeds (gate.evaluate x) ≡ false)
      → gated clock calls gate instead s r c ≡ gated clock calls gate session s r c
  unfolding gated
  gated_unworked calls s r (raise e) h = refl
  gated_unworked calls s r (ok x) h = decided_unworked calls s r (gate.evaluate x) (h x refl)

  run_named_unworked :
      (calls : ℕ) (s : Store) (sid : String) (now : ℕ) (bad : Option String)
      → ((t : Store) (x : GateContext)
          → session.build_gate_context t ≡ ok x
          → proceeds (gate.evaluate x) ≡ false)
      → run_named clock calls gate instead s sid now bad
        ≡ run_named clock calls gate session s sid now bad
  unfolding run_named refused_id
  run_named_unworked calls s sid now (some p) h = refl
  run_named_unworked calls s sid now none h =
      let r = opened sid session.type session.project_id now in
      gated_unworked calls (save_session s r) r _ (h (save_session s r))

  -- No work before the gate: where the gate does not proceed, the run is the same whatever the
  -- work would have been, in the store, the clock and the result.
  pub run_session_unworked :
      (calls : ℕ) (s : Store)
      → ((t : Store) (x : GateContext)
          → session.build_gate_context t ≡ ok x
          → proceeds (gate.evaluate x) ≡ false)
      → run_session clock calls gate instead s ≡ run_session clock calls gate session s
  unfolding run_session
  run_session_unworked calls s h = run_named_unworked (calls + 1) s _ _ _ h
