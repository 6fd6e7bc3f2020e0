-- ===== src/Store/Lifecycle/Effects.antt =====
-- What `transition_finding` does to the store.
use deep_thought.Prelude.{
  ℕ, String, ◌≡◌, ◌≢◌, refl, true, some, [], ◌∷◌, ◌++◌, arith, eq_iff, eq_refl, if◌then◌else◌,
}
use deep_thought.Prelude.Time.{iso_z}
use deep_thought.Result.{ok}
use deep_thought.Ids.{is_record_id}
use deep_thought.Schema.Status.{FindingStatus, status_value}
use deep_thought.Schema.Finding.{Finding}
use deep_thought.Store.{Store, get_finding, save_finding, read_back}
use deep_thought.Store.Records.{get_finding-save_finding}
use deep_thought.Store.Lifecycle.{
  TransitionResult, evaluate_transition, moved, answer, transition_finding,
}

-- What is to be read of finding `f` after an attempt to move it to `y`.
pub record Attempted (now : ℕ) (f g : Finding) (y : FindingStatus) (r : TransitionResult)
    : Type 0 where
  pub status : g.status ≡ r.status
  pub outcome : r.status ≡ (if r.accepted then y else f.status)
  pub log :
      g.transition_log
      ≡ f.transition_log
        ++ record {
          at = iso_z now;
          from_status = status_value f.status;
          to_status = status_value y;
          accepted = r.accepted;
          reason = r.reason;
        }
          ∷ []
  pub rest :
      g ≡ record f { status = g.status; transition_log = g.transition_log; body = read_back f.body }

-- The store and the result after the attempt.
pub record Effect (now : ℕ) (s : Store) (f : Finding) (y : FindingStatus) : Type 0 where
  pub store : Store
  pub result : TransitionResult
  pub finding : Finding
  pub done : transition_finding now s f.id y ≡ ok (store, result)
  pub decided : result.accepted ≡ (evaluate_transition s f y).allowed
  pub saved : get_finding store f.id ≡ some finding
  pub attempted : Attempted now f finding y result
  pub others : (j : String) → f.id ≢ j → get_finding store j ≡ get_finding s j
  pub rest : store ≡ record s { findings = store.findings }

is_record_id_of_found :
    (s : Store) (id : String) (f : Finding) → get_finding s id ≡ some f → is_record_id id ≡ true
unfolding get_finding
is_record_id_of_found s id f h = ground arith

pub saved_again :
    (s : Store) (g : Finding)
    → is_record_id g.id ≡ true
    → get_finding (save_finding s g) g.id ≡ some (record g { body = read_back g.body })
saved_again s g h = rw get_finding-save_finding (ground (arith, eq_refl g.id))

pub save_finding-detail : (s : Store) (g : Finding) → (save_finding s g).detail ≡ s.detail
unfolding save_finding
save_finding-detail s g = refl

others_kept :
    (s : Store) (g : Finding) (j : String)
    → g.id ≢ j
    → get_finding (save_finding s g) j ≡ get_finding s j
others_kept s g j h = rw get_finding-save_finding (ground (arith, eq_iff g.id j))

save_finding-rest :
    (s : Store) (g : Finding)
    → save_finding s g ≡ record s { findings = (save_finding s g).findings }
unfolding save_finding
save_finding-rest s g = refl

-- A transition of a finding that is on file under its id returns. No other finding that is looked up
-- changes, and nothing in the store but the findings; of the finding, it changes the log, by one entry
-- with its outcome and its reason, and the status, which becomes the new one exactly if the transition
-- is accepted. The body comes back as the file keeps it.
pub transition_finding-Effect :
    (now : ℕ) (s : Store) (f : Finding) (y : FindingStatus)
    → get_finding s f.id ≡ some f
    → Effect now s f y
unfolding transition_finding moved
transition_finding-Effect now s f y found =
    let v = evaluate_transition s f y in
    let g = moved now v f y in
    record {
      store = save_finding s g;
      result = answer v f y;
      finding = record g { body = read_back g.body };
      done = rw found;
      decided = ground arith;
      saved = saved_again s g (is_record_id_of_found s f.id f found);
      attempted = record {
        status = ground arith;
        outcome = ground arith;
        log = ground arith;
        rest = refl;
      };
      others = others_kept s g;
      rest = save_finding-rest s g;
    }
