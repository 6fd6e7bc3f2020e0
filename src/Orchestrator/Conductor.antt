-- ===== src/Orchestrator/Conductor.antt =====
-- The only channel from the workers (src/deepthought/orchestrator/conductor.py). The parameter
-- `model_validate` is pydantic's reading of a payload as an envelope; it answers with the envelope
-- or with the number of its errors.
pub mod Firewall
use deep_thought.Prelude.{
  ℕ, ◌+◌, String, ◌&◌, Bool, true, false, Option, none, some, List, [], ◌∷◌, ◌++◌, length,
}
use deep_thought.Prelude.Text.{show}
use deep_thought.Schema.Json.{Json}
use deep_thought.Schema.Envelope.{Envelope, Primitive, outcome_value}
use deep_thought.Orchestrator.Ledger.{Ledger, add_primitive, compositions}
use deep_thought.Orchestrator.Ledger

pub data Validated : Type 0 where
  valid : Envelope → Validated
  invalid : ℕ → Validated

-- what a worker hands in: an envelope, or a dictionary
pub data Raw : Type 0 where
  typed : Envelope → Raw
  payload : Json → Raw

pub record IngestResult : Type 0 where
  pub accepted : Bool  -- `ok`
  pub outcome : String
  pub primitives_added : ℕ
  pub hints : List String
  pub detail_ref : Option String
  pub reason : Option String
  pub envelope : Option Envelope

pub record Conductor : Type 0 where
  pub ledger : Ledger.Ledger
  pub errors : List String
  pub hints : List String
  pub dispatched : List String

abbrev pub new : Conductor
new = record { ledger = Ledger.new; errors = []; hints = []; dispatched = [] }

abbrev rejection : ℕ → String
rejection n = "rejected envelope: " & (show n & " validation error(s)")

-- `_validate`: the errors and the envelope
validated : List String → Validated → List String × Option Envelope
validated errors (valid e) = (errors, some e)
validated errors (invalid n) = (errors ++ rejection n ∷ [], none)

module _ (model_validate : Json → Validated) where
  unfoldable pub validate : Conductor → Raw → Conductor × Option Envelope
  unfolding validated
  validate c (typed e) = (c, some e)
  validate c (payload p) =
      let (errors, e) = validated c.errors (model_validate p) in (record c { errors = errors }, e)

-- the loop over the primitives: the ledger, and how many were added
add_each : Ledger.Ledger → ℕ → List Primitive → Ledger.Ledger × ℕ
add_each l added [] = (l, added)
add_each l added (p ∷ ps) = add_each (add_primitive l p) (added + 1) ps

-- `self.errors[-1]`
last_error : List String → Option String
last_error [] = none
last_error (e ∷ []) = some e
last_error (e ∷ f ∷ es) = last_error (f ∷ es)

ingest_validated : Conductor → Option Envelope → Conductor × IngestResult
unfolding add_each last_error
ingest_validated c none = (
  c,
  record {
    accepted = false;
    outcome = "error";
    primitives_added = 0;
    hints = [];
    detail_ref = none;
    reason = last_error c.errors;
    envelope = none;
  },
)
ingest_validated c (some e) =
    let (ledger, added) = add_each c.ledger 0 e.primitives in
    (
      record c { ledger = ledger; hints = c.hints ++ e.next_step_hints },
      record {
        accepted = true;
        outcome = outcome_value e.outcome;
        primitives_added = added;
        hints = e.next_step_hints;
        detail_ref = e.detail_ref;
        reason = none;
        envelope = some e;
      },
    )

module _ (model_validate : Json → Validated) where
  unfoldable pub ingest : Conductor → Raw → Conductor × IngestResult
  unfolding validate ingest_validated
  ingest c raw = let (c', e) = validate model_validate c raw in ingest_validated c' e

-- `state_summary`
pub record Summary : Type 0 where
  pub primitives : ℕ
  pub compositions : ℕ
  pub hints : ℕ
  pub errors : ℕ
  pub dispatched : ℕ

unfoldable pub state_summary : Conductor → Summary
state_summary c = record {
  primitives = length c.ledger.nodes;
  compositions = length (compositions c.ledger);
  hints = length c.hints;
  errors = length c.errors;
  dispatched = length c.dispatched;
}
