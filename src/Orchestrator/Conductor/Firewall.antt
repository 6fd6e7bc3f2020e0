-- ===== src/Orchestrator/Conductor/Firewall.antt =====
-- What an envelope can change.
use deep_thought.Prelude.{
  ℕ, ◌+◌, String, ◌≡◌, refl, true, false, some, none, List, [], ◌∷◌, ◌++◌, length, arith,
}
use deep_thought.Schema.Json.{Json}
use deep_thought.Schema.Envelope.{Envelope, Primitive, outcome_value}
use deep_thought.Orchestrator.Ledger.{Ledger, add_primitive, add_all}
use deep_thought.Orchestrator.Ledger.Recency.{IsValid, add_all-IsValid}
use deep_thought.Orchestrator.Conductor.{
  Validated, valid, invalid, Raw, typed, payload, IngestResult, Conductor, rejection, add_each,
  last_error, validated, ingest_validated, ingest,
}

add_each-add_all :
    (l : Ledger) (n : ℕ) (ps : List Primitive) → add_each l n ps ≡ (add_all l ps, n + length ps)
unfolding add_each add_all
add_each-add_all l n [] = ground arith
add_each-add_all l n (p ∷ ps) = ground (arith, add_each-add_all (add_primitive l p) (n + 1) ps)

last_error-append : (es : List String) (e : String) → last_error (es ++ e ∷ []) ≡ some e
unfolding last_error
last_error-append [] e = refl
last_error-append (x ∷ []) e = refl
last_error-append (x ∷ y ∷ es) e = last_error-append (y ∷ es) e

-- The state after an envelope was accepted.
pub record Accepted (c : Conductor) (e : Envelope) (d : Conductor) (r : IngestResult) : Type 0 where
  pub accepted : r.accepted ≡ true
  pub outcome : r.outcome ≡ outcome_value e.outcome
  pub envelope : r.envelope ≡ some e
  pub counted : r.primitives_added ≡ length e.primitives
  pub pointer : r.detail_ref ≡ e.detail_ref
  pub ledger : d.ledger ≡ add_all c.ledger e.primitives
  pub hints : d.hints ≡ c.hints ++ e.next_step_hints
  pub errors : d.errors ≡ c.errors
  pub dispatched : d.dispatched ≡ c.dispatched

-- The state after a payload with `n` errors was rejected.
pub record Rejected (c : Conductor) (n : ℕ) (d : Conductor) (r : IngestResult) : Type 0 where
  pub accepted : r.accepted ≡ false
  pub outcome : r.outcome ≡ "error"
  pub envelope : r.envelope ≡ none
  pub reason : r.reason ≡ some (rejection n)
  pub ledger : d.ledger ≡ c.ledger
  pub hints : d.hints ≡ c.hints
  pub errors : d.errors ≡ c.errors ++ rejection n ∷ []
  pub dispatched : d.dispatched ≡ c.dispatched

-- What the conductor does with a payload that is read as `v`.
abbrev pub Ingested : Conductor → Validated → Conductor × IngestResult → Type 0
Ingested c (valid e) (d, r) = Accepted c e d r
Ingested c (invalid n) (d, r) = Rejected c n d r

Ingested-read :
    (c : Conductor) (v : Validated)
    → Ingested c v (
        let (errors, e) = validated c.errors v in ingest_validated (record c { errors = errors }) e)
unfolding validated ingest_validated
Ingested-read c (valid e) = rw (add_each-add_all c.ledger 0 e.primitives) (ground arith)
Ingested-read c (invalid n) = ground (arith, last_error-append c.errors (rejection n))

ledger-IsValid :
    (c : Conductor) (v : Validated) (r : Conductor × IngestResult)
    → Ingested c v r
    → IsValid c.ledger
    → IsValid r.0.ledger
ledger-IsValid c (valid e) r i h = rw i.ledger (add_all-IsValid c.ledger e.primitives h)
ledger-IsValid c (invalid n) r i h = rw i.ledger h

module _ (model_validate : Json → Validated) where
  abbrev pub reading : Raw → Validated
  reading (typed e) = valid e
  reading (payload p) = model_validate p

  -- An accepted envelope adds its primitives to the ledger and its hints to the list of hints; a
  -- rejected one adds one line to the error log, which is also the reason in the answer; neither
  -- changes anything else, and nothing is ever dispatched.
  pub ingest-Ingested :
      (c : Conductor) (raw : Raw) → Ingested c (reading raw) (ingest model_validate c raw)
  unfolding ingest
  ingest-Ingested c (typed e) = rw (add_each-add_all c.ledger 0 e.primitives) (ground arith)
  ingest-Ingested c (payload p) = Ingested-read c (model_validate p)

  -- A valid ledger stays valid, whatever a worker sends.
  pub ingest-IsValid :
      (c : Conductor) (raw : Raw)
      → IsValid c.ledger
      → IsValid (ingest model_validate c raw).0.ledger
  ingest-IsValid c raw v = ledger-IsValid c (reading raw) _ (ingest-Ingested c raw) v
