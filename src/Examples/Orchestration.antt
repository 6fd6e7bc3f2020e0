-- ===== src/Examples/Orchestration.antt =====
-- The ledger and the conductor at concrete inputs.
use deep_thought.Prelude.{◌≡◌, refl, none, List, [], ◌∷◌}
use deep_thought.Prelude.Text.{lower, contains}
use deep_thought.Schema.Json.{Json, null}
use deep_thought.Schema.Envelope.{Primitive, suspected}
use deep_thought.Orchestrator.Ledger.{
  Composition, Ledger, new, add_primitive, add_all, compositions, node,
}
use deep_thought.Orchestrator.Conductor.{Validated, invalid, typed, payload, Raw, Conductor, ingest}
use deep_thought.Orchestrator.Conductor
use deep_thought.Orchestrator.Conductor.Firewall.{Ingested, ingest-Ingested}

abbrev log_write : Primitive
log_write = record {
  kind = "write:logfile";
  target_locus = "a.php:1";
  preconditions = [];
  grants = "write:logfile" ∷ [];
  confidence = suspected;
  evidence_ref = none;
  finding_ref = "F-0001";
}

abbrev inclusion : Primitive
inclusion = record {
  kind = "exec:code";
  target_locus = "b.php:2";
  preconditions = "needs WRITE:LOGFILE" ∷ [];
  grants = "exec:code" ∷ [];
  confidence = suspected;
  evidence_ref = none;
  finding_ref = "F-0002";
}

-- a ledger with room for one node
abbrev small : Ledger
small = record { max_primitives = 1; nodes = [] }

abbrev arrivals : List Primitive
arrivals = log_write ∷ inclusion ∷ log_write ∷ []

small_keeps : (add_all small arrivals).nodes ≡ node log_write ∷ []
unfolding add_all add_primitive node
small_keeps = refl

abbrev pair : Ledger
pair = add_all new (log_write ∷ inclusion ∷ [])

log_inclusion :
    compositions pair
    ≡ record {
      frm = "F-0001:write:logfile@a.php:1";
      to = "F-0002:exec:code@b.php:2";
      via = "write:logfile";
    }
      ∷ []
unfolding compositions add_all add_primitive node lower contains
log_inclusion = refl

abbrev inclusion_edge : Composition
inclusion_edge = record {
  frm = "F-0001:write:logfile@a.php:1";
  to = "F-0002:exec:code@b.php:2";
  via = "write:logfile";
}

-- a reader that rejects every payload
abbrev reject : Json → Validated
reject j = invalid 3

ingest-Ingested_example :
    Ingested Conductor.new (invalid 3) (ingest reject Conductor.new (payload null))
ingest-Ingested_example = ingest-Ingested reject Conductor.new (payload null)
