-- ===== src/Orchestrator/Ledger.antt =====
-- The bounded primitive ledger and the exploit graph (src/deepthought/orchestrator/ledger.py). The
-- ordered dictionary is the list of its nodes, oldest first; a node holds its key.
pub mod Recency
pub mod Graph
use deep_thought.Prelude.{
  ℕ, String, ◌&◌, Bool, Option, none, some, List, [], ◌∷◌, ◌++◌, ◌==◌, any, first, length, ltb, map,
  if◌then◌else◌,
}
use deep_thought.Prelude.Text.{lower, contains}
use deep_thought.Schema.Envelope.{Primitive, confidence_value}

abbrev pub default_max_primitives : ℕ
default_max_primitives = 256

pub record PrimitiveNode : Type 0 where
  pub key : String
  pub finding_ref : String
  pub kind : String
  pub target_locus : String
  pub grants : List String
  pub preconditions : List String
  pub confidence : String

-- an edge of the exploit graph
pub record Composition : Type 0 where
  pub frm : String
  pub to : String
  pub via : String

pub record Ledger : Type 0 where
  pub max_primitives : ℕ
  pub nodes : List PrimitiveNode

abbrev pub new : Ledger
new = record { max_primitives = default_max_primitives; nodes = [] }

unfoldable pub node_key : Primitive → String
node_key p = p.finding_ref & (":" & (p.kind & ("@" & p.target_locus)))

unfoldable pub node : Primitive → PrimitiveNode
unfolding node_key
node p = record {
  key = node_key p;
  finding_ref = p.finding_ref;
  kind = p.kind;
  target_locus = p.target_locus;
  grants = p.grants;
  preconditions = p.preconditions;
  confidence = confidence_value p.confidence;
}

-- `del self._nodes[key]`, if the key is there
unfoldable pub delete : String → List PrimitiveNode → List PrimitiveNode
delete k [] = []
delete k (n ∷ ns) = if n.key == k then ns else n ∷ delete k ns

-- the `while` loop that evicts the oldest node
unfoldable pub evict : ℕ → List PrimitiveNode → List PrimitiveNode
evict max [] = []
evict max (n ∷ ns) = let rest = evict max ns in if ltb max (length (n ∷ ns)) then rest else n ∷ ns

-- `self._nodes[key] = node`, after the old node of that key is gone
unfoldable pub put : PrimitiveNode → List PrimitiveNode → List PrimitiveNode
unfolding delete
put n ns = delete n.key ns ++ n ∷ []

unfoldable pub add_primitive : Ledger → Primitive → Ledger
unfolding put evict
add_primitive l p = record l { nodes = evict l.max_primitives (put (node p) l.nodes) }

-- the loop over the primitives of an envelope
unfoldable pub add_all : Ledger → List Primitive → Ledger
add_all l [] = l
add_all l (p ∷ ps) = add_all (add_primitive l p) ps

unfoldable pub get : Ledger → String → Option PrimitiveNode
get l k = first (λ n. n.key == k) l.nodes

-- `any(token in pre.lower() for pre in dst.preconditions)`
abbrev pub meets : String → PrimitiveNode → Bool
meets grant dst = any (λ pre. contains (lower grant) (lower pre)) dst.preconditions

-- the three nested loops of `compositions`, the innermost first
unfoldable pub edges_to : PrimitiveNode → String → List PrimitiveNode → List Composition
edges_to src grant [] = []
edges_to src grant (dst ∷ ns) =
    let rest = edges_to src grant ns in
    if dst.key == src.key
    then rest
    else if meets grant dst
    then record { frm = src.key; to = dst.key; via = grant } ∷ rest
    else rest

unfoldable pub edges_via : PrimitiveNode → List PrimitiveNode → List String → List Composition
unfolding edges_to
edges_via src nodes [] = []
edges_via src nodes (grant ∷ grants) = edges_to src grant nodes ++ edges_via src nodes grants

unfoldable pub edges_from : List PrimitiveNode → List PrimitiveNode → List Composition
unfolding edges_via
edges_from nodes [] = []
edges_from nodes (src ∷ srcs) = edges_via src nodes src.grants ++ edges_from nodes srcs

unfoldable pub compositions : Ledger → List Composition
unfolding edges_from
compositions l = edges_from l.nodes l.nodes
