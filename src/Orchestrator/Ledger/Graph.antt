-- ===== src/Orchestrator/Ledger/Graph.antt =====
-- The edges of the exploit graph.
use deep_thought.Prelude.{String, ◌≡◌, true, false, List, ◌==◌, In}
use deep_thought.Orchestrator.Ledger.{PrimitiveNode, Composition, Ledger, meets}

abbrev edge : PrimitiveNode → PrimitiveNode → String → Composition
edge src dst grant = record { frm = src.key; to = dst.key; via = grant }

-- `e` leads from a node to another one that asks for what the first one grants.
pub record Composes (nodes : List PrimitiveNode) (e : Composition) : Type 0 where
  pub src : PrimitiveNode
  pub dst : PrimitiveNode
  pub has_src : In src nodes
  pub has_dst : In dst nodes
  pub grants : In e.via src.grants
  pub other : (dst.key == src.key) ≡ false
  pub met : meets e.via dst ≡ true
  pub frm : e.frm ≡ src.key
  pub to : e.to ≡ dst.key

-- the same for one source and one grant
record Target (src : PrimitiveNode) (grant : String) (nodes : List PrimitiveNode) (e : Composition)
    : Type 0 where
  dst : PrimitiveNode
  has_dst : In dst nodes
  other : (dst.key == src.key) ≡ false
  met : meets grant dst ≡ true
  is_edge : edge src dst grant ≡ e
