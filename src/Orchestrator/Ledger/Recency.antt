-- ===== src/Orchestrator/Ledger/Recency.antt =====
-- The bounded ledger against an unbounded one.
use deep_thought.Prelude.{
  if_ind, ◌⊎◌, ℕ, ◌≤◌, String, ◌≡◌, refl, Bool, false, List, [], ◌∷◌, ◌++◌, ◌==◌, eq_iff, arith,
  any, length, ltb,
}
use deep_thought.Schema.Envelope.{Primitive}
use deep_thought.Orchestrator.Ledger.{
  PrimitiveNode, Ledger, node, delete, evict, put, add_primitive, add_all,
}

-- `k in nodes`
abbrev has : String → List PrimitiveNode → Bool
has k ns = any (λ n. n.key == k) ns

-- One node for a key.
abbrev pub Distinct : List PrimitiveNode → Type 0
Distinct [] = Unit
Distinct (n ∷ ns) = (has n.key ns ≡ false) × Distinct ns

length-evict-le : (max : ℕ) (ns : List PrimitiveNode) → length (evict max ns) ≤ max
unfolding evict
length-evict-le max [] = omega arith
length-evict-le max (n ∷ ns) = ground (arith, length-evict-le max ns)

-- Adding a primitive leaves at most as many nodes as the bound allows, whatever was there.
pub length-add_primitive :
    (l : Ledger) (p : Primitive) → length (add_primitive l p).nodes ≤ l.max_primitives
unfolding add_primitive
length-add_primitive l p = length-evict-le l.max_primitives (put (node p) l.nodes)

has-evict :
    (k : String) (max : ℕ) (ns : List PrimitiveNode)
    → has k ns ≡ false
    → has k (evict max ns) ≡ false
unfolding evict
has-evict k max [] h = refl
has-evict k max (n ∷ ns) h = ground (arith, has-evict k max ns)

has-delete_ne :
    (j k : String) (ns : List PrimitiveNode) → has j ns ≡ false → has j (delete k ns) ≡ false
unfolding delete
has-delete_ne j k [] h = refl
has-delete_ne j k (n ∷ ns) h = ground (arith, has-delete_ne j k ns)

has-delete : (k : String) (ns : List PrimitiveNode) → Distinct ns → has k (delete k ns) ≡ false
unfolding delete
has-delete k [] d = refl
has-delete k (n ∷ ns) d = ground (arith, has-delete k ns, eq_iff n.key k)

has-append :
    (k : String) (ns ms : List PrimitiveNode)
    → has k ns ≡ false
    → has k ms ≡ false
    → has k (ns ++ ms) ≡ false
has-append k [] ms h g = g
has-append k (n ∷ ns) ms h g = ground (arith, has-append k ns ms)

Distinct-delete : (k : String) (ns : List PrimitiveNode) → Distinct ns → Distinct (delete k ns)
unfolding delete
Distinct-delete k [] d = tt
Distinct-delete k (n ∷ ns) d =
    if_ind Distinct (n.key == k) ns (n ∷ delete k ns) (λ _. d.1)
      (λ _. (has-delete_ne n.key k ns d.0, Distinct-delete k ns d.1))

Distinct-evict : (max : ℕ) (ns : List PrimitiveNode) → Distinct ns → Distinct (evict max ns)
unfolding evict
Distinct-evict max [] d = tt
Distinct-evict max (n ∷ ns) d =
    if_ind Distinct (ltb max (length (n ∷ ns))) (evict max ns) (n ∷ ns)
      (λ _. Distinct-evict max ns d.1) (λ _. d)

Distinct-append :
    (n : PrimitiveNode) (ns : List PrimitiveNode)
    → has n.key ns ≡ false
    → Distinct ns
    → Distinct (ns ++ n ∷ [])
Distinct-append n [] h d = (refl, tt)
Distinct-append n (m ∷ ns) h d = (
  has-append m.key ns (n ∷ []) d.0 (ground (arith, eq_iff m.key n.key, eq_iff n.key m.key)),
  Distinct-append n ns (ground arith) d.1,
)

Distinct-put : (n : PrimitiveNode) (ns : List PrimitiveNode) → Distinct ns → Distinct (put n ns)
unfolding put
Distinct-put n ns d = Distinct-append n _ (has-delete n.key ns d) (Distinct-delete n.key ns d)

-- The unbounded ledger: every primitive that came, by its last coming.
pub replay : List PrimitiveNode → List Primitive → List PrimitiveNode
replay ns [] = ns
replay ns (p ∷ ps) = replay (put (node p) ns) ps

-- An eviction keeps the end of the list, and the bound is full if anything is lost.
pub record Newest (max : ℕ) (all kept : List PrimitiveNode) : Type 0 where
  pub lost : List PrimitiveNode
  pub split : all ≡ lost ++ kept
  pub full : (lost ≡ []) ⊎ (length kept ≡ max)

-- What holds of a ledger between two envelopes.
pub record IsValid (l : Ledger) : Type 0 where
  pub distinct : Distinct l.nodes
  pub within : length l.nodes ≤ l.max_primitives

-- Adding a primitive keeps one node for a key and the bound.
pub add_primitive-IsValid : (l : Ledger) (p : Primitive) → IsValid l → IsValid (add_primitive l p)
unfolding add_primitive
add_primitive-IsValid l p v =
    let added = put (node p) l.nodes in
    record {
      distinct = Distinct-evict l.max_primitives added (Distinct-put (node p) l.nodes v.distinct);
      within = length-evict-le l.max_primitives added;
    }

pub add_all-IsValid : (l : Ledger) (ps : List Primitive) → IsValid l → IsValid (add_all l ps)
unfolding add_all
add_all-IsValid l [] v = v
add_all-IsValid l (p ∷ ps) v = add_all-IsValid (add_primitive l p) ps (add_primitive-IsValid l p v)
