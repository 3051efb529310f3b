-- ===== src/Registration/Workflows/Nodes.antt =====
-- The map of the nodes of a definition against the list of them
-- (platform-plugins/data-postgres/src/registry_validation.rs).
use masonwing.Prelude.{
  ◌+◌, ◌≤◌, ◌≡◌, refl, sym, subst, ◌∙◌, ◌≢◌, inl, inr, Option, none, some, List, [], ◌∷◌, arith,
  length, map_insert, map_get, map_get-insert, if◌then◌else◌, Bool-cases, Text, text_eq,
  text_eq_iff, text_eq_refl,
}
use masonwing.Contracts.Wire.{WorkflowNode}
use masonwing.Worker.Interpreter.{find_node}
use masonwing.Registration.Workflows.{NodeMap, index_nodes}
use masonwing.Registration.Workflows.Graph.{HasDistinctIds}

abbrev or_node : Option WorkflowNode → Option WorkflowNode → Option WorkflowNode
or_node (some n) other = some n
or_node none other = other

length-map_insert :
    (id : Text) (n : WorkflowNode) (m : NodeMap) → length (map_insert id n m) ≤ length m + 1
unfolding map_insert
length-map_insert id n [] = omega arith
length-map_insert id n ((k, v) ∷ m) = ground (arith, length-map_insert id n m)

-- An insertion that makes the map longer was of a new key.
length-map_insert_new :
    (id : Text) (n : WorkflowNode) (m : NodeMap)
    → length (map_insert id n m) ≡ length m + 1
    → map_get id m ≡ none
unfolding map_insert map_get
length-map_insert_new id n [] h = refl
length-map_insert_new id n ((k, v) ∷ m) h = ground (arith, length-map_insert_new id n m)

length-index_nodes :
    (nodes : List WorkflowNode) (m : NodeMap)
    → length (index_nodes nodes m) ≤ length m + length nodes
unfolding index_nodes
length-index_nodes [] m = omega arith
length-index_nodes (n ∷ rest) m =
    omega (arith, length-index_nodes rest (map_insert n.id n m), length-map_insert n.id n m)

-- When no two nodes share an identifier, the map finds what the list finds.
index_nodes_found :
    (nodes : List WorkflowNode) (m : NodeMap) (id : Text)
    → length (index_nodes nodes m) ≡ length m + length nodes
    → (map_get id (index_nodes nodes m) ≡ or_node (find_node id nodes) (map_get id m))
      × (map_get id m ≢ none → find_node id nodes ≡ none)
unfolding index_nodes find_node
index_nodes_found [] m id h = (refl, λ _. refl)
index_nodes_found (n ∷ rest) m id h =
    let longer : length (map_insert n.id n m) ≡ length m + 1 =
      omega (arith, h, length-index_nodes rest (map_insert n.id n m), length-map_insert n.id n m) in
    let new : map_get n.id m ≡ none = length-map_insert_new n.id n m longer in
    let (found, absent) =
      index_nodes_found rest (map_insert n.id n m) id (omega (arith, h, longer)) in
    let here : map_get id (map_insert n.id n m)
        ≡ (if text_eq n.id id then some n else map_get id m) =
      map_get-insert n.id id n m in
    elim (Bool-cases (text_eq n.id id)) [
      | inl same ↦
          let e : n.id ≡ id = (text_eq_iff n.id id).0 same in
          let stored : map_get id (map_insert n.id n m) ≡ some n = here ∙ rw same in
          rw same (
            found ∙ rw (absent (λ k. cc (k, stored)), stored) refl,
            λ k. absurd (k (subst (λ (x : Text). map_get x m ≡ none) e new)),
          )
      | inr other ↦
          let stored : map_get id (map_insert n.id n m) ≡ map_get id m = here ∙ rw other in
          rw other (found ∙ rw stored refl, λ k. absent (λ e. k (sym stored ∙ e)))
    ]

pub map_get-index_nodes :
    (nodes : List WorkflowNode) (id : Text)
    → length (index_nodes nodes []) ≡ length nodes
    → map_get id (index_nodes nodes []) ≡ find_node id nodes
unfolding map_get
map_get-index_nodes nodes id h =
    (index_nodes_found nodes [] id (omega (arith, h))).0 ∙ no_other (find_node id nodes)
  where
    no_other : (o : Option WorkflowNode) → or_node o none ≡ o
    no_other none = refl
    no_other (some n) = refl

-- The node that is found has the identifier that was looked for.
pub find_node_id :
    (nodes : List WorkflowNode) (id : Text) (n : WorkflowNode)
    → find_node id nodes ≡ some n
    → n.id ≡ id
unfolding find_node
find_node_id [] id n h = absurd cc
find_node_id (x ∷ rest) id n h = ground (arith, text_eq_iff x.id id, find_node_id rest id n)

index_nodes-HasDistinctIds :
    (nodes : List WorkflowNode) (m : NodeMap)
    → length (index_nodes nodes m) ≡ length m + length nodes
    → HasDistinctIds nodes
unfolding index_nodes
index_nodes-HasDistinctIds [] m h = tt
index_nodes-HasDistinctIds (n ∷ rest) m h =
    let longer : length (map_insert n.id n m) ≡ length m + 1 =
      omega (arith, h, length-index_nodes rest (map_insert n.id n m), length-map_insert n.id n m) in
    let fits : length (index_nodes rest (map_insert n.id n m))
        ≡ length (map_insert n.id n m) + length rest =
      omega (arith, h, longer) in
    let here : map_get n.id (map_insert n.id n m) ≡ some n =
      map_get-insert n.id n.id n m ∙ rw (text_eq_refl n.id) in
    (
      (index_nodes_found rest (map_insert n.id n m) n.id fits).1 (λ e. cc (e, here)),
      index_nodes-HasDistinctIds rest (map_insert n.id n m) fits,
    )

pub distinct_ids :
    (nodes : List WorkflowNode)
    → length (index_nodes nodes []) ≡ length nodes
    → HasDistinctIds nodes
distinct_ids nodes h = index_nodes-HasDistinctIds nodes [] (omega (arith, h))
