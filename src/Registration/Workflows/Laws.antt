-- ===== src/Registration/Workflows/Laws.antt =====
-- What a validated definition guarantees to its runs
-- (platform-plugins/data-postgres/src/registry_validation.rs, crates/worker/src/run_interpreter.rs).
use masonwing.Prelude.{
  ℕ, zero, suc, ◌≡◌, sym, ap, subst, ◌∙◌, inl, inr, Bool, true, ◌&&◌, Option, none, some, List, [],
  ◌∷◌, arith, length, All, map_get, ok, err, guard, bind_ok, guard_passed, is_subset, ◌==◌,
  Option-cases, Text, text_eq_iff,
}
use masonwing.Contracts.Wire.{WorkflowNode, WorkflowEdge, WorkflowDefinition, PluginManifest}
use masonwing.Kernel.Registry.{DependencyGraph}
use masonwing.Worker.Interpreter.{
  find_node, node, find_edge, successor, continuation, walk, unmodeled_branch_edge,
}
use masonwing.Registration.Failures.{workflow_invalid, catalog_invalid}
use masonwing.Registration.Workflows.{
  NodeMap, index_nodes, nodes_fit, unbounded_from, edges_fit, is_declared, is_digest, all_resolve,
  empty_graph, validate_graph, validate_workflow,
}
use masonwing.Registration.Workflows.Graph.{IsKeyed, HasEdge, IsJoined, edges_fit-IsJoined}
use masonwing.Registration.Workflows.Nodes.{map_get-index_nodes, find_node_id}

-- What the checks of the graph have found.
pub record IsChecked (d : WorkflowDefinition) : Type 0 where
  pub unbounded : DependencyGraph
  pub keyed : length (index_nodes d.nodes []) ≡ length d.nodes
  pub entry : is_declared (find_node d.entry_node d.nodes) ≡ true
  pub built : unbounded_from (index_nodes d.nodes []) d.edges empty_graph d.nodes ≡ ok unbounded
  pub joined : All (IsJoined (index_nodes d.nodes [])) d.edges
  pub planned : all_resolve unbounded d.nodes ≡ true

module _ (d : WorkflowDefinition) (manifest : PluginManifest) where
  validate_graph-IsChecked : validate_graph d manifest ≡ ok tt → IsChecked d
  unfolding validate_graph
  validate_graph-IsChecked h =
      let nodes : NodeMap = index_nodes d.nodes [] in
      let (u, first, h1) =
        bind_ok
          (guard (length nodes == length d.nodes && is_declared (map_get d.entry_node nodes))
            workflow_invalid)
          _ tt h in
      let (_, _, h2) =
        bind_ok
          (guard (is_subset d.required_actions manifest.requested_capabilities) workflow_invalid) _
          tt h1 in
      let (_, _, h3) = bind_ok (guard (nodes_fit d manifest d.nodes) workflow_invalid) _ tt h2 in
      let (unbounded, made, h4) =
        bind_ok (unbounded_from nodes d.edges empty_graph d.nodes) _ tt h3 in
      let (w, fits, h5) = bind_ok (guard (edges_fit nodes [] d.edges) workflow_invalid) _ tt h4 in
      let sized =
        guard_passed (length nodes == length d.nodes && is_declared (map_get d.entry_node nodes))
          workflow_invalid u first in
      let whole : length (index_nodes d.nodes []) ≡ length d.nodes = size sized in
      record {
        unbounded = unbounded;
        keyed = whole;
        entry =
            subst (λ (o : Option WorkflowNode). is_declared o ≡ true)
              (map_get-index_nodes d.nodes d.entry_node whole) (second sized);
        built = made;
        joined =
            edges_fit-IsJoined nodes [] d.edges
              (guard_passed (edges_fit nodes [] d.edges) workflow_invalid w fits);
        planned = guard_passed (all_resolve unbounded d.nodes) workflow_invalid tt h5;
      }
    where
      size :
          (length (index_nodes d.nodes []) == length d.nodes
              && is_declared (map_get d.entry_node (index_nodes d.nodes [])))
            ≡ true
          → length (index_nodes d.nodes []) ≡ length d.nodes
      size k = ground arith

      second :
          (length (index_nodes d.nodes []) == length d.nodes
              && is_declared (map_get d.entry_node (index_nodes d.nodes [])))
            ≡ true
          → is_declared (map_get d.entry_node (index_nodes d.nodes [])) ≡ true
      second k = ground arith

module _ (d : WorkflowDefinition) (c : IsChecked d) where
  pub found : (id : Text) → map_get id (index_nodes d.nodes []) ≡ find_node id d.nodes
  found id = map_get-index_nodes d.nodes id c.keyed

  pub nodes-IsKeyed : IsKeyed (index_nodes d.nodes [])
  nodes-IsKeyed id n h = find_node_id d.nodes id n (sym (found id) ∙ h)

  pub declared_ends :
      (edges : List WorkflowEdge) (u v : Text)
      → All (IsJoined (index_nodes d.nodes [])) edges
      → HasEdge edges u v
      → (is_declared (find_node u d.nodes) ≡ true) × (is_declared (find_node v d.nodes) ≡ true)
  declared_ends [] u v h edge = absurd edge
  declared_ends (e ∷ rest) u v ((from_ok, to_ok), h) (inl (from, to)) = (
    subst (λ (o : Option WorkflowNode). is_declared o ≡ true)
        (ap (λ (x : Text). map_get x (index_nodes d.nodes [])) from ∙ found u) from_ok,
    subst (λ (o : Option WorkflowNode). is_declared o ≡ true)
        (ap (λ (x : Text). map_get x (index_nodes d.nodes [])) to ∙ found v) to_ok,
  )
  declared_ends (e ∷ rest) u v (_, h) (inr edge) = declared_ends rest u v h edge

  find_edge-HasEdge :
      (edges : List WorkflowEdge) (from condition to : Text)
      → find_edge from condition edges ≡ some to
      → HasEdge edges from to
  unfolding find_edge
  find_edge-HasEdge [] from condition to h = absurd cc
  find_edge-HasEdge (e ∷ rest) from condition to h =
      ground (arith, text_eq_iff e.from from, find_edge-HasEdge rest from condition to)

  successor_declared :
      (current next : Text)
      → successor d current ≡ some next
      → is_declared (find_node next d.nodes) ≡ true
  unfolding successor
  successor_declared current next h = by_node (node d current) h
    where
      by_node :
          (o : Option WorkflowNode)
          → (elim o [ none ↦ none | some n ↦ find_edge current (continuation n) d.edges ])
            ≡ some next
          → is_declared (find_node next d.nodes) ≡ true
      by_node none e = absurd cc
      by_node (some n) e =
          (declared_ends d.edges current next c.joined
            (find_edge-HasEdge d.edges current (continuation n) next e)).1

  -- A traversal that began at a declared node can stop for one reason only.
  pub walk_stop :
      (rounds : ℕ) (current : Text) (reason node_id : Text)
      → is_declared (find_node current d.nodes) ≡ true
      → walk d rounds current ≡ err (reason, node_id)
      → reason ≡ unmodeled_branch_edge
  unfolding walk node
  walk_stop zero current reason node_id known h = elim (Option-cases (find_node current d.nodes)) [
    | inl missing ↦ absurd (cc (known, missing))
    | inr (n, e) ↦ absurd (ground arith)
  ]
  walk_stop (suc rounds) current reason node_id known h =
      elim (Option-cases (find_node current d.nodes)) [
        | inl missing ↦ absurd (cc (known, missing))
        | inr (n, e) ↦ elim (Option-cases (successor d current)) [
          | inl stuck ↦ ground arith
          | inr (next, follows) ↦
              let next_known = successor_declared current next follows in
              elim (Option-cases (find_node next d.nodes)) [
                | inl missing ↦ absurd (cc (next_known, missing))
                | inr (m, g) ↦ ground (arith, walk_stop rounds next reason node_id next_known)
              ]
        ]
      ]

module _ (catalog_valid : Bool) (schema_valid : WorkflowDefinition → Bool)
    (content_digest : WorkflowDefinition → Option Text) (d : WorkflowDefinition)
    (manifest : PluginManifest) where
  pub validate_workflow-IsChecked :
      validate_workflow catalog_valid schema_valid content_digest d manifest ≡ ok tt → IsChecked d
  unfolding validate_workflow
  validate_workflow-IsChecked h =
      let (_, _, h1) = bind_ok (guard catalog_valid catalog_invalid) _ tt h in
      let (_, _, h2) = bind_ok (guard (schema_valid d) workflow_invalid) _ tt h1 in
      let (_, _, h3) =
        bind_ok (guard (is_digest (content_digest d) d.digest) workflow_invalid) _ tt h2 in
      validate_graph-IsChecked d manifest h3
