-- ===== src/Registration/Workflows/Graph.antt =====
-- The graph without loops, and the edges of a definition
-- (platform-plugins/data-postgres/src/registry_validation.rs).
use masonwing.Prelude.{
  ◌≡◌, refl, sym, ap, subst, ◌∙◌, inl, inr, Bool, true, false, not, ◌&&◌, Option, none, some, List,
  [], ◌∷◌, ◌++◌, arith, All, Any, map_get, Result, ok, err, ◌>>=◌, bind_ok, ok-injective, contains,
  contains-append, contains-head, Bool-cases, Text, text, text_eq, text_eq_iff,
}
use masonwing.Contracts.Wire.{WorkflowNode, WorkflowEdge}
use masonwing.Contracts.Values.{ValueError, validate_opaque_identifier, try_from}
use masonwing.Kernel.Registry.{DependencyGraph, insert, get}
use masonwing.Kernel.Registry.Walks.{depends, depends_entry}
use masonwing.Worker.Interpreter.{find_node}
use masonwing.Registration.Dependencies.Edges.{get-insert}
use masonwing.Registration.Workflows.{
  NodeMap, is_loop, plugin_id, id_or_failure, target_of, targets, unbounded_from, is_declared,
  edges_fit, has_branch,
}

plugin_id_same : (id result : Text) → plugin_id id ≡ ok result → result ≡ id
unfolding plugin_id try_from
plugin_id_same id result h = by_validity (validate_opaque_identifier (text "PluginId") id) h
  where
    by_validity :
        (v : Result (Unit {0}) ValueError)
        → id_or_failure (v >>= λ _. ok id) ≡ ok result
        → result ≡ id
    by_validity (ok u) e = sym (ok-injective id result e)
    by_validity (err x) e = absurd cc

-- The map gives a node under its own identifier.
abbrev pub IsKeyed : NodeMap → Type 0
IsKeyed m = (id : Text) (n : WorkflowNode) → map_get id m ≡ some n → n.id ≡ id

abbrev pub HasEdge : List WorkflowEdge → Text → Text → Type 0
HasEdge edges u v = Any (λ e. (e.from ≡ u) × (e.to ≡ v)) edges

target_of-listed :
    (n : WorkflowNode) (here : List Text)
    → is_loop n ≡ false
    → target_of (some n) ≡ ok here
    → contains here n.id ≡ true
unfolding target_of
target_of-listed n here open_node h =
    let (id, made, listed) =
      bind_ok (plugin_id n.id) (λ id. ok (id ∷ [])) here (rw open_node at h) in
    subst (λ (xs : List Text). contains xs n.id ≡ true) (ok-injective (id ∷ []) here listed)
      (subst (λ (x : Text). contains (x ∷ []) n.id ≡ true) (sym (plugin_id_same n.id id made))
        (contains-head n.id []))

-- The parts of the targets when the first edge leaves the node.
targets_parts :
    (m : NodeMap) (e : WorkflowEdge) (rest : List WorkflowEdge) (u : Text) (next : List Text)
    → text_eq e.from u ≡ true
    → targets m u (e ∷ rest) ≡ ok next
    → (here : List Text) × (more : List Text) × (target_of (map_get e.to m) ≡ ok here)
      × (targets m u rest ≡ ok more)
      × (here ++ more ≡ next)
unfolding targets
targets_parts m e rest u next leaves h =
    let (here, first, h1) = bind_ok (target_of (map_get e.to m)) _ next (rw leaves at h) in
    let (more, later, h2) = bind_ok (targets m u rest) _ next h1 in
    (here, more, first, later, ok-injective (here ++ more) next h2)

targets_skip :
    (m : NodeMap) (e : WorkflowEdge) (rest : List WorkflowEdge) (u : Text)
    → text_eq e.from u ≡ false
    → targets m u (e ∷ rest) ≡ targets m u rest
unfolding targets
targets_skip m e rest u other = rw other

-- Every edge to a declared node that is no loop is among the targets.
targets-listed :
    (m : NodeMap) (edges : List WorkflowEdge) (u v : Text) (n : WorkflowNode) (next : List Text)
    → IsKeyed m
    → map_get v m ≡ some n
    → is_loop n ≡ false
    → HasEdge edges u v
    → targets m u edges ≡ ok next
    → contains next v ≡ true
targets-listed m [] u v n next keyed found open_node edge h = absurd edge
targets-listed m (e ∷ rest) u v n next keyed found open_node (inl (from, to)) h =
    let (here, more, first, later, whole) =
      targets_parts m e rest u next ((text_eq_iff e.from u).1 from) h in
    let listed : contains here n.id ≡ true = target_of-listed n here open_node (
      subst (λ (o : Option WorkflowNode). target_of o ≡ ok here)
        (ap (λ (x : Text). map_get x m) to ∙ found) first) in
    subst (λ (xs : List Text). contains xs v ≡ true) whole
      (contains-append here more v
        ∙ rw (subst (λ (x : Text). contains here x ≡ true) (keyed v n found) listed) refl)
targets-listed m (e ∷ rest) u v n next keyed found open_node (inr edge) h =
    elim (Bool-cases (text_eq e.from u)) [
      | inl leaves ↦
          let (here, more, first, later, whole) = targets_parts m e rest u next leaves h in
          let listed = targets-listed m rest u v n more keyed found open_node edge later in
          subst (λ (xs : List Text). contains xs v ≡ true) whole
            (contains-append here more v ∙ ground arith)
      | inr other ↦
          targets-listed m rest u v n next keyed found open_node edge
            (sym (targets_skip m e rest u other) ∙ h)
    ]

-- No identifier is repeated.
abbrev pub HasDistinctIds : List WorkflowNode → Type 0
HasDistinctIds [] = Unit
HasDistinctIds (n ∷ rest) = (find_node n.id rest ≡ none) × HasDistinctIds rest

module _ (m : NodeMap) (edges : List WorkflowEdge) where
  -- The entry of a node in the graph that the loop leaves: its targets, if the loop came to it and it
  -- is no loop.
  abbrev pub HasTargets : DependencyGraph → DependencyGraph → Text → Option WorkflowNode → Type 0
  HasTargets before after id none = get after id ≡ get before id
  HasTargets before after id (some n) =
      is_loop n ≡ false
      → (next : List Text) × (get after id ≡ some next) × (targets m id edges ≡ ok next)

  unbounded_loop :
      (graph : DependencyGraph) (n : WorkflowNode) (rest : List WorkflowNode)
      → is_loop n ≡ true
      → unbounded_from m edges graph (n ∷ rest) ≡ unbounded_from m edges graph rest
  unfolding unbounded_from
  unbounded_loop graph n rest h = rw h

  unbounded_node :
      (graph : DependencyGraph) (n : WorkflowNode) (rest : List WorkflowNode)
      (last : DependencyGraph)
      → is_loop n ≡ false
      → unbounded_from m edges graph (n ∷ rest) ≡ ok last
      → (next : List Text) × (targets m n.id edges ≡ ok next)
        × (unbounded_from m edges (insert graph n.id next) rest ≡ ok last)
  unfolding unbounded_from
  unbounded_node graph n rest last open_node h =
      let (next, made, h1) = bind_ok (targets m n.id edges) _ last (rw open_node at h) in
      let (id, named, h2) = bind_ok (plugin_id n.id) _ last h1 in
      (
        next,
        made,
        subst (λ (x : Text). unbounded_from m edges (insert graph x next) rest ≡ ok last)
            (plugin_id_same n.id id named) h2,
      )

  HasTargets-kept :
      (graph middle last : DependencyGraph) (id : Text) (o : Option WorkflowNode)
      → get middle id ≡ get graph id
      → HasTargets middle last id o
      → HasTargets graph last id o
  HasTargets-kept graph middle last id none e h = h ∙ e
  HasTargets-kept graph middle last id (some n) e h = h

  pub unbounded_from-HasTargets :
      (graph : DependencyGraph) (nodes : List WorkflowNode) (last : DependencyGraph) (id : Text)
      → HasDistinctIds nodes
      → unbounded_from m edges graph nodes ≡ ok last
      → HasTargets graph last id (find_node id nodes)
  unfolding find_node unbounded_from
  unbounded_from-HasTargets graph [] last id distinct h =
      ap (λ (g : DependencyGraph). get g id) (sym (ok-injective graph last h))
  unbounded_from-HasTargets graph (n ∷ rest) last id (new, distinct) h =
      elim (Bool-cases (is_loop n)) [
        | inl loop ↦
            let later =
              unbounded_from-HasTargets graph rest last id distinct
                (sym (unbounded_loop graph n rest loop) ∙ h) in
            elim (Bool-cases (text_eq n.id id)) [
              | inl same ↦ rw same (λ open_node. absurd (cc (loop, open_node)))
              | inr other ↦ rw other later
            ]
        | inr open_node ↦
            let (next, made, h1) = unbounded_node graph n rest last open_node h in
            let later =
              unbounded_from-HasTargets (insert graph n.id next) rest last id distinct h1 in
            elim (Bool-cases (text_eq n.id id)) [
              | inl same ↦
                  let e : n.id ≡ id = (text_eq_iff n.id id).0 same in
                  let absent : find_node id rest ≡ none = rw e at new in
                  rw same (λ _. (
                    next,
                    rw absent at later ∙ (get-insert graph n.id id next ∙ rw same),
                    subst (λ (x : Text). targets m x edges ≡ ok next) e made,
                  ))
              | inr other ↦ rw other (
                  HasTargets-kept graph (insert graph n.id next) last id (find_node id rest)
                    (get-insert graph n.id id next ∙ rw other) later)
            ]
      ]

  -- An edge between declared nodes that are no loops is one of the graph.
  pub depends_edge :
      (last : DependencyGraph) (u v : Text) (a b : WorkflowNode)
      → IsKeyed m
      → HasTargets (record { dependencies = [] }) last u (some a)
      → is_loop a ≡ false
      → map_get v m ≡ some b
      → is_loop b ≡ false
      → HasEdge edges u v
      → depends last u v ≡ true
  depends_edge last u v a b keyed entry open_a found open_b edge =
      let (next, listed, made) = entry open_a in
      depends_entry last u v next listed
        (targets-listed m edges u v b next keyed found open_b edge made)

-- Both ends of an edge are declared.
abbrev pub IsJoined : NodeMap → WorkflowEdge → Type 0
IsJoined m e = (is_declared (map_get e.from m) ≡ true) × (is_declared (map_get e.to m) ≡ true)

pub edges_fit-IsJoined :
    (m : NodeMap) (before edges : List WorkflowEdge)
    → edges_fit m before edges ≡ true
    → All (IsJoined m) edges
unfolding edges_fit
edges_fit-IsJoined m before [] h = tt
edges_fit-IsJoined m before (e ∷ rest) h =
    let parts =
      joined (is_declared (map_get e.from m)) (is_declared (map_get e.to m))
        (not (has_branch before e)) (edges_fit m (e ∷ before) rest) h in
    ((parts.0, parts.1), edges_fit-IsJoined m (e ∷ before) rest parts.2)
  where
    joined : (a b c d : Bool) → (a && b && c && d) ≡ true → (a ≡ true) × (b ≡ true) × (d ≡ true)
    joined a b c d k = ground arith
