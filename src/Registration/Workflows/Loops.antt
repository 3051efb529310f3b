-- ===== src/Registration/Workflows/Loops.antt =====
-- Cycles of a validated definition (platform-plugins/data-postgres/src/registry_validation.rs).
use masonwing.Prelude.{
  ◌≡◌, subst, ◌∙◌, ◌⊎◌, inl, inr, Bool, true, false, ◌&&◌, ◌||◌, Option, some, List, [], ◌∷◌, arith,
  Any, ok, contains, Bool-cases, Option-cases, Text, text_eq, text_eq_iff,
}
use masonwing.Contracts.Wire.{WorkflowNode, WorkflowEdge, WorkflowDefinition, PluginManifest}
use masonwing.Kernel.Registry.{DependencyGraph, Resolution, plan, refused, stuck, resolve}
use masonwing.Kernel.Registry.Walks.{depends, IsWalk, head_or, here}
use masonwing.Kernel.Registry.Order.{IsOrdered}
use masonwing.Kernel.Registry.Resolve.{Explains, resolve_lem}
use masonwing.Worker.Interpreter.{find_node}
use masonwing.Registration.Workflows.{
  index_nodes, is_loop, is_declared, is_plan, all_resolve, empty_graph, validate_workflow,
}
use masonwing.Registration.Workflows.Graph.{HasEdge, unbounded_from-HasTargets, depends_edge}
use masonwing.Registration.Workflows.Nodes.{distinct_ids}
use masonwing.Registration.Workflows.Acyclic.{no_cycle}
use masonwing.Registration.Workflows.Laws.{
  IsChecked, found, nodes-IsKeyed, declared_ends, validate_workflow-IsChecked,
}

-- The first node of a list, or the one that follows the list.
abbrev first_or : List Text → Text → Text
first_or [] last = last
first_or (x ∷ _) last = x

-- The list, followed by `last`, goes along edges.
abbrev pub IsRoute : List WorkflowEdge → List Text → Text → Type 0
IsRoute edges [] last = Unit
IsRoute edges (x ∷ xs) last = HasEdge edges x (first_or xs last) × IsRoute edges xs last

-- The identifier of a node with an iteration guard.
abbrev pub IsBounded : List WorkflowNode → Text → Type 0
IsBounded nodes id = (n : WorkflowNode) × (find_node id nodes ≡ some n) × (is_loop n ≡ true)

abbrev IsPlain : List WorkflowNode → Text → Type 0
IsPlain nodes id = (n : WorkflowNode) × (find_node id nodes ≡ some n) × (is_loop n ≡ false)

IsBounded-or_IsPlain :
    (nodes : List WorkflowNode) (id : Text)
    → is_declared (find_node id nodes) ≡ true
    → IsBounded nodes id ⊎ IsPlain nodes id
IsBounded-or_IsPlain nodes id h = elim (Option-cases (find_node id nodes)) [
  | inl missing ↦ absurd (cc (h, missing))
  | inr (n, e) ↦ elim (Bool-cases (is_loop n)) [
    | inl loop ↦ inl (n, e, loop)
    | inr plain ↦ inr (n, e, plain)
  ]
]

-- What the plan of a node that is no loop tells.
planned :
    (graph : DependencyGraph) (nodes : List WorkflowNode) (id : Text)
    → all_resolve graph nodes ≡ true
    → IsPlain nodes id
    → (order : List Text) × IsOrdered graph [] order × (contains order id ≡ true)
unfolding all_resolve find_node
planned graph [] id h (n, e, plain) = absurd cc
planned graph (m ∷ rest) id h (n, e, plain) = elim (Bool-cases (text_eq m.id id)) [
  | inl same ↦
      let first : some m ≡ some n = rw same at e in
      let open_node : is_loop m ≡ false = cc (first, plain) in
      ordered m.id id ((text_eq_iff m.id id).0 same) (resolve graph m.id) (resolve_lem graph m.id)
        (resolves (is_loop m) (is_plan (resolve graph m.id)) (all_resolve graph rest) open_node h)
  | inr other ↦
      planned graph rest id
        (others (is_loop m || is_plan (resolve graph m.id)) (all_resolve graph rest) h)
        (n, rw other at e, plain)
]
  where
    resolves : (a b c : Bool) → a ≡ false → ((a || b) && c) ≡ true → b ≡ true
    resolves a b c k l = ground arith

    others : (a c : Bool) → (a && c) ≡ true → c ≡ true
    others a c k = ground arith

    ordered :
        (root id : Text)
        → root ≡ id
        → (r : Resolution) → Explains graph root r
        → is_plan r ≡ true
        → (order : List Text) × IsOrdered graph [] order × (contains order id ≡ true)
    ordered root id same (plan order) (whole, listed) k =
        (order, whole, subst (λ (x : Text). contains order x ≡ true) same ((listed root).1 here))
    ordered root id same (refused failure) h k = absurd cc
    ordered root id same stuck h k = absurd cc

module _ (d : WorkflowDefinition) (c : IsChecked d) where
  step :
      (u v : Text)
      → HasEdge d.edges u v
      → IsPlain d.nodes u
      → IsPlain d.nodes v
      → depends c.unbounded u v ≡ true
  step u v edge (a, found_a, open_a) (b, found_b, open_b) =
      depends_edge (index_nodes d.nodes []) d.edges c.unbounded u v a b (nodes-IsKeyed d c)
        (rw found_a at (
          unbounded_from-HasTargets (index_nodes d.nodes []) d.edges empty_graph d.nodes c.unbounded
            u (distinct_ids d.nodes c.keyed) c.built))
        open_a (found d c v ∙ found_b) open_b edge

  -- A route to a node that is no loop passes a loop or is a walk of the graph without loops.
  route :
      (xs : List Text) (last : Text)
      → IsRoute d.edges xs last
      → IsPlain d.nodes last
      → Any (IsBounded d.nodes) xs
        ⊎ (IsPlain d.nodes (first_or xs last) × IsWalk c.unbounded xs last)
  route [] last h plain = inr (plain, tt)
  route (x ∷ xs) last (edge, h) plain = elim (route xs last h plain) [
    | inl passed ↦ inl (inr passed)
    | inr (next, walked) ↦
        elim (IsBounded-or_IsPlain d.nodes x
          (declared_ends d c d.edges x (first_or xs last) c.joined edge).0) [
            | inl bounded ↦ inl (inl bounded)
            | inr open_node ↦ inr (open_node, (onward x xs last edge open_node next, walked))
          ]
  ]
    where
      onward :
          (x : Text) (xs : List Text) (last : Text)
          → HasEdge d.edges x (first_or xs last)
          → IsPlain d.nodes x
          → IsPlain d.nodes (first_or xs last)
          → depends c.unbounded x (head_or c.unbounded xs last) ≡ true
      onward x [] last edge a b = step x last edge a b
      onward x (y ∷ ys) last edge a b = step x y edge a b

  cycle-IsBounded :
      (x : Text) (xs : List Text) → IsRoute d.edges (x ∷ xs) x → Any (IsBounded d.nodes) (x ∷ xs)
  cycle-IsBounded x xs h =
      elim (IsBounded-or_IsPlain d.nodes x
        (declared_ends d c d.edges x (first_or xs x) c.joined h.0).0) [
          | inl bounded ↦ inl bounded
          | inr plain ↦ elim (route (x ∷ xs) x h plain) [
            | inl passed ↦ passed
            | inr (_, walked) ↦
                let (order, whole, listed) = planned c.unbounded d.nodes x c.planned plain in
                absurd (no_cycle c.unbounded order x xs whole listed walked)
          ]
        ]

module _ (catalog_valid : Bool) (schema_valid : WorkflowDefinition → Bool)
    (content_digest : WorkflowDefinition → Option Text) where
  -- In a definition that has passed the validation every closed route along the edges goes through a
  -- bounded loop.
  pub validate_workflow-IsBounded :
      (d : WorkflowDefinition) (manifest : PluginManifest) (x : Text) (xs : List Text)
      → validate_workflow catalog_valid schema_valid content_digest d manifest ≡ ok tt
      → IsRoute d.edges (x ∷ xs) x
      → Any (IsBounded d.nodes) (x ∷ xs)
  validate_workflow-IsBounded d manifest x xs valid =
      cycle-IsBounded d
        (validate_workflow-IsChecked catalog_valid schema_valid content_digest d manifest valid) x
        xs
