-- ===== src/Registration/Dependencies/Merge.antt =====
-- Plans that are merged into one order (platform-plugins/data-postgres/src/registry_validation.rs).
use masonwing.Prelude.{
  ◌≡◌, refl, ap, subst, ◌∙◌, ◌≢◌, inl, inr, true, ◌||◌, none, List, [], ◌∷◌, ◌++◌, arith, map_get,
  ok, bind_ok, ok-injective, contains, contains-append, contains-singleton, is_subset_mono,
  Bool-cases, Text, text_eq, text_eq_iff,
}
use masonwing.Kernel.Registry.{
  DependencyGraph, Resolution, plan, refused, stuck, resolve, dependency_cycle,
  dependency_unsatisfied,
}
use masonwing.Kernel.Registry.Walks.{here}
use masonwing.Kernel.Registry.Order.{IsOrdered, IsOrdered-concat}
use masonwing.Kernel.Registry.Resolve.{Explains, resolve_lem}
use masonwing.Registration.Dependencies.{Manifests, add_new, plan_or_failure, order_from}

contains-concat :
    (xs : List Text) (p a : Text) → contains (xs ++ p ∷ []) a ≡ (contains xs a || text_eq p a)
contains-concat xs p a = rw (contains-append xs (p ∷ []) a, contains-singleton p a) refl

contains_same :
    (xs : List Text) (p a : Text) → contains xs p ≡ true → text_eq p a ≡ true → contains xs a ≡ true
contains_same xs p a m same =
    subst (λ (x : Text). contains xs x ≡ true) ((text_eq_iff p a).0 same) m

-- What is listed after a merge is what was listed and what the plan lists.
pub contains-add_new :
    (ordered order : List Text) (a : Text)
    → contains (add_new ordered order) a ≡ (contains ordered a || contains order a)
unfolding add_new contains
contains-add_new ordered [] a = ground arith
contains-add_new ordered (p ∷ rest) a = elim (Bool-cases (contains ordered p)) [
  | inl old ↦ rw old (contains-add_new ordered rest a ∙ ground (arith, contains_same ordered p a))
  | inr new ↦
      rw new
        (contains-add_new (ordered ++ p ∷ []) rest a ∙ ground (arith, contains-concat ordered p a))
]

module _ (graph : DependencyGraph) where
  -- A plan is merged into an order without breaking it. `before` is the part of the plan that was
  -- merged.
  pub add_new-IsOrdered :
      (ordered before order : List Text)
      → IsOrdered graph [] ordered
      → IsOrdered graph before order
      → ((a : Text) → contains before a ≡ true → contains ordered a ≡ true)
      → IsOrdered graph [] (add_new ordered order)
  unfolding add_new
  add_new-IsOrdered ordered before [] h k merged = h
  add_new-IsOrdered ordered before (p ∷ rest) h (ready, k) merged =
      elim (Bool-cases (contains ordered p)) [
        | inl old ↦ rw old (
            add_new-IsOrdered ordered (before ++ p ∷ []) rest h k (λ a m.
              ground (arith, contains-concat before p a, merged a, contains_same ordered p a)))
        | inr new ↦
            let (deps, entry, listed, _) = ready in
            rw new (
              add_new-IsOrdered (ordered ++ p ∷ []) (before ++ p ∷ []) rest
                (IsOrdered-concat graph [] ordered p h
                  (deps, entry, is_subset_mono deps before ordered listed merged, new))
                k
                (λ a m.
                  ground
                    (arith, contains-concat before p a, contains-concat ordered p a, merged a)))
      ]

  -- The plan of an answer that is no failure.
  plan_or_failure-ok :
      (r : Resolution) (order : List Text) → plan_or_failure r ≡ ok order → r ≡ plan order
  unfolding plan_or_failure
  plan_or_failure-ok (plan p) order h = ap plan (ok-injective p order h)
  plan_or_failure-ok (refused (dependency_cycle path)) order h = absurd cc
  plan_or_failure-ok (refused (dependency_unsatisfied p)) order h = absurd cc
  plan_or_failure-ok stuck order h = absurd cc

  resolved :
      (root : Text) (order : List Text)
      → resolve graph root ≡ plan order
      → IsOrdered graph [] order × (contains order root ≡ true)
  resolved root order e =
      let (ordered, members) = subst (Explains graph root) e (resolve_lem graph root) in
      (ordered, (members root).1 here)

  -- The order that the loop over the keys leaves: it is ordered, it lists what was listed before, and
  -- every key of the loop.
  pub order_from-IsOrdered :
      (ordered : List Text) (rest : Manifests) (last : List Text)
      → IsOrdered graph [] ordered
      → order_from graph ordered rest ≡ ok last
      → IsOrdered graph [] last
        × ((a : Text) → contains ordered a ≡ true → contains last a ≡ true)
        × ((id : Text) → map_get id rest ≢ none → contains last id ≡ true)
  unfolding order_from map_get
  order_from-IsOrdered ordered [] last h e =
      let same = ok-injective ordered last e in
      (
        subst (IsOrdered graph []) same h,
        λ a m. subst (λ (xs : List Text). contains xs a ≡ true) same m,
        λ id k. absurd (k refl),
      )
  order_from-IsOrdered ordered ((key, m) ∷ rest) last h e =
      let (order, answered, h1) = bind_ok (plan_or_failure (resolve graph key)) _ last e in
      let (plan_ordered, has_key) =
        resolved key order (plan_or_failure-ok (resolve graph key) order answered) in
      let (sorted, kept, keys) =
        order_from-IsOrdered (add_new ordered order) rest last
          (add_new-IsOrdered ordered [] order h plan_ordered (λ a n. cc)) h1 in
      (
        sorted,
        λ a n. kept a (ground (arith, contains-add_new ordered order a)),
        λ id k. elim (Bool-cases (text_eq key id)) [
          | inl same ↦
              contains_same last key id
                (kept key (ground (arith, contains-add_new ordered order key))) same
          | inr other ↦ keys id (rw other at k)
        ],
      )
