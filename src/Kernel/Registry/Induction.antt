-- ===== src/Kernel/Registry/Induction.antt =====
-- `visit` meets its specification by induction on the fuel (crates/kernel/src/registry.rs).
use masonwing.Prelude.{
  ℕ, zero, suc, ◌<◌, ◌≡◌, refl, sym, ap, subst, ◌∙◌, inl, inr, true, false, ◌||◌, none, some, List,
  [], ◌∷◌, ◌++◌, arith, contains, is_subset, contains-append, contains-singleton, is_subset_mono,
  contains-head, contains-tail, Bool-cases, Option-cases, Text, text_eq, text_eq_iff, text_eq_refl,
}
use masonwing.Kernel.Registry.Walks.{
  Reach, depends_entry, IsWalk-concat, from_position-IsCycle, from_position-none, further,
}
use masonwing.Kernel.Registry.Room.{free, free_enter}
use masonwing.Kernel.Registry.Order.{IsReady, IsOrdered-concat}
use masonwing.Kernel.Registry.Visits.{Inv, After, Post, Callable, visit_all-Post, Works}
use masonwing.Kernel.Registry.{
  DependencyGraph, get, dependency_cycle, dependency_unsatisfied, Visit, Visited, done, failed,
  out_of_fuel, and_then, from_position, pop, visit_all, enter, leave, visit,
}

pop_concat : (xs : List Text) (p : Text) → pop (xs ++ p ∷ []) ≡ xs
unfolding pop
pop_concat [] p = refl
pop_concat (x ∷ []) p = refl
pop_concat (x ∷ y ∷ xs) p = ap (◌∷◌ x) (pop_concat (y ∷ xs) p)

contains-concat :
    (xs : List Text) (p a : Text) → contains (xs ++ p ∷ []) a ≡ (contains xs a || text_eq p a)
contains-concat xs p a = rw (contains-append, contains-singleton)

module _ (graph : DependencyGraph) (root p : Text) (deps : List Text) (s : Visit)
    (inv : Inv graph root s) (callable : Callable graph root s.visiting p)
    (fresh : contains s.visited p ≡ false) (off_path : contains s.visiting p ≡ false)
    (entry : get graph p ≡ some deps) where
  enter-Inv : Inv graph root (enter p s)
  unfolding enter
  enter-Inv = record {
    ordered = inv.ordered;
    same = inv.same;
    apart = λ a m. ground (arith, contains-concat s.visiting p a, inv.apart a, text_eq_iff p a);
    reached = inv.reached;
  }

  enter-Callable :
      (d : Text) → contains deps d ≡ true → Callable graph root (s.visiting ++ p ∷ []) d
  enter-Callable d m =
      let edge = depends_entry graph p d deps entry m in
      record {
        walk = IsWalk-concat graph s.visiting p d callable.walk edge;
        reach = further callable.reach edge;
      }

  module _ (t : Visit) (after : After graph root (enter p s) t)
      (covered : is_subset deps t.visited ≡ true) where
    t_visiting : t.visiting ≡ s.visiting ++ p ∷ []
    unfolding enter
    t_visiting = after.restored

    t_fresh : contains t.visited p ≡ false
    t_fresh =
        after.inv.apart p
          (rw t_visiting (rw (contains-concat s.visiting p p) (ground (arith, text_eq_refl p))))

    leave-IsReady : IsReady graph t.order p
    leave-IsReady = (
      deps,
      entry,
      is_subset_mono deps t.visited t.order covered (λ a m. sym (after.inv.same a) ∙ m),
      sym (after.inv.same p) ∙ t_fresh,
    )

    leave-apart : (a : Text) → contains s.visiting a ≡ true → contains (p ∷ t.visited) a ≡ false
    unfolding contains
    leave-apart a m = ground (
      arith,
      after.inv.apart a (rw t_visiting (rw (contains-concat s.visiting p a) (ground arith))),
      text_eq_iff p a,
    )

    leave_visiting : (leave p t).visiting ≡ s.visiting
    unfolding leave
    leave_visiting = rw t_visiting (pop_concat s.visiting p)

    leave-same : (a : Text) → contains (p ∷ t.visited) a ≡ contains (t.order ++ p ∷ []) a
    unfolding contains
    leave-same a = rw (contains-concat t.order p a, after.inv.same a) (ground arith)

    leave-reached : (a : Text) → contains (p ∷ t.visited) a ≡ true → Reach graph root a
    unfolding contains
    leave-reached a m = elim (Bool-cases (text_eq p a)) [
      | inl same ↦ subst (Reach graph root) ((text_eq_iff p a).0 same) callable.reach
      | inr other ↦ after.inv.reached a (rw other at m)
    ]

    leave-Inv : Inv graph root (leave p t)
    unfolding leave
    leave-Inv = record {
      ordered = IsOrdered-concat graph [] t.order p after.inv.ordered leave-IsReady;
      same = leave-same;
      apart =
          λ a m. leave-apart a (subst (λ (v : List Text). contains v a ≡ true) leave_visiting m);
      reached = leave-reached;
    }

    leave-After : After graph root s (leave p t)
    unfolding leave enter
    leave-After = record {
      inv = leave-Inv;
      restored = leave_visiting;
      grows = λ a m. contains-tail p t.visited a (after.grows a m);
    }

    pub leave_post : After graph root s (leave p t) × (contains (leave p t).visited p ≡ true)
    unfolding leave
    leave_post = (leave-After, contains-head p t.visited)

  leave_all :
      (r : Visited)
      → Post graph root (enter p s) (λ t. is_subset deps t.visited ≡ true) r
      → Post graph root s (λ t. contains t.visited p ≡ true) (and_then r (λ t. done (leave p t)))
  leave_all (done t) h = leave_post t h.0 h.1
  leave_all (failed e) h = h
  leave_all out_of_fuel h = h

  pub entry-Post :
      (call : Text → Visit → Visited)
      → Works graph root (s.visiting ++ p ∷ []) call
      → Post graph root s
          (λ t. contains t.visited p ≡ true)
          (and_then (visit_all call deps (enter p s)) (λ t. done (leave p t)))
  unfolding enter
  entry-Post call works = leave_all _ (
      visit_all-Post graph root (s.visiting ++ p ∷ []) call deps (enter p s) works refl enter-Inv
        enter-Callable)

module _ (graph : DependencyGraph) (fuel : ℕ) (p : Text) (s : Visit) where
  visit_seen : contains s.visited p ≡ true → visit graph (suc fuel) p s ≡ done s
  unfolding visit
  visit_seen e = ground arith

  visit_cycle :
      (cycle : List Text)
      → contains s.visited p ≡ false
      → from_position p s.visiting ≡ some cycle
      → visit graph (suc fuel) p s ≡ failed (dependency_cycle (cycle ++ p ∷ []))
  unfolding visit
  visit_cycle cycle new e = ground arith

  visit_missing :
      contains s.visited p ≡ false
      → from_position p s.visiting ≡ none
      → get graph p ≡ none
      → visit graph (suc fuel) p s ≡ failed (dependency_unsatisfied p)
  unfolding visit
  visit_missing new e m = ground arith

  visit_entry :
      (deps : List Text)
      → contains s.visited p ≡ false
      → from_position p s.visiting ≡ none
      → get graph p ≡ some deps
      → visit graph (suc fuel) p s
        ≡ and_then (visit_all (visit graph fuel) deps (enter p s)) (λ t. done (leave p t))
  unfolding visit
  visit_entry deps new e m = ground arith

module _ (graph : DependencyGraph) (root : Text) where
  free_lt :
      (visiting : List Text) (p : Text) (fuel : ℕ) (deps : List Text)
      → free visiting graph.dependencies < suc fuel
      → contains visiting p ≡ false
      → get graph p ≡ some deps
      → free (visiting ++ p ∷ []) graph.dependencies < fuel
  unfolding get
  free_lt visiting p fuel deps room off entry =
      omega (arith, free_enter visiting p graph.dependencies deps entry off)

  abbrev VisitPost : ℕ → Text → Visit → Type 0
  VisitPost fuel p s = Post graph root s (λ t. contains t.visited p ≡ true) (visit graph fuel p s)

  by :
      (s : Visit) (Q : Visit → Type 0) {r r' : Visited}
      → r ≡ r'
      → Post graph root s Q r'
      → Post graph root s Q r
  by s Q e h = subst (Post graph root s Q) (sym e) h

  pub visit_post :
      (fuel : ℕ) (p : Text) (s : Visit)
      → free s.visiting graph.dependencies < fuel
      → Inv graph root s
      → Callable graph root s.visiting p
      → VisitPost fuel p s
  visit_post zero p s room inv callable = absurd (omega arith)
  visit_post (suc fuel) p s room inv callable = elim (Bool-cases (contains s.visited p)) [
    | inl seen ↦
        by s _ (visit_seen graph fuel p s seen)
          (record { inv = inv; restored = refl; grows = λ a m. m }, seen)
    | inr new ↦ elim (Option-cases (from_position p s.visiting)) [
      | inr (cycle, e) ↦
          by s _ (visit_cycle graph fuel p s cycle new e)
            (from_position-IsCycle graph s.visiting p cycle e callable.walk)
      | inl off ↦ elim (Option-cases (get graph p)) [
        | inl missing ↦
            by s _ (visit_missing graph fuel p s new off missing) (missing, callable.reach)
        | inr (deps, entry) ↦ by s _ (visit_entry graph fuel p s deps new off entry) (
            entry-Post graph root p deps s inv callable new (from_position-none s.visiting p off)
              entry (visit graph fuel)
              (λ d t e i c.
                visit_post fuel d t
                  (rw e (
                    free_lt s.visiting p fuel deps room (from_position-none s.visiting p off)
                      entry))
                  i (subst (λ (v : List Text). Callable graph root v d) (sym e) c)))
      ]
    ]
  ]
