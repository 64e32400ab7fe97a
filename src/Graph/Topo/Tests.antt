-- ===== src/Graph/Topo/Tests.antt =====
-- Runs of `topological_order` on the graphs of the tests in src/graph.rs, and the theorems there.
use sys_tester.Base.{ℕ, ◌<◌, ◌≡◌, refl, ◌↔◌, ◌⊎◌, List, [], ◌∷◌, arith}
use sys_tester.Graph.{BasicGraph, basic}
use sys_tester.Graph.Walk.{IsValid, IsCycle, Walk, basic-IsValid}
use sys_tester.Graph.Topo.{ok, err, TopologicalOrder, topological_order}
use sys_tester.Graph.Topo.Order.{IsTopological}
use sys_tester.Graph.Topo.Correct.{
  topological_order-IsTopological, topological_order-IsCycle, topological_order_returns,
  topological_order_iff_acyclic,
}

-- the graph of the test `removes_transitive_edges`
abbrev shortcuts : BasicGraph
shortcuts = record { edges = (1 ∷ 2 ∷ 3 ∷ []) ∷ (2 ∷ 3 ∷ []) ∷ (3 ∷ []) ∷ [] ∷ [] }

-- the graph of the test `finds_cycle`
abbrev looped : BasicGraph
looped = record { edges = (1 ∷ []) ∷ (2 ∷ []) ∷ (3 ∷ []) ∷ (1 ∷ []) ∷ [] }

abbrev shortcuts_order : TopologicalOrder
shortcuts_order = record { order = 0 ∷ 1 ∷ 2 ∷ 3 ∷ []; map = 0 ∷ 1 ∷ 2 ∷ 3 ∷ [] }

sorts_shortcuts : topological_order (basic shortcuts) ≡ ok shortcuts_order
unfolding topological_order
sorts_shortcuts = refl

finds_cycle : topological_order (basic looped) ≡ err (1 ∷ 2 ∷ 3 ∷ 1 ∷ [])
unfolding topological_order
finds_cycle = refl

shortcuts-IsValid : IsValid (basic shortcuts)
shortcuts-IsValid = basic-IsValid shortcuts (omega arith)

looped-IsValid : IsValid (basic looped)
looped-IsValid = basic-IsValid looped (omega arith)

topological_order-IsTopological_example : IsTopological (basic shortcuts) shortcuts_order
topological_order-IsTopological_example =
    topological_order-IsTopological (basic shortcuts) shortcuts_order shortcuts-IsValid
      sorts_shortcuts

topological_order-IsCycle_example : IsCycle (basic looped) (1 ∷ 2 ∷ 3 ∷ 1 ∷ [])
topological_order-IsCycle_example =
    topological_order-IsCycle (basic looped) (1 ∷ 2 ∷ 3 ∷ 1 ∷ []) looped-IsValid finds_cycle

topological_order_returns_example :
    ((t : TopologicalOrder) × (topological_order (basic looped) ≡ ok t))
    ⊎ ((cycle : List ℕ) × (topological_order (basic looped) ≡ err cycle))
topological_order_returns_example = topological_order_returns (basic looped) looped-IsValid

topological_order_iff_acyclic_example :
    ((t : TopologicalOrder) × (topological_order (basic shortcuts) ≡ ok t))
    ↔ ((u : ℕ) → u < 4 → ¬ Walk (basic shortcuts) u u)
topological_order_iff_acyclic_example =
    topological_order_iff_acyclic (basic shortcuts) shortcuts-IsValid
