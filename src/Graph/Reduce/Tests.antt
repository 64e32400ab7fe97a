-- ===== src/Graph/Reduce/Tests.antt =====
-- Runs of the reduction on the graph of the test `removes_transitive_edges`, and the theorems there.
use sys_tester.Base.{◌≡◌, refl, some, [], ◌∷◌, arith}
use sys_tester.Graph.{BasicGraph, basic}
use sys_tester.Graph.Walk.{IsValid, basic-IsValid}
use sys_tester.Graph.Topo.{ok, TopologicalOrder, topological_order}
use sys_tester.Graph.Topo.Order.{IsTopological}
use sys_tester.Graph.Topo.Correct.{topological_order-TopoOk}
use sys_tester.Graph.Reduce.{transitive_solved_reduction, transitive_reduction}
use sys_tester.Graph.Reduce.Correct.{
  IsReduction, ReductionOk, transitive_solved_reduction-IsReduction,
  transitive_reduction-ReductionOk,
}

abbrev chain_with_shortcuts : BasicGraph
chain_with_shortcuts = record { edges = (1 ∷ 2 ∷ 3 ∷ []) ∷ (2 ∷ 3 ∷ []) ∷ (3 ∷ []) ∷ [] ∷ [] }

abbrev chain : BasicGraph
chain = record { edges = (1 ∷ []) ∷ (2 ∷ []) ∷ (3 ∷ []) ∷ [] ∷ [] }

abbrev chain_order : TopologicalOrder
chain_order = record { order = 0 ∷ 1 ∷ 2 ∷ 3 ∷ []; map = 0 ∷ 1 ∷ 2 ∷ 3 ∷ [] }

removes_transitive_edges :
    transitive_reduction (basic chain_with_shortcuts) ≡ ok (chain, chain_order)
unfolding transitive_reduction transitive_solved_reduction topological_order
removes_transitive_edges = refl

chain_with_shortcuts-IsValid : IsValid (basic chain_with_shortcuts)
chain_with_shortcuts-IsValid = basic-IsValid chain_with_shortcuts (omega arith)

order_here : IsTopological (basic chain_with_shortcuts) chain_order
unfolding topological_order
order_here = topological_order-TopoOk (basic chain_with_shortcuts) chain_with_shortcuts-IsValid

transitive_solved_reduction-IsReduction_example :
    (b : BasicGraph) × (transitive_solved_reduction (basic chain_with_shortcuts) chain_order
      ≡ some b)
    × IsReduction (basic chain_with_shortcuts) b
transitive_solved_reduction-IsReduction_example =
    transitive_solved_reduction-IsReduction (basic chain_with_shortcuts) chain_order
      chain_with_shortcuts-IsValid order_here

transitive_reduction-ReductionOk_example :
    ReductionOk (basic chain_with_shortcuts) (transitive_reduction (basic chain_with_shortcuts))
transitive_reduction-ReductionOk_example =
    transitive_reduction-ReductionOk (basic chain_with_shortcuts) chain_with_shortcuts-IsValid
