-- ===== src/Graph/Labelled/Tests.antt =====
-- Three nodes, of which two are unified.
use sys_tester.Base.{ℕ, ◌≡◌, refl, ◌⊎◌, ◌↔◌, Bool, true, some, [], ◌∷◌, length, arith}
use sys_tester.Graph.Walk.{Edge}
use sys_tester.Graph.Labelled.{BasicOrder, add_node, unify, ordered_graph}
use sys_tester.Graph.Labelled.Edges.{Edge-unify}

abbrev nodes_3 : BasicOrder Bool
nodes_3 = record { edges = [] ∷ [] ∷ [] ∷ [] }

third_node : add_node (record { edges = [] ∷ [] ∷ [] }) ≡ (2, nodes_3)
unfolding add_node
third_node = refl

Edge-unify_example :
    (o' : BasicOrder Bool) × (unify nodes_3 0 2 true ≡ some o')
    × (length o'.edges ≡ 3)
    × ((u v : ℕ)
        → Edge (ordered_graph o') u v
          ↔ (Edge (ordered_graph nodes_3) u v ⊎ ((u ≡ 0) × (v ≡ 2)) ⊎ ((u ≡ 2) × (v ≡ 0))))
Edge-unify_example = Edge-unify nodes_3 0 2 true (omega arith) (omega arith)
