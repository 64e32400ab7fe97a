-- ===== src/Graph/Packed/Tests.antt =====
-- The graph of the test `vec_graph_from_graph_preserves_adjacency_lists`, packed.
use sys_tester.Base.{ℕ, ◌<◌, ◌≡◌, refl, some, [], ◌∷◌, get_elem?, arith}
use sys_tester.Graph.{BasicGraph, basic}
use sys_tester.Graph.Walk.{basic-IsValid}
use sys_tester.Graph.Packed.{
  VecGraph, from_graph, from_adjacency_lists, num_edges, full_edges, packed,
}
use sys_tester.Graph.Packed.RoundTrip.{full_edges-from_graph, full_edges-from_adjacency_lists}

abbrev source : BasicGraph
source = record { edges = (1 ∷ 3 ∷ 1 ∷ []) ∷ [] ∷ (2 ∷ []) ∷ [] ∷ (0 ∷ []) ∷ [] }

reads_last : full_edges (from_adjacency_lists source.edges) 4 ≡ some (0 ∷ [])
unfolding full_edges from_adjacency_lists
reads_last = refl

counts_edges : num_edges (from_adjacency_lists source.edges) ≡ 5
unfolding num_edges from_adjacency_lists
counts_edges = refl

full_edges-from_graph_example :
    (v : VecGraph) × (from_graph (basic source) ≡ some v)
    × ((packed v).num_nodes ≡ 5)
    × ((i : ℕ) → i < 5 → full_edges v i ≡ (basic source).edges i)
full_edges-from_graph_example =
    full_edges-from_graph (basic source) (basic-IsValid source (omega arith))

full_edges-from_adjacency_lists_example :
    ((i : ℕ) → full_edges (from_adjacency_lists source.edges) i ≡ get_elem? source.edges i)
    × ((packed (from_adjacency_lists source.edges)).num_nodes ≡ 5)
    × (num_edges (from_adjacency_lists source.edges) ≡ 5)
full_edges-from_adjacency_lists_example = full_edges-from_adjacency_lists source.edges
