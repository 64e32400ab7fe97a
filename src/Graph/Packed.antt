-- ===== src/Graph/Packed.antt =====
-- src/graph.rs, `VecGraph`: adjacency lists packed into one vector of edges with a range per node.
pub mod RoundTrip
mod Tests
use sys_tester.Base.{
  ℕ, ◌-◌, Bool, ◌&&◌, Option, none, some, List, [], ◌∷◌, ◌++◌, length, get_elem?, take, drop, leb,
  if◌then◌else◌,
}
use sys_tester.Graph.{DirectedGraph, iter_nodes}

-- `std::ops::Range<usize>`
pub record Range : Type 0 where
  pub start : ℕ
  pub end : ℕ

pub record VecGraph : Type 0 where
  pub nodes : List Range
  pub edges : List ℕ

abbrev pub new_empty : VecGraph
new_empty = record { nodes = []; edges = [] }

-- The body of both packing loops: `let start = edges.len(); edges.extend(list);
-- nodes.push(start..edges.len())`, for at most 2^32 nodes, which is what the index type has room for.
pub push_list : VecGraph → List ℕ → VecGraph
push_list v list =
    let edges = v.edges ++ list in
    record {
      nodes = v.nodes ++ record { start = length v.edges; end = length edges } ∷ [];
      edges = edges;
    }

pub push_lists : VecGraph → List (List ℕ) → VecGraph
push_lists v [] = v
push_lists v (list ∷ lists) = push_lists (push_list v list) lists

unfoldable pub from_adjacency_lists : List (List ℕ) → VecGraph
unfolding push_list push_lists
from_adjacency_lists lists = push_lists new_empty lists

-- The loop of `from_graph`; `none` is a panic of `graph.edges`.
pub push_nodes : DirectedGraph → VecGraph → List ℕ → Option VecGraph
push_nodes g v [] = some v
push_nodes g v (node ∷ rest) = elim (g.edges node) [
  | none ↦ none
  | some list ↦ push_nodes g (push_list v list) rest
]

unfoldable pub from_graph : DirectedGraph → Option VecGraph
unfolding push_list push_nodes
from_graph g = push_nodes g new_empty (iter_nodes g)

unfoldable pub num_edges : VecGraph → ℕ
num_edges v = length v.edges

-- `&edges[start..end]`, which panics if the range does not lie in the slice.
pub slice : List ℕ → Range → Option (List ℕ)
slice edges r =
    if leb r.start r.end && leb r.end (length edges)
    then some (take (r.end - r.start) (drop r.start edges))
    else none

pub read_range : List ℕ → Option Range → Option (List ℕ)
unfolding slice
read_range edges none = none
read_range edges (some r) = slice edges r

unfoldable pub full_edges : VecGraph → ℕ → Option (List ℕ)
unfolding read_range
full_edges v i = read_range v.edges (get_elem? v.nodes i)

-- `impl DirectedGraph for VecGraph`
unfoldable pub packed : VecGraph → DirectedGraph
unfolding full_edges
packed v = record { num_nodes = length v.nodes; edges = full_edges v }
