-- ===== src/Graph.antt =====
-- src/graph.rs: directed graphs. A node is its index (`Idx::index`); `Idx::new` accepts every
-- index below `num_nodes`, since `iter_nodes` has made each of them.
pub mod Walk
pub mod Packed
pub mod Topo
pub mod Reduce
pub mod Labelled
use sys_tester.Base.{ℕ, Option, none, some, List, [], get_elem?, length, range}

-- The trait `DirectedGraph`. The answer `none` stands for a panic of `edges(node)`.
pub record DirectedGraph : Type 0 where
  pub num_nodes : ℕ
  pub edges : ℕ → Option (List ℕ)

-- `iter_nodes`, the default method.
abbrev pub iter_nodes : DirectedGraph → List ℕ
iter_nodes g = range g.num_nodes

-- `BasicGraph`: one list of targets for each node.
pub record BasicGraph : Type 0 where
  pub edges : List (List ℕ)

-- `impl DirectedGraph for BasicGraph`
abbrev pub basic : BasicGraph → DirectedGraph
basic b = record { num_nodes = length b.edges; edges = get_elem? b.edges }
