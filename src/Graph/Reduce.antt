-- ===== src/Graph/Reduce.antt =====
-- src/graph.rs, `transitive_solved_reduction` and `transitive_reduction`.
pub mod Placed
pub mod Cover
pub mod Nodes
pub mod Sweep
pub mod Ready
pub mod Correct
pub mod Total
mod Tests
use mathlib.Core.List.{reverse}
use sys_tester.Base.{
  ℕ, Bool, true, false, ◌||◌, Option, none, some, List, [], ◌∷◌, ◌++◌, length, get_elem?, get_or,
  set, replicate, ltb, if◌then◌else◌,
}
use sys_tester.Base.Sort.{sort_by_key, dedup}
use sys_tester.Graph.{DirectedGraph, BasicGraph}
use sys_tester.Graph.Topo.{TopologicalOrder, Outcome, ok, panic, ◌>>=◌, topological_order}

-- `covered[index] |= value` for each `(index, &value)` of `reachable[to]`; the two rows are as long.
pub or_into : List Bool → List Bool → List Bool
or_into [] row = []
or_into (c ∷ covered) [] = c ∷ covered
or_into (c ∷ covered) (value ∷ row) = (c || value) ∷ or_into covered row

-- The rows that the loop over the successors of one node writes: its reduced edges and `covered`.
pub record Rows : Type 0 where
  pub kept : List ℕ
  pub covered : List Bool

-- `for to in successors`; `none` is an index out of range.
pub cover : List (List Bool) → List ℕ → Rows → Option Rows
cover reachable [] r = some r
cover reachable (to ∷ successors) r = elim (get_elem? r.covered to) [
  | none ↦ none
  | some true ↦ cover reachable successors r
  | some false ↦ elim (get_elem? reachable to) [
    | none ↦ none
    | some row ↦
        cover reachable successors
          (record { kept = r.kept ++ to ∷ []; covered = or_into (set r.covered to true) row })
  ]
]

-- The variables of the loop over the nodes.
pub record Reduction : Type 0 where
  pub reachable : List (List Bool)
  pub edges : List (List ℕ)

-- `topo.map[to].index()` for an index of the map; `sort_by_place` is a panic for another one.
abbrev pub place : TopologicalOrder → ℕ → ℕ
place topo to = get_or topo.map to 0

pub all_placed : List ℕ → List ℕ → Bool
all_placed map [] = true
all_placed map (to ∷ targets) =
    let rest = all_placed map targets in if ltb to (length map) then rest else false

-- `successors.sort_unstable_by_key(…)`. The keys are read where there is something to compare, and a key
-- out of range is a panic.
pub sort_by_place : TopologicalOrder → List ℕ → Option (List ℕ)
sort_by_place topo [] = some []
sort_by_place topo (to ∷ []) = some (to ∷ [])
sort_by_place topo (to ∷ next ∷ targets) =
    if all_placed topo.map (to ∷ next ∷ targets)
    then some (sort_by_key (place topo) (to ∷ next ∷ targets))
    else none

-- The body of `for &from in topo.order.iter().rev()`.
pub reduce_node : DirectedGraph → TopologicalOrder → Reduction → ℕ → Option Reduction
reduce_node g topo s from = elim (g.edges from) [
  | none ↦ none
  | some targets ↦ elim (get_elem? s.edges from) [
    | none ↦ none
    | some kept ↦ elim (sort_by_place topo targets) [
      | none ↦ none
      | some successors ↦
          elim (cover s.reachable (dedup successors)
            (record { kept = kept; covered = replicate g.num_nodes false })) [
              | none ↦ none
              | some r ↦ some (record {
                reachable = set s.reachable from r.covered;
                edges = set s.edges from r.kept;
              })
            ]
    ]
  ]
]

pub reduce_nodes : DirectedGraph → TopologicalOrder → List ℕ → Reduction → Option Reduction
reduce_nodes g topo [] s = some s
reduce_nodes g topo (from ∷ rest) s = elim (reduce_node g topo s from) [
  | none ↦ none
  | some s' ↦ reduce_nodes g topo rest s'
]

pub start : DirectedGraph → Reduction
start g = record {
  reachable = replicate g.num_nodes (replicate g.num_nodes false);
  edges = replicate g.num_nodes [];
}

unfoldable pub transitive_solved_reduction : DirectedGraph → TopologicalOrder → Option BasicGraph
unfolding or_into cover all_placed sort_by_place reduce_node reduce_nodes start sort_by_key dedup
transitive_solved_reduction g topo = elim (reduce_nodes g topo (reverse topo.order) (start g)) [
  | none ↦ none
  | some s ↦ some (record { edges = s.edges })
]

-- `topological_order(graph)?` first; its `Err` is passed on.
unfoldable pub transitive_reduction : DirectedGraph → Outcome (BasicGraph × TopologicalOrder)
transitive_reduction g = topological_order g >>= λ topo. elim (transitive_solved_reduction g topo) [
  | none ↦ panic
  | some reduced ↦ ok (reduced, topo)
]
