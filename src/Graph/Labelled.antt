-- ===== src/Graph/Labelled.antt =====
-- src/graph.rs, `BasicOrder`: edges with labels, to which nodes and edges are added. The map of a node
-- is an association list; the order in which the code's hash map lists its keys is not fixed.
pub mod Edges
mod Tests
use mathlib.Core.Option
use sys_tester.Base.{
  ℕ, Option, none, some, List, [], ◌∷◌, ◌++◌, map, length, get_elem?, set, ◌==◌, if◌then◌else◌,
}
use sys_tester.Graph.{DirectedGraph}

pub record BasicOrder (T : Type 0) : Type 0 where
  pub edges : List (List (ℕ × T))

module _ {T : Type 0} where
  abbrev pub new_order : BasicOrder T
  new_order = record { edges = [] }

  -- `HashMap::insert`
  pub insert_label : List (ℕ × T) → ℕ → T → List (ℕ × T)
  insert_label [] to label = (to, label) ∷ []
  insert_label ((key, old) ∷ row) to label =
      let rest = insert_label row to label in
      if key == to then (to, label) ∷ row else (key, old) ∷ rest

  -- The index of the new node and the order with it.
  unfoldable pub add_node : BasicOrder T → ℕ × BasicOrder T
  add_node o = (length o.edges, record { edges = o.edges ++ [] ∷ [] })

  -- `none` is an index out of range.
  unfoldable pub add_edge : BasicOrder T → ℕ → ℕ → T → Option (BasicOrder T)
  add_edge o from to label = elim (get_elem? o.edges from) [
    | none ↦ none
    | some row ↦ some (record { edges = set o.edges from (insert_label row to label) })
  ]

  unfoldable pub unify : BasicOrder T → ℕ → ℕ → T → Option (BasicOrder T)
  unify o a b label = elim (add_edge o a b label) [ none ↦ none | some o' ↦ add_edge o' b a label ]

  -- The keys of a row.
  abbrev pub keys : List (ℕ × T) → List ℕ
  keys [] = []
  keys ((key, label) ∷ row) = key ∷ keys row

  -- `impl DirectedGraph for BasicOrder`
  abbrev pub ordered_graph : BasicOrder T → DirectedGraph
  ordered_graph o = record {
    num_nodes = length o.edges;
    edges = λ i. Option.map keys (get_elem? o.edges i);
  }
