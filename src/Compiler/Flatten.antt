-- ===== src/Compiler/Flatten.antt =====
-- src/compiler.rs: the numbers of the atoms, the order of the atoms, and the graphs of the result.
use sys_tester.Base.{ℕ, suc, List, [], ◌∷◌, ◌++◌, map, set, range}
use sys_tester.Base.Sort.{sort_by_key}
use sys_tester.Graph.{BasicGraph}
use sys_tester.Graph.Packed.{VecGraph, from_adjacency_lists, full_edges}
use sys_tester.Graph.Topo.{Outcome, ok, ◌>>=◌, TopologicalOrder, number}
use sys_tester.Model.{Atom, Task, atom, ordered, unordered}
use sys_tester.Compiler.Boundary.{unwrap}
use sys_tester.Compiler.Sets.{at_index}

-- The closure of `filter_map` over the tasks: `atoms_map` with `count` for an atom and 0 for a group.
-- The counter is a `u32` in the code: the two agree up to 2^32 - 1 atoms.
unfoldable pub number_atoms : ℕ → List Task → List ℕ
number_atoms count [] = []
number_atoms count (atom a ∷ tasks) = count ∷ number_atoms (suc count) tasks
number_atoms count (ordered children ∷ tasks) = 0 ∷ number_atoms count tasks
number_atoms count (unordered children ∷ tasks) = 0 ∷ number_atoms count tasks

-- The atoms that it collects.
unfoldable pub collect_atoms : List Task → List Atom
collect_atoms [] = []
collect_atoms (atom a ∷ tasks) = a ∷ collect_atoms tasks
collect_atoms (ordered children ∷ tasks) = collect_atoms tasks
collect_atoms (unordered children ∷ tasks) = collect_atoms tasks

-- `from_adjacency_lists` of the sets, each sorted.
unfoldable pub sorted_graph : List (List ℕ) → VecGraph
sorted_graph edges = from_adjacency_lists (map (sort_by_key (λ x. x)) edges)

module _ {A B : Type 0} (f : A → Outcome B) where
  -- An iterator whose closure may panic, collected.
  abbrev pub collect : List A → Outcome (List B)
  collect [] = ok []
  collect (x ∷ xs) = f x >>= λ y. collect xs >>= λ ys. ok (y ∷ ys)

module _ (tasks : List Task) (atoms_map : List ℕ) where
  unfoldable pub push_atom : ℕ → Task → List ℕ → Outcome (List ℕ)
  push_atom task (atom a) order = at_index atoms_map task >>= λ id. ok (id ∷ order)
  push_atom task (ordered children) order = ok order
  push_atom task (unordered children) order = ok order

  -- The atoms of the tasks, in their order.
  unfoldable pub order_atoms : List ℕ → Outcome (List ℕ)
  order_atoms [] = ok []
  order_atoms (task ∷ rest) =
      at_index tasks task >>= λ value. order_atoms rest >>= push_atom task value

-- The order and the map of the atoms. `number` writes the map as the loop does.
unfoldable pub atom_topology : ℕ → List ℕ → TopologicalOrder
atom_topology atoms order = record { order = order; map = number 0 order (range atoms) }

-- `reduced.edges(from).map(|to| atom_order.map[to])`
unfoldable pub renumbered : BasicGraph → List ℕ → ℕ → Outcome (List ℕ)
renumbered reduced positions from = at_index reduced.edges from >>= collect (at_index positions)

-- `before_edges[to].push(from)` for each edge of `from`.
unfoldable pub push_before : ℕ → List ℕ → List (List ℕ) → Outcome (List (List ℕ))
push_before from [] before = ok before
push_before from (to ∷ targets) before =
    at_index before to >>= λ froms. push_before from targets (set before to (froms ++ from ∷ []))

-- `for from in after_graph.iter_nodes()`
unfoldable pub reverse_edges : VecGraph → List ℕ → List (List ℕ) → Outcome (List (List ℕ))
reverse_edges after [] before = ok before
reverse_edges after (from ∷ rest) before = unwrap (full_edges after from) >>= λ targets.
    push_before from targets before >>= reverse_edges after rest
