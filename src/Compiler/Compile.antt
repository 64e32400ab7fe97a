-- ===== src/Compiler/Compile.antt =====
-- src/compiler.rs, `TaskInfo::compile`.
use sys_tester.Base.{ℕ, none, some, List, [], length, range, replicate}
use sys_tester.Graph.{BasicGraph}
use sys_tester.Graph.Packed.{VecGraph, packed, from_adjacency_lists}
use sys_tester.Graph.Topo.{Outcome, ok, panic, ◌>>=◌, TopologicalOrder, topological_order}
use sys_tester.Graph.Reduce.{transitive_solved_reduction}
use sys_tester.Model.{TaskInfo, CompiledSetup}
use sys_tester.Compiler.Sets.{at_index}
use sys_tester.Compiler.Boundary.{BoundaryBuild, new_build, build_boundaries}
use sys_tester.Compiler.Links.{explicit_edges, link_tasks, contract, atom_tasks, add_atom_edges}
use sys_tester.Compiler.Flatten.{
  number_atoms, collect_atoms, sorted_graph, collect, order_atoms, atom_topology, renumbered,
  reverse_edges,
}

-- The boundaries of all tasks.
unfoldable pub compile_boundaries : TaskInfo → Outcome BoundaryBuild
compile_boundaries info =
    build_boundaries info.tasks (number_atoms 0 info.tasks) (range (length info.tasks))
      (new_build (length info.tasks) (length (collect_atoms info.tasks)))

-- The edges that the tasks declare.
unfoldable pub declared_edges : TaskInfo → Outcome (List (List ℕ))
declared_edges info =
    explicit_edges info.happens_before (replicate (length info.tasks) []) >>= link_tasks info.tasks

-- The edges between atoms, in their first numbers; for fewer than 2^32 tasks, where
-- `0..self.tasks.len() as u32` are all tasks.
unfoldable pub compile_atom_edges :
    TaskInfo → BoundaryBuild → List (List ℕ) → Outcome (List (List ℕ))
compile_atom_edges info build task_edges =
    contract build task_edges (range (length info.tasks)) build.atom_edges

-- The order of the atoms: that of the tasks, with the edges between the tasks of atoms.
unfoldable pub compile_order : TaskInfo → List (List ℕ) → List (List ℕ) → Outcome TopologicalOrder
compile_order info task_edges atom_edges =
    add_atom_edges (atom_tasks 0 info.tasks) 0 atom_edges task_edges >>= λ edges.
    topological_order (packed (sorted_graph edges))

unfoldable pub compile_graphs : BasicGraph → TopologicalOrder → Outcome (VecGraph × VecGraph)
compile_graphs reduced atom_order =
    collect (renumbered reduced atom_order.map) atom_order.order >>= λ after_edges.
    let after_graph = from_adjacency_lists after_edges in
    reverse_edges after_graph (range (length after_graph.nodes))
      (replicate (length after_graph.nodes) [])
    >>= λ before_edges. ok (after_graph, from_adjacency_lists before_edges)

unfoldable pub reduce : VecGraph → TopologicalOrder → Outcome BasicGraph
reduce atom_graph atom_order = elim (transitive_solved_reduction (packed atom_graph) atom_order) [
  | none ↦ panic
  | some reduced ↦ ok reduced
]

unfoldable pub compile : TaskInfo → Outcome CompiledSetup
compile info = do
  build ← compile_boundaries info
  task_edges ← declared_edges info
  atom_edges ← compile_atom_edges info build task_edges
  task_order ← compile_order info task_edges atom_edges
  order ← order_atoms info.tasks (number_atoms 0 info.tasks) task_order.order
  let atoms = collect_atoms info.tasks
  let atom_order = atom_topology (length atoms) order
  reduced ← reduce (sorted_graph atom_edges) atom_order
  ordered_atoms ← collect (at_index atoms) order
  graphs ← compile_graphs reduced atom_order
  ok (record {
    atoms = ordered_atoms;
    file_count = info.file_count;
    after_graph = graphs.0;
    before_graph = graphs.1;
  })
