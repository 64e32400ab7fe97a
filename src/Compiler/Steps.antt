-- ===== src/Compiler/Steps.antt =====
-- What it means that `compile` ends with `Ok`: each of its steps did.
use sys_tester.Base.{ℕ, List, ◌≡◌, ap, ◌∙◌, length}
use sys_tester.Graph.{BasicGraph}
use sys_tester.Graph.Topo.{ok, TopologicalOrder}
use sys_tester.Model.{TaskInfo, CompiledSetup}
use sys_tester.Compiler.Sets.{at_index}
use sys_tester.Compiler.Boundary.{BoundaryBuild}
use sys_tester.Compiler.Flatten.{
  number_atoms, collect_atoms, sorted_graph, collect, order_atoms, atom_topology,
}
use sys_tester.Compiler.Compile.{
  compile_boundaries, declared_edges, compile_atom_edges, compile_order, compile_graphs, reduce,
  compile,
}
use sys_tester.Compiler.Outcomes.{ok_injective, >>=-ok}

pub record IsCompiled (info : TaskInfo) (setup : CompiledSetup) : Type 0 where
  pub build : BoundaryBuild
  pub built : compile_boundaries info ≡ ok build
  pub task_edges : List (List ℕ)
  pub declared : declared_edges info ≡ ok task_edges
  pub atom_edges : List (List ℕ)
  pub contracted : compile_atom_edges info build task_edges ≡ ok atom_edges
  pub task_order : TopologicalOrder
  pub sorted : compile_order info task_edges atom_edges ≡ ok task_order
  pub order : List ℕ
  pub picked : order_atoms info.tasks (number_atoms 0 info.tasks) task_order.order ≡ ok order
  pub reduced : BasicGraph
  pub is_reduced :
      reduce (sorted_graph atom_edges) (atom_topology (length (collect_atoms info.tasks)) order)
      ≡ ok reduced
  pub contents : collect (at_index (collect_atoms info.tasks)) order ≡ ok setup.atoms
  pub graphs :
      compile_graphs reduced (atom_topology (length (collect_atoms info.tasks)) order)
      ≡ ok (setup.after_graph, setup.before_graph)

pub compile-IsCompiled :
    (info : TaskInfo) (setup : CompiledSetup) → compile info ≡ ok setup → IsCompiled info setup
unfolding compile
compile-IsCompiled info setup e =
    let (build, built, e₁) = >>=-ok (compile_boundaries info) _ setup e in
    let (task_edges, declared, e₂) = >>=-ok (declared_edges info) _ setup e₁ in
    let (atom_edges, contracted, e₃) =
      >>=-ok (compile_atom_edges info build task_edges) _ setup e₂ in
    let (task_order, sorted, e₄) = >>=-ok (compile_order info task_edges atom_edges) _ setup e₃ in
    let (order, picked, e₅) =
      >>=-ok (order_atoms info.tasks (number_atoms 0 info.tasks) task_order.order) _ setup e₄ in
    let topology = atom_topology (length (collect_atoms info.tasks)) order in
    let (reduced, is_reduced, e₆) = >>=-ok (reduce (sorted_graph atom_edges) topology) _ setup e₅ in
    let (atoms, contents, e₇) =
      >>=-ok (collect (at_index (collect_atoms info.tasks)) order) _ setup e₆ in
    let (graphs, made, e₈) = >>=-ok (compile_graphs reduced topology) _ setup e₇ in
    let same = ok_injective _ _ e₈ in
    record {
      build = build;
      built = built;
      task_edges = task_edges;
      declared = declared;
      atom_edges = atom_edges;
      contracted = contracted;
      task_order = task_order;
      sorted = sorted;
      order = order;
      picked = picked;
      reduced = reduced;
      is_reduced = is_reduced;
      contents = contents ∙ ap (λ (s : CompiledSetup). ok s.atoms) same;
      graphs = made ∙ ap (λ (s : CompiledSetup). ok (s.after_graph, s.before_graph)) same;
    }
