-- ===== src/Compiler/Setup.antt =====
-- The graphs that `compile` returns, as lists of edges between places in the order of the atoms.
use sys_tester.Base.{
  ℕ, zero, suc, ◌<◌, some, some_injective, List, [], ◌∷◌, ◌≡◌, ◌≢◌, refl, sym, ap, ◌∙◌, inl, inr,
  length, get_elem?, lt-length_of_get, ◌∈◌, subst, range, replicate, Bool-cases, ◌==◌, ==→eq, ==→ne,
}
use sys_tester.Graph.{BasicGraph}
use sys_tester.Graph.Walk.{listed}
use sys_tester.Graph.Packed.{from_adjacency_lists}
use sys_tester.Graph.Topo.{Outcome, ok}
use sys_tester.Graph.Topo.Order.{mem_of_get}
use sys_tester.Model.{TaskInfo, CompiledSetup}
use sys_tester.Compiler.Sets.{at_index}
use sys_tester.Compiler.Flatten.{
  number_atoms, collect_atoms, collect, atom_topology, renumbered, reverse_edges,
}
use sys_tester.Compiler.Compile.{compile}
use sys_tester.Compiler.Outcomes.{ok_injective, >>=-ok, at_index-some}
use sys_tester.Compiler.Adds.{row}
use sys_tester.Compiler.Ends.{Ends, Within}
use sys_tester.Compiler.Steps.{compile-IsCompiled}
use sys_tester.Compiler.Built.{IsClosed, IsBuild, Ends-compile_boundaries}
use sys_tester.Compiler.Contracted.{Ends-compile_atom_edges}
use sys_tester.Compiler.Finished.{Ends-declared_edges}
use sys_tester.Compiler.Declared.{declared_edges_lem}
use sys_tester.Compiler.Tasks.{compile_order-IsTaskOrder}
use sys_tester.Compiler.Ordered.{closed-IsTasks}
use sys_tester.Compiler.Atoms.{IsAtomOrder, IsPart, position, reduce_runs, Picks-IsAtomOrder}
use sys_tester.Compiler.Picking.{Before, order_atoms-Picks}
use sys_tester.Compiler.Forward.{Before-lt, index_unique, atom_edge-Before}
use sys_tester.Compiler.Collect.{collect-get, length-collect, collect-mem, compile_graphs-IsMade}

row_get :
    (edges : List (List ℕ)) (u v : ℕ)
    → v ∈ row edges u
    → (es : List ℕ) × (get_elem? edges u ≡ some es) × (v ∈ es)
row_get [] u v h = absurd h
row_get (es ∷ edges) zero v h = (es, refl, h)
row_get (es ∷ edges) (suc u) v h = row_get edges u v h

-- The facts about the atoms' order that the steps of `compile` leave behind.
module _ (m : ℕ) (atom_edges : List (List ℕ)) (w : Within m m atom_edges) (ids : List ℕ)
    (o : IsAtomOrder m ids) (reduced : BasicGraph) (part : IsPart m atom_edges reduced)
    (after : List (List ℕ))
    (renumbering : collect (renumbered reduced (atom_topology m ids).map) ids ≡ ok after)
    (ahead : (id to : ℕ)
      → id < m
      → to < m
      → to ∈ row atom_edges id
      → id ≢ to
      → Before ids id to) where
  -- An edge of the result comes from an edge of the atoms.
  edge_of :
      (p v : ℕ)
      → v ∈ row after p
      → (id : ℕ) × (to : ℕ) × (get_elem? ids p ≡ some id)
        × (get_elem? ids v ≡ some to)
        × (to ∈ row atom_edges id)
  unfolding renumbered
  edge_of p v h =
      let (es, at, inside) = row_get after p v h in
      let (id, here, e) =
        collect-get (renumbered reduced (atom_topology m ids).map) ids after p es renumbering at in
      let (ts, found, e₁) = >>=-ok (at_index reduced.edges id) _ es e in
      let (k, to, target, e₂) =
        collect-mem (at_index (atom_topology m ids).map) ts es v e₁ inside in
      let edge : to ∈ row atom_edges id = part.1 id to (
        subst (λ r. to ∈ listed r) (sym (at_index-some reduced.edges id ts found))
          (mem_of_get ts k to target)) in
      let (i, place, noted) = position m ids to o (w.inside id to edge) in
      let same = some_injective i v (sym noted ∙ at_index-some (atom_topology m ids).map to v e₂) in
      (id, to, here, ap (get_elem? ids) (sym same) ∙ place, edge)

  -- It leads forward, unless it leads from an atom to itself.
  edge_lt : (p v : ℕ) → p ≢ v → v ∈ row after p → p < v
  edge_lt p v other h =
      let (id, to, here, there, edge) = edge_of p v h in
      let bound = (o.all id).0 (mem_of_get ids p id here) in
      elim (Bool-cases (id == to)) [
        | inl e ↦
            let same : to ≡ id = sym (==→eq id to e) in
            absurd (other (index_unique ids p v id o.once here (there ∙ ap some same)))
        | inr e ↦
            Before-lt ids p v id to o.once here there
              (ahead id to bound (w.inside id to edge) edge (==→ne id to e))
      ]

-- What an `Ok` leaves in it.
Ends-elim : {A : Type 0} (P : A → Type 0) (o : Outcome A) (a : A) → Ends P o → o ≡ ok a → P a
Ends-elim P o a h e = subst (Ends P) e h

-- The facts that the graphs of a compiled test rest on.
pub record IsFlat (info : TaskInfo) (setup : CompiledSetup) (ids : List ℕ)
    (after before : List (List ℕ)) : Type 0 where
  pub order : IsAtomOrder (length (collect_atoms info.tasks)) ids
  pub contents : collect (at_index (collect_atoms info.tasks)) ids ≡ ok setup.atoms
  pub rows : length after ≡ length ids
  pub inside : (p v : ℕ) → v ∈ row after p → (p < length ids) × (v < length ids)
  pub lower : (p v : ℕ) → p ≢ v → v ∈ row after p → p < v
  pub after_graph : setup.after_graph ≡ from_adjacency_lists after
  pub before_graph : setup.before_graph ≡ from_adjacency_lists before
  pub reversing :
      reverse_edges (from_adjacency_lists after) (range (length ids)) (replicate (length ids) [])
      ≡ ok before

pub compile-IsFlat :
    (info : TaskInfo) (setup : CompiledSetup)
    → IsClosed info
    → compile info ≡ ok setup
    → (ids : List ℕ) × (after : List (List ℕ)) × (before : List (List ℕ)) × IsFlat info setup ids
        after before
compile-IsFlat info setup closed e =
    let n = length info.tasks in
    let m = length (collect_atoms info.tasks) in
    let c = compile-IsCompiled info setup e in
    let built = Ends-elim (IsBuild info) _ c.build (Ends-compile_boundaries info closed) c.built in
    let w = Ends-elim (Within n n) _ c.task_edges (Ends-declared_edges info closed) c.declared in
    let w' =
      Ends-elim (Within m m) _ c.atom_edges
        (Ends-compile_atom_edges info c.build built c.task_edges w) c.contracted in
    let (size, pairs) = declared_edges_lem info c.task_edges c.declared in
    let (edges, t) =
      compile_order-IsTaskOrder info c.task_edges c.atom_edges c.task_order
        (closed-IsTasks info closed) size pairs c.sorted in
    let ps =
      order_atoms-Picks info.tasks (number_atoms 0 info.tasks) c.task_order.order c.order
        c.picked in
    let o = Picks-IsAtomOrder info.tasks c.task_order c.order (edges, t.size, t.topological) ps in
    let (b, runs, part) = reduce_runs m c.atom_edges w' c.order o in
    let part' =
      subst (IsPart m c.atom_edges) (ok_injective b c.reduced (sym runs ∙ c.is_reduced)) part in
    let (after, before, g) = compile_graphs-IsMade c.reduced m c.order setup c.graphs in
    let ahead = λ (id : ℕ) (to : ℕ).
      atom_edge-Before info c.atom_edges edges c.task_order c.order id to t ps in
    (
      c.order,
      after,
      before,
      record {
        order = o;
        contents = c.contents;
        rows = length-collect _ c.order after g.renumbering;
        inside = λ p v h.
            let (id, to, here, there, _) =
              edge_of m c.atom_edges w' c.order o c.reduced part' after g.renumbering ahead p v h in
            (lt-length_of_get c.order p id here, lt-length_of_get c.order v to there);
        lower = edge_lt m c.atom_edges w' c.order o c.reduced part' after g.renumbering ahead;
        after_graph = g.after_graph;
        before_graph = g.before_graph;
        reversing = g.reversing;
      },
    )
