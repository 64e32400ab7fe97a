-- ===== src/Compiler/Returns.antt =====
-- The fuel of `compile` is enough.
use sys_tester.Base.{
  All-get, ℕ, ◌<◌, some, List, [], ◌∷◌, ◌++◌, ◌≡◌, ◌≢◌, sym, ◌∙◌, arith, length, length-replicate,
  length-set, get_elem?, get_elem?-some, set, All, All-of_mem, range, replicate, subst,
}
use sys_tester.Graph.{BasicGraph}
use sys_tester.Graph.Packed.{packed, full_edges, from_adjacency_lists}
use sys_tester.Graph.Packed.RoundTrip.{full_edges-from_adjacency_lists}
use sys_tester.Graph.Topo.{out_of_fuel, TopologicalOrder}
use sys_tester.Model.{TaskInfo, Atom, CompiledSetup}
use sys_tester.Compiler.Sets.{at_index}
use sys_tester.Compiler.Flatten.{
  number_atoms, sorted_graph, collect_atoms, collect, order_atoms, atom_topology, renumbered,
  push_before, reverse_edges,
}
use sys_tester.Compiler.Compile.{
  compile_boundaries, declared_edges, compile_atom_edges, compile_order, compile_graphs, reduce,
  compile,
}
use sys_tester.Compiler.Boundary.{unwrap}
use sys_tester.Compiler.Built.{IsClosed, IsBuild, Ends-compile_boundaries}
use sys_tester.Compiler.Contracted.{IsBelow-range, Ends-compile_atom_edges}
use sys_tester.Compiler.Ends.{Ends, Ends->>=, Ends-at_index, Within, IsBelow}
use sys_tester.Compiler.Loops.{Ends-map}
use sys_tester.Compiler.Tasks.{nodes-sorted_graph}
use sys_tester.Compiler.Picking.{order_atoms-Picks}
use sys_tester.Compiler.Finished.{HasOrder, Ends-declared_edges, Ends-compile_order}
use sys_tester.Compiler.Atoms.{
  Ends-ok, Ends-collect, IsAtomOrder, Picks-IsAtomOrder, Ends-order_atoms, IsPart, reduce_runs,
  Ends-renumbered,
}

Ends-push_before :
    (from : ℕ) (targets : List ℕ) (before : List (List ℕ)) (k : ℕ)
    → IsBelow k targets
    → length before ≡ k
    → Ends (λ (b : List (List ℕ)). length b ≡ k) (push_before from targets before)
unfolding push_before
Ends-push_before from [] before k below size = size
Ends-push_before from (to ∷ targets) before k below size =
    Ends->>= (λ f. get_elem? before to ≡ some f) (λ (b : List (List ℕ)). length b ≡ k)
      (at_index before to) _ (Ends-at_index before to (omega (arith, below.0, size)))
      (λ froms at.
        Ends-push_before from targets (set before to (froms ++ from ∷ [])) k below.1
          (length-set before to (froms ++ from ∷ []) ∙ size))

Ends-reverse_edges :
    (after_edges : List (List ℕ)) (k : ℕ) (xs : List ℕ) (before : List (List ℕ))
    → length after_edges ≡ k
    → All (IsBelow k) after_edges
    → IsBelow k xs
    → length before ≡ k
    → Ends (λ _. Unit {0}) (reverse_edges (from_adjacency_lists after_edges) xs before)
unfolding reverse_edges
Ends-reverse_edges after_edges k [] before size all below same = tt
Ends-reverse_edges after_edges k (from ∷ xs) before size all below same =
    Ends->>= (λ t. get_elem? after_edges from ≡ some t) (λ _. Unit {0})
      (unwrap (full_edges (from_adjacency_lists after_edges) from)) _ found
      (λ targets at.
        Ends->>= (λ (b : List (List ℕ)). length b ≡ k) (λ _. Unit {0})
          (push_before from targets before) _
          (Ends-push_before from targets before k
            (All-get (IsBelow k) after_edges from targets all at) same)
          (λ b e. Ends-reverse_edges after_edges k xs b size all below.1 e))
  where
    found :
        Ends
          (λ t. get_elem? after_edges from ≡ some t)
          (unwrap (full_edges (from_adjacency_lists after_edges) from))
    found =
        let (targets, at) = get_elem?-some after_edges from (omega (arith, below.0, size)) in
        subst (λ o. Ends (λ t. get_elem? after_edges from ≡ some t) (unwrap o))
          (sym ((full_edges-from_adjacency_lists after_edges).0 from ∙ at)) at

pub Ends-compile_graphs :
    (m : ℕ) (atom_edges : List (List ℕ)) (w : Within m m atom_edges) (ids : List ℕ)
    (o : IsAtomOrder m ids) (b : BasicGraph)
    → IsPart m atom_edges b
    → Ends (λ _. Unit {0}) (compile_graphs b (atom_topology m ids))
unfolding compile_graphs atom_topology packed
Ends-compile_graphs m atom_edges w ids o b part =
    Ends->>= (λ (ys : List (List ℕ)). (length ys ≡ length ids) × All (IsBelow (length ids)) ys)
      (λ _. Unit {0}) (collect (renumbered b (atom_topology m ids).map) ids) _
      (Ends-collect (IsBelow (length ids)) (renumbered b (atom_topology m ids).map) ids
        (λ id h. Ends-renumbered m atom_edges w ids o b id part ((o.all id).0 h)))
      (λ after_edges q.
        let nodes : length (from_adjacency_lists after_edges).nodes ≡ length after_edges =
          (full_edges-from_adjacency_lists after_edges).1 in
        let size = length (from_adjacency_lists after_edges).nodes in
        Ends->>= (λ _. Unit {0}) (λ _. Unit {0})
          (reverse_edges (from_adjacency_lists after_edges) (range size) (replicate size [])) _
          (Ends-reverse_edges after_edges (length ids) (range size) (replicate size []) q.0 q.1
            (subst (λ k. IsBelow k (range size)) (nodes ∙ q.0) (IsBelow-range size))
            (length-replicate size [] ∙ nodes ∙ q.0))
          (λ before _. tt))

Ends-contents :
    (atoms : List Atom) (ids : List ℕ)
    → IsAtomOrder (length atoms) ids
    → Ends (λ _. Unit {0}) (collect (at_index atoms) ids)
Ends-contents atoms ids o =
    Ends-map (λ (ys : List Atom). (length ys ≡ length ids) × All (λ _. Unit {0}) ys) (λ _. Unit {0})
      _
      (Ends-collect (λ _. Unit {0}) (at_index atoms) ids
        (λ id h.
          Ends-map (λ a. get_elem? atoms id ≡ some a) (λ _. Unit {0}) _
            (Ends-at_index atoms id ((o.all id).0 h)) (λ a _. tt)))
      (λ ys _. tt)

-- The steps after the atom edges are known.
Ends-compile : (info : TaskInfo) → IsClosed info → Ends (λ _. Unit {0}) (compile info)
unfolding compile
Ends-compile info closed =
    Ends->>= (IsBuild info) any (compile_boundaries info) _ (Ends-compile_boundaries info closed)
      (λ build built.
        Ends->>= (Within n n) any (declared_edges info) _ (Ends-declared_edges info closed)
          (λ task_edges w.
            Ends->>= (Within m m) any (compile_atom_edges info build task_edges) _
              (Ends-compile_atom_edges info build built task_edges w)
              (λ atom_edges w'.
                Ends->>= (HasOrder n) any (compile_order info task_edges atom_edges) _
                  (Ends-compile_order info task_edges atom_edges w w')
                  (λ task_order has.
                    Ends->>= (IsAtomOrder m) any
                      (order_atoms info.tasks (number_atoms 0 info.tasks) task_order.order) _
                      (order_ends task_order has)
                      (λ ids o.
                        let (b, runs, part) = reduce_runs m atom_edges w' ids o in
                        Ends->>= (IsPart m atom_edges) any
                          (reduce (sorted_graph atom_edges) (atom_topology m ids)) _
                          (subst (Ends (IsPart m atom_edges)) (sym runs) part)
                          (λ reduced part'.
                            Ends->>= any' any (collect (at_index (collect_atoms info.tasks)) ids) _
                              (Ends-contents (collect_atoms info.tasks) ids o)
                              (λ atoms _.
                                Ends->>= (λ _. Unit {0}) any
                                  (compile_graphs reduced (atom_topology m ids)) _
                                  (Ends-compile_graphs m atom_edges w' ids o reduced part')
                                  (λ graphs _. tt))))))))
  where
    any : CompiledSetup → Type 0
    any _ = Unit {0}

    any' : List Atom → Type 0
    any' _ = Unit {0}

    n : ℕ
    n = length info.tasks

    m : ℕ
    m = length (collect_atoms info.tasks)

    order_ends :
        (t : TopologicalOrder)
        → HasOrder n t
        → Ends (IsAtomOrder m) (order_atoms info.tasks (number_atoms 0 info.tasks) t.order)
    order_ends t (edges, size, top) =
        Ends-ok (IsAtomOrder m) _
          (Ends-order_atoms info.tasks t.order (
            All-of_mem (λ v. v < n) t.order
              (λ v h. subst (λ k. v < k) (nodes-sorted_graph edges ∙ size) ((top.all v).0 h))))
          (λ ids e.
            Picks-IsAtomOrder info.tasks t ids (edges, size, top)
              (order_atoms-Picks info.tasks (number_atoms 0 info.tasks) t.order ids e))

-- Let every child of a task and every task of `happens_before` be a task. Then `compile` does not run out of
-- fuel: the recursion over the tasks, the walk through tasks without atoms and the search for an order
-- all end.
pub compile_terminates : (info : TaskInfo) → IsClosed info → compile info ≢ out_of_fuel
compile_terminates info closed e =
    subst (Ends (λ (setup : CompiledSetup). Unit {0})) e (Ends-compile info closed)
