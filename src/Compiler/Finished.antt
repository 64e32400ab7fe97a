-- ===== src/Compiler/Finished.antt =====
-- The remaining steps of `compile` neither panic nor run out of fuel.
use sys_tester.Base.{
  ℕ, suc, ◌<◌, ◌+◌, some, some_injective, List, [], ◌∷◌, ◌≡◌, sym, ◌∙◌, Bool, true, false,
  if◌then◌else◌, ◌==◌, arith, length, length-replicate, get_elem?, lt-length_of_get, ◌∈◌, All,
  All-of_mem, replicate, subst,
}
use sys_tester.Graph.Topo.{Outcome, ok, err, panic, out_of_fuel, TopologicalOrder}
use sys_tester.Graph.Topo.Order.{IsTopological, TopoOk}
use sys_tester.Graph.Topo.Correct.{topological_order-TopoOk}
use sys_tester.Graph.Packed.{packed}
use sys_tester.Model.{Task, TaskInfo, atom, ordered, unordered}
use sys_tester.Compiler.Sets.{at_index, extend_at}
use sys_tester.Compiler.Links.{
  explicit_edges, link_after, link_children, link_tasks, atom_tasks, other_tasks, add_atom_edges,
}
use sys_tester.Compiler.Flatten.{sorted_graph, collect_atoms}
use sys_tester.Compiler.Compile.{declared_edges, compile_order}
use sys_tester.Compiler.Adds.{row}
use sys_tester.Compiler.Declared.{row_empty}
use sys_tester.Compiler.Ends.{Ends, Ends->>=, Ends-at_index, Within, IsBelow, Ends-extend_at}
use sys_tester.Compiler.Loops.{children_of}
use sys_tester.Compiler.Built.{IsClosed}
use sys_tester.Compiler.Tasks.{sorted_graph-IsValid}
use sys_tester.Compiler.Numbers.{task_of_number, length-atom_tasks}

module _ (n : ℕ) where
  Ends-explicit_edges :
      (before : List (ℕ × List ℕ)) (edges : List (List ℕ))
      → All (λ (p : ℕ × List ℕ). (p.0 < n) × IsBelow n p.1) before
      → Within n n edges
      → Ends (Within n n) (explicit_edges before edges)
  unfolding explicit_edges
  Ends-explicit_edges [] edges h w = w
  Ends-explicit_edges ((from, destinations) ∷ rest) edges h w =
      Ends->>= (Within n n) (Within n n) (extend_at edges from destinations) _
        (Ends-extend_at n n edges from destinations w h.0.0 h.0.1)
        (λ edges' w'. Ends-explicit_edges rest edges' h.1 w')

  Ends-link_after :
      (child : ℕ) (children : List ℕ) (edges : List (List ℕ))
      → IsBelow n (child ∷ children)
      → Within n n edges
      → Ends (Within n n) (link_after child children edges)
  unfolding link_after
  Ends-link_after child [] edges h w = w
  Ends-link_after child (next ∷ children) edges h w =
      Ends->>= (Within n n) (Within n n) (extend_at edges child (next ∷ [])) _
        (Ends-extend_at n n edges child (next ∷ []) w h.0 (h.1.0, tt))
        (λ edges' w'. Ends-link_after next children edges' h.1 w')

  Ends-link_children :
      (task : Task) (edges : List (List ℕ))
      → IsBelow n (children_of task)
      → Within n n edges
      → Ends (Within n n) (link_children task edges)
  unfolding link_children
  Ends-link_children (atom a) edges h w = w
  Ends-link_children (unordered children) edges h w = w
  Ends-link_children (ordered []) edges h w = w
  Ends-link_children (ordered (child ∷ children)) edges h w =
      Ends-link_after child children edges h w

  Ends-link_tasks :
      (tasks : List Task) (edges : List (List ℕ))
      → All (λ task. IsBelow n (children_of task)) tasks
      → Within n n edges
      → Ends (Within n n) (link_tasks tasks edges)
  unfolding link_tasks
  Ends-link_tasks [] edges h w = w
  Ends-link_tasks (task ∷ tasks) edges h w =
      Ends->>= (Within n n) (Within n n) (link_children task edges) _
        (Ends-link_children task edges h.0 w) (λ edges' w'. Ends-link_tasks tasks edges' h.1 w')

  -- The destinations of an atom, as tasks.
  Ends-other_tasks :
      (atoms : List ℕ) (u : ℕ) (destinations : List ℕ)
      → ((k t : ℕ) → get_elem? atoms k ≡ some t → t < n)
      → IsBelow (length atoms) destinations
      → Ends (IsBelow n) (other_tasks atoms u destinations)
  unfolding other_tasks
  Ends-other_tasks atoms u [] inside below = tt
  Ends-other_tasks atoms u (to ∷ destinations) inside below =
      Ends->>= (λ t. get_elem? atoms to ≡ some t) (IsBelow n) (at_index atoms to) _
        (Ends-at_index atoms to below.0)
        (λ t at.
          Ends->>= (IsBelow n) (IsBelow n) (other_tasks atoms u destinations) _
            (Ends-other_tasks atoms u destinations inside below.1)
            (λ others h. chosen t others (inside to t at) h (u == t)))
    where
      chosen :
          (t : ℕ) (others : List ℕ)
          → t < n
          → IsBelow n others
          → (b : Bool) → IsBelow n (if b then others else t ∷ others)
      chosen t others bound h true = h
      chosen t others bound h false = (bound, h)

  Ends-add_atom_edges :
      (atoms : List ℕ) (from : ℕ) (atom_edges edges : List (List ℕ))
      → ((k t : ℕ) → get_elem? atoms k ≡ some t → t < n)
      → from + length atom_edges ≡ length atoms
      → All (IsBelow (length atoms)) atom_edges
      → Within n n edges
      → Ends (Within n n) (add_atom_edges atoms from atom_edges edges)
  unfolding add_atom_edges
  Ends-add_atom_edges atoms from [] edges inside size below w = w
  Ends-add_atom_edges atoms from (destinations ∷ rest) edges inside size below w =
      Ends->>= (λ t. get_elem? atoms from ≡ some t) (Within n n) (at_index atoms from) _
        (Ends-at_index atoms from (omega (arith, size)))
        (λ t at.
          Ends->>= (IsBelow n) (Within n n) (other_tasks atoms t destinations) _
            (Ends-other_tasks atoms t destinations inside below.0)
            (λ others h.
              Ends->>= (Within n n) (Within n n) (extend_at edges t others) _
                (Ends-extend_at n n edges t others w (inside from t at) h)
                (λ edges' w'.
                  Ends-add_atom_edges atoms (suc from) rest edges' inside (omega (arith, size))
                    below.1 w')))

pub Ends-declared_edges :
    (info : TaskInfo)
    → IsClosed info
    → Ends (Within (length info.tasks) (length info.tasks)) (declared_edges info)
unfolding declared_edges
Ends-declared_edges info closed =
    let n = length info.tasks in
    Ends->>= (Within n n) (Within n n) (explicit_edges info.happens_before (replicate n [])) _
      (Ends-explicit_edges n info.happens_before (replicate n []) closed.before
        (record { size = length-replicate n []; inside = λ u v h. absurd (row_empty n u v h) }))
      (λ edges w. Ends-link_tasks n info.tasks edges closed.children w)

Ends-TopoOk :
    {n : ℕ}
    → (edges : List (List ℕ)) (o : Outcome TopologicalOrder)
    → TopoOk (packed (sorted_graph edges)) o
    → length edges ≡ n
    → Ends
        (λ t.
          (edges : List (List ℕ)) × (length edges ≡ n)
          × IsTopological (packed (sorted_graph edges)) t)
        o
Ends-TopoOk edges (ok t) h size = (edges, size, h)
Ends-TopoOk edges (err c) h size = tt
Ends-TopoOk edges panic h size = h
Ends-TopoOk edges out_of_fuel h size = h

All-rows :
    (k : ℕ) (edges : List (List ℕ)) → ((u v : ℕ) → v ∈ row edges u → v < k) → All (IsBelow k) edges
All-rows k [] h = tt
All-rows k (es ∷ edges) h =
    (All-of_mem (λ v. v < k) es (λ v m. h 0 v m), All-rows k edges (λ u v m. h (suc u) v m))

-- The task order is topological for a graph on all tasks.
abbrev pub HasOrder : ℕ → TopologicalOrder → Type 0
HasOrder n t =
    (edges : List (List ℕ)) × (length edges ≡ n) × IsTopological (packed (sorted_graph edges)) t

pub Ends-compile_order :
    (info : TaskInfo) (task_edges atom_edges : List (List ℕ))
    → Within (length info.tasks) (length info.tasks) task_edges
    → Within (length (collect_atoms info.tasks)) (length (collect_atoms info.tasks)) atom_edges
    → Ends (HasOrder (length info.tasks)) (compile_order info task_edges atom_edges)
unfolding compile_order
Ends-compile_order info task_edges atom_edges w w' =
    Ends->>= (Within n n) (HasOrder n) (add_atom_edges atoms 0 atom_edges task_edges) _
      (Ends-add_atom_edges n atoms 0 atom_edges task_edges inside (omega (arith, w'.size, same))
        (subst (λ k. All (IsBelow k) atom_edges) (sym same) (All-rows m atom_edges w'.inside)) w)
      (λ edges e.
        Ends-TopoOk edges _
          (topological_order-TopoOk (packed (sorted_graph edges)) (
            sorted_graph-IsValid edges (λ u v h. subst (λ k. v < k) (sym e.size) (e.inside u v h))))
          e.size)
  where
    n : ℕ
    n = length info.tasks

    m : ℕ
    m = length (collect_atoms info.tasks)

    atoms : List ℕ
    atoms = atom_tasks 0 info.tasks

    same : length atoms ≡ m
    same = length-atom_tasks 0 info.tasks

    inside : (k t : ℕ) → get_elem? atoms k ≡ some t → t < n
    inside k t at =
        let (t', a, num) =
          task_of_number 0 0 info.tasks k
            (subst (λ l. k < l) same (lt-length_of_get atoms k t at)) in
        omega (
          arith,
          some_injective t (0 + t') (sym at ∙ num.back),
          lt-length_of_get info.tasks t' (atom a) num.task,
        )
