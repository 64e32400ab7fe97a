-- ===== src/Compiler/Ordered.antt =====
-- The atoms of a compiled test stand in an order that keeps what the tasks declare.
use sys_tester.Base.{
  false, ap, ◌+◌, get_elem?, some, range, mem-range_from, All, All-mem, ℕ, ◌<◌, List, ◌≡◌, ◌↔◌, inl,
  inr, ◌∈◌, IsNodup, subst, sym, length, ◌∙◌, arith, [], ◌∷◌, zero, suc,
}
use sys_tester.Graph.Packed.{packed}
use sys_tester.Graph.Topo.{ok, TopologicalOrder}
use sys_tester.Compiler.Ends.{IsBelow}
use sys_tester.Compiler.Loops.{children_of}
use sys_tester.Compiler.Built.{IsClosed}
use sys_tester.Model.{Task, atom, ordered, unordered, TaskInfo, CompiledSetup}
use sys_tester.Compiler.Flatten.{number_atoms, sorted_graph}
use sys_tester.Compiler.Compile.{compile, compile_boundaries, compile_atom_edges}
use sys_tester.Compiler.Adds.{row}
use sys_tester.Compiler.Boundary.{Boundary, BoundaryBuild, is_empty}
use sys_tester.Compiler.Links.{atom_tasks, contract}
use sys_tester.Compiler.Yields.{Yields-ok}
use sys_tester.Compiler.Walked.{Grows, Linked, HasBoundary, Through, straight, across}
use sys_tester.Compiler.Described.{ByTask}
use sys_tester.Compiler.Settled.{compile_boundaries-ByTask}
use sys_tester.Compiler.Passed.{Passed, contract-Passed, Between-row}
use sys_tester.Compiler.Declared.{Explicit, Next, InTask, InTasks, Declared, declared_edges_lem}
use sys_tester.Compiler.Tasks.{
  Between-inside, IsTasks, IsTaskOrder, compile_order-IsTaskOrder, Edge-sorted_graph,
  nodes-sorted_graph,
}
use sys_tester.Compiler.Picking.{Before, IsTopological-Before, order_atoms-Picks}
use sys_tester.Compiler.Picks.{atoms_of, content-Picks}
use sys_tester.Compiler.Steps.{compile-IsCompiled}

pub lt_of_row : (edges : List (List ℕ)) (u v : ℕ) → v ∈ row edges u → u < length edges
lt_of_row [] u v m = absurd m
lt_of_row (es ∷ edges) zero v m = omega arith
lt_of_row (es ∷ edges) (suc u) v m = omega (arith, lt_of_row edges u v m)

-- The pairs of the sorted sets lead forward.
pub IsTaskOrder-Before :
    (info : TaskInfo) (atom_edges edges : List (List ℕ)) (t : TopologicalOrder)
    → IsTaskOrder info atom_edges edges t
    → (u v : ℕ) → v < length info.tasks
    → v ∈ row edges u
    → Before t.order u v
IsTaskOrder-Before info atom_edges edges t o u v bound m =
    let nodes = nodes-sorted_graph edges in
    IsTopological-Before (packed (sorted_graph edges)) t o.topological u v
      (subst (λ n. u < n) (sym nodes) (lt_of_row edges u v m))
      (subst (λ n. v < n) (sym (nodes ∙ o.size)) bound) ((Edge-sorted_graph edges u v).1 m)

-- What is declared to come after a task of a closed test is a task.
Explicit-inside :
    (n : ℕ) (before : List (ℕ × List ℕ)) (u v : ℕ)
    → All (λ (p : ℕ × List ℕ). (p.0 < n) × IsBelow n p.1) before
    → Explicit before u v
    → v < n
Explicit-inside n [] u v h d = absurd d
Explicit-inside n ((from, destinations) ∷ rest) u v h (inl d) =
    All-mem (λ x. x < n) destinations v h.0.1 d.1
Explicit-inside n ((from, destinations) ∷ rest) u v h (inr d) = Explicit-inside n rest u v h.1 d

Next-inside :
    (n child : ℕ) (children : List ℕ) (u v : ℕ)
    → IsBelow n children
    → Next child children u v
    → v < n
Next-inside n child [] u v h d = absurd d
Next-inside n child (next ∷ children) u v h (inl d) =
    All-mem (λ x. x < n) (next ∷ []) v (h.0, tt) d.1
Next-inside n child (next ∷ children) u v h (inr d) = Next-inside n next children u v h.1 d

InTask-inside :
    (n : ℕ) (task : Task) (u v : ℕ) → IsBelow n (children_of task) → InTask task u v → v < n
InTask-inside n (atom a) u v h d = absurd d
InTask-inside n (unordered children) u v h d = absurd d
InTask-inside n (ordered []) u v h d = absurd d
InTask-inside n (ordered (child ∷ children)) u v h d = Next-inside n child children u v h.1 d

InTasks-inside :
    (n : ℕ) (tasks : List Task) (u v : ℕ)
    → All (λ task. IsBelow n (children_of task)) tasks
    → InTasks tasks u v
    → v < n
InTasks-inside n [] u v h d = absurd d
InTasks-inside n (task ∷ tasks) u v h (inl d) = InTask-inside n task u v h.0 d
InTasks-inside n (task ∷ tasks) u v h (inr d) = InTasks-inside n tasks u v h.1 d

pub closed-IsTasks : (info : TaskInfo) → IsClosed info → IsTasks info
closed-IsTasks info closed u v (inl d) =
    Explicit-inside (length info.tasks) info.happens_before u v closed.before d
closed-IsTasks info closed u v (inr d) =
    InTasks-inside (length info.tasks) info.tasks u v closed.children d

-- The declared order of groups holds for their atoms: where `u` has atoms and leads to `v` along
-- declared edges, directly or through tasks without atoms, each last atom of `u` stands before each
-- first atom of `v`, if they are different tasks.
abbrev pub AtomsAhead : TaskInfo → BoundaryBuild → List ℕ → Type 0
AtomsAhead info build order =
    (u v : ℕ) (x y : Boundary)
    → HasBoundary build u x
    → HasBoundary build v y
    → is_empty x.entries ≡ false
    → Through build (Declared info) u v
    → (a b s t : ℕ) → a ∈ x.exits
    → b ∈ y.entries
    → get_elem? (atom_tasks 0 info.tasks) a ≡ some s
    → get_elem? (atom_tasks 0 info.tasks) b ≡ some t
    → ¬ (s ≡ t)
    → Before order s t

-- The order has every task once, a task before those that are declared to come after it, and the
-- compiled atoms are the contents of its atoms. Each task has a boundary, made from those of its
-- children, and the declared order of groups holds for their atoms.
pub record IsOrdered (info : TaskInfo) (setup : CompiledSetup) (order : List ℕ) : Type 0 where
  pub build : BoundaryBuild
  pub built : compile_boundaries info ≡ ok build
  pub boundaries :
      (t : ℕ) (task : Task)
      → get_elem? info.tasks t ≡ some task
      → (x : Boundary) × HasBoundary build t x × ByTask (number_atoms 0 info.tasks) build t task x
  pub ahead : AtomsAhead info build order
  pub all : (t : ℕ) → (t ∈ order) ↔ (t < length info.tasks)
  pub once : IsNodup order
  pub forward : (u v : ℕ) → Declared info u v → Before order u v
  pub atoms : setup.atoms ≡ atoms_of info.tasks order

Through-map :
    (build : BoundaryBuild) (P Q : ℕ → ℕ → Type 0) (u v : ℕ)
    → ((a b : ℕ) → P a b → Q a b)
    → Through build P u v
    → Through build Q u v
Through-map build P Q _ _ f (straight u v e) = straight u v (f u v e)
Through-map build P Q _ _ f (across u w v x e has empty rest) =
    across u w v x (f u w e) has empty (Through-map build P Q w v f rest)

-- A task on such a path is followed by another one.
Through-from :
    (build : BoundaryBuild) (edges : List (List ℕ)) (u v : ℕ)
    → Through build (λ a b. b ∈ row edges a) u v
    → u < length edges
Through-from build edges _ _ (straight u v e) = lt_of_row edges u v e
Through-from build edges _ _ (across u w v x e has empty rest) = lt_of_row edges u w e

compile_atom_edges-Linked :
    (info : TaskInfo) (build : BoundaryBuild) (task_edges atom_edges : List (List ℕ))
    → length task_edges ≡ length info.tasks
    → ((u v : ℕ) → (v ∈ row task_edges u) ↔ Declared info u v)
    → compile_atom_edges info build task_edges ≡ ok atom_edges
    → (u v : ℕ) (x y : Boundary) → HasBoundary build u x
    → HasBoundary build v y
    → is_empty x.entries ≡ false
    → Through build (Declared info) u v
    → Linked x.exits y.entries atom_edges
unfolding compile_atom_edges
compile_atom_edges-Linked info build task_edges atom_edges size pairs e u v x y has has_y some_atom
      path =
    let n = length info.tasks in
    let r =
      Yields-ok
        (λ edges'.
          Grows build.atom_edges edges'
          × ((u : ℕ) → u ∈ range n → Passed build task_edges u build.atom_edges edges'))
        (contract build task_edges (range n) build.atom_edges) atom_edges
        (contract-Passed build task_edges (range n) build.atom_edges) e in
    let path' =
      Through-map build (Declared info) (λ a b. b ∈ row task_edges a) u v (λ a b d. (pairs a b).1 d)
        path in
    (r.1 u (
        (mem-range_from u 0 n).1
          (omega arith, omega (arith, Through-from build task_edges u v path', size)))).linked
      v x y has some_atom has_y path'

-- Let every child of a task and every task of `happens_before` be a task. If `compile` returns a setup, then
-- its atoms are those of the tasks, taken in an order of all tasks that has each one once and
-- every task before those that are declared to come after it. Each task has a boundary: the number of
-- the atom itself; the entries and exits of all children of an unordered task; the entries of the first
-- and the exits of the last child with atoms of an ordered task. If a task with atoms leads to another
-- one along declared edges, directly or through tasks without atoms, then in the order each exit of
-- the first one's boundary stands before each entry of the second one's, unless it is the same atom.
pub compile-IsOrdered :
    (info : TaskInfo) (setup : CompiledSetup)
    → IsClosed info
    → compile info ≡ ok setup
    → (order : List ℕ) × IsOrdered info setup order
compile-IsOrdered info setup closed e =
    let tasks = closed-IsTasks info closed in
    let c = compile-IsCompiled info setup e in
    let (size, pairs) = declared_edges_lem info c.task_edges c.declared in
    let (edges, o) =
      compile_order-IsTaskOrder info c.task_edges c.atom_edges c.task_order tasks size pairs
        c.sorted in
    (
      c.task_order.order,
      record {
        build = c.build;
        built = c.built;
        boundaries = compile_boundaries-ByTask info c.build c.built;
        ahead = λ u v x y has has_y nonempty path a b s t ma mb at_s at_t ne.
            let m =
              compile_atom_edges-Linked info c.build c.task_edges c.atom_edges size pairs
                c.contracted u v x y has has_y nonempty path a b ma mb in
            let here : 0 + a ≡ a = omega arith in
            let between =
              Between-row (atom_tasks 0 info.tasks) 0 c.atom_edges a b s t m
                (ap (get_elem? (atom_tasks 0 info.tasks)) here ∙ at_s) at_t ne in
            IsTaskOrder-Before info c.atom_edges edges c.task_order o s t
              (Between-inside info.tasks 0 c.atom_edges s t between)
              ((o.pairs s t).1 (inr between));
        all = λ t.
            subst (λ n. (t ∈ c.task_order.order) ↔ (t < n)) (nodes-sorted_graph edges ∙ o.size)
              (o.topological.all t);
        once = o.topological.once;
        forward = λ u v d.
            IsTaskOrder-Before info c.atom_edges edges c.task_order o u v (tasks u v d)
              ((o.pairs u v).1 (inl d));
        atoms =
            content-Picks info.tasks c.task_order.order c.order setup.atoms
              (order_atoms-Picks info.tasks _ c.task_order.order c.order c.picked) c.contents;
      },
    )
