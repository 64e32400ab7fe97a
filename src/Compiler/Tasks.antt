-- ===== src/Compiler/Tasks.antt =====
-- The order of the tasks: the sorted graph has the declared edges and those of the atoms.
use sys_tester.Base.{
  some_injective, ℕ, zero, suc, ◌+◌, ◌<◌, List, [], ◌∷◌, map, ◌≡◌, sym, ◌∙◌, ◌↔◌, ◌⊎◌, inl, inr,
  arith, length, ◌∈◌, subst, length-map, lt-length_of_get, get_elem?-some,
}
use sys_tester.Base.Sort.{sort_by_key, mem-sort_by_key}
use sys_tester.Graph.Walk.{listed, Edge, IsValid}
use sys_tester.Graph.Packed.{packed}
use sys_tester.Graph.Packed.RoundTrip.{full_edges-from_adjacency_lists}
use sys_tester.Graph.Topo.{ok, TopologicalOrder}
use sys_tester.Graph.Topo.Order.{IsTopological}
use sys_tester.Graph.Topo.Correct.{topological_order-IsTopological}
use sys_tester.Model.{Task, TaskInfo, atom}
use sys_tester.Compiler.Links.{atom_tasks, add_atom_edges}
use sys_tester.Compiler.Flatten.{sorted_graph}
use sys_tester.Compiler.Compile.{compile_order}
use sys_tester.Compiler.Outcomes.{>>=-ok}
use sys_tester.Compiler.Adds.{row, Adds}
use sys_tester.Compiler.Declared.{Declared}
use sys_tester.Compiler.Order.{Between, add_atom_edges-Adds}
use sys_tester.Compiler.Numbers.{task_of_number, length-atom_tasks}

mem-row_sorted :
    (edges : List (List ℕ)) (u v : ℕ)
    → (v ∈ row (map (sort_by_key (λ x. x)) edges) u) ↔ (v ∈ row edges u)
mem-row_sorted [] u v = (λ m. m, λ m. m)
mem-row_sorted (es ∷ edges) zero v = mem-sort_by_key (λ x. x) v es
mem-row_sorted (es ∷ edges) (suc u) v = mem-row_sorted edges u v

-- The graph of the sorted sets has their pairs as edges.
pub Edge-sorted_graph :
    (edges : List (List ℕ)) (u v : ℕ) → Edge (packed (sorted_graph edges)) u v ↔ (v ∈ row edges u)
unfolding sorted_graph packed
Edge-sorted_graph edges u v =
    let read = (full_edges-from_adjacency_lists (map (sort_by_key (λ x. x)) edges)).0 u in
    subst (λ o. (v ∈ listed o) ↔ (v ∈ row edges u)) (sym read) (mem-row_sorted edges u v)

pub nodes-sorted_graph :
    (edges : List (List ℕ)) → (packed (sorted_graph edges)).num_nodes ≡ length edges
unfolding sorted_graph
nodes-sorted_graph edges =
    (full_edges-from_adjacency_lists (map (sort_by_key (λ x. x)) edges)).1
    ∙ length-map (sort_by_key (λ x. x)) edges

pub sorted_graph-IsValid :
    (edges : List (List ℕ))
    → ((u v : ℕ) → v ∈ row edges u → v < length edges)
    → IsValid (packed (sorted_graph edges))
unfolding sorted_graph packed
sorted_graph-IsValid edges inside = record {
  has_edges = λ u bound.
      let lists = map (sort_by_key (λ x. x)) edges in
      let facts = full_edges-from_adjacency_lists lists in
      let (es, at) = get_elem?-some lists u (subst (λ n. u < n) facts.1 bound) in
      (es, facts.0 u ∙ at);
  inside = λ u v bound e.
      subst (λ n. v < n) (sym (nodes-sorted_graph edges))
        (inside u v ((Edge-sorted_graph edges u v).0 e));
}

-- Both ends of a pair are tasks of atoms.
pub Between-inside :
    (tasks : List Task) (from : ℕ) (edges : List (List ℕ)) (u v : ℕ)
    → Between (atom_tasks 0 tasks) from edges u v
    → v < length tasks
Between-inside tasks from [] u v b = absurd b
Between-inside tasks from (es ∷ edges) u v (inl (_, (to, _, at, _))) =
    let bound = lt-length_of_get (atom_tasks 0 tasks) to v at in
    let (t, a, n) =
      task_of_number 0 0 tasks to (subst (λ k. to < k) (length-atom_tasks 0 tasks) bound) in
    omega
      (arith, some_injective v (0 + t) (sym at ∙ n.back), lt-length_of_get tasks t (atom a) n.task)
Between-inside tasks from (es ∷ edges) u v (inr b) = Between-inside tasks (suc from) edges u v b

-- Every task that is declared to come after another one is a task.
abbrev pub IsTasks : TaskInfo → Type 0
IsTasks info = (u v : ℕ) → Declared info u v → v < length info.tasks

-- The order of the tasks is topological for the declared edges and those between the atoms' tasks.
pub record IsTaskOrder (info : TaskInfo) (atom_edges edges : List (List ℕ)) (t : TopologicalOrder)
    : Type 0 where
  pub pairs :
      (u v : ℕ)
      → (v ∈ row edges u) ↔ (Declared info u v ⊎ Between (atom_tasks 0 info.tasks) 0 atom_edges u v)
  pub size : length edges ≡ length info.tasks
  pub topological : IsTopological (packed (sorted_graph edges)) t

pub compile_order-IsTaskOrder :
    (info : TaskInfo) (task_edges atom_edges : List (List ℕ)) (t : TopologicalOrder)
    → IsTasks info
    → (length task_edges ≡ length info.tasks)
    → ((u v : ℕ) → (v ∈ row task_edges u) ↔ Declared info u v)
    → compile_order info task_edges atom_edges ≡ ok t
    → (edges : List (List ℕ)) × IsTaskOrder info atom_edges edges t
unfolding compile_order
compile_order-IsTaskOrder info task_edges atom_edges t tasks size declared e =
    let (edges, added, sorted) =
      >>=-ok (add_atom_edges (atom_tasks 0 info.tasks) 0 atom_edges task_edges) _ t e in
    let adds = add_atom_edges-Adds (atom_tasks 0 info.tasks) 0 atom_edges task_edges edges added in
    (
      edges,
      record {
        pairs = by_parts edges adds;
        size = adds.size ∙ size;
        topological =
            topological_order-IsTopological (packed (sorted_graph edges)) t
              (sorted_graph-IsValid edges (λ u v m.
                subst (λ n. v < n) (sym (adds.size ∙ size))
                  (inside u v ((by_parts edges adds u v).0 m))))
              sorted;
      },
    )
  where
    by_parts :
        (edges : List (List ℕ))
        → Adds (Between (atom_tasks 0 info.tasks) 0 atom_edges) task_edges edges
        → (u v : ℕ)
        → (v ∈ row edges u)
          ↔ (Declared info u v ⊎ Between (atom_tasks 0 info.tasks) 0 atom_edges u v)
    by_parts edges adds u v =
        let p = adds.pairs u v in
        let d = declared u v in
        (
          λ m. elim (p.0 m) [ inl old ↦ inl (d.0 old) | inr b ↦ inr b ],
          λ h. p.1 (elim h [ inl q ↦ inl (d.1 q) | inr b ↦ inr b ]),
        )

    inside :
        (u v : ℕ)
        → Declared info u v ⊎ Between (atom_tasks 0 info.tasks) 0 atom_edges u v
        → v < length info.tasks
    inside u v (inl d) = tasks u v d
    inside u v (inr b) = Between-inside info.tasks 0 atom_edges u v b
