-- ===== src/Compiler/Atoms.antt =====
-- The order of the atoms, their reduced graph and its renumbering, with no panic.
use sys_tester.Base.{
  ℕ, suc, ◌<◌, ◌+◌, some, some_injective, List, [], ◌∷◌, ◌≡◌, refl, sym, ap, ◌∙◌, ◌↔◌, inl, inr,
  arith, length, length-range_from, get_elem?, lt-length_of_get, ◌∈◌, All, All-of_mem, IsNodup,
  range, subst,
}
use sys_tester.Graph.{BasicGraph}
use sys_tester.Graph.Walk.{listed}
use sys_tester.Graph.Packed.{packed}
use sys_tester.Graph.Topo.{Outcome, ok, err, panic, out_of_fuel, TopologicalOrder}
use sys_tester.Graph.Topo.Order.{number_lem, length-number, get_of_mem}
use sys_tester.Graph.Reduce.Total.{transitive_solved_reduction_returns}
use sys_tester.Model.{Task, atom, ordered, unordered}
use sys_tester.Compiler.Sets.{at_index}
use sys_tester.Compiler.Flatten.{
  number_atoms, sorted_graph, collect_atoms, collect, push_atom, order_atoms, atom_topology,
  renumbered,
}
use sys_tester.Compiler.Compile.{reduce}
use sys_tester.Compiler.Adds.{row}
use sys_tester.Compiler.Ends.{Ends, Ends->>=, Ends-at_index, Within, IsBelow}
use sys_tester.Compiler.Loops.{Ends-map}
use sys_tester.Compiler.Tasks.{Edge-sorted_graph, nodes-sorted_graph, sorted_graph-IsValid}
use sys_tester.Compiler.Numbers.{number_of_task, task_of_number}
use sys_tester.Compiler.Picking.{Picks}
use sys_tester.Compiler.Picks.{Picks-mem, mem-Picks, Picks-IsNodup}
use sys_tester.Compiler.Finished.{HasOrder}

-- What follows from the equation with the outcome.
pub Ends-ok :
    {A : Type 0} (P : A → Type 0) (o : Outcome A)
    → Ends (λ _. Unit {0}) o
    → ((a : A) → o ≡ ok a → P a)
    → Ends P o
Ends-ok P (ok a) h k = k a refl
Ends-ok P (err c) h k = tt
Ends-ok P panic h k = h
Ends-ok P out_of_fuel h k = h

pub Ends-collect :
    {A B : Type 0} (P : B → Type 0) (f : A → Outcome B) (xs : List A)
    → ((x : A) → x ∈ xs → Ends P (f x))
    → Ends (λ ys. (length ys ≡ length xs) × All P ys) (collect f xs)
Ends-collect P f [] h = (refl, tt)
Ends-collect P f (x ∷ xs) h =
    Ends->>= P (λ ys. (length ys ≡ suc (length xs)) × All P ys) (f x) _ (h x (inl refl))
      (λ y p.
        Ends->>= (λ ys. (length ys ≡ length xs) × All P ys)
          (λ ys. (length ys ≡ suc (length xs)) × All P ys) (collect f xs) _
          (Ends-collect P f xs (λ z m. h z (inr m))) (λ ys q. (ap suc q.0, (p, q.1))))

-- The order of the atoms has each of the `m` atoms once.
pub record IsAtomOrder (m : ℕ) (ids : List ℕ) : Type 0 where
  pub all : (id : ℕ) → (id ∈ ids) ↔ (id < m)
  pub once : IsNodup ids

pub Picks-IsAtomOrder :
    (tasks : List Task) (t : TopologicalOrder) (ids : List ℕ)
    → HasOrder (length tasks) t
    → Picks tasks (number_atoms 0 tasks) t.order ids
    → IsAtomOrder (length (collect_atoms tasks)) ids
Picks-IsAtomOrder tasks t ids (edges, size, top) ps = record {
  all = λ id. (
    λ h.
        let (s, a, _, n) = Picks-mem tasks t.order ids id ps h in
        lt-length_of_get (collect_atoms tasks) id a n.content,
    λ h.
        let (s, a, n) = task_of_number 0 0 tasks id h in
        mem-Picks tasks t.order ids s id a ps n (
          (top.all s).1 (
            subst (λ k. s < k) (sym (nodes-sorted_graph edges ∙ size))
              (lt-length_of_get tasks s (atom a) n.task))),
  );
  once = Picks-IsNodup tasks t.order ids ps top.once;
}

-- The place of an atom in the order.
pub position :
    (m : ℕ) (ids : List ℕ) (id : ℕ)
    → IsAtomOrder m ids
    → id < m
    → (i : ℕ) × (get_elem? ids i ≡ some id) × (get_elem? (atom_topology m ids).map id ≡ some i)
unfolding atom_topology
position m ids id o bound =
    let (i, at) = get_of_mem ids id ((o.all id).1 bound) in
    (
      i,
      at,
      number_lem 0 ids (range m) i id
            (All-of_mem (λ v. v < length (range m)) ids
              (λ v h. subst (λ k. v < k) (sym (length-range_from 0 m)) ((o.all v).0 h)))
            o.once at
          ∙ ap some (omega arith),
    )

pub Ends-order_atoms :
    (tasks : List Task) (xs : List ℕ)
    → IsBelow (length tasks) xs
    → Ends (λ _. Unit {0}) (order_atoms tasks (number_atoms 0 tasks) xs)
unfolding order_atoms push_atom
Ends-order_atoms tasks [] below = tt
Ends-order_atoms tasks (t ∷ xs) below =
    Ends->>= (λ value. get_elem? tasks t ≡ some value) (λ _. Unit {0}) (at_index tasks t) _
      (Ends-at_index tasks t below.0)
      (λ value at.
        Ends->>= (λ _. Unit {0}) (λ _. Unit {0}) (order_atoms tasks (number_atoms 0 tasks) xs) _
          (Ends-order_atoms tasks xs below.1) (λ ids _. pushed value ids at))
  where
    pushed :
        (value : Task) (ids : List ℕ)
        → get_elem? tasks t ≡ some value
        → Ends (λ _. Unit {0}) (push_atom tasks (number_atoms 0 tasks) t value ids)
    pushed (atom a) ids at =
        let (k, n) = number_of_task 0 0 tasks t a at in
        Ends->>= (λ x. get_elem? (number_atoms 0 tasks) t ≡ some x) (λ _. Unit {0})
          (at_index (number_atoms 0 tasks) t) _
          (Ends-at_index (number_atoms 0 tasks) t
            (lt-length_of_get (number_atoms 0 tasks) t (0 + k) n.number))
          (λ x _. tt)
    pushed (ordered cs) ids at = tt
    pushed (unordered cs) ids at = tt

-- What the reduction of the atom graph returns.
abbrev pub IsPart : ℕ → List (List ℕ) → BasicGraph → Type 0
IsPart m atom_edges b =
    (length b.edges ≡ m) × ((u v : ℕ) → v ∈ row b.edges u → v ∈ row atom_edges u)

module _ (m : ℕ) (atom_edges : List (List ℕ)) (w : Within m m atom_edges) (ids : List ℕ)
    (o : IsAtomOrder m ids) where
  pub reduce_runs :
      (b : BasicGraph) × (reduce (sorted_graph atom_edges) (atom_topology m ids) ≡ ok b)
      × IsPart m atom_edges b
  unfolding reduce atom_topology
  reduce_runs =
      let g = packed (sorted_graph atom_edges) in
      let valid =
        sorted_graph-IsValid atom_edges
          (λ u v h. subst (λ k. v < k) (sym w.size) (w.inside u v h)) in
      let nodes = nodes-sorted_graph atom_edges ∙ w.size in
      let (b, runs, size, part) =
        transitive_solved_reduction_returns g valid (atom_topology m ids)
          (All-of_mem (λ v. v < g.num_nodes) ids
            (λ v h. subst (λ k. v < k) (sym nodes) ((o.all v).0 h)))
          (omega (arith, nodes, length-number 0 ids (range m), length-range_from 0 m)) in
      (
        b,
        rw (reduce, runs) refl,
        (size ∙ nodes, λ u v h. (Edge-sorted_graph atom_edges u v).0 (part u v h)),
      )

  -- The edges of the reduced graph, renumbered, lead to places in the order.
  pub Ends-renumbered :
      (b : BasicGraph) (from : ℕ)
      → IsPart m atom_edges b
      → from < m
      → Ends (IsBelow (length ids)) (renumbered b (atom_topology m ids).map from)
  unfolding renumbered
  Ends-renumbered b from part bound =
      Ends->>= (λ es. get_elem? b.edges from ≡ some es) (IsBelow (length ids))
        (at_index b.edges from) _ (Ends-at_index b.edges from (omega (arith, part.0, bound)))
        (λ es at.
          Ends-map (λ ys. (length ys ≡ length es) × All (λ y. y < length ids) ys)
            (IsBelow (length ids)) _
            (Ends-collect (λ y. y < length ids) (at_index (atom_topology m ids).map) es
              (λ v h.
                placed v (w.inside from v (part.1 from v (subst (λ e. v ∈ listed e) (sym at) h)))))
            (λ ys q. q.1))
    where
      placed : (v : ℕ) → v < m → Ends (λ y. y < length ids) (at_index (atom_topology m ids).map v)
      placed v inside =
          let (i, at, noted) = position m ids v o inside in
          Ends-map (λ y. get_elem? (atom_topology m ids).map v ≡ some y) (λ y. y < length ids) _
            (Ends-at_index (atom_topology m ids).map v
              (lt-length_of_get (atom_topology m ids).map v i noted))
            (λ y h. omega (arith, some_injective i y (sym noted ∙ h), lt-length_of_get ids i v at))
