-- ===== src/Graph/Topo/Correct.antt =====
-- What `topological_order` returns: an order of all nodes along the edges with its inverse map, or a
-- cycle; the first exactly for the graphs without a cycle.
use mathlib.Core.List.{reverse}
use sys_tester.Base.{
  ℕ, zero, suc, ◌+◌, ◌≤◌, ◌<◌, ◌≡◌, refl, ◌⊎◌, ◌↔◌, inl, inr, ◌∙◌, subst, ap, some, List, [], ◌∷◌,
  length, get_elem?, lt-length_of_get, range, range_from, length-range_from, ◌∈◌, All,
  mem-range_from, mem-reverse, arith,
}
use sys_tester.Graph.{DirectedGraph, iter_nodes}
use sys_tester.Graph.Walk.{IsValid, IsCycle, Walk, last, next, Walk-of_Leads}
use sys_tester.Graph.Topo.{
  Outcome, ok, err, panic, out_of_fuel, ◌>>=◌, TopologicalOrder, Dfs, number, finish, initial,
  visit_roots, topological_order,
}
use sys_tester.Graph.Topo.Search.{Inv}
use sys_tester.Graph.Topo.Run.{RootsOk, visit_roots-RootsOk, Inv-initial}
use sys_tester.Graph.Topo.Order.{
  get_of_mem, length-number, number_lem, IsClosed-later, IsTopological, TopoOk,
}

module _ (g : DirectedGraph) where
  finish-IsTopological :
      (s : Dfs)
      → Inv g s
      → ((v : ℕ) → v ∈ range g.num_nodes → v ∈ s.reverse_order)
      → IsTopological g (finish g s)
  unfolding finish
  finish-IsTopological s i every = record {
    all = λ v. (λ m. below v m, λ h. placed v h);
    once = i.once;
    map_size = map_size;
    inverse = place;
    forward = λ u v inside e.
        let (a, at) = get_of_mem order u (placed u inside) in
        let (b, there, after) = IsClosed-later g order a u v i.closed at e in
        (a, b, place a u at, place b v there, after);
  }
    where
      order : List ℕ
      order = reverse s.reverse_order

      below : (v : ℕ) → v ∈ reverse s.reverse_order → v < g.num_nodes
      below v m =
          let closed = (i.done_iff v).1 ((mem-reverse v s.reverse_order).0 m) in
          omega (arith, lt-length_of_get s.states v _ closed, i.size)

      placed : (v : ℕ) → v < g.num_nodes → v ∈ reverse s.reverse_order
      placed v h =
          (mem-reverse v s.reverse_order).1
            (every v ((mem-range_from v 0 g.num_nodes).1 (omega arith)))

      map_size : length (number 0 (reverse s.reverse_order) (iter_nodes g)) ≡ g.num_nodes
      map_size =
          length-number 0 (reverse s.reverse_order) (iter_nodes g) ∙ length-range_from 0 g.num_nodes

      all_inside :
          (xs : List ℕ)
          → ((v : ℕ) → v ∈ xs → v < g.num_nodes)
          → All (λ (v : ℕ). v < length (iter_nodes g)) xs
      all_inside [] h = tt
      all_inside (x ∷ xs) h = (
        omega (arith, h x (inl refl), length-range_from 0 g.num_nodes),
        all_inside xs (λ v m. h v (inr m)),
      )

      place :
          (k v : ℕ)
          → get_elem? (reverse s.reverse_order) k ≡ some v
          → get_elem? (number 0 (reverse s.reverse_order) (iter_nodes g)) v ≡ some k
      place k v h =
          number_lem 0 (reverse s.reverse_order) (iter_nodes g) k v
            (all_inside (reverse s.reverse_order) below) i.once h
          ∙ ap some (omega arith)

  pub topological_order-TopoOk : IsValid g → TopoOk g (topological_order g)
  unfolding topological_order
  topological_order-TopoOk valid = after (visit_roots g (initial g) (iter_nodes g)) (
      visit_roots-RootsOk g valid (iter_nodes g) (initial g) (Inv-initial g) empty
        (all_nodes 0 g.num_nodes (omega arith)))
    where
      empty : (initial g).call_stack ≡ []
      empty = refl

      all_nodes :
          (i n : ℕ) → i + n ≤ g.num_nodes → All (λ (v : ℕ). v < g.num_nodes) (range_from i n)
      all_nodes i zero h = tt
      all_nodes i (suc n) h = (omega arith, all_nodes (suc i) n (omega arith))

      after :
          (r : Outcome Dfs)
          → RootsOk g valid (initial g) (iter_nodes g) r
          → TopoOk g (r >>= λ s. ok (finish g s))
      after (ok s) (inv, done_all, old, every) = finish-IsTopological s inv every
      after (err cycle) c = c
      after panic c = c
      after out_of_fuel c = c

  -- Along an order that is topological a walk only goes forward.
  pub Walk-forward :
      (t : TopologicalOrder) (u v : ℕ)
      → IsValid g
      → IsTopological g t
      → u < g.num_nodes
      → Walk g u v
      → (i : ℕ) × (j : ℕ) × (get_elem? t.map u ≡ some i) × (get_elem? t.map v ≡ some j) × (i < j)
  Walk-forward t u v valid top inside (last e) = top.forward u v inside e
  Walk-forward t u v valid top inside (next {v = m} e p) =
      let (i, k, at, between, low) = top.forward u m inside e in
      let (k', j, between', there, high) =
        Walk-forward t m v valid top (valid.inside u m inside e) p in
      let same : k ≡ k' = ground (arith, between, between') in (i, j, at, there, omega arith)

-- On a graph whose edges lead to nodes, an `Ok` of `topological_order` lists every node exactly once,
-- `map` gives each node's index in the list, and every edge leads from an earlier to a later node.
pub topological_order-IsTopological :
    (g : DirectedGraph) (t : TopologicalOrder)
    → IsValid g
    → topological_order g ≡ ok t
    → IsTopological g t
topological_order-IsTopological g t valid e = subst (TopoOk g) e (topological_order-TopoOk g valid)

-- On a graph whose edges lead to nodes, an `Err` of `topological_order` is a closed path: a walk along
-- edges of the graph whose first and last nodes are the same.
pub topological_order-IsCycle :
    (g : DirectedGraph) (cycle : List ℕ)
    → IsValid g
    → topological_order g ≡ err cycle
    → IsCycle g cycle
topological_order-IsCycle g cycle valid e = subst (TopoOk g) e (topological_order-TopoOk g valid)

-- On a graph whose edges lead to nodes, `topological_order` neither panics nor runs out of fuel: it
-- returns an order or a cycle.
pub topological_order_returns :
    (g : DirectedGraph)
    → IsValid g
    → ((t : TopologicalOrder) × (topological_order g ≡ ok t))
      ⊎ ((cycle : List ℕ) × (topological_order g ≡ err cycle))
topological_order_returns g valid =
    by_outcome (topological_order g) refl (topological_order-TopoOk g valid)
  where
    by_outcome :
        (r : Outcome TopologicalOrder)
        → topological_order g ≡ r
        → TopoOk g r
        → ((t : TopologicalOrder) × (topological_order g ≡ ok t))
          ⊎ ((cycle : List ℕ) × (topological_order g ≡ err cycle))
    by_outcome (ok t) e c = inl (t, e)
    by_outcome (err cycle) e c = inr (cycle, e)
    by_outcome panic e c = absurd c
    by_outcome out_of_fuel e c = absurd c

-- On a graph whose edges lead to nodes, `topological_order` returns an order exactly if no node of the
-- graph has a walk back to itself.
pub topological_order_iff_acyclic :
    (g : DirectedGraph)
    → IsValid g
    → ((t : TopologicalOrder) × (topological_order g ≡ ok t))
      ↔ ((u : ℕ) → u < g.num_nodes → ¬ Walk g u u)
topological_order_iff_acyclic g valid = (sound, complete (topological_order_returns g valid))
  where
    sound :
        (t : TopologicalOrder) × (topological_order g ≡ ok t)
        → (u : ℕ) → u < g.num_nodes
        → ¬ Walk g u u
    sound (t, e) u inside p =
        let (i, j, at, there, less) =
          Walk-forward g t u u valid (topological_order-IsTopological g t valid e) inside p in
        let same : i ≡ j = ground (arith, at, there) in omega arith

    complete :
        ((t : TopologicalOrder) × (topological_order g ≡ ok t))
          ⊎ ((cycle : List ℕ) × (topological_order g ≡ err cycle))
        → ((u : ℕ) → u < g.num_nodes → ¬ Walk g u u)
        → (t : TopologicalOrder) × (topological_order g ≡ ok t)
    complete (inl found) acyclic = found
    complete (inr (cycle, e)) acyclic =
        let (u, between, shape, inside, leads) = topological_order-IsCycle g cycle valid e in
        absurd (acyclic u inside (Walk-of_Leads g u u between leads))
