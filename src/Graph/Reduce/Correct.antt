-- ===== src/Graph/Reduce/Correct.antt =====
-- What `transitive_solved_reduction` and `transitive_reduction` return: a graph with the same walks
-- in which no edge can be left out.
use mathlib.Core.List.{reverse, reverse-reverse, append-nil}
use sys_tester.Base.{
  ℕ, zero, suc, ◌+◌, ◌<◌, ◌≡◌, refl, ◌↔◌, inl, inr, sym, subst, ◌∙◌, some, none, List, [], length,
  get_elem?, ◌∈◌, mem-reverse, arith,
}
use sys_tester.Graph.{DirectedGraph, BasicGraph, basic}
use sys_tester.Graph.Walk.{Edge, IsValid, IsCycle, Walk, Walk-trans, last, next, listed}
use sys_tester.Graph.Topo.{
  TopologicalOrder, Outcome, ok, err, panic, out_of_fuel, ◌>>=◌, topological_order,
}
use sys_tester.Graph.Topo.Order.{IsTopological, TopoOk}
use sys_tester.Graph.Topo.Correct.{topological_order-TopoOk}
use sys_tester.Graph.Reduce.{place, start, transitive_solved_reduction, transitive_reduction}
use sys_tester.Graph.Reduce.Nodes.{gone_through, mem-gone_through}
use sys_tester.Graph.Reduce.Sweep.{IsReducedRow, reduce_nodes-NodesInv}
use sys_tester.Graph.Reduce.Ready.{rises, apart, IsReady_lem, NodesInv-start}

-- The reduction `b` of `g`: the same nodes, a part of the edges, the same walks, and no edge that
-- another edge followed by a walk stands for.
pub record IsReduction (g : DirectedGraph) (b : BasicGraph) : Type 0 where
  pub nodes : length b.edges ≡ g.num_nodes
  pub part : (u v : ℕ) → u < g.num_nodes → Edge (basic b) u v → Edge g u v
  pub walks : (u v : ℕ) → u < g.num_nodes → Walk (basic b) u v ↔ Walk g u v
  pub minimal : (u v y : ℕ) → u < g.num_nodes → Edge (basic b) u v → Edge g u y → ¬ Walk g y v

module _ (g : DirectedGraph) (valid : IsValid g) (topo : TopologicalOrder)
    (top : IsTopological g topo) where
  -- With the right rows for every node the reduction is one.
  module _ (b : BasicGraph) (size : length b.edges ≡ g.num_nodes)
      (rows : (u : ℕ)
        → u < g.num_nodes
        → (kept : List ℕ) × (get_elem? b.edges u ≡ some kept) × IsReducedRow g u kept) where
    -- The rows read as edges.
    row_of : (u v : ℕ) (inside : u < g.num_nodes) → Edge (basic b) u v ↔ (v ∈ (rows u inside).0)
    row_of u v inside = (
      λ m. subst (λ o. v ∈ listed o) (rows u inside).1 m,
      λ m. subst (λ o. v ∈ listed o) (sym (rows u inside).1) m,
    )

    part : (u v : ℕ) → u < g.num_nodes → Edge (basic b) u v → Edge g u v
    part u v inside m = (rows u inside).2.edges v ((row_of u v inside).0 m)

    Walk-part : (u v : ℕ) → u < g.num_nodes → Walk (basic b) u v → Walk g u v
    Walk-part u v inside (last e) = last (part u v inside e)
    Walk-part u v inside (next {v = x} e p) =
        let e' = part u x inside e in next e' (Walk-part x v (valid.inside u x inside e') p)

    -- A walk is kept if its edges are.
    Walk-by :
        (d : ℕ)
        → ((u v : ℕ)
            → u < g.num_nodes
            → place topo v < place topo u + d
            → Edge g u v
            → Walk (basic b) u v)
        → (u v : ℕ) → u < g.num_nodes
        → place topo v < place topo u + d
        → Walk g u v
        → Walk (basic b) u v
    Walk-by d kept u v inside near (last e) = kept u v inside near e
    Walk-by d kept u v inside near (next {v = x} e p) =
        let hx = valid.inside u x inside e in
        let first = rises g valid topo top u x inside (last e) in
        let second = rises g valid topo top x v hx p in
        Walk-trans (kept u x inside (omega (arith, second)) e)
          (Walk-by d kept x v hx (omega (arith, first)) p)

    -- By the distance of the nodes in the order: an edge that is left out has a detour, and each part
    -- of the detour is shorter.
    Edge-kept :
        (d u v : ℕ)
        → u < g.num_nodes
        → place topo v < place topo u + d
        → Edge g u v
        → Walk (basic b) u v
    Edge-kept zero u v inside near e =
        absurd (omega (arith, rises g valid topo top u v inside (last e)))
    Edge-kept (suc d) u v inside near e = elim ((rows u inside).2.enough v e) [
      | inl kept ↦ last ((row_of u v inside).1 kept)
      | inr (y, e', p) ↦
          let hy = valid.inside u y inside e' in
          let first = rises g valid topo top u y inside (last e') in
          let second = rises g valid topo top y v hy p in
          Walk-trans (Edge-kept d u y inside (omega (arith, second)) e')
            (Walk-by d (Edge-kept d) y v hy (omega (arith, first)) p)
    ]

    rows-IsReduction : IsReduction g b
    rows-IsReduction = record {
      nodes = size;
      part = part;
      walks = λ u v inside. (
        Walk-part u v inside,
        Walk-by (suc (place topo v)) (Edge-kept (suc (place topo v))) u v inside (omega arith),
      );
      minimal = λ u v y inside e. (rows u inside).2.needed v y ((row_of u v inside).0 e);
    }

  solved-IsReduction :
      (b : BasicGraph) × (transitive_solved_reduction g topo ≡ some b) × IsReduction g b
  unfolding transitive_solved_reduction
  solved-IsReduction =
      let (s, runs, i) =
        reduce_nodes-NodesInv g valid topo (rises g valid topo top) (apart g valid topo top)
          (reverse topo.order) [] (start g)
          (IsReady_lem g valid topo top (reverse topo.order) []
            (sym (append-nil _ ∙ reverse-reverse topo.order)))
          (NodesInv-start g valid topo top) (omega (arith, top.map_size)) in
      (
        record { edges = s.edges },
        rw (runs, transitive_solved_reduction) refl,
        rows-IsReduction (record { edges = s.edges }) i.edges_size
            (λ u inside. i.reduced u (finished u inside)),
      )
    where
      finished : (u : ℕ) → u < g.num_nodes → u ∈ gone_through (reverse topo.order) []
      finished u inside =
          (mem-gone_through u (reverse topo.order) []).1
            (inl ((mem-reverse u topo.order).1 ((top.all u).1 inside)))

-- On a graph whose edges lead to nodes and a topological order of it, `transitive_solved_reduction`
-- does not panic: it returns a graph with the same nodes and a part of the edges that has the same
-- walks, and in which no edge `u → v` stands beside an edge `u → y` of the graph with a walk from `y`
-- to `v`.
pub transitive_solved_reduction-IsReduction :
    (g : DirectedGraph) (topo : TopologicalOrder)
    → IsValid g
    → IsTopological g topo
    → (b : BasicGraph) × (transitive_solved_reduction g topo ≡ some b) × IsReduction g b
transitive_solved_reduction-IsReduction g topo valid top = solved-IsReduction g valid topo top

-- What `transitive_reduction` may return.
abbrev pub ReductionOk : DirectedGraph → Outcome (BasicGraph × TopologicalOrder) → Type 0
ReductionOk g (ok (b, topo)) = IsReduction g b × IsTopological g topo
ReductionOk g (err cycle) = IsCycle g cycle
ReductionOk g panic = ⊥
ReductionOk g out_of_fuel = ⊥

-- On a graph whose edges lead to nodes, `transitive_reduction` returns a reduction of the graph with a
-- topological order of it, or an `Err` with a cycle of the graph; it does not panic.
pub transitive_reduction-ReductionOk :
    (g : DirectedGraph) → IsValid g → ReductionOk g (transitive_reduction g)
unfolding transitive_reduction
transitive_reduction-ReductionOk g valid =
    after (topological_order g) (topological_order-TopoOk g valid)
  where
    after :
        (r : Outcome TopologicalOrder)
        → TopoOk g r
        → ReductionOk g (
            r >>= λ topo. elim (transitive_solved_reduction g topo) [
              | none ↦ panic
              | some reduced ↦ ok (reduced, topo)
            ])
    after (ok topo) top =
        let (b, e, reduction) = solved-IsReduction g valid topo top in
        rw (e, ReductionOk) (reduction, top)
    after (err cycle) c = c
    after panic c = c
    after out_of_fuel c = c
