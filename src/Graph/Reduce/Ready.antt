-- ===== src/Graph/Reduce/Ready.antt =====
-- A topological order gives the loop over the nodes what it needs: each node's successors come first.
use mathlib.Core.List.{reverse, reverse-cons, append_assoc}
use sys_tester.Base.{
  ℕ, zero, suc, ◌<◌, ◌≡◌, refl, sym, subst, ◌∙◌, false, some, List, [], ◌∷◌, ◌++◌, length,
  get_elem?, get_or_of_get, get_elem?-replicate, replicate, length-replicate, ◌∈◌, IsNodup, arith,
}
use sys_tester.Graph.{DirectedGraph}
use sys_tester.Graph.Walk.{Edge, IsValid, Walk, last}
use sys_tester.Graph.Topo.{TopologicalOrder}
use sys_tester.Graph.Topo.Order.{IsTopological, get_of_mem, mem_of_get}
use sys_tester.Graph.Topo.Correct.{Walk-forward}
use sys_tester.Graph.Reduce.{place, start}
use sys_tester.Graph.Reduce.Sweep.{NodesInv, IsReady}

-- In a list cut at `x` what stands behind the cut is in the second part.
mem_behind :
    (before behind : List ℕ) (x j v : ℕ)
    → get_elem? (before ++ x ∷ behind) j ≡ some v
    → length before < j
    → v ∈ behind
mem_behind [] behind x zero v h less = absurd (omega arith)
mem_behind [] behind x (suc j) v h less = mem_of_get behind j v h
mem_behind (y ∷ before) behind x zero v h less = absurd (omega arith)
mem_behind (y ∷ before) behind x (suc j) v h less = mem_behind before behind x j v h (omega arith)

get_at_cut :
    (before behind : List ℕ) (x : ℕ) → get_elem? (before ++ x ∷ behind) (length before) ≡ some x
get_at_cut [] behind x = refl
get_at_cut (y ∷ before) behind x = get_at_cut before behind x

IsNodup-cut : (before behind : List ℕ) (x : ℕ) → IsNodup (before ++ x ∷ behind) → ¬ (x ∈ behind)
IsNodup-cut [] behind x d = d.0
IsNodup-cut (y ∷ before) behind x d = IsNodup-cut before behind x d.1

module _ (g : DirectedGraph) (valid : IsValid g) (topo : TopologicalOrder)
    (top : IsTopological g topo) where
  -- The map holds the index of a node in the order.
  pub place_lem :
      (u : ℕ)
      → u < g.num_nodes
      → (get_elem? topo.order (place topo u) ≡ some u)
        × (get_elem? topo.map u ≡ some (place topo u))
  place_lem u inside =
      let (i, at) = get_of_mem topo.order u ((top.all u).1 inside) in
      let there = top.inverse i u at in
      let e = get_or_of_get topo.map u i 0 there in (rw e at, rw e there)

  pub rises : (u v : ℕ) → u < g.num_nodes → Walk g u v → place topo u < place topo v
  rises u v inside p =
      let (i, j, at, there, less) = Walk-forward g topo u v valid top inside p in
      omega (arith, get_or_of_get topo.map u i 0 at, get_or_of_get topo.map v j 0 there)

  pub apart : (u v : ℕ) → u < g.num_nodes → v < g.num_nodes → place topo u ≡ place topo v → u ≡ v
  apart u v hu hv e =
      let at_u = (place_lem u hu).0 in
      let at_v = (place_lem v hv).0 in
      ground (arith, at_u, subst (λ k. get_elem? topo.order k ≡ some v) (sym e) at_v)

  -- From the last node back, each node is ready when its turn comes.
  pub IsReady_lem :
      (todo behind : List ℕ)
      → topo.order ≡ reverse todo ++ behind
      → IsReady g valid topo rises apart behind todo
  IsReady_lem [] behind e = tt
  IsReady_lem (x ∷ todo) behind e = (inside, fresh, ended, IsReady_lem todo (x ∷ behind) cut)
    where
      cut : topo.order ≡ reverse todo ++ x ∷ behind
      cut = e ∙ simp (reverse-cons, append_assoc)

      at_x : get_elem? topo.order (length (reverse todo)) ≡ some x
      at_x = rw cut (get_at_cut (reverse todo) behind x)

      inside : x < g.num_nodes
      inside = (top.all x).0 (mem_of_get topo.order (length (reverse todo)) x at_x)

      fresh : ¬ (x ∈ behind)
      fresh = IsNodup-cut (reverse todo) behind x (subst (λ l. IsNodup l) cut top.once)

      ended : (v : ℕ) → Edge g x v → v ∈ behind
      ended v edge =
          let at_v = (place_lem v (valid.inside x v inside edge)).0 in
          let less = rises x v inside (last edge) in
          let i = get_or_of_get topo.map x _ 0 (top.inverse (length (reverse todo)) x at_x) in
          mem_behind (reverse todo) behind x (place topo v) v
            (subst (λ l. get_elem? l (place topo v) ≡ some v) cut at_v) (omega (arith, less, i))

  pub NodesInv-start : NodesInv g valid topo rises apart [] (start g)
  unfolding start
  NodesInv-start = record {
    reach_size = length-replicate g.num_nodes (replicate g.num_nodes false);
    edges_size = length-replicate g.num_nodes [];
    reached = λ v m. absurd m;
    reduced = λ v m. absurd m;
    blank = λ v h off. get_elem?-replicate g.num_nodes v [] h;
  }
