-- ===== src/Graph/Reduce/Nodes.antt =====
-- The loop over the sorted successors of one node, run to its end.
use sys_tester.Base.{
  ℕ, ◌<◌, ◌≡◌, refl, ◌⊎◌, ◌↔◌, inl, inr, sym, subst, Bool, true, false, some, List, [], ◌∷◌,
  get_elem?, get_elem?-some, ◌∈◌, All, All-mem, All-of_mem, arith,
}
use sys_tester.Base.Sort.{IsAscending}
use sys_tester.Graph.{DirectedGraph}
use sys_tester.Graph.Walk.{Walk}
use sys_tester.Graph.Topo.{TopologicalOrder}
use sys_tester.Graph.Reduce.{Rows, cover, place}
use sys_tester.Graph.Reduce.Cover.{IsReachRow, Covers, Covers-skip, Covers-keep}

-- The successors that have been gone through, the last one first.
abbrev pub gone_through : List ℕ → List ℕ → List ℕ
gone_through [] seen = seen
gone_through (to ∷ rest) seen = gone_through rest (to ∷ seen)

pub mem-gone_through :
    (v : ℕ) (rest seen : List ℕ) → (v ∈ gone_through rest seen) ↔ ((v ∈ rest) ⊎ (v ∈ seen))
mem-gone_through v [] seen = (inr, elim [ inl m ↦ absurd m | inr m ↦ m ])
mem-gone_through v (to ∷ rest) seen = ground (arith, mem-gone_through v rest (to ∷ seen))

module _ (g : DirectedGraph) (topo : TopologicalOrder) where
  abbrev pub rank : ℕ → ℕ
  rank = place topo

  -- The row of a node that is done.
  abbrev pub HasRow : List (List Bool) → ℕ → Type 0
  HasRow reachable v = (row : List Bool) × (get_elem? reachable v ≡ some row) × IsReachRow g v row

  module _ (rises : (u v : ℕ) → u < g.num_nodes → Walk g u v → rank u < rank v) where
    pub cover_lem :
        (reachable : List (List Bool)) (successors seen : List ℕ) (r : Rows)
        → ((to : ℕ) → to ∈ successors → (to < g.num_nodes) × HasRow reachable to)
        → ((p to : ℕ) → p ∈ seen → to ∈ successors → rank p < rank to)
        → IsAscending rank successors
        → Covers g seen r
        → (r' : Rows) × (cover reachable successors r ≡ some r')
          × Covers g (gone_through successors seen) r'
    unfolding cover
    cover_lem reachable [] seen r ready below up c = (r, refl, c)
    cover_lem reachable (to ∷ rest) seen r ready below up c =
        let (state, found) = get_elem?-some r.covered to (omega (arith, c.size, inside)) in
        by_state (cover_lem reachable rest) state found
      where
        inside : to < g.num_nodes
        inside = (ready to (inl refl)).0

        lower : All (λ (x : ℕ). rank x < rank to) seen
        lower = All-of_mem (λ x. rank x < rank to) seen (λ x m. below x to m (inl refl))

        below' : (p x : ℕ) → p ∈ (to ∷ seen) → x ∈ rest → rank p < rank x
        below' p x (inl e) m =
            subst (λ k. rank k < rank x) (sym e) (All-mem (λ y. rank to < rank y) rest x up.0 m)
        below' p x (inr m) n = below p x m (inr n)

        by_state :
            ((seen' : List ℕ) (r' : Rows)
              → ((x : ℕ) → x ∈ rest → (x < g.num_nodes) × HasRow reachable x)
              → ((p x : ℕ) → p ∈ seen' → x ∈ rest → rank p < rank x)
              → IsAscending rank rest
              → Covers g seen' r'
              → (r'' : Rows) × (cover reachable rest r' ≡ some r'')
                × Covers g (gone_through rest seen') r'')
            → (state : Bool) → get_elem? r.covered to ≡ some state
            → (r' : Rows) × (cover reachable (to ∷ rest) r ≡ some r')
              × Covers g (gone_through rest (to ∷ seen)) r'
        by_state ih true found =
            rw (found, cover)
              (ih (to ∷ seen) r (λ x m. ready x (inr m)) below' up.1
                (Covers-skip g rank rises seen to r inside lower found c))
        by_state ih false found =
            let (row, at, reach) = (ready to (inl refl)).1 in
            rw (found, at, cover)
              (ih (to ∷ seen) _ (λ x m. ready x (inr m)) below' up.1
                (Covers-keep g rank rises seen to r row inside lower found reach c))
