-- ===== src/Graph/Reduce/Total.antt =====
-- The reduction on any order of nodes, topological or not: it does not panic, and keeps edges only.
use mathlib.Core.List.{reverse}
use sys_tester.Base.{
  zero, suc, ℕ, ◌<◌, ◌≤◌, ◌≡◌, refl, sym, ap, ◌∙◌, ◌⊎◌, inl, inr, Bool, true, false, some,
  some_injective, List, [], ◌∷◌, ◌++◌, length, length-set, length-replicate, get_elem?,
  get_elem?-some, get_elem?-set_self, get_elem?-set_ne, set, replicate, ◌∈◌, All, All-of_mem,
  mem-append, mem-reverse, subst, Bool-cases, ◌==◌, ==→eq, ==→ne, arith, All-mem,
  eq_of_get-replicate,
}
use sys_tester.Base.Sort.{sort_by_key, dedup, mem-sort_by_key, mem-dedup}
use sys_tester.Graph.{DirectedGraph, BasicGraph}
use sys_tester.Graph.Walk.{listed, IsValid, Edge}
use sys_tester.Graph.Topo.{TopologicalOrder}
use sys_tester.Graph.Reduce.Placed.{sort_by_place_lem}
use sys_tester.Graph.Reduce.{
  Rows, Reduction, or_into, cover, place, sort_by_place, reduce_node, reduce_nodes, start,
  transitive_solved_reduction,
}
use sys_tester.Graph.Reduce.Cover.{length-or_into}

module _ (m : ℕ) where
  -- `m` rows of `m` bits.
  abbrev IsSquare : List (List Bool) → Type 0
  IsSquare reachable =
      (length reachable ≡ m)
      × ((u : ℕ) (bits : List Bool) → get_elem? reachable u ≡ some bits → length bits ≡ m)

  -- What `cover` ends with.
  abbrev Covered : List ℕ → Rows → Rows → Type 0
  Covered successors r r' =
      (length r'.covered ≡ m) × ((v : ℕ) → v ∈ r'.kept → (v ∈ r.kept) ⊎ (v ∈ successors))

  cover_total :
      (reachable : List (List Bool)) (successors : List ℕ) (r : Rows)
      → IsSquare reachable
      → All (λ v. v < m) successors
      → length r.covered ≡ m
      → (r' : Rows) × (cover reachable successors r ≡ some r') × Covered successors r r'
  unfolding cover
  cover_total reachable [] r square below size = (r, refl, (size, λ v h. inl h))
  cover_total reachable (to ∷ rest) r square below size =
      let (state, found) = get_elem?-some r.covered to (omega (arith, size, below.0)) in
      let (bits, at) = get_elem?-some reachable to (omega (arith, square.0, below.0)) in
      let next : Rows = record {
        kept = r.kept ++ to ∷ [];
        covered = or_into (set r.covered to true) bits;
      } in
      let next_size =
        length-or_into (set r.covered to true) bits ∙ length-set r.covered to true ∙ size in
      by_state state found (cover_total reachable rest r square below.1 size) bits at
        (cover_total reachable rest next square below.1 next_size)
    where
      by_state :
          (state : Bool)
          → get_elem? r.covered to ≡ some state
          → (r' : Rows) × (cover reachable rest r ≡ some r') × Covered rest r r'
          → (bits : List Bool) → get_elem? reachable to ≡ some bits
          → (r' : Rows) × (cover reachable rest (record {
            kept = r.kept ++ to ∷ [];
            covered = or_into (set r.covered to true) bits;
          })
              ≡ some r')
            × Covered rest
                (record {
                  kept = r.kept ++ to ∷ [];
                  covered = or_into (set r.covered to true) bits;
                })
                r'
          → (r' : Rows) × (cover reachable (to ∷ rest) r ≡ some r') × Covered (to ∷ rest) r r'
      by_state true found (r', runs, (sized, kept)) bits at other = (
        r',
        rw (cover, found) runs,
        (sized, λ v h. elim (kept v h) [ inl k ↦ inl k | inr k ↦ inr (inr k) ]),
      )
      by_state false found same bits at (r', runs, (sized, kept)) =
          (r', rw (cover, found, at) runs, (sized, λ v h. moved v (kept v h)))
        where
          moved :
              (v : ℕ) → (v ∈ (r.kept ++ to ∷ [])) ⊎ (v ∈ rest) → (v ∈ r.kept) ⊎ (v ∈ (to ∷ rest))
          moved v (inl k) = ground (arith, mem-append v r.kept (to ∷ []), k)
          moved v (inr k) = inr (inr k)

-- The variables of the loop over the nodes have their sizes, and only edges have been kept.
record IsSized (g : DirectedGraph) (s : Reduction) : Type 0 where
  square : IsSquare g.num_nodes s.reachable
  rows : length s.edges ≡ g.num_nodes
  part : (u v : ℕ) → v ∈ listed (get_elem? s.edges u) → Edge g u v

module _ (g : DirectedGraph) (valid : IsValid g) (topo : TopologicalOrder) where
  -- The loop's body with the rows that `cover` has left.
  reduce_node_rows :
      (s : Reduction) (from : ℕ) (es kept : List ℕ) (r : Rows)
      → g.edges from ≡ some es
      → get_elem? s.edges from ≡ some kept
      → sort_by_place topo es ≡ some (sort_by_key (place topo) es)
      → cover s.reachable
          (dedup (sort_by_key (place topo) es))
          (record { kept = kept; covered = replicate g.num_nodes false })
        ≡ some r
      → reduce_node g topo s from
        ≡ some
            (record { reachable = set s.reachable from r.covered; edges = set s.edges from r.kept })
  unfolding reduce_node
  reduce_node_rows s from es kept r at found sorted runs =
      rw (reduce_node, at, found, sorted, runs) refl

  stored :
      (s : Reduction) (from : ℕ) (r : Rows)
      → IsSized g s
      → from < g.num_nodes
      → length r.covered ≡ g.num_nodes
      → ((v : ℕ) → v ∈ r.kept → Edge g from v)
      → IsSized g
          (record { reachable = set s.reachable from r.covered; edges = set s.edges from r.kept })
  stored s from r sized bound size kept = record {
    square = (
      length-set s.reachable from r.covered ∙ sized.square.0,
      λ u bits h. elim (Bool-cases (from == u)) [
        | inl e ↦
            let here =
              get_elem?-set_self s.reachable from r.covered
                (omega (arith, sized.square.0, bound)) in
            ap length (
              sym (
                some_injective r.covered bits (
                  sym here ∙ ap (get_elem? (set s.reachable from r.covered)) (==→eq from u e) ∙ h)))
            ∙ size
        | inr e ↦
            sized.square.1 u bits
              (sym (get_elem?-set_ne s.reachable from u r.covered (==→ne from u e)) ∙ h)
      ],
    );
    rows = length-set s.edges from r.kept ∙ sized.rows;
    part = λ u v h. elim (Bool-cases (from == u)) [
      | inl e ↦
          let here = get_elem?-set_self s.edges from r.kept (omega (arith, sized.rows, bound)) in
          let same = ==→eq from u e in
          subst (λ x. Edge g x v) same
            (kept v (
              subst (λ o. v ∈ listed o) (ap (get_elem? (set s.edges from r.kept)) (sym same) ∙ here)
                h))
      | inr e ↦
          sized.part u v
            (subst (λ o. v ∈ listed o) (get_elem?-set_ne s.edges from u r.kept (==→ne from u e)) h)
    ];
  }

  reduce_node_total :
      (s : Reduction) (from : ℕ)
      → IsSized g s
      → from < g.num_nodes
      → g.num_nodes ≤ length topo.map
      → (s' : Reduction) × (reduce_node g topo s from ≡ some s') × IsSized g s'
  reduce_node_total s from sized bound mapped =
      let (es, at) = valid.has_edges from bound in
      let (kept, found) = get_elem?-some s.edges from (omega (arith, sized.rows, bound)) in
      let (r, runs, covered) =
        cover_total g.num_nodes s.reachable (dedup (sort_by_key (place topo) es))
          (record { kept = kept; covered = replicate g.num_nodes false }) sized.square
          (All-of_mem (λ v. v < g.num_nodes) (dedup (sort_by_key (place topo) es))
            (λ v h. valid.inside from v bound (is_edge es at v h)))
          (length-replicate g.num_nodes false) in
      (
        record { reachable = set s.reachable from r.covered; edges = set s.edges from r.kept },
        reduce_node_rows s from es kept r at found
            (sort_by_place_lem topo es (λ v h.
              omega
                (arith, valid.inside from v bound (subst (λ o. v ∈ listed o) (sym at) h), mapped)))
            runs,
        stored s from r sized bound covered.0 (λ v h. elim (covered.1 v h) [
          | inl k ↦ sized.part from v (subst (λ o. v ∈ listed o) (sym found) k)
          | inr k ↦ is_edge es at v k
        ]),
      )
    where
      is_edge :
          (es : List ℕ)
          → g.edges from ≡ some es
          → (v : ℕ) → v ∈ dedup (sort_by_key (place topo) es)
          → Edge g from v
      is_edge es at v h =
          subst (λ o. v ∈ listed o) (sym at)
            ((mem-sort_by_key (place topo) v es).0
              ((mem-dedup v (sort_by_key (place topo) es)).0 h))

  reduce_nodes_total :
      (xs : List ℕ) (s : Reduction)
      → IsSized g s
      → All (λ v. v < g.num_nodes) xs
      → g.num_nodes ≤ length topo.map
      → (s' : Reduction) × (reduce_nodes g topo xs s ≡ some s') × IsSized g s'
  unfolding reduce_nodes
  reduce_nodes_total [] s sized below mapped = (s, refl, sized)
  reduce_nodes_total (from ∷ xs) s sized below mapped =
      let (s₁, runs, sized₁) = reduce_node_total s from sized below.0 mapped in
      let (s₂, more, sized₂) = reduce_nodes_total xs s₁ sized₁ below.1 mapped in
      (s₂, after s₁ runs ∙ more, sized₂)
    where
      after :
          (s₁ : Reduction)
          → reduce_node g topo s from ≡ some s₁
          → reduce_nodes g topo (from ∷ xs) s ≡ reduce_nodes g topo xs s₁
      after s₁ runs = rw (reduce_nodes, runs) refl

  start-IsSized : IsSized g (start g)
  unfolding start
  start-IsSized = record {
    square = (
      length-replicate g.num_nodes (replicate g.num_nodes false),
      λ u bits h.
          ap length (eq_of_get-replicate g.num_nodes u (replicate g.num_nodes false) bits h)
          ∙ length-replicate g.num_nodes false,
    );
    rows = length-replicate g.num_nodes [];
    part = λ u v h. absurd (nothing g.num_nodes u v h);
  }
    where
      nothing : (n u v : ℕ) → ¬ (v ∈ listed (get_elem? (replicate n []) u))
      nothing zero u v h = h
      nothing (suc n) zero v h = h
      nothing (suc n) (suc u) v h = nothing n u v h

  -- The reduction returns a part of the graph.
  pub transitive_solved_reduction_returns :
      All (λ v. v < g.num_nodes) topo.order
      → g.num_nodes ≤ length topo.map
      → (b : BasicGraph) × (transitive_solved_reduction g topo ≡ some b)
        × (length b.edges ≡ g.num_nodes)
        × ((u v : ℕ) → v ∈ listed (get_elem? b.edges u) → Edge g u v)
  unfolding transitive_solved_reduction
  transitive_solved_reduction_returns below mapped =
      let order = reverse topo.order in
      let (s, runs, sized) =
        reduce_nodes_total order (start g) start-IsSized
          (All-of_mem (λ v. v < g.num_nodes) order
            (λ v h.
              All-mem (λ x. x < g.num_nodes) topo.order v below ((mem-reverse v topo.order).0 h)))
          mapped in
      (record { edges = s.edges }, run_of s runs, sized.rows, sized.part)
    where
      run_of :
          (s : Reduction)
          → reduce_nodes g topo (reverse topo.order) (start g) ≡ some s
          → transitive_solved_reduction g topo ≡ some (record { edges = s.edges })
      run_of s runs = rw (transitive_solved_reduction, runs) refl
