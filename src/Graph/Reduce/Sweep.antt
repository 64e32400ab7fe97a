-- ===== src/Graph/Reduce/Sweep.antt =====
-- The loop over the nodes, from the last one back: what it leaves in the rows of a node.
use sys_tester.Base.{
  ℕ, ◌<◌, ◌≤◌, ◌≡◌, refl, ◌⊎◌, ◌↔◌, inl, inr, sym, subst, ◌∙◌, true, false, some, List, [], ◌∷◌,
  length, get_elem?, get_elem?-set, get_elem?-set_ne, eq_of_get-replicate, set, length-set,
  replicate, length-replicate, if◌then◌else◌, ◌==◌, Bool-cases, ==→eq, ==→ne, ◌∈◌, arith,
}
use sys_tester.Base.Sort.{
  sort_by_key, dedup, mem-sort_by_key, mem-dedup, sort_by_key-IsSorted, dedup-IsAscending,
  IsAscending,
}
use sys_tester.Graph.{DirectedGraph}
use sys_tester.Graph.Walk.{Edge, IsValid, Walk, last, next, listed}
use sys_tester.Graph.Topo.{TopologicalOrder}
use sys_tester.Graph.Reduce.{Rows, Reduction, place, sort_by_place, reduce_node, reduce_nodes}
use sys_tester.Graph.Reduce.Placed.{sort_by_place_lem}
use sys_tester.Graph.Reduce.Cover.{IsReachRow, Covers}
use sys_tester.Graph.Reduce.Nodes.{gone_through, mem-gone_through, HasRow, cover_lem}

-- The reduced edges of a node: those that no other edge of the node with a walk stands for.
pub record IsReducedRow (g : DirectedGraph) (u : ℕ) (kept : List ℕ) : Type 0 where
  pub edges : (v : ℕ) → v ∈ kept → Edge g u v
  pub needed : (v y : ℕ) → v ∈ kept → Edge g u y → ¬ Walk g y v
  pub enough : (v : ℕ) → Edge g u v → (v ∈ kept) ⊎ ((y : ℕ) × Edge g u y × Walk g y v)

module _ (g : DirectedGraph) (valid : IsValid g) (topo : TopologicalOrder)
    (rises : (u v : ℕ) → u < g.num_nodes → Walk g u v → place topo u < place topo v)
    (apart : (u v : ℕ)
      → u < g.num_nodes
      → v < g.num_nodes
      → place topo u ≡ place topo v
      → u ≡ v) where
  -- The state between two rounds: the nodes in `finished` have their rows.
  pub record NodesInv (finished : List ℕ) (s : Reduction) : Type 0 where
    pub reach_size : length s.reachable ≡ g.num_nodes
    pub edges_size : length s.edges ≡ g.num_nodes
    pub reached : (v : ℕ) → v ∈ finished → HasRow g topo s.reachable v
    pub reduced :
        (v : ℕ)
        → v ∈ finished
        → (kept : List ℕ) × (get_elem? s.edges v ≡ some kept) × IsReducedRow g v kept
    pub blank : (v : ℕ) → v < g.num_nodes → ¬ (v ∈ finished) → get_elem? s.edges v ≡ some []

  -- A node may be next if its edges lead to nodes that are finished.
  abbrev pub IsReady : List ℕ → List ℕ → Type 0
  IsReady finished [] = Unit {0}
  IsReady finished (x ∷ xs) =
      (x < g.num_nodes)
      × (¬ (x ∈ finished))
      × ((v : ℕ) → Edge g x v → v ∈ finished)
      × IsReady (x ∷ finished) xs

  module _ (from : ℕ) (targets : List ℕ) (has : g.edges from ≡ some targets) where
    abbrev successors : List ℕ
    successors = dedup (sort_by_key (place topo) targets)

    mem-successors : (v : ℕ) → (v ∈ successors) ↔ Edge g from v
    mem-successors v = (
      λ m.
          subst (λ o. v ∈ listed o) (sym has)
            ((mem-sort_by_key (place topo) v targets).0
              ((mem-dedup v (sort_by_key (place topo) targets)).0 m)),
      λ e.
          (mem-dedup v (sort_by_key (place topo) targets)).1
            ((mem-sort_by_key (place topo) v targets).1 (subst (λ o. v ∈ listed o) has e)),
    )

    successors-IsAscending : from < g.num_nodes → IsAscending (place topo) successors
    successors-IsAscending inside =
        dedup-IsAscending (place topo) (sort_by_key (place topo) targets)
          (λ a b ma mb. apart a b (within a ma) (within b mb))
          (sort_by_key-IsSorted (place topo) targets)
      where
        within : (a : ℕ) → a ∈ sort_by_key (place topo) targets → a < g.num_nodes
        within a m =
            valid.inside from a inside
              (subst (λ o. a ∈ listed o) (sym has) ((mem-sort_by_key (place topo) a targets).0 m))

    seen_iff : (v : ℕ) → (v ∈ gone_through successors []) ↔ Edge g from v
    seen_iff v = (
      λ m. elim ((mem-gone_through v successors []).0 m) [
        | inl h ↦ (mem-successors v).0 h
        | inr nowhere ↦ absurd nowhere
      ],
      λ e. (mem-gone_through v successors []).1 (inl ((mem-successors v).1 e)),
    )

    -- What the loop over the successors leaves is right for the node.
    rows_lem :
        (r : Rows)
        → Covers g (gone_through successors []) r
        → IsReachRow g from r.covered × IsReducedRow g from r.kept
    rows_lem r c = (
      record {
        size = c.size;
        marks = λ w. (
          λ h.
              let (x, m, u) = c.sound w h in
              let e = (seen_iff x).0 m in
              elim u [ inl q ↦ last (subst (λ k. Edge g from k) (sym q) e) | inr p ↦ next e p ],
          elim [
            | last e ↦ c.full w w ((seen_iff w).1 e) (inl refl)
            | next {v = x} e p ↦ c.full x w ((seen_iff x).1 e) (inr p)
          ],
        );
      },
      record {
        edges = λ v m. (seen_iff v).0 (c.from_seen v m);
        needed = λ v y m e. c.needed v y m ((seen_iff y).1 e);
        enough = λ v e. elim (c.enough v ((seen_iff v).1 e)) [
          | inl kept ↦ inl kept
          | inr (y, m, p) ↦ inr (y, (seen_iff y).0 m, p)
        ];
      },
    )

  Covers-nil : Covers g [] (record { kept = []; covered = replicate g.num_nodes false })
  Covers-nil = record {
    size = length-replicate g.num_nodes false;
    sound = λ w h. cc (eq_of_get-replicate g.num_nodes w false true h);
    full = λ x w m. absurd m;
    from_seen = λ v m. absurd m;
    needed = λ v y m. absurd m;
    enough = λ v m. absurd m;
  }

  reduce_node-NodesInv :
      (finished : List ℕ) (s : Reduction) (from : ℕ)
      → from < g.num_nodes
      → ¬ (from ∈ finished)
      → ((v : ℕ) → Edge g from v → v ∈ finished)
      → NodesInv finished s
      → g.num_nodes ≤ length topo.map
      → (s' : Reduction) × (reduce_node g topo s from ≡ some s') × NodesInv (from ∷ finished) s'
  unfolding reduce_node
  reduce_node-NodesInv finished s from inside fresh ended i mapped =
      let (targets, has) = valid.has_edges from inside in
      let (r, runs, c) =
        cover_lem g topo rises s.reachable (successors from targets has) []
          (record { kept = []; covered = replicate g.num_nodes false })
          (λ to m.
            let e = (mem-successors from targets has to).0 m in
            (valid.inside from to inside e, i.reached to (ended to e)))
          (λ p to m. absurd m) (successors-IsAscending from targets has inside) Covers-nil in
      (
        record { reachable = set s.reachable from r.covered; edges = set s.edges from r.kept },
        rw (has, i.blank from inside fresh, sorted targets has, runs, reduce_node) refl,
        grown r (rows_lem from targets has r c),
      )
    where
      sorted :
          (targets : List ℕ)
          → g.edges from ≡ some targets
          → sort_by_place topo targets ≡ some (sort_by_key (place topo) targets)
      sorted targets has = sort_by_place_lem topo targets (λ v m.
          omega (arith, valid.inside from v inside (subst (λ o. v ∈ listed o) (sym has) m), mapped))

      grown :
          (r : Rows)
          → IsReachRow g from r.covered × IsReducedRow g from r.kept
          → NodesInv (from ∷ finished) (record {
            reachable = set s.reachable from r.covered;
            edges = set s.edges from r.kept;
          })
      grown r rows = record {
        reach_size = length-set s.reachable from r.covered ∙ i.reach_size;
        edges_size = length-set s.edges from r.kept ∙ i.edges_size;
        reached = λ v m. elim (Bool-cases (from == v)) [
          | inl e ↦ (
            r.covered,
            at_reach v ∙ rw e refl,
            subst (λ k. IsReachRow g k r.covered) (==→eq from v e) rows.0,
          )
          | inr e ↦ let (row, at, ok) = i.reached v (older v e m) in (row, at_reach v ∙ rw e at, ok)
        ];
        reduced = λ v m. elim (Bool-cases (from == v)) [
          | inl e ↦ (
            r.kept,
            at_edges v ∙ rw e refl,
            subst (λ k. IsReducedRow g k r.kept) (==→eq from v e) rows.1,
          )
          | inr e ↦ let (row, at, ok) = i.reduced v (older v e m) in (row, at_edges v ∙ rw e at, ok)
        ];
        blank = λ v h off.
            get_elem?-set_ne s.edges from v r.kept (λ e. off (inl (sym e)))
            ∙ i.blank v h (λ m. off (inr m));
      }
        where
          at_reach :
              (v : ℕ)
              → get_elem? (set s.reachable from r.covered) v
                ≡ (if from == v then some r.covered else get_elem? s.reachable v)
          at_reach v = get_elem?-set s.reachable from v r.covered (omega (arith, i.reach_size))

          at_edges :
              (v : ℕ)
              → get_elem? (set s.edges from r.kept) v
                ≡ (if from == v then some r.kept else get_elem? s.edges v)
          at_edges v = get_elem?-set s.edges from v r.kept (omega (arith, i.edges_size))

          older : (v : ℕ) → (from == v) ≡ false → v ∈ (from ∷ finished) → v ∈ finished
          older v e (inl q) = absurd (==→ne from v e (sym q))
          older v e (inr m) = m

  -- The loop does not panic, and leaves rows for all the nodes it goes through.
  pub reduce_nodes-NodesInv :
      (todo finished : List ℕ) (s : Reduction)
      → IsReady finished todo
      → NodesInv finished s
      → g.num_nodes ≤ length topo.map
      → (s' : Reduction) × (reduce_nodes g topo todo s ≡ some s')
        × NodesInv (gone_through todo finished) s'
  unfolding reduce_nodes
  reduce_nodes-NodesInv [] finished s ready i mapped = (s, refl, i)
  reduce_nodes-NodesInv (x ∷ todo) finished s ready i mapped =
      let (s', runs, i') = reduce_node-NodesInv finished s x ready.0 ready.1 ready.2 i mapped in
      let (t, rest, j) = reduce_nodes-NodesInv todo (x ∷ finished) s' ready.3 i' mapped in
      (t, rw (runs, reduce_nodes) rest, j)
