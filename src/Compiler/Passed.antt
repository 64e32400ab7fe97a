-- ===== src/Compiler/Passed.antt =====
-- The contraction links the last atoms of a task with the first atoms of each task that it reaches
-- along declared edges through tasks without atoms.
use sys_tester.Base.{
  ℕ, zero, suc, ◌+◌, Bool, true, false, some, List, [], ◌∷◌, ◌≡◌, sym, ap, ◌∙◌, inl, inr, arith,
  get_elem?, replicate, length, ◌∈◌, subst,
}
use sys_tester.Graph.Walk.{listed}
use sys_tester.Compiler.Sets.{at_index}
use sys_tester.Compiler.Boundary.{Boundary, BoundaryBuild, is_empty}
use sys_tester.Compiler.Links.{total_length, boundary_of, contract_from, contract}
use sys_tester.Compiler.Adds.{row}
use sys_tester.Compiler.Order.{Between}
use sys_tester.Compiler.Yields.{Yields, Yields->>=, Yields-map, Yields-by, Yields-at_index}
use sys_tester.Compiler.Walked.{
  unmarked, Grows, Linked, HasBoundary, one_boundary, Through, straight, across, Yields-boundary_of,
  Inv, Followed, follow-Followed,
}

module _ (build : BoundaryBuild) where
  module _ (task_edges : List (List ℕ)) where
    -- The task that the walk reaches has its mark in the end.
    Through-marked :
        (exits : List ℕ) (marks : List Bool) (edges : List (List ℕ)) (u v : ℕ)
        → Inv build task_edges exits marks [] edges
        → ((w : ℕ) → w ∈ row task_edges u → get_elem? marks w ≡ some true)
        → Through build (λ a b. b ∈ row task_edges a) u v
        → get_elem? marks v ≡ some true
    Through-marked exits marks edges _ _ i h (straight u v e) = h v e
    Through-marked exits marks edges _ _ i h (across u w v x e has empty rest) =
        Through-marked exits marks edges w v i
          (λ t m. elim (i.pass w t x (h w e) has empty m) [ inl m' ↦ absurd m' | inr k ↦ k ]) rest

    -- What the contraction does for the task `u`.
    pub record Passed (u : ℕ) (edges edges' : List (List ℕ)) : Type 0 where
      pub grows : Grows edges edges'
      pub linked :
          (v : ℕ) (x y : Boundary)
          → HasBoundary build u x
          → is_empty x.entries ≡ false
          → HasBoundary build v y
          → Through build (λ a b. b ∈ row task_edges a) u v
          → Linked x.exits y.entries edges'

    contract_from-Passed :
        (u : ℕ) (edges : List (List ℕ))
        → Yields (Passed u edges) (contract_from build task_edges u edges)
    unfolding contract_from
    contract_from-Passed u edges =
        Yields->>= (HasBoundary build u) (Passed u edges) (boundary_of build task_edges u) _
          (Yields-boundary_of build task_edges u)
          (λ x has.
            Yields-by (Passed u edges) (is_empty x.entries) _ _
              (λ e. record {
                grows = λ a b m. m;
                linked = λ v x' y has' e'. absurd (cc (e, e', one_boundary build u x x' has has'));
              })
              (λ e.
                Yields->>= (λ es. get_elem? task_edges u ≡ some es) (Passed u edges)
                  (at_index task_edges u) _ (Yields-at_index task_edges u)
                  (λ stack found.
                    Yields-map
                      (Followed build task_edges x.exits (replicate (length task_edges) false) stack
                        edges)
                      (Passed u edges) _
                      (follow-Followed build task_edges (length stack + total_length task_edges)
                        x.exits (replicate (length task_edges) false) stack edges
                        (record {
                          pass = λ t w y h. absurd (unmarked (length task_edges) t h);
                          link = λ t y h. absurd (unmarked (length task_edges) t h);
                        }))
                      (λ edges' f. record {
                        grows = f.grows;
                        linked = λ v x' y has' _ has_y path.
                            subst (λ (b : Boundary). Linked b.exits y.entries edges')
                              (one_boundary build u x x' has has')
                              (f.inv.link v y
                                (Through-marked x.exits f.marks edges' u v f.inv
                                  (λ w m. f.taken w (subst (λ o. w ∈ listed o) found m)) path)
                                has_y);
                      }))))

    pub contract-Passed :
        (xs : List ℕ) (edges : List (List ℕ))
        → Yields
            (λ edges'. Grows edges edges' × ((u : ℕ) → u ∈ xs → Passed u edges edges'))
            (contract build task_edges xs edges)
    unfolding contract
    contract-Passed [] edges = (λ u v m. m, λ u m. absurd m)
    contract-Passed (from ∷ xs) edges =
        Yields->>= (Passed from edges)
          (λ edges'. Grows edges edges' × ((u : ℕ) → u ∈ (from ∷ xs) → Passed u edges edges'))
          (contract_from build task_edges from edges) _ (contract_from-Passed from edges)
          (λ mid p.
            Yields-map (λ edges'. Grows mid edges' × ((u : ℕ) → u ∈ xs → Passed u mid edges'))
              (λ edges'. Grows edges edges' × ((u : ℕ) → u ∈ (from ∷ xs) → Passed u edges edges')) _
              (contract-Passed xs mid)
              (λ edges' r. (
                λ u v m. r.0 u v (p.grows u v m),
                λ u m. record {
                  grows = λ a b m'. r.0 a b (p.grows a b m');
                  linked = λ v x y has e has_y path a b ma mb. elim m [
                    | inl q ↦ r.0 a b (
                        p.linked v x y (subst (λ z. HasBoundary build z x) q has) e has_y
                          (subst (λ z. Through build (λ a b. b ∈ row task_edges a) z v) q path) a b
                          ma mb)
                    | inr m' ↦ (r.1 u m').linked v x y has e has_y path a b ma mb
                  ];
                },
              )))

-- Two atoms with an edge between them have their tasks `Between`.
pub Between-row :
    (atoms : List ℕ) (k : ℕ) (edges : List (List ℕ)) (a b s t : ℕ)
    → b ∈ row edges a
    → get_elem? atoms (k + a) ≡ some s
    → get_elem? atoms b ≡ some t
    → ¬ (s ≡ t)
    → Between atoms k edges s t
Between-row atoms k [] a b s t m at_s at_t ne = absurd m
Between-row atoms k (es ∷ edges) zero b s t m at_s at_t ne =
    let here : k + 0 ≡ k = omega arith in
    inl (ap (get_elem? atoms) (sym here) ∙ at_s, (b, m, at_t, ne))
Between-row atoms k (es ∷ edges) (suc a) b s t m at_s at_t ne =
    let here : suc k + a ≡ k + suc a = omega arith in
    inr (Between-row atoms (suc k) edges a b s t m (ap (get_elem? atoms) here ∙ at_s) at_t ne)
