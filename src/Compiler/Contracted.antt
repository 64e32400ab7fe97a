-- ===== src/Compiler/Contracted.antt =====
-- The contraction neither panics nor runs out of fuel.
use sys_tester.Base.{
  ℕ, zero, suc, ◌≤◌, ◌<◌, ◌+◌, Bool, true, false, some, some_injective, List, [], ◌∷◌, ◌++◌, ◌≡◌,
  refl, sym, ap, ◌∙◌, arith, length, length-append, length-set, get_elem?, set, replicate,
  length-replicate, get_elem?-some, lt-length_of_get, ◌∈◌, All-of_mem, range, mem-range_from, subst,
}
use sys_tester.Graph.Walk.{listed}
use sys_tester.Model.{TaskInfo}
use sys_tester.Compiler.Sets.{at_index, connect}
use sys_tester.Compiler.Boundary.{BoundaryBuild, is_empty, unwrap}
use sys_tester.Compiler.Links.{total_length, boundary_of, follow, contract_from, contract}
use sys_tester.Compiler.Flatten.{collect_atoms}
use sys_tester.Compiler.Compile.{compile_atom_edges}
use sys_tester.Compiler.Adds.{row}
use sys_tester.Compiler.Ends.{Ends, Ends->>=, Ends-at_index, Within, IsBelow, Ends-connect}
use sys_tester.Compiler.Build.{IsBoundary}
use sys_tester.Compiler.Loops.{Ends-by, IsBelow-append}
use sys_tester.Compiler.Built.{IsBuild}

-- The edges of the tasks that have not been seen.
abbrev left : List Bool → List (List ℕ) → ℕ
left seen [] = 0
left [] (es ∷ edges) = 0
left (true ∷ seen) (es ∷ edges) = left seen edges
left (false ∷ seen) (es ∷ edges) = length es + left seen edges

left-set :
    (seen : List Bool) (edges : List (List ℕ)) (to : ℕ) (es : List ℕ)
    → get_elem? seen to ≡ some false
    → get_elem? edges to ≡ some es
    → left (set seen to true) edges + length es ≡ left seen edges
left-set [] edges to es h h' = absurd cc
left-set (s ∷ seen) [] to es h h' = absurd cc
left-set (true ∷ seen) (d ∷ edges) zero es h h' = absurd cc
left-set (false ∷ seen) (d ∷ edges) zero es h h' = omega (arith, ap length (some_injective d es h'))
left-set (true ∷ seen) (d ∷ edges) (suc to) es h h' = left-set seen edges to es h h'
left-set (false ∷ seen) (d ∷ edges) (suc to) es h h' = omega (arith, left-set seen edges to es h h')

left-replicate :
    (edges : List (List ℕ)) → left (replicate (length edges) false) edges ≡ total_length edges
left-replicate [] = refl
left-replicate (es ∷ edges) = omega (arith, left-replicate edges)

IsBelow-get :
    (k : ℕ) (edges : List (List ℕ)) (u : ℕ) (es : List ℕ)
    → ((u v : ℕ) → v ∈ row edges u → v < k)
    → get_elem? edges u ≡ some es
    → IsBelow k es
IsBelow-get k edges u es inside at =
    All-of_mem (λ v. v < k) es (λ v h. inside u v (subst (λ o. v ∈ listed o) (sym at) h))

pub IsBelow-range : (k : ℕ) → IsBelow k (range k)
IsBelow-range k =
    All-of_mem (λ t. t < k) (range k) (λ t h. omega (arith, (mem-range_from t 0 k).0 h))

module _ (info : TaskInfo) (b : BoundaryBuild) (built : IsBuild info b) (task_edges : List (List ℕ))
    (within : Within (length info.tasks) (length info.tasks) task_edges) where
  abbrev n : ℕ
  n = length info.tasks

  abbrev m : ℕ
  m = length (collect_atoms info.tasks)

  Ends-boundary_of : (t : ℕ) → t < n → Ends (IsBoundary n m) (boundary_of b task_edges t)
  unfolding boundary_of
  Ends-boundary_of t h =
      let (x, at, good) = built.boundaries t h in
      Ends->>= (λ o. get_elem? b.boundaries t ≡ some o) (IsBoundary n m) (at_index b.boundaries t) _
        (Ends-at_index b.boundaries t (lt-length_of_get b.boundaries t (some x) at))
        (λ o h'.
          subst (λ o'. Ends (IsBoundary n m) (unwrap o')) (some_injective (some x) o (sym at ∙ h'))
            good)

  Ends-follow :
      (fuel : ℕ) (exits : List ℕ) (seen : List Bool) (stack : List ℕ) (edges : List (List ℕ))
      → length stack + left seen task_edges ≤ fuel
      → length seen ≡ n
      → IsBelow m exits
      → IsBelow n stack
      → Within m m edges
      → Ends (Within m m) (follow b task_edges fuel exits seen stack edges)
  unfolding follow
  Ends-follow fuel exits seen [] edges enough size below inside w = w
  Ends-follow zero exits seen (to ∷ stack) edges enough size below inside w = absurd (omega arith)
  Ends-follow (suc fuel) exits seen (to ∷ stack) edges enough size below inside w =
      Ends->>= (λ s. get_elem? seen to ≡ some s) (Within m m) (at_index seen to) _
        (Ends-at_index seen to (omega (arith, size, inside.0)))
        (elim [
          | true ↦ λ at. Ends-follow fuel exits seen stack edges (omega arith) size below inside.1 w
          | false ↦ λ at.
              Ends->>= (IsBoundary n m) (Within m m) (boundary_of b task_edges to) _
                (Ends-boundary_of to inside.0)
                (λ x good.
                  Ends-by (Within m m) (is_empty x.entries) _ _
                    (Ends->>= (λ e. get_elem? task_edges to ≡ some e) (Within m m)
                      (at_index task_edges to) _
                      (Ends-at_index task_edges to (omega (arith, within.size, inside.0)))
                      (λ more h.
                        Ends-follow fuel exits (set seen to true) (more ++ stack) edges
                          (omega (
                            arith,
                            enough,
                            left-set seen task_edges to more at h,
                            length-append more stack,
                          ))
                          (length-set seen to true ∙ size) below
                          (IsBelow-append n more stack
                            (IsBelow-get n task_edges to more within.inside h) inside.1)
                          w))
                    (Ends->>= (Within m m) (Within m m) (connect edges exits x.entries) _
                      (Ends-connect m m edges exits x.entries w below good.0)
                      (λ edges' w'.
                        let (es, h) =
                          get_elem?-some task_edges to (omega (arith, within.size, inside.0)) in
                        Ends-follow fuel exits (set seen to true) stack edges'
                          (omega (arith, enough, left-set seen task_edges to es at h))
                          (length-set seen to true ∙ size) below inside.1 w')))
        ])

  Ends-contract_from :
      (from : ℕ) (edges : List (List ℕ))
      → from < n
      → Within m m edges
      → Ends (Within m m) (contract_from b task_edges from edges)
  unfolding contract_from
  Ends-contract_from from edges bound w =
      Ends->>= (IsBoundary n m) (Within m m) (boundary_of b task_edges from) _
        (Ends-boundary_of from bound)
        (λ x good. Ends-by (Within m m) (is_empty x.entries) _ _ w (
          Ends->>= (λ e. get_elem? task_edges from ≡ some e) (Within m m) (at_index task_edges from)
            _ (Ends-at_index task_edges from (omega (arith, within.size, bound)))
            (λ stack h.
              Ends-follow (length stack + total_length task_edges) x.exits
                (replicate (length task_edges) false) stack edges
                (omega (arith, left-replicate task_edges))
                (length-replicate (length task_edges) false ∙ within.size) good.1
                (IsBelow-get n task_edges from stack within.inside h) w)))

  Ends-contract :
      (xs : List ℕ) (edges : List (List ℕ))
      → IsBelow n xs
      → Within m m edges
      → Ends (Within m m) (contract b task_edges xs edges)
  unfolding contract
  Ends-contract [] edges inside w = w
  Ends-contract (from ∷ xs) edges inside w =
      Ends->>= (Within m m) (Within m m) (contract_from b task_edges from edges) _
        (Ends-contract_from from edges inside.0 w)
        (λ edges' w'. Ends-contract xs edges' inside.1 w')

  pub Ends-compile_atom_edges : Ends (Within m m) (compile_atom_edges info b task_edges)
  unfolding compile_atom_edges
  Ends-compile_atom_edges = Ends-contract (range n) b.atom_edges (IsBelow-range n) built.edges
