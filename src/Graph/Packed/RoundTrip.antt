-- ===== src/Graph/Packed/RoundTrip.antt =====
-- Packing adjacency lists loses nothing: the lists are read back node by node.
use mathlib.Core.List.{append_assoc, append-nil}
use sys_tester.Base.{
  ℕ, zero, suc, ◌+◌, ◌-◌, ◌≤◌, ◌<◌, ◌≡◌, refl, ap, ◌∙◌, some, List, [], ◌∷◌, ◌++◌, map, length,
  get_elem?, take, drop, le→leb, length-append, length-range_from, range_from, range, length-map,
  arith,
}
use sys_tester.Graph.{DirectedGraph}
use sys_tester.Graph.Walk.{IsValid, targets}
use sys_tester.Graph.Packed.{
  Range, VecGraph, new_empty, push_list, push_lists, from_adjacency_lists, push_nodes, from_graph,
  num_edges, slice, read_range, full_edges, packed,
}

-- All lists one behind the other.
abbrev pub joined : List (List ℕ) → List ℕ
joined [] = []
joined (list ∷ lists) = list ++ joined lists

-- The ranges of the lists if the first begins at `k`.
abbrev ranges : ℕ → List (List ℕ) → List Range
ranges k [] = []
ranges k (list ∷ lists) =
    record { start = k; end = k + length list } ∷ ranges (k + length list) lists

push_lists_lem :
    (v : VecGraph) (lists : List (List ℕ))
    → push_lists v lists
      ≡ record { nodes = v.nodes ++ ranges (length v.edges) lists; edges = v.edges ++ joined lists }
unfolding push_lists push_list
push_lists_lem v [] = simp append-nil
push_lists_lem v (list ∷ lists) =
    push_lists_lem (push_list v list) lists ∙ simp (length-append, append_assoc)

take-prefix : (xs ys : List ℕ) (n : ℕ) → n ≡ length xs → take n (xs ++ ys) ≡ xs
take-prefix [] ys zero e = refl
take-prefix [] ys (suc n) e = absurd (omega arith)
take-prefix (x ∷ xs) ys zero e = absurd (omega arith)
take-prefix (x ∷ xs) ys (suc n) e = ap (λ l. x ∷ l) (take-prefix xs ys n (omega arith))

drop-prefix : (xs ys : List ℕ) (n : ℕ) → n ≡ length xs → drop n (xs ++ ys) ≡ ys
drop-prefix [] ys zero e = refl
drop-prefix [] ys (suc n) e = absurd (omega arith)
drop-prefix (x ∷ xs) ys zero e = absurd (omega arith)
drop-prefix (x ∷ xs) ys (suc n) e = drop-prefix xs ys n (omega arith)

-- What stands before the lists does not matter.
slice-ranges :
    (before : List ℕ) (lists : List (List ℕ)) (k i : ℕ)
    → k ≡ length before
    → read_range (before ++ joined lists) (get_elem? (ranges k lists) i) ≡ get_elem? lists i
unfolding read_range slice
slice-ranges before [] k i e = refl
slice-ranges before (list ∷ lists) k zero e =
    let size = length-append before (list ++ joined lists) in
    let size' = length-append list (joined lists) in
    rw
      (
        slice,
        le→leb k (k + length list) (omega arith),
        le→leb (k + length list) (length (before ++ (list ++ joined lists))) (omega arith),
        drop-prefix before (list ++ joined lists) k e,
        take-prefix list (joined lists) (k + length list - k) (omega arith),
      )
      refl
slice-ranges before (list ∷ lists) k (suc i) e = rw (← append_assoc) (
    slice-ranges (before ++ list) lists (k + length list) i
      (omega (arith, length-append before list)))

length-ranges : (k : ℕ) (lists : List (List ℕ)) → length (ranges k lists) ≡ length lists
length-ranges k [] = refl
length-ranges k (list ∷ lists) = ap suc (length-ranges (k + length list) lists)

-- `from_adjacency_lists` makes a graph with a node per list, whose edges, node by node, are the lists;
-- past the last list `full_edges` panics. The vector of edges holds the lists' elements, no more.
pub full_edges-from_adjacency_lists :
    (lists : List (List ℕ))
    → ((i : ℕ) → full_edges (from_adjacency_lists lists) i ≡ get_elem? lists i)
      × ((packed (from_adjacency_lists lists)).num_nodes ≡ length lists)
      × (num_edges (from_adjacency_lists lists) ≡ length (joined lists))
unfolding full_edges from_adjacency_lists packed num_edges
full_edges-from_adjacency_lists lists = (
  λ i. rw (push_lists_lem new_empty lists) (slice-ranges [] lists 0 i refl),
  rw (push_lists_lem new_empty lists) (length-ranges 0 lists),
  rw (push_lists_lem new_empty lists) refl,
)

get_elem?-map-range_from :
    (f : ℕ → List ℕ) (k n i : ℕ) → i < n → get_elem? (map f (range_from k n)) i ≡ some (f (k + i))
get_elem?-map-range_from f k zero i h = elim h [ ]
get_elem?-map-range_from f k (suc n) zero h = ap (λ m. some (f m)) (omega arith)
get_elem?-map-range_from f k (suc n) (suc i) h =
    get_elem?-map-range_from f (suc k) n i (omega arith) ∙ ap (λ m. some (f m)) (omega arith)

module _ (g : DirectedGraph) (valid : IsValid g) where
  push_nodes-eq-push_lists :
      (k n : ℕ) (v : VecGraph)
      → k + n ≤ g.num_nodes
      → push_nodes g v (range_from k n) ≡ some (push_lists v (map (targets g) (range_from k n)))
  unfolding push_nodes push_lists
  push_nodes-eq-push_lists k zero v h = refl
  push_nodes-eq-push_lists k (suc n) v h =
      let (es, has) = valid.has_edges k (omega arith) in
      rw (has, push_nodes) (push_nodes-eq-push_lists (suc k) n (push_list v es) (omega arith))

  targets_lem : (i : ℕ) → i < g.num_nodes → some (targets g i) ≡ g.edges i
  targets_lem i h = let (es, has) = valid.has_edges i h in rw has refl

-- `from_graph` does not panic on a graph with edges for each of its nodes, and copies the graph: the same
-- number of nodes, and the same edges at each of them.
pub full_edges-from_graph :
    (g : DirectedGraph)
    → IsValid g
    → (v : VecGraph) × (from_graph g ≡ some v)
      × ((packed v).num_nodes ≡ g.num_nodes)
      × ((i : ℕ) → i < g.num_nodes → full_edges v i ≡ g.edges i)
unfolding from_graph from_adjacency_lists
full_edges-from_graph g valid =
    let lists = map (targets g) (range g.num_nodes) in
    let (reads, nodes, size) = full_edges-from_adjacency_lists lists in
    (
      from_adjacency_lists lists,
      push_nodes-eq-push_lists g valid 0 g.num_nodes new_empty (omega arith),
      nodes ∙ length-map (targets g) (range g.num_nodes) ∙ length-range_from 0 g.num_nodes,
      λ i h.
          reads i
          ∙ get_elem?-map-range_from (targets g) 0 g.num_nodes i h
          ∙ ap (λ m. some (targets g m)) (omega arith)
          ∙ targets_lem g valid i h,
    )
