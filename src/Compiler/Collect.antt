-- ===== src/Compiler/Collect.antt =====
-- What a collected list holds, and the graphs that `compile_graphs` makes.
use sys_tester.Base.{
  ℕ, zero, suc, some, some_injective, List, [], ◌∷◌, ◌≡◌, refl, sym, ap, ◌∙◌, length, get_elem?,
  ◌∈◌, subst, range, replicate,
}
use sys_tester.Graph.{BasicGraph}
use sys_tester.Graph.Packed.{VecGraph, from_adjacency_lists, packed}
use sys_tester.Graph.Packed.RoundTrip.{full_edges-from_adjacency_lists}
use sys_tester.Graph.Topo.{Outcome, ok}
use sys_tester.Graph.Topo.Order.{get_of_mem}
use sys_tester.Model.{CompiledSetup}
use sys_tester.Compiler.Flatten.{collect, atom_topology, renumbered, reverse_edges}
use sys_tester.Compiler.Compile.{compile_graphs}
use sys_tester.Compiler.Outcomes.{ok_injective, >>=-ok}

-- The elements of a collected list, one by one.
pub collect-get :
    {A B : Type 0} (f : A → Outcome B) (xs : List A) (ys : List B) (i : ℕ) (y : B)
    → collect f xs ≡ ok ys
    → get_elem? ys i ≡ some y
    → (x : A) × (get_elem? xs i ≡ some x) × (f x ≡ ok y)
collect-get f [] ys i y e at = absurd (cc (ap (λ l. get_elem? l i) (ok_injective _ _ e), at))
collect-get f (x ∷ xs) ys zero y e at =
    let (z, first, e₁) = >>=-ok (f x) _ ys e in
    let (zs, rest, e₂) = >>=-ok (collect f xs) _ ys e₁ in
    (
      x,
      refl,
      first ∙ ap ok (some_injective z y (ap (λ l. get_elem? l 0) (ok_injective _ _ e₂) ∙ at)),
    )
collect-get f (x ∷ xs) ys (suc i) y e at =
    let (z, first, e₁) = >>=-ok (f x) _ ys e in
    let (zs, rest, e₂) = >>=-ok (collect f xs) _ ys e₁ in
    collect-get f xs zs i y rest (ap (λ l. get_elem? l (suc i)) (ok_injective _ _ e₂) ∙ at)

pub length-collect :
    {A B : Type 0} (f : A → Outcome B) (xs : List A) (ys : List B)
    → collect f xs ≡ ok ys
    → length ys ≡ length xs
length-collect f [] ys e = ap length (sym (ok_injective _ _ e))
length-collect f (x ∷ xs) ys e =
    let (z, first, e₁) = >>=-ok (f x) _ ys e in
    let (zs, rest, e₂) = >>=-ok (collect f xs) _ ys e₁ in
    ap length (sym (ok_injective _ _ e₂)) ∙ ap suc (length-collect f xs zs rest)

pub collect-mem :
    {A : Type 0} (f : A → Outcome ℕ) (xs : List A) (ys : List ℕ) (y : ℕ)
    → collect f xs ≡ ok ys
    → y ∈ ys
    → (i : ℕ) × (x : A) × (get_elem? xs i ≡ some x) × (f x ≡ ok y)
collect-mem f xs ys y e m =
    let (i, at) = get_of_mem ys y m in
    let (x, found, made) = collect-get f xs ys i y e at in (i, x, found, made)

-- The graphs that are made of the reduced edges.
module _ (reduced : BasicGraph) (m : ℕ) (ids : List ℕ) (setup : CompiledSetup)
    (made : compile_graphs reduced (atom_topology m ids)
      ≡ ok (setup.after_graph, setup.before_graph)) where
  pub record IsMade (after before : List (List ℕ)) : Type 0 where
    pub renumbering : collect (renumbered reduced (atom_topology m ids).map) ids ≡ ok after
    pub reversing :
        reverse_edges (from_adjacency_lists after) (range (length ids)) (replicate (length ids) [])
        ≡ ok before
    pub after_graph : setup.after_graph ≡ from_adjacency_lists after
    pub before_graph : setup.before_graph ≡ from_adjacency_lists before

  pub compile_graphs-IsMade :
      (after : List (List ℕ)) × (before : List (List ℕ)) × IsMade after before
  unfolding compile_graphs atom_topology packed
  compile_graphs-IsMade =
      let pair : VecGraph × VecGraph = (setup.after_graph, setup.before_graph) in
      let (after, renumbering, e₁) =
        >>=-ok (collect (renumbered reduced (atom_topology m ids).map) ids) _ pair made in
      let size = length (from_adjacency_lists after).nodes in
      let (before, reversing, e₂) =
        >>=-ok (reverse_edges (from_adjacency_lists after) (range size) (replicate size [])) _ pair
          e₁ in
      let nodes : size ≡ length ids =
        (full_edges-from_adjacency_lists after).1 ∙ length-collect _ ids after renumbering in
      let same = ok_injective _ _ e₂ in
      (
        after,
        before,
        record {
          renumbering = renumbering;
          reversing =
              subst
                (λ k.
                  reverse_edges (from_adjacency_lists after) (range k) (replicate k []) ≡ ok before)
                nodes reversing;
          after_graph = ap (λ (p : VecGraph × VecGraph). p.0) (sym same);
          before_graph = ap (λ (p : VecGraph × VecGraph). p.1) (sym same);
        },
      )
