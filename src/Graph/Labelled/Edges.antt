-- ===== src/Graph/Labelled/Edges.antt =====
-- The edges of a `BasicOrder` after `add_edge` and `unify`.
use mathlib.Core.Option
use sys_tester.Base.{
  ℕ, ◌<◌, ◌≡◌, refl, ◌⊎◌, ◌↔◌, inl, inr, sym, ◌∙◌, subst, some, List, [], ◌∷◌, length, get_elem?,
  set, get_elem?-some, get_elem?-set_self, get_elem?-set_ne, length-set, ◌==◌, ==→eq, ==→ne,
  Bool-cases, ◌∈◌, arith,
}
use sys_tester.Graph.Walk.{Edge, listed}
use sys_tester.Graph.Labelled.{BasicOrder, insert_label, add_edge, unify, keys, ordered_graph}

module _ {T : Type 0} where
  mem-insert_label :
      (row : List (ℕ × T)) (to : ℕ) (label : T) (v : ℕ)
      → (v ∈ keys (insert_label row to label)) ↔ ((v ∈ keys row) ⊎ (v ≡ to))
  unfolding insert_label
  mem-insert_label [] to label v =
      (elim [ inl e ↦ inr e | inr m ↦ absurd m ], elim [ inl m ↦ absurd m | inr e ↦ inl e ])
  mem-insert_label ((key, old) ∷ row) to label v =
      let rest = mem-insert_label row to label v in
      elim (Bool-cases (key == to)) [
        | inl e ↦ rw e (ground (arith, ==→eq key to e))
        | inr e ↦ rw e (ground (arith, rest))
      ]

  -- The edges of `o'` are those of `o` and the edges from `a` to `b`.
  pub record Added (o : BasicOrder T) (a b : ℕ) (o' : BasicOrder T) : Type 0 where
    pub nodes : length o'.edges ≡ length o.edges
    pub edges_iff :
        (u v : ℕ) → Edge (ordered_graph o') u v ↔ (Edge (ordered_graph o) u v ⊎ (u ≡ a) × (v ≡ b))

  add_edge_runs :
      (o : BasicOrder T) (a b : ℕ) (label : T) (row : List (ℕ × T))
      → get_elem? o.edges a ≡ some row
      → add_edge o a b label ≡ some (record { edges = set o.edges a (insert_label row b label) })
  unfolding add_edge
  add_edge_runs o a b label row at = rw (add_edge, at) refl

  add_edge-Added :
      (o : BasicOrder T) (a b : ℕ) (label : T)
      → a < length o.edges
      → (o' : BasicOrder T) × (add_edge o a b label ≡ some o') × Added o a b o'
  add_edge-Added o a b label inside =
      let (row, at) = get_elem?-some o.edges a inside in
      (
        record { edges = set o.edges a (insert_label row b label) },
        add_edge_runs o a b label row at,
        record {
          nodes = length-set o.edges a (insert_label row b label);
          edges_iff = λ u v. by_node row at u v;
        },
      )
    where
      by_node :
          (row : List (ℕ × T))
          → get_elem? o.edges a ≡ some row
          → (u v : ℕ)
          → (v ∈ listed (Option.map keys (get_elem? (set o.edges a (insert_label row b label)) u)))
            ↔ ((v ∈ listed (Option.map keys (get_elem? o.edges u))) ⊎ (u ≡ a) × (v ≡ b))
      by_node row at u v = elim (Bool-cases (u == a)) [
        | inl e ↦
            let same = ==→eq u a e in
            let (into, out) = mem-insert_label row b label v in
            rw (same, get_elem?-set_self o.edges a (insert_label row b label) inside, at)
              (
                λ m. elim (into m) [ inl old ↦ inl old | inr new ↦ inr (refl, new) ],
                elim [ inl old ↦ out (inl old) | inr (_, new) ↦ out (inr new) ],
              )
        | inr e ↦
            rw (get_elem?-set_ne o.edges a u (insert_label row b label) (λ s. ==→ne u a e (sym s)))
              (inl, elim [ inl old ↦ old | inr (s, _) ↦ absurd (==→ne u a e s) ])
      ]

-- For two nodes of the order, `unify` does not panic: it adds the edges from each of them to the
-- other, keeps every other edge, adds no further edge and no node.
pub Edge-unify :
    {T : Type 0} (o : BasicOrder T) (a b : ℕ) (label : T)
    → a < length o.edges
    → b < length o.edges
    → (o' : BasicOrder T) × (unify o a b label ≡ some o')
      × (length o'.edges ≡ length o.edges)
      × ((u v : ℕ)
          → Edge (ordered_graph o') u v
            ↔ (Edge (ordered_graph o) u v ⊎ ((u ≡ a) × (v ≡ b)) ⊎ ((u ≡ b) × (v ≡ a))))
unfolding unify
Edge-unify o a b label inside_a inside_b =
    let (o₁, first, there) = add_edge-Added o a b label inside_a in
    let (o₂, second, back) =
      add_edge-Added o₁ b a label (subst (λ n. b < n) (sym there.nodes) inside_b) in
    (
      o₂,
      rw (first, unify) second,
      back.nodes ∙ there.nodes,
      λ u v. (
        λ m. elim ((back.edges_iff u v).0 m) [
          | inl m' ↦ elim ((there.edges_iff u v).0 m') [
            | inl old ↦ inl old
            | inr new ↦ inr (inl new)
          ]
          | inr new ↦ inr (inr new)
        ],
        elim [
          | inl old ↦ (back.edges_iff u v).1 (inl ((there.edges_iff u v).1 (inl old)))
          | inr (inl new) ↦ (back.edges_iff u v).1 (inl ((there.edges_iff u v).1 (inr new)))
          | inr (inr new) ↦ (back.edges_iff u v).1 (inr new)
        ],
      ),
    )
