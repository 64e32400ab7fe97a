-- ===== src/Compiler/Mirror.antt =====
-- The loop that fills `before_edges`: it mirrors the edges of `after_graph`.
use sys_tester.Base.{
  replicate, length-replicate, ◌≢◌, Option, none, ℕ, zero, suc, ◌≤◌, ◌<◌, ◌+◌, some, List, [], ◌∷◌,
  ◌++◌, ◌≡◌, refl, sym, ap, ◌∙◌, inl, inr, arith, length, length-set, get_elem?, get_elem?-set_self,
  get_elem?-set_ne, set, lt-length_of_get, ◌==◌, ==→eq, ==→ne, Bool, true, false, Bool-cases,
  if◌then◌else◌, range, range_from, subst,
}
use sys_tester.Graph.Walk.{listed}
use sys_tester.Graph.Packed.{full_edges, from_adjacency_lists}
use sys_tester.Graph.Packed.RoundTrip.{full_edges-from_adjacency_lists}
use sys_tester.Graph.Topo.{ok}
use sys_tester.Runner.Schedule.Counts.{count}
use sys_tester.Compiler.Sets.{at_index}
use sys_tester.Compiler.Boundary.{unwrap}
use sys_tester.Compiler.Flatten.{push_before, reverse_edges}
use sys_tester.Compiler.Outcomes.{ok_injective, >>=-ok, at_index-some}
use sys_tester.Compiler.Adds.{row}

count-append : (a : ℕ) (xs ys : List ℕ) → count a (xs ++ ys) ≡ count a xs + count a ys
count-append a [] ys = omega arith
count-append a (x ∷ xs) ys = ground (arith, count-append a xs ys)

add_here :
    (x y f t u from v to : ℕ)
    → to ≡ v
    → x ≡ f + (if u == from then 1 else 0)
    → y ≡ f
    → x + (if u == from then t else 0)
      ≡ y + (if u == from then (if v == to then suc t else t) else 0)
add_here x y f t u from v to same a b = ground (arith, same, a, b)

add_other :
    (x y t u from v to : ℕ)
    → to ≢ v
    → x ≡ y
    → x + (if u == from then t else 0)
      ≡ y + (if u == from then (if v == to then suc t else t) else 0)
add_other x y t u from v to other a = ground (arith, other, a)

-- How often `u` has been pushed to `v` when the edges from `from` lead to the targets.
abbrev pushed : ℕ → List ℕ → ℕ → ℕ → ℕ
pushed from targets u v = if u == from then count v targets else 0

push_before_lem :
    (from : ℕ) (targets : List ℕ) (before before' : List (List ℕ))
    → push_before from targets before ≡ ok before'
    → (length before' ≡ length before)
      × ((u v : ℕ) → count u (row before' v) ≡ count u (row before v) + pushed from targets u v)
unfolding push_before
push_before_lem from [] before before' e =
    subst
      (λ (b : List (List ℕ)).
        (length b ≡ length before)
        × ((u v : ℕ) → count u (row b v) ≡ count u (row before v) + pushed from [] u v))
      (ok_injective _ _ e) (refl, λ u v. nothing u v (u == from))
  where
    nothing :
        (u v : ℕ) (b : Bool)
        → count u (row before v) ≡ count u (row before v) + (if b then 0 else 0)
    nothing u v true = omega arith
    nothing u v false = omega arith
push_before_lem from (to ∷ targets) before before' e =
    let (froms, found, e₁) = >>=-ok (at_index before to) _ before' e in
    let at = at_index-some before to froms found in
    let (size, counts) =
      push_before_lem from targets (set before to (froms ++ from ∷ [])) before' e₁ in
    (size ∙ length-set before to (froms ++ from ∷ []), λ u v. counts u v ∙ one froms at u v)
  where
    one :
        (froms : List ℕ)
        → get_elem? before to ≡ some froms
        → (u v : ℕ)
        → count u (row (set before to (froms ++ from ∷ [])) v) + pushed from targets u v
          ≡ count u (row before v) + pushed from (to ∷ targets) u v
    one froms at u v = elim (Bool-cases (to == v)) [
      | inl e' ↦
          let same : to ≡ v = ==→eq to v e' in
          let here =
            ap (get_elem? (set before to (froms ++ from ∷ []))) (sym same)
            ∙ get_elem?-set_self before to (froms ++ from ∷ [])
                (lt-length_of_get before to froms at) in
          add_here _ _ (count u froms) (count v targets) u from v to same
            (ap (λ o. count u (listed o)) here ∙ count-append u froms (from ∷ []))
            (ap (λ o. count u (listed o)) (ap (get_elem? before) (sym same) ∙ at))
      | inr e' ↦ add_other _ _ (count v targets) u from v to (==→ne to v e') (
          ap (λ o. count u (listed o))
            (get_elem?-set_ne before to v (froms ++ from ∷ []) (==→ne to v e')))
    ]

-- How often the nodes of a list push `u` to `v`.
abbrev gain : List (List ℕ) → List ℕ → ℕ → ℕ → ℕ
gain after [] u v = 0
gain after (from ∷ xs) u v = pushed from (row after from) u v + gain after xs u v

reverse_edges_counts :
    (after : List (List ℕ)) (xs : List ℕ) (before before' : List (List ℕ))
    → reverse_edges (from_adjacency_lists after) xs before ≡ ok before'
    → (length before' ≡ length before)
      × ((u v : ℕ) → count u (row before' v) ≡ count u (row before v) + gain after xs u v)
unfolding reverse_edges
reverse_edges_counts after [] before before' e =
    subst
      (λ (b : List (List ℕ)).
        (length b ≡ length before) × ((u v : ℕ) → count u (row b v) ≡ count u (row before v) + 0))
      (ok_injective _ _ e) (refl, λ u v. omega arith)
reverse_edges_counts after (from ∷ xs) before before' e =
    let (targets, found, e₁) =
      >>=-ok (unwrap (full_edges (from_adjacency_lists after) from)) _ before' e in
    let (mid, first, e₂) = >>=-ok (push_before from targets before) _ before' e₁ in
    let (size, counts) = push_before_lem from targets before mid first in
    let (size', counts') = reverse_edges_counts after xs mid before' e₂ in
    let at = listed_of (full_edges (from_adjacency_lists after) from) targets found in
    let same : row after from ≡ targets =
      ap listed (sym ((full_edges-from_adjacency_lists after).0 from)) ∙ at in
    (
      size' ∙ size,
      λ u v. omega (arith, counts' u v, counts u v, ap (λ ts. pushed from ts u v) same),
    )
  where
    listed_of : (o : Option (List ℕ)) (ts : List ℕ) → unwrap o ≡ ok ts → listed o ≡ ts
    listed_of none ts q = absurd cc
    listed_of (some x) ts q = ok_injective x ts q

gain_above : (after : List (List ℕ)) (i n u v : ℕ) → u < i → gain after (range_from i n) u v ≡ 0
gain_above after i zero u v h = refl
gain_above after i (suc n) u v h = ground (arith, gain_above after (suc i) n u v)

gain_beyond :
    (after : List (List ℕ)) (i n u v : ℕ) → i + n ≤ u → gain after (range_from i n) u v ≡ 0
gain_beyond after i zero u v h = refl
gain_beyond after i (suc n) u v h = ground (arith, gain_beyond after (suc i) n u v)

gain_within :
    (after : List (List ℕ)) (i n u v : ℕ)
    → i ≤ u
    → u < i + n
    → gain after (range_from i n) u v ≡ count v (row after u)
gain_within after i zero u v h h' = absurd (omega arith)
gain_within after i (suc n) u v h h' = elim (Bool-cases (u == i)) [
  | inl e ↦
      let same : u ≡ i = ==→eq u i e in
      rw e (
        omega (
          arith,
          gain_above after (suc i) n u v (omega (arith, same)),
          ap (λ x. count v (row after x)) same,
        ))
  | inr e ↦
      let other : u ≢ i = ==→ne u i e in
      rw e (omega (arith, gain_within after (suc i) n u v (omega (arith, other)) (omega arith)))
]

count-row_empty : (n u v : ℕ) → count u (row (replicate n []) v) ≡ 0
count-row_empty zero u v = refl
count-row_empty (suc n) u zero = refl
count-row_empty (suc n) u (suc v) = count-row_empty n u v

-- Over all nodes: `u` is pushed to `v` as often as `v` is an edge of `u`.
pub reverse_edges_mirror :
    (after : List (List ℕ)) (k : ℕ) (before : List (List ℕ))
    → reverse_edges (from_adjacency_lists after) (range k) (replicate k []) ≡ ok before
    → (length before ≡ k)
      × ((u v : ℕ) → u < k → count v (row after u) ≡ count u (row before v))
      × ((u v : ℕ) → k ≤ u → count u (row before v) ≡ 0)
reverse_edges_mirror after k before e =
    let (size, counts) = reverse_edges_counts after (range k) (replicate k []) before e in
    (
      size ∙ length-replicate k [],
      λ u v h. omega (
        arith,
        counts u v,
        count-row_empty k u v,
        gain_within after 0 k u v (omega arith) (omega (arith, h)),
      ),
      λ u v h.
          omega (
            arith,
            counts u v,
            count-row_empty k u v,
            gain_beyond after 0 k u v (omega (arith, h)),
          ),
    )
