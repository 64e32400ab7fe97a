-- ===== src/Compiler/Adds.antt =====
-- What the loops that add edges do to the sets, as a relation on pairs.
use sys_tester.Base.{
  ℕ, true, some, List, [], ◌∷◌, ◌≡◌, refl, sym, ap, ◌∙◌, ◌↔◌, ◌⊎◌, inl, inr, arith, length,
  get_elem?, set, length-set, lt-length_of_get, ◌∈◌, mem-append, ◌==◌, Bool-cases, ==→eq, ==→ne,
  subst, get_elem?-set_self, get_elem?-set_ne,
}
use sys_tester.Graph.Walk.{listed}
use sys_tester.Graph.Topo.{ok}
use sys_tester.Compiler.Sets.{member, insert_value, extend, at_index, extend_at}
use sys_tester.Compiler.Outcomes.{ok_injective, >>=-ok, at_index-some}

pub member-mem : (x : ℕ) (s : List ℕ) → member x s ≡ true → x ∈ s
member-mem x [] e = absurd cc
member-mem x (y ∷ s) e = ground (arith, member-mem x s)

pub mem-insert_value : (a x : ℕ) (s : List ℕ) → (a ∈ insert_value x s) ↔ ((a ≡ x) ⊎ (a ∈ s))
unfolding insert_value
mem-insert_value a x s = elim (Bool-cases (member x s)) [
  | inl e ↦ rw e (inr, elim [ inl q ↦ subst (λ z. z ∈ s) (sym q) (member-mem x s e) | inr m ↦ m ])
  | inr e ↦ rw e (ground (arith, mem-append a s (x ∷ [])))
]

pub mem-extend : (a : ℕ) (s xs : List ℕ) → (a ∈ extend s xs) ↔ ((a ∈ s) ⊎ (a ∈ xs))
unfolding extend
mem-extend a s [] = (inl, elim [ inl m ↦ m | inr m ↦ absurd m ])
mem-extend a s (x ∷ xs) = ground (arith, mem-extend a (insert_value x s) xs, mem-insert_value a x s)

-- The set of a node, empty where there is none.
abbrev pub row : List (List ℕ) → ℕ → List ℕ
row edges u = listed (get_elem? edges u)

-- The sets after the change have exactly the pairs of `P` in addition.
pub record Adds (P : ℕ → ℕ → Type 0) (edges edges' : List (List ℕ)) : Type 0 where
  pub size : length edges' ≡ length edges
  pub pairs : (u v : ℕ) → (v ∈ row edges' u) ↔ ((v ∈ row edges u) ⊎ P u v)

pub Adds-ok : (edges edges' : List (List ℕ)) → ok edges ≡ ok edges' → Adds (λ _ _. ⊥) edges edges'
Adds-ok edges edges' e =
    subst (Adds (λ _ _. ⊥) edges) (ok_injective _ _ e)
      (record { size = refl; pairs = λ u v. (inl, elim [ inl m ↦ m | inr m ↦ absurd m ]) })

pub Adds-trans :
    {P Q : ℕ → ℕ → Type 0} {a b c : List (List ℕ)}
    → Adds P a b
    → Adds Q b c
    → Adds (λ u v. P u v ⊎ Q u v) a c
Adds-trans p q = record {
  size = q.size ∙ p.size;
  pairs = λ u v. ground (arith, p.pairs u v, q.pairs u v);
}

pub Adds-iff :
    {P Q : ℕ → ℕ → Type 0} {a b : List (List ℕ)}
    → ((u v : ℕ) → P u v ↔ Q u v)
    → Adds P a b
    → Adds Q a b
Adds-iff same p = record { size = p.size; pairs = λ u v. ground (arith, p.pairs u v, same u v) }

pub extend_at-Adds :
    (edges edges' : List (List ℕ)) (from : ℕ) (to : List ℕ)
    → extend_at edges from to ≡ ok edges'
    → Adds (λ u v. (u ≡ from) × (v ∈ to)) edges edges'
unfolding extend_at
extend_at-Adds edges edges' from to e =
    let (s, found, done) = >>=-ok (at_index edges from) _ edges' e in
    let at = at_index-some edges from s found in
    let same = ok_injective _ _ done in
    record {
      size = ap length (sym same) ∙ length-set edges from (extend s to);
      pairs = λ u v.
          subst
            (λ (es : List (List ℕ)). (v ∈ row es u) ↔ ((v ∈ row edges u) ⊎ ((u ≡ from) × (v ∈ to))))
            same (pair s at u v);
    }
  where
    pair :
        (s : List ℕ)
        → get_elem? edges from ≡ some s
        → (u v : ℕ)
        → (v ∈ row (set edges from (extend s to)) u) ↔ ((v ∈ row edges u) ⊎ ((u ≡ from) × (v ∈ to)))
    pair s at u v = elim (Bool-cases (from == u)) [
      | inl e ↦
          let same : from ≡ u = ==→eq from u e in
          rw
            (
              ← same,
              get_elem?-set_self edges from (extend s to) (lt-length_of_get edges from s at),
              at,
            )
            (
              λ m. elim ((mem-extend v s to).0 m) [ inl a ↦ inl a | inr b ↦ inr (refl, b) ],
              λ h. (mem-extend v s to).1 (elim h [ inl a ↦ inl a | inr p ↦ inr p.1 ]),
            )
      | inr e ↦
          rw (get_elem?-set_ne edges from u (extend s to) (==→ne from u e))
            (inl, elim [ inl m ↦ m | inr p ↦ absurd (==→ne from u e (sym p.0)) ])
    ]
