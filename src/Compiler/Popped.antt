-- ===== src/Compiler/Popped.antt =====
-- The end of a visit: the task leaves the stack and has its boundary.
use sys_tester.Base.{
  ℕ, ◌<◌, some, List, ◌∷◌, ◌≡◌, refl, sym, ap, ◌∙◌, ◌↔◌, inl, inr, arith, length, get_elem?, set,
  length-set, get_elem?-set_self, get_elem?-set_ne, lt-length_of_get, drop, ◌∈◌, IsNodup, subst,
  Bool-cases, ◌==◌, ==→eq, ==→ne,
}
use sys_tester.Compiler.Boundary.{Boundary, on_stack, done, BoundaryBuild, pop}
use sys_tester.Compiler.Build.{unseen, unseen-set_pop, Placed, IsBoundary, Fine}
use sys_tester.Model.{Task}

module _ (n m : ℕ) (tasks : List Task) (atoms_map : List ℕ) (idx : ℕ) (x : Boundary)
    (b : BoundaryBuild) (rest : List ℕ) (f : Fine n m b) (top : b.stack ≡ idx ∷ rest)
    (good : IsBoundary n m x) where
  state : get_elem? b.states idx ≡ some on_stack
  state = (f.members idx).0 (subst (λ s. idx ∈ s) (sym top) (inl refl))

  inside : idx < length b.states
  inside = lt-length_of_get b.states idx on_stack state

  once : IsNodup (idx ∷ rest)
  once = subst IsNodup top f.once

  pub popped-done : get_elem? (pop tasks atoms_map idx x b).states idx ≡ some done
  unfolding pop
  popped-done = get_elem?-set_self b.states idx done inside

  pub popped-stack : (pop tasks atoms_map idx x b).stack ≡ rest
  unfolding pop
  popped-stack = ap (drop 1) top

  pub unseen-popped : unseen (pop tasks atoms_map idx x b).states ≡ unseen b.states
  unfolding pop
  unseen-popped = unseen-set_pop b.states idx state

  pub popped-still :
      (t : ℕ)
      → get_elem? b.states t ≡ some done
      → get_elem? (pop tasks atoms_map idx x b).states t ≡ some done
  unfolding pop
  popped-still t h = elim (Bool-cases (idx == t)) [
    | inl e ↦
        subst (λ i. get_elem? (set b.states idx done) i ≡ some done) (==→eq idx t e)
          (get_elem?-set_self b.states idx done inside)
    | inr e ↦ get_elem?-set_ne b.states idx t done (==→ne idx t e) ∙ h
  ]

  members : (t : ℕ) → (t ∈ rest) ↔ (get_elem? (set b.states idx done) t ≡ some on_stack)
  members t = elim (Bool-cases (idx == t)) [
    | inl e ↦
        let same = ==→eq idx t e in
        (
          λ h. absurd (once.0 (subst (λ s. s ∈ rest) (sym same) h)),
          λ h. absurd cc (
            h,
            ap (get_elem? (set b.states idx done)) same,
            get_elem?-set_self b.states idx done inside,
          ),
        )
    | inr e ↦
        let other = get_elem?-set_ne b.states idx t done (==→ne idx t e) in
        (
          λ h. other ∙ (f.members t).0 (subst (λ s. t ∈ s) (sym top) (inr h)),
          λ h. elim (subst (λ s. t ∈ s) top ((f.members t).1 (sym other ∙ h))) [
            | inl q ↦ absurd (==→ne idx t e (sym q))
            | inr h' ↦ h'
          ],
        )
  ]

  pub popped-Fine : Fine n m (pop tasks atoms_map idx x b)
  unfolding pop
  popped-Fine = record {
    states_size = length-set b.states idx done ∙ f.states_size;
    positions_size = f.positions_size;
    boundaries_size = length-set b.boundaries idx (some x) ∙ f.boundaries_size;
    edges = f.edges;
    placed =
        subst (Placed b.stack_positions) (sym (ap (drop 1) top))
          (subst (Placed b.stack_positions) top f.placed).1;
    once = subst IsNodup (sym (ap (drop 1) top)) once.1;
    members = λ t.
        subst (λ s. (t ∈ s) ↔ (get_elem? (set b.states idx done) t ≡ some on_stack))
          (sym (ap (drop 1) top)) (members t);
    finished = λ t h. elim (Bool-cases (idx == t)) [
      | inl e ↦ (
        x,
        ap (get_elem? (set b.boundaries idx (some x))) (sym (==→eq idx t e))
            ∙ get_elem?-set_self b.boundaries idx (some x)
                (omega (arith, inside, f.boundaries_size, f.states_size)),
        good,
      )
      | inr e ↦
          let (y, at, fine) =
            f.finished t (sym (get_elem?-set_ne b.states idx t done (==→ne idx t e)) ∙ h) in
          (y, get_elem?-set_ne b.boundaries idx t (some x) (==→ne idx t e) ∙ at, fine)
    ];
  }
