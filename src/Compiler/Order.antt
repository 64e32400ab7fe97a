-- ===== src/Compiler/Order.antt =====
-- The order of the tasks: the graph that is sorted has the declared edges and those of the atoms.
use sys_tester.Base.{
  some_injective, ℕ, suc, true, some, List, [], ◌∷◌, ◌≡◌, refl, sym, ap, ◌∙◌, ◌↔◌, ◌⊎◌, inl, inr,
  get_elem?, ◌∈◌, Bool-cases, ◌==◌, ==→eq, ==→ne, if◌then◌else◌, subst,
}
use sys_tester.Graph.Topo.{ok}
use sys_tester.Compiler.Sets.{at_index, extend_at}
use sys_tester.Compiler.Links.{other_tasks, add_atom_edges}
use sys_tester.Compiler.Outcomes.{ok_injective, >>=-ok, at_index-some}
use sys_tester.Compiler.Adds.{Adds, Adds-ok, Adds-iff, Adds-trans, extend_at-Adds}

-- `v` is the task of an atom in the list, and not `u`.
abbrev pub IsOther : List ℕ → ℕ → List ℕ → ℕ → Type 0
IsOther atoms u destinations v =
    (to : ℕ) × (to ∈ destinations) × (get_elem? atoms to ≡ some v) × (¬ (u ≡ v))

mem-other_tasks :
    (atoms : List ℕ) (u : ℕ) (destinations others : List ℕ)
    → other_tasks atoms u destinations ≡ ok others
    → (v : ℕ) → (v ∈ others) ↔ IsOther atoms u destinations v
unfolding other_tasks
mem-other_tasks atoms u [] others e v =
    subst (λ os. (v ∈ os) ↔ IsOther atoms u [] v) (ok_injective _ _ e)
      (λ m. absurd m, λ o. let (to, m, _, _) = o in absurd m)
mem-other_tasks atoms u (to ∷ destinations) others e v =
    let (task, found, e₁) = >>=-ok (at_index atoms to) _ others e in
    let (more, done, e₂) = >>=-ok (other_tasks atoms u destinations) _ others e₁ in
    subst (λ os. (v ∈ os) ↔ IsOther atoms u (to ∷ destinations) v) (ok_injective _ _ e₂)
      (by_test task more (at_index-some atoms to task found)
        (mem-other_tasks atoms u destinations more done v))
  where
    by_test :
        (task : ℕ) (more : List ℕ)
        → get_elem? atoms to ≡ some task
        → (v ∈ more) ↔ IsOther atoms u destinations v
        → (v ∈ (if u == task then more else task ∷ more)) ↔ IsOther atoms u (to ∷ destinations) v
    by_test task more at ih = elim (Bool-cases (u == task)) [
      | inl same ↦ rw same (into, λ o. out_same same o)
      | inr other ↦ rw other (
        elim [
          | inl q ↦ (to, inl refl, at ∙ ap some (sym q), λ p. ==→ne u task other (p ∙ q))
          | inr m ↦ into m
        ],
        out_other,
      )
    ]
      where
        into : v ∈ more → IsOther atoms u (to ∷ destinations) v
        into m = let (t, inside, h, ne) = ih.0 m in (t, inr inside, h, ne)

        task_of : (t : ℕ) → t ≡ to → get_elem? atoms t ≡ some v → v ≡ task
        task_of t q h = some_injective v task (sym h ∙ ap (get_elem? atoms) q ∙ at)

        out_same : (u == task) ≡ true → IsOther atoms u (to ∷ destinations) v → v ∈ more
        out_same same (t, inl q, h, ne) = absurd (ne (==→eq u task same ∙ sym (task_of t q h)))
        out_same same (t, inr m, h, ne) = ih.1 (t, m, h, ne)

        out_other : IsOther atoms u (to ∷ destinations) v → v ∈ (task ∷ more)
        out_other (t, inl q, h, ne) = inl (task_of t q h)
        out_other (t, inr m, h, ne) = inr (ih.1 (t, m, h, ne))

-- The pair of tasks of two different atoms, with an edge of the sets from the number `from` on.
abbrev pub Between : List ℕ → ℕ → List (List ℕ) → ℕ → ℕ → Type 0
Between atoms from [] u v = ⊥
Between atoms from (destinations ∷ rest) u v =
    ((get_elem? atoms from ≡ some u) × IsOther atoms u destinations v)
    ⊎ Between atoms (suc from) rest u v

pub add_atom_edges-Adds :
    (atoms : List ℕ) (from : ℕ) (atom_edges edges edges' : List (List ℕ))
    → add_atom_edges atoms from atom_edges edges ≡ ok edges'
    → Adds (Between atoms from atom_edges) edges edges'
unfolding add_atom_edges
add_atom_edges-Adds atoms from [] edges edges' e = Adds-ok edges edges' e
add_atom_edges-Adds atoms from (destinations ∷ rest) edges edges' e =
    let (task, found, e₁) = >>=-ok (at_index atoms from) _ edges' e in
    let (others, chosen, e₂) = >>=-ok (other_tasks atoms task destinations) _ edges' e₁ in
    let (mid, first, e₃) = >>=-ok (extend_at edges task others) _ edges' e₂ in
    Adds-trans
      (Adds-iff
        (same task others (at_index-some atoms from task found)
          (mem-other_tasks atoms task destinations others chosen))
        (extend_at-Adds edges mid task others first))
      (add_atom_edges-Adds atoms (suc from) rest mid edges' e₃)
  where
    same :
        (task : ℕ) (others : List ℕ)
        → get_elem? atoms from ≡ some task
        → ((v : ℕ) → (v ∈ others) ↔ IsOther atoms task destinations v)
        → (u v : ℕ)
        → ((u ≡ task) × (v ∈ others))
          ↔ ((get_elem? atoms from ≡ some u) × IsOther atoms u destinations v)
    same task others at mem u v = (
      λ p. (
        at ∙ ap some (sym p.0),
        subst (λ t. IsOther atoms t destinations v) (sym p.0) ((mem v).0 p.1),
      ),
      λ p.
          let q : u ≡ task = some_injective u task (sym p.0 ∙ at) in
          (q, (mem v).1 (subst (λ t. IsOther atoms t destinations v) q p.1)),
    )
