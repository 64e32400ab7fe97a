-- ===== src/Compiler/Picks.antt =====
-- The order of the atoms, which `order_atoms` picks from the order of the tasks.
use sys_tester.Base.{
  ℕ, ◌+◌, Option, none, some, some_injective, List, [], ◌∷◌, ◌≡◌, ◌≢◌, refl, sym, ap, ◌∙◌, inl, inr,
  arith, get_elem?, ◌∈◌, subst, IsNodup,
}
use sys_tester.Graph.Topo.{ok}
use sys_tester.Model.{Atom, Task, atom, ordered, unordered}
use sys_tester.Compiler.Sets.{at_index}
use sys_tester.Compiler.Flatten.{number_atoms, collect_atoms, collect}
use sys_tester.Compiler.Outcomes.{ok_injective, >>=-ok, at_index-some}
use sys_tester.Compiler.Numbers.{IsNumbered, number_of_task}
use sys_tester.Compiler.Picking.{Before, Picks, empty, skip, pick}

-- The contents of the tasks of a list that are atoms.
abbrev pub atom_of : Option Task → List Atom → List Atom
atom_of none rest = rest
atom_of (some (atom a)) rest = a ∷ rest
atom_of (some (ordered children)) rest = rest
atom_of (some (unordered children)) rest = rest

abbrev pub atoms_of : List Task → List ℕ → List Atom
atoms_of tasks [] = []
atoms_of tasks (t ∷ xs) = atom_of (get_elem? tasks t) (atoms_of tasks xs)

atom_of_group :
    (o : Option Task) (rest : List Atom) → ((a : Atom) → o ≢ some (atom a)) → atom_of o rest ≡ rest
atom_of_group none rest off = refl
atom_of_group (some (atom a)) rest off = absurd (off a refl)
atom_of_group (some (ordered children)) rest off = refl
atom_of_group (some (unordered children)) rest off = refl

-- The numbers that `number_atoms` gives.
module _ (tasks : List Task) where
  -- What a task with a number is.
  pub numbered :
      (t id : ℕ) (a : Atom)
      → get_elem? tasks t ≡ some (atom a)
      → get_elem? (number_atoms 0 tasks) t ≡ some id
      → IsNumbered 0 0 tasks t id a
  numbered t id a at named =
      let (k, n) = number_of_task 0 0 tasks t a at in
      subst (λ x. IsNumbered 0 0 tasks t x a)
        (omega (arith, some_injective (0 + k) id (sym n.number ∙ named))) n

  pub content-Picks :
      (xs ids : List ℕ) (atoms : List Atom)
      → Picks tasks (number_atoms 0 tasks) xs ids
      → collect (at_index (collect_atoms tasks)) ids ≡ ok atoms
      → atoms ≡ atoms_of tasks xs
  content-Picks _ _ atoms empty e = sym (ok_injective _ _ e)
  content-Picks _ _ atoms (skip t xs ids off ps) e =
      content-Picks xs ids atoms ps e
      ∙ sym (atom_of_group (get_elem? tasks t) (atoms_of tasks xs) off)
  content-Picks _ _ atoms (pick t id a xs ids at named ps) e =
      let (b, found, e₁) = >>=-ok (at_index (collect_atoms tasks) id) _ atoms e in
      let (rest, more, e₂) = >>=-ok (collect (at_index (collect_atoms tasks)) ids) _ atoms e₁ in
      let same = some_injective b a (
        sym (at_index-some (collect_atoms tasks) id b found)
        ∙ (numbered t id a at named).content) in
      sym (ok_injective _ _ e₂)
      ∙ ap (λ x. x ∷ rest) same
      ∙ ap (λ l. a ∷ l) (content-Picks xs ids rest ps more)
      ∙ ap (λ o. atom_of o (atoms_of tasks xs)) (sym at)

  pub mem-Picks :
      (xs ids : List ℕ) (t id : ℕ) (a : Atom)
      → Picks tasks (number_atoms 0 tasks) xs ids
      → IsNumbered 0 0 tasks t id a
      → t ∈ xs
      → id ∈ ids
  mem-Picks _ _ t id a empty n m = absurd m
  mem-Picks _ _ t id a (skip s xs ids off ps) n (inl q) =
      absurd (off a (ap (get_elem? tasks) (sym q) ∙ n.task))
  mem-Picks _ _ t id a (skip s xs ids off ps) n (inr m) = mem-Picks xs ids t id a ps n m
  mem-Picks _ _ t id a (pick s k b xs ids at named ps) n (inl q) = inl (
      omega (
        arith,
        some_injective (0 + id) k (sym n.number ∙ ap (get_elem? (number_atoms 0 tasks)) q ∙ named),
      ))
  mem-Picks _ _ t id a (pick s k b xs ids at named ps) n (inr m) =
      inr (mem-Picks xs ids t id a ps n m)

  pub Picks-mem :
      (xs ids : List ℕ) (id : ℕ)
      → Picks tasks (number_atoms 0 tasks) xs ids
      → id ∈ ids
      → (t : ℕ) × (a : Atom) × (t ∈ xs) × IsNumbered 0 0 tasks t id a
  Picks-mem _ _ id empty m = absurd m
  Picks-mem _ _ id (skip s xs ids off ps) m =
      let (t, a, inside, n) = Picks-mem xs ids id ps m in (t, a, inr inside, n)
  Picks-mem _ _ id (pick s k b xs ids at named ps) (inl q) =
      (s, b, inl refl, subst (λ x. IsNumbered 0 0 tasks s x b) (sym q) (numbered s k b at named))
  Picks-mem _ _ id (pick s k b xs ids at named ps) (inr m) =
      let (t, a, inside, n) = Picks-mem xs ids id ps m in (t, a, inr inside, n)

  pub Picks-IsNodup :
      (xs ids : List ℕ) → Picks tasks (number_atoms 0 tasks) xs ids → IsNodup xs → IsNodup ids
  Picks-IsNodup _ _ empty once = tt
  Picks-IsNodup _ _ (skip s xs ids off ps) once = Picks-IsNodup xs ids ps once.1
  Picks-IsNodup _ _ (pick s k b xs ids at named ps) once = (
    λ m.
        let (t, a, inside, n) = Picks-mem xs ids k ps m in
        let same : t ≡ s =
          omega
            (arith, some_injective (0 + t) (0 + s) (sym n.back ∙ (numbered s k b at named).back)) in
        once.0 (subst (λ x. x ∈ xs) same inside),
    Picks-IsNodup xs ids ps once.1,
  )

  pub Before-Picks :
      (xs ids : List ℕ) (t u j k : ℕ) (a b : Atom)
      → Picks tasks (number_atoms 0 tasks) xs ids
      → IsNumbered 0 0 tasks t j a
      → IsNumbered 0 0 tasks u k b
      → Before xs t u
      → Before ids j k
  Before-Picks _ _ t u j k a b empty nt nu h = absurd h
  Before-Picks _ _ t u j k a b (skip s xs ids off ps) nt nu (inl (q, m)) =
      absurd (off a (ap (get_elem? tasks) (sym q) ∙ nt.task))
  Before-Picks _ _ t u j k a b (skip s xs ids off ps) nt nu (inr h) =
      Before-Picks xs ids t u j k a b ps nt nu h
  Before-Picks _ _ t u j k a b (pick s i c xs ids at named ps) nt nu (inl (q, m)) = inl (
    omega (
      arith,
      some_injective (0 + j) i (sym nt.number ∙ ap (get_elem? (number_atoms 0 tasks)) q ∙ named),
    ),
    mem-Picks xs ids u k b ps nu m,
  )
  Before-Picks _ _ t u j k a b (pick s i c xs ids at named ps) nt nu (inr h) =
      inr (Before-Picks xs ids t u j k a b ps nt nu h)
