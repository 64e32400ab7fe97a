-- ===== src/Compiler/Picking.antt =====
-- The order of the atoms as a relation: `order_atoms` picks it from the order of the tasks.
use sys_tester.Base.{
  ℕ, zero, suc, ◌<◌, some, some_injective, List, [], ◌∷◌, ◌≡◌, ◌≢◌, sym, ◌∙◌, ◌⊎◌, inl, inr, arith,
  get_elem?, ◌∈◌, subst,
}
use sys_tester.Graph.Walk.{Edge}
use sys_tester.Graph.Topo.{ok, TopologicalOrder}
use sys_tester.Graph.{DirectedGraph}
use sys_tester.Graph.Topo.Order.{IsTopological, mem_of_get, get_of_mem}
use sys_tester.Model.{Atom, Task, atom, ordered, unordered}
use sys_tester.Compiler.Sets.{at_index}
use sys_tester.Compiler.Flatten.{push_atom, order_atoms}
use sys_tester.Compiler.Outcomes.{ok_injective, >>=-ok, at_index-some}

-- `u` stands before `v` in the list.
abbrev pub Before : List ℕ → ℕ → ℕ → Type 0
Before [] u v = ⊥
Before (x ∷ xs) u v = ((u ≡ x) × (v ∈ xs)) ⊎ Before xs u v

Before-get :
    (xs : List ℕ) (i j u v : ℕ)
    → get_elem? xs i ≡ some u
    → get_elem? xs j ≡ some v
    → i < j
    → Before xs u v
Before-get [] i j u v hu hv less = absurd cc
Before-get (x ∷ xs) zero zero u v hu hv less = absurd (omega arith)
Before-get (x ∷ xs) zero (suc j) u v hu hv less =
    inl (sym (some_injective x u hu), mem_of_get xs j v hv)
Before-get (x ∷ xs) (suc i) zero u v hu hv less = absurd (omega arith)
Before-get (x ∷ xs) (suc i) (suc j) u v hu hv less = inr (Before-get xs i j u v hu hv (omega arith))

-- In a topological order the edges lead forward.
pub IsTopological-Before :
    (g : DirectedGraph) (t : TopologicalOrder)
    → IsTopological g t
    → (u v : ℕ) → u < g.num_nodes
    → v < g.num_nodes
    → Edge g u v
    → Before t.order u v
IsTopological-Before g t top u v hu hv e =
    let (i, at_u) = get_of_mem t.order u ((top.all u).1 hu) in
    let (j, at_v) = get_of_mem t.order v ((top.all v).1 hv) in
    let (i', j', map_u, map_v, less) = top.forward u v hu e in
    Before-get t.order i j u v at_u at_v (
      omega (
        arith,
        less,
        some_injective i i' (sym (top.inverse i u at_u) ∙ map_u),
        some_injective j j' (sym (top.inverse j v at_v) ∙ map_v),
      ))

-- The tasks that are atoms, in order, with their numbers.
pub data Picks (tasks : List Task) (atoms_map : List ℕ) : List ℕ → List ℕ → Type 0 where
  empty : Picks tasks atoms_map [] []
  skip :
      (t : ℕ) (xs ids : List ℕ)
      → ((a : Atom) → get_elem? tasks t ≢ some (atom a))
      → Picks tasks atoms_map xs ids
      → Picks tasks atoms_map (t ∷ xs) ids
  pick :
      (t id : ℕ) (a : Atom) (xs ids : List ℕ)
      → get_elem? tasks t ≡ some (atom a)
      → get_elem? atoms_map t ≡ some id
      → Picks tasks atoms_map xs ids
      → Picks tasks atoms_map (t ∷ xs) (id ∷ ids)

pub order_atoms-Picks :
    (tasks : List Task) (atoms_map xs ids : List ℕ)
    → order_atoms tasks atoms_map xs ≡ ok ids
    → Picks tasks atoms_map xs ids
unfolding order_atoms push_atom
order_atoms-Picks tasks atoms_map [] ids e =
    subst (Picks tasks atoms_map []) (ok_injective _ _ e) empty
order_atoms-Picks tasks atoms_map (t ∷ xs) ids e =
    let (value, found, e₁) = >>=-ok (at_index tasks t) _ ids e in
    let (rest, picked, e₂) = >>=-ok (order_atoms tasks atoms_map xs) _ ids e₁ in
    by_task value rest (at_index-some tasks t value found)
      (order_atoms-Picks tasks atoms_map xs rest picked) e₂
  where
    group :
        (value : Task) (rest : List ℕ)
        → get_elem? tasks t ≡ some value
        → ((a : Atom) → value ≢ atom a)
        → Picks tasks atoms_map xs rest
        → ok rest ≡ ok ids
        → Picks tasks atoms_map (t ∷ xs) ids
    group value rest at other ps e' =
        subst (Picks tasks atoms_map (t ∷ xs)) (ok_injective _ _ e')
          (skip t xs rest (λ a q. other a (some_injective _ _ (sym at ∙ q))) ps)

    by_task :
        (value : Task) (rest : List ℕ)
        → get_elem? tasks t ≡ some value
        → Picks tasks atoms_map xs rest
        → push_atom tasks atoms_map t value rest ≡ ok ids
        → Picks tasks atoms_map (t ∷ xs) ids
    by_task (atom a) rest at ps e' =
        let (id, found, e₁) = >>=-ok (at_index atoms_map t) _ ids e' in
        subst (Picks tasks atoms_map (t ∷ xs)) (ok_injective _ _ e₁)
          (pick t id a xs rest at (at_index-some atoms_map t id found) ps)
    by_task (ordered cs) rest at ps e' = group (ordered cs) rest at (λ a q. absurd cc) ps e'
    by_task (unordered cs) rest at ps e' = group (unordered cs) rest at (λ a q. absurd cc) ps e'
