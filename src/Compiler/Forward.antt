-- ===== src/Compiler/Forward.antt =====
-- The edges of the compiled atoms lead forward.
use sys_tester.Base.{
  ℕ, zero, suc, ◌<◌, ◌+◌, some, some_injective, List, [], ◌∷◌, ◌≡◌, ◌≢◌, refl, sym, ap, ◌∙◌, inl,
  inr, arith, length, get_elem?, lt-length_of_get, ◌∈◌, IsNodup, subst,
}
use sys_tester.Graph.Topo.{TopologicalOrder}
use sys_tester.Graph.Topo.Order.{mem_of_get}
use sys_tester.Model.{atom, TaskInfo}
use sys_tester.Compiler.Links.{atom_tasks}
use sys_tester.Compiler.Flatten.{number_atoms, collect_atoms}
use sys_tester.Compiler.Adds.{row}
use sys_tester.Compiler.Order.{IsOther, Between}
use sys_tester.Compiler.Tasks.{IsTaskOrder}
use sys_tester.Compiler.Numbers.{task_of_number}
use sys_tester.Compiler.Picking.{Before, Picks}
use sys_tester.Compiler.Picks.{Before-Picks}
use sys_tester.Compiler.Ordered.{IsTaskOrder-Before}

Before-mem : (xs : List ℕ) (u v : ℕ) → Before xs u v → (u ∈ xs) × (v ∈ xs)
Before-mem [] u v h = absurd h
Before-mem (x ∷ xs) u v (inl (e, m)) = (inl e, inr m)
Before-mem (x ∷ xs) u v (inr h) = let (a, b) = Before-mem xs u v h in (inr a, inr b)

-- Without repetitions, what stands before has the lower index.
pub Before-lt :
    (xs : List ℕ) (i j u v : ℕ)
    → IsNodup xs
    → get_elem? xs i ≡ some u
    → get_elem? xs j ≡ some v
    → Before xs u v
    → i < j
Before-lt [] i j u v once hu hv h = absurd h
Before-lt (x ∷ xs) zero zero u v once hu hv (inl (e, m)) =
    absurd (once.0 (subst (λ y. y ∈ xs) (sym (some_injective x v hv)) m))
Before-lt (x ∷ xs) zero zero u v once hu hv (inr h) =
    absurd (once.0 (subst (λ y. y ∈ xs) (sym (some_injective x u hu)) (Before-mem xs u v h).0))
Before-lt (x ∷ xs) zero (suc j) u v once hu hv h = omega arith
Before-lt (x ∷ xs) (suc i) zero u v once hu hv (inl (e, m)) =
    absurd (once.0 (subst (λ y. y ∈ xs) (sym (some_injective x v hv)) m))
Before-lt (x ∷ xs) (suc i) zero u v once hu hv (inr h) =
    absurd (once.0 (subst (λ y. y ∈ xs) (sym (some_injective x v hv)) (Before-mem xs u v h).1))
Before-lt (x ∷ xs) (suc i) (suc j) u v once hu hv (inl (e, m)) =
    absurd (once.0 (subst (λ y. y ∈ xs) e (mem_of_get xs i u hu)))
Before-lt (x ∷ xs) (suc i) (suc j) u v once hu hv (inr h) =
    omega (arith, Before-lt xs i j u v once.1 hu hv h)

-- Without repetitions, an element has one index.
pub index_unique :
    (xs : List ℕ) (i j x : ℕ)
    → IsNodup xs
    → get_elem? xs i ≡ some x
    → get_elem? xs j ≡ some x
    → i ≡ j
index_unique [] i j x once hi hj = absurd cc
index_unique (y ∷ xs) zero zero x once hi hj = refl
index_unique (y ∷ xs) zero (suc j) x once hi hj =
    absurd (once.0 (subst (λ z. z ∈ xs) (sym (some_injective y x hi)) (mem_of_get xs j x hj)))
index_unique (y ∷ xs) (suc i) zero x once hi hj =
    absurd (once.0 (subst (λ z. z ∈ xs) (sym (some_injective y x hj)) (mem_of_get xs i x hi)))
index_unique (y ∷ xs) (suc i) (suc j) x once hi hj = ap suc (index_unique xs i j x once.1 hi hj)

Between-of :
    (atoms : List ℕ) (from : ℕ) (edges : List (List ℕ)) (k u v : ℕ)
    → get_elem? atoms (from + k) ≡ some u
    → IsOther atoms u (row edges k) v
    → Between atoms from edges u v
Between-of atoms from [] k u v at (to, m, _, _) = absurd m
Between-of atoms from (es ∷ edges) zero u v at o = inl (ap (get_elem? atoms) (omega arith) ∙ at, o)
Between-of atoms from (es ∷ edges) (suc k) u v at o =
    inr (Between-of atoms (suc from) edges k u v (ap (get_elem? atoms) (omega arith) ∙ at) o)

-- An edge between two different atoms leads forward in the order of the atoms.
pub atom_edge-Before :
    (info : TaskInfo) (atom_edges edges : List (List ℕ)) (t : TopologicalOrder) (ids : List ℕ)
    (id to : ℕ)
    → IsTaskOrder info atom_edges edges t
    → Picks info.tasks (number_atoms 0 info.tasks) t.order ids
    → id < length (collect_atoms info.tasks)
    → to < length (collect_atoms info.tasks)
    → to ∈ row atom_edges id
    → id ≢ to
    → Before ids id to
atom_edge-Before info atom_edges edges t ids id to o ps bound bound' m other =
    let (s, a, n) = task_of_number 0 0 info.tasks id bound in
    let (s', a', n') = task_of_number 0 0 info.tasks to bound' in
    let back : get_elem? (atom_tasks 0 info.tasks) id ≡ some s = n.back ∙ ap some (omega arith) in
    let back' : get_elem? (atom_tasks 0 info.tasks) to ≡ some s' =
      n'.back ∙ ap some (omega arith) in
    let apart : s ≢ s' = λ e. other (
      omega (
        arith,
        some_injective (0 + id) (0 + to)
            (sym n.number ∙ ap (get_elem? (number_atoms 0 info.tasks)) e ∙ n'.number),
      )) in
    let between =
      Between-of (atom_tasks 0 info.tasks) 0 atom_edges id s s'
        (ap (get_elem? (atom_tasks 0 info.tasks)) (omega arith) ∙ back) (to, m, back', apart) in
    Before-Picks info.tasks t.order ids s s' id to a a' ps n n' (
      IsTaskOrder-Before info atom_edges edges t o s s'
        (lt-length_of_get info.tasks s' (atom a') n'.task) ((o.pairs s s').1 (inr between)))
