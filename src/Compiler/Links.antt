-- ===== src/Compiler/Links.antt =====
-- src/compiler.rs: the edges between tasks, the contraction of paths through empty tasks, and the
-- edges between the tasks of atoms.
use sys_tester.Base.{
  ℕ, zero, suc, ◌+◌, Bool, true, false, List, [], ◌∷◌, ◌++◌, length, set, replicate, ◌==◌,
  if◌then◌else◌,
}
use sys_tester.Graph.Topo.{Outcome, ok, out_of_fuel, ◌>>=◌}
use sys_tester.Model.{Task, atom, ordered, unordered}
use sys_tester.Compiler.Sets.{at_index, extend_at, connect}
use sys_tester.Compiler.Boundary.{Boundary, BoundaryBuild, is_empty, unwrap}

-- `for (&from, destinations) in &self.happens_before`
unfoldable pub explicit_edges : List (ℕ × List ℕ) → List (List ℕ) → Outcome (List (List ℕ))
explicit_edges [] edges = ok edges
explicit_edges ((from, destinations) ∷ rest) edges =
    extend_at edges from destinations >>= explicit_edges rest

-- `children.windows(2)`, from a child on: an edge to the next one.
unfoldable pub link_after : ℕ → List ℕ → List (List ℕ) → Outcome (List (List ℕ))
link_after child [] edges = ok edges
link_after child (next ∷ children) edges =
    extend_at edges child (next ∷ []) >>= link_after next children

unfoldable pub link_children : Task → List (List ℕ) → Outcome (List (List ℕ))
link_children (atom a) edges = ok edges
link_children (unordered children) edges = ok edges
link_children (ordered []) edges = ok edges
link_children (ordered (child ∷ children)) edges = link_after child children edges

-- `for task in &self.tasks`
unfoldable pub link_tasks : List Task → List (List ℕ) → Outcome (List (List ℕ))
link_tasks [] edges = ok edges
link_tasks (task ∷ tasks) edges = link_children task edges >>= link_tasks tasks

abbrev pub total_length : List (List ℕ) → ℕ
total_length [] = 0
total_length (xs ∷ xss) = length xs + total_length xss

module _ (build : BoundaryBuild) (task_edges : List (List ℕ)) where
  unfoldable pub boundary_of : ℕ → Outcome Boundary
  boundary_of task = at_index build.boundaries task >>= unwrap

  -- `while let Some(to) = stack.pop()`. The edges of a task are put on the stack once at most, so their
  -- number and that of the first stack together are enough fuel. The stack has its next element first.
  unfoldable pub follow : ℕ → List ℕ → List Bool → List ℕ → List (List ℕ) → Outcome (List (List ℕ))
  follow fuel exits seen [] edges = ok edges
  follow zero exits seen (to ∷ stack) edges = out_of_fuel
  follow (suc fuel) exits seen (to ∷ stack) edges = at_index seen to >>= elim [
    | true ↦ follow fuel exits seen stack edges
    | false ↦ boundary_of to >>= λ destination. elim (is_empty destination.entries) [
      | true ↦ at_index task_edges to >>= λ more.
          follow fuel exits (set seen to true) (more ++ stack) edges
      | false ↦ connect edges exits destination.entries >>= λ edges'.
          follow fuel exits (set seen to true) stack edges'
    ]
  ]

  -- The body of the loop over `from`.
  unfoldable pub contract_from : ℕ → List (List ℕ) → Outcome (List (List ℕ))
  contract_from from edges = boundary_of from >>= λ source. elim (is_empty source.entries) [
    | true ↦ ok edges
    | false ↦ at_index task_edges from >>= λ stack.
        follow (length stack + total_length task_edges) source.exits
          (replicate (length task_edges) false) stack edges
  ]

  unfoldable pub contract : List ℕ → List (List ℕ) → Outcome (List (List ℕ))
  contract [] edges = ok edges
  contract (from ∷ rest) edges = contract_from from edges >>= contract rest

-- The indices of the tasks that are atoms, in order.
unfoldable pub atom_tasks : ℕ → List Task → List ℕ
atom_tasks i [] = []
atom_tasks i (atom a ∷ tasks) = i ∷ atom_tasks (suc i) tasks
atom_tasks i (ordered children ∷ tasks) = atom_tasks (suc i) tasks
atom_tasks i (unordered children ∷ tasks) = atom_tasks (suc i) tasks

-- The `filter_map` of the destinations: their tasks, without `from_task`.
unfoldable pub other_tasks : List ℕ → ℕ → List ℕ → Outcome (List ℕ)
other_tasks atoms from_task [] = ok []
other_tasks atoms from_task (to ∷ destinations) = at_index atoms to >>= λ to_task.
    other_tasks atoms from_task destinations >>= λ others.
    ok (if from_task == to_task then others else to_task ∷ others)

-- `for (from, destinations) in atom_edges.iter().enumerate()`
unfoldable pub add_atom_edges : List ℕ → ℕ → List (List ℕ) → List (List ℕ) → Outcome (List (List ℕ))
add_atom_edges atoms from [] task_edges = ok task_edges
add_atom_edges atoms from (destinations ∷ rest) task_edges = at_index atoms from >>= λ from_task.
    other_tasks atoms from_task destinations >>= λ others.
    extend_at task_edges from_task others >>= add_atom_edges atoms (suc from) rest
