-- ===== src/Compiler/Boundary.antt =====
-- src/compiler.rs, `build_boundary`: the first and the last atoms of a task, and the edges between
-- the children of an `Ordered` task. A recursive call goes to a child that is not on the stack, so a
-- fuel of one more than the number of tasks is enough.
use mathlib.Core.List.{reverse}
use sys_tester.Base.{
  ℕ, zero, suc, Bool, true, false, Option, none, some, List, [], ◌∷◌, ◌++◌, length, set, drop,
  replicate, leb, if◌then◌else◌,
}
use sys_tester.Graph.Topo.{Outcome, ok, err, panic, out_of_fuel, ◌>>=◌}
use sys_tester.Model.{Task, atom, ordered, unordered}
use sys_tester.Compiler.Sets.{at_index, connect, deduplicate}

pub record Boundary : Type 0 where
  pub entries : List ℕ
  pub exits : List ℕ

pub data State : Type 0 where
  not_seen on_stack done : State

-- `stack` has its last task first.
pub record BoundaryBuild : Type 0 where
  pub boundaries : List (Option Boundary)
  pub states : List State
  pub stack : List ℕ
  pub stack_positions : List ℕ
  pub atom_edges : List (List ℕ)

abbrev pub is_empty : List ℕ → Bool
is_empty [] = true
is_empty (x ∷ xs) = false

-- `as_ref().unwrap()`
abbrev pub unwrap : {A : Type 0} → Option A → Outcome A
unwrap none = panic
unwrap (some a) = ok a

-- `previous_exits.unwrap_or_default()`
abbrev pub or_default : Option (List ℕ) → List ℕ
or_default none = []
or_default (some exits) = exits

-- A visit of a child, which may change the build.
abbrev pub Visit : Type 0
Visit = ℕ → BoundaryBuild → Outcome (Boundary × BoundaryBuild)

-- The loop over the children of an `Unordered` task, with the vectors `entries` and `exits`.
unfoldable pub unordered_children :
    Visit → List ℕ → List ℕ → List ℕ → BoundaryBuild → Outcome (Boundary × BoundaryBuild)
unordered_children visit [] entries exits build =
    ok (record { entries = deduplicate entries; exits = deduplicate exits }, build)
unordered_children visit (child_idx ∷ children) entries exits build = visit child_idx build >>= λ r.
    unordered_children visit children (entries ++ r.0.entries) (exits ++ r.0.exits) r.1

-- `if let Some(previous) = &previous_exits { connect(…) }`
unfoldable pub connect_previous : Option (List ℕ) → List ℕ → BoundaryBuild → Outcome BoundaryBuild
connect_previous none entries build = ok build
connect_previous (some previous) entries build =
    connect build.atom_edges previous entries >>= λ edges. ok (record build { atom_edges = edges })

-- The loop over the children of an `Ordered` task, with `entries` and `previous_exits`.
unfoldable pub ordered_children :
    Visit → List ℕ → List ℕ → Option (List ℕ) → BoundaryBuild → Outcome (Boundary × BoundaryBuild)
ordered_children visit [] entries previous build =
    ok (record { entries = entries; exits = or_default previous }, build)
ordered_children visit (child_idx ∷ children) entries previous build =
    visit child_idx build >>= λ r. elim (is_empty r.0.entries) [
      | true ↦ ordered_children visit children entries previous r.1
      | false ↦ connect_previous previous r.0.entries r.1 >>= λ build'.
          ordered_children visit children (if is_empty entries then r.0.entries else entries)
            (some r.0.exits) build'
    ]

module _ (tasks : List Task) (atoms_map : List ℕ) where
  unfoldable pub task_boundary :
      Visit → ℕ → Task → BoundaryBuild → Outcome (Boundary × BoundaryBuild)
  task_boundary visit idx (atom a) build =
      at_index atoms_map idx >>= λ id. ok (record { entries = id ∷ []; exits = id ∷ [] }, build)
  task_boundary visit idx (unordered children) build = unordered_children visit children [] [] build
  task_boundary visit idx (ordered children) build = ordered_children visit children [] none build

  -- `stack[start..]`, which panics past the end, and the task once more.
  unfoldable pub containment_cycle : ℕ → BoundaryBuild → Outcome (Boundary × BoundaryBuild)
  containment_cycle idx build = at_index build.stack_positions idx >>= λ start.
      if leb start (length build.stack)
      then err (drop start (reverse build.stack) ++ idx ∷ [])
      else panic

  unfoldable pub push : ℕ → BoundaryBuild → BoundaryBuild
  push idx build = record build {
    states = set build.states idx on_stack;
    stack_positions = set build.stack_positions idx (length build.stack);
    stack = idx ∷ build.stack;
  }

  unfoldable pub pop : ℕ → Boundary → BoundaryBuild → BoundaryBuild
  pop idx boundary build = record build {
    stack = drop 1 build.stack;
    states = set build.states idx done;
    boundaries = set build.boundaries idx (some boundary);
  }

  -- The call for a task in a given state.
  unfoldable pub enter_task : Visit → ℕ → State → BoundaryBuild → Outcome (Boundary × BoundaryBuild)
  enter_task visit idx on_stack build = containment_cycle idx build
  enter_task visit idx done build =
      at_index build.boundaries idx >>= λ o. unwrap o >>= λ boundary. ok (boundary, build)
  enter_task visit idx not_seen build = at_index tasks idx >>= λ task.
      task_boundary visit idx task (push idx build) >>= λ r. ok (r.0, pop idx r.0 r.1)

  unfoldable pub build_boundary : ℕ → Visit
  build_boundary zero idx build = out_of_fuel
  build_boundary (suc fuel) idx build =
      at_index build.states idx >>= λ state. enter_task (build_boundary fuel) idx state build

  -- `for task_idx in 0..self.tasks.len()`; the cast to `u32` changes no index below 2^32.
  unfoldable pub build_boundaries : List ℕ → BoundaryBuild → Outcome BoundaryBuild
  build_boundaries [] build = ok build
  build_boundaries (idx ∷ rest) build =
      build_boundary (suc (length tasks)) idx build >>= λ r. build_boundaries rest r.1

unfoldable pub new_build : ℕ → ℕ → BoundaryBuild
new_build tasks atoms = record {
  boundaries = replicate tasks none;
  states = replicate tasks not_seen;
  stack = [];
  stack_positions = replicate tasks 0;
  atom_edges = replicate atoms [];
}
