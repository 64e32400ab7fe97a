-- ===== src/Compiler/Tests.antt =====
-- Runs of `compile`.
use sys_tester.Base.{
  zero, suc, length, some, get_elem?, ap, sym, ◌∈◌, ℕ, ◌<◌, none, List, [], ◌∷◌, ◌≡◌, ◌≢◌, refl,
  ◌⊎◌, inl, inr, arith,
}
use sys_tester.Graph.Topo.{ok, err, out_of_fuel}
use sys_tester.Model.{
  u32_max, Atom, atom, ordered, unordered, TaskInfo, CompiledSetup, listen, mock_fd,
}
use sys_tester.Compiler.Compile.{compile}
use sys_tester.Compiler.Built.{IsClosed}
use sys_tester.Compiler.Ordered.{IsOrdered, compile-IsOrdered}
use sys_tester.Compiler.Proper.{IsRunnable, compile-IsSetup}
use sys_tester.Graph.Packed.{full_edges}
use sys_tester.Runner.Request.{AtomReq, request, listen_req}
use sys_tester.Runner.Schedule.Inv.{after_of, before_of, IsSetup}
use sys_tester.Compiler.Returns.{compile_terminates}

abbrev named : ℕ → Atom
named i = record { content = listen (mock_fd i) 1; error = none }

-- The second atom comes before the first one.
abbrev swapped : TaskInfo
swapped = record {
  tasks = atom (named 0) ∷ atom (named 1) ∷ ordered (1 ∷ 0 ∷ []) ∷ [];
  happens_before = (1, 0 ∷ []) ∷ [];
  file_count = 0;
}

abbrev swapped_setup : CompiledSetup
swapped_setup = record {
  atoms = named 1 ∷ named 0 ∷ [];
  file_count = 0;
  after_graph = record {
    nodes = record { start = 0; end = 1 } ∷ record { start = 1; end = 1 } ∷ [];
    edges = 1 ∷ [];
  };
  before_graph = record {
    nodes = record { start = 0; end = 0 } ∷ record { start = 0; end = 1 } ∷ [];
    edges = 0 ∷ [];
  };
}

-- Two groups of one atom each, the second group before the first one.
abbrev grouped : TaskInfo
grouped = record {
  tasks = atom (named 0) ∷ atom (named 1) ∷ unordered (0 ∷ []) ∷ unordered (1 ∷ []) ∷ [];
  happens_before = (3, 2 ∷ []) ∷ [];
  file_count = 0;
}

-- A group that comes before one of its own atoms.
abbrev own_atom : TaskInfo
own_atom = record {
  tasks = atom (named 0) ∷ unordered (0 ∷ []) ∷ ordered (1 ∷ 0 ∷ []) ∷ [];
  happens_before = [];
  file_count = 0;
}

-- Its setup has an edge from the atom to itself.
abbrev own_atom_setup : CompiledSetup
own_atom_setup = record {
  atoms = named 0 ∷ [];
  file_count = 0;
  after_graph = record { nodes = record { start = 0; end = 1 } ∷ []; edges = 0 ∷ [] };
  before_graph = record { nodes = record { start = 0; end = 1 } ∷ []; edges = 0 ∷ [] };
}

-- A task that contains itself.
abbrev recursive : TaskInfo
recursive = record { tasks = ordered (0 ∷ []) ∷ []; happens_before = []; file_count = 0 }

runs :
    (compile swapped ≡ ok swapped_setup)
    × (compile own_atom ≡ ok own_atom_setup)
    × (compile grouped ≡ ok swapped_setup)
    × (compile recursive ≡ err (0 ∷ 0 ∷ []))
unfolding compile sys_tester.Compiler.Compile.compile_boundaries
    sys_tester.Compiler.Boundary.build_boundaries sys_tester.Compiler.Boundary.build_boundary
    sys_tester.Compiler.Sets.at_index sys_tester.Compiler.Boundary.new_build
    sys_tester.Compiler.Boundary.enter_task sys_tester.Compiler.Boundary.task_boundary
    sys_tester.Compiler.Flatten.number_atoms sys_tester.Compiler.Boundary.pop
    sys_tester.Compiler.Boundary.push sys_tester.Compiler.Boundary.ordered_children
    sys_tester.Compiler.Boundary.connect_previous sys_tester.Compiler.Sets.connect
    sys_tester.Compiler.Sets.connect_from sys_tester.Compiler.Sets.extend_at
    sys_tester.Compiler.Flatten.collect_atoms sys_tester.Compiler.Boundary.containment_cycle
    sys_tester.Compiler.Boundary.unordered_children sys_tester.Compiler.Compile.compile_atom_edges
    sys_tester.Compiler.Compile.compile_graphs sys_tester.Compiler.Compile.compile_order
    sys_tester.Compiler.Compile.declared_edges sys_tester.Compiler.Compile.reduce
    sys_tester.Compiler.Flatten.atom_topology sys_tester.Compiler.Flatten.order_atoms
    sys_tester.Compiler.Flatten.push_atom sys_tester.Compiler.Flatten.push_before
    sys_tester.Compiler.Flatten.renumbered sys_tester.Compiler.Flatten.reverse_edges
    sys_tester.Compiler.Flatten.sorted_graph sys_tester.Compiler.Links.add_atom_edges
    sys_tester.Compiler.Links.atom_tasks sys_tester.Compiler.Links.boundary_of
    sys_tester.Compiler.Links.contract sys_tester.Compiler.Links.contract_from
    sys_tester.Compiler.Links.explicit_edges sys_tester.Compiler.Links.follow
    sys_tester.Compiler.Links.link_after sys_tester.Compiler.Links.link_children
    sys_tester.Compiler.Links.link_tasks sys_tester.Compiler.Links.other_tasks
    sys_tester.Compiler.Sets.deduplicate sys_tester.Compiler.Sets.extend
    sys_tester.Compiler.Sets.insert_value sys_tester.Graph.Packed.from_adjacency_lists
    sys_tester.Graph.Packed.full_edges sys_tester.Graph.Packed.packed
    sys_tester.Graph.Reduce.transitive_solved_reduction sys_tester.Graph.Topo.topological_order
    sys_tester.Base.Sort.dedup sys_tester.Base.Sort.sort_by_key
runs = (refl, refl, refl, refl)

swapped-IsClosed : IsClosed swapped
swapped-IsClosed = record {
  children = (tt, (tt, ((omega arith, (omega arith, tt)), tt)));
  before = ((omega arith, (omega arith, tt)), tt);
}

grouped-IsClosed : IsClosed grouped
grouped-IsClosed = record {
  children = (tt, (tt, ((omega arith, tt), ((omega arith, tt), tt))));
  before = ((omega arith, (omega arith, tt)), tt);
}

compile_terminates_example : compile grouped ≢ out_of_fuel
compile_terminates_example = compile_terminates grouped grouped-IsClosed

compile-IsOrdered_example : (order : List ℕ) × IsOrdered grouped swapped_setup order
compile-IsOrdered_example = compile-IsOrdered grouped swapped_setup grouped-IsClosed runs.2

swapped-IsRunnable : IsRunnable swapped swapped_setup
unfolding full_edges request
swapped-IsRunnable = record { answered = answered; no_loop = no_loop; few = few }
  where
    answered :
        (t : ℕ) (a : Atom)
        → get_elem? swapped.tasks t ≡ some (atom a)
        → (r : AtomReq) × (request a.content ≡ some r)
    answered zero a e = (
      listen_req (mock_fd 0) 1,
      ap (λ o. elim o [ some (atom x) ↦ request x.content | _ ↦ none ]) (sym e),
    )
    answered (suc zero) a e = (
      listen_req (mock_fd 1) 1,
      ap (λ o. elim o [ some (atom x) ↦ request x.content | _ ↦ none ]) (sym e),
    )
    answered (suc (suc zero)) a e = absurd cc
    answered (suc (suc (suc t))) a e = absurd cc

    no_loop : (v : ℕ) → ¬ (v ∈ after_of swapped_setup v)
    no_loop zero (inl e) = absurd (omega (arith, e))
    no_loop zero (inr m) = m
    no_loop (suc zero) m = m
    no_loop (suc (suc v)) m = m

    few : (v : ℕ) → v < 2 → length (before_of swapped_setup v) < u32_max
    few zero h = omega arith
    few (suc zero) h = omega arith
    few (suc (suc v)) h = absurd (omega arith)

compile-IsSetup_example : IsSetup swapped_setup
compile-IsSetup_example =
    compile-IsSetup swapped swapped_setup swapped-IsClosed runs.0 swapped-IsRunnable
