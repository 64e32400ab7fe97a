-- ===== src/Compiler/Visits.antt =====
-- `build_boundary` with enough fuel neither panics nor runs out of it.
use sys_tester.Base.{
  some_injective, ℕ, zero, suc, ◌<◌, none, some, List, [], ◌≡◌, sym, ◌∙◌, arith, length, get_elem?,
  lt-length_of_get, subst, le→leb,
}
use sys_tester.Graph.Topo.{ok, ◌>>=◌}
use sys_tester.Model.{Task, Atom, atom, ordered, unordered}
use sys_tester.Compiler.Sets.{at_index}
use sys_tester.Compiler.Boundary.{
  Boundary, State, not_seen, on_stack, done, BoundaryBuild, Visit, unwrap, task_boundary,
  containment_cycle, push, pop, enter_task, build_boundary,
}
use sys_tester.Compiler.Ends.{Ends, Ends->>=, Ends-at_index, IsBelow}
use sys_tester.Compiler.Build.{
  unseen, Placed-mem, Fine, Keeps-refl, push-Fine, unseen-push, pushed-stack, pushed-still,
}
use sys_tester.Compiler.Popped.{popped-done, popped-stack, unseen-popped, popped-still, popped-Fine}
use sys_tester.Compiler.Loops.{
  Looped, Visited, Ends-unordered_children, Ends-ordered_children, children_of,
}

module _ (n m : ℕ) where
  -- A task is entered with one unit of fuel less.
  module _ (tasks : List Task) (atoms_map : List ℕ) (size : length tasks ≡ n)
      (below : (t : ℕ) (task : Task) → get_elem? tasks t ≡ some task → IsBelow n (children_of task))
      (numbers : (t : ℕ) (a : Atom)
        → get_elem? tasks t ≡ some (atom a)
        → (k : ℕ) × (get_elem? atoms_map t ≡ some k) × (k < m)) where
    module _ (fuel : ℕ) (visit : Visit)
        (visits : (idx : ℕ) (b : BoundaryBuild)
          → idx < n
          → Fine n m b
          → unseen b.states < fuel
          → Ends (Visited n m idx b) (visit idx b))
        (idx : ℕ) (b : BoundaryBuild) (f : Fine n m b) where
      Ends-task_boundary :
          (task : Task)
          → get_elem? tasks idx ≡ some task
          → unseen b.states < fuel
          → Ends (Looped n m b) (task_boundary tasks atoms_map visit idx task b)
      unfolding task_boundary
      Ends-task_boundary (atom a) at few =
          let (k, named, less) = numbers idx a at in
          Ends->>= (λ x. get_elem? atoms_map idx ≡ some x) (Looped n m b) (at_index atoms_map idx) _
            (Ends-at_index atoms_map idx (lt-length_of_get atoms_map idx k named))
            (λ x h.
              let same : k ≡ x = some_injective k x (sym named ∙ h) in
              let bound : x < m = omega (arith, same, less) in
              record { fine = f; keeps = Keeps-refl b; good = ((bound, tt), (bound, tt)) })
      Ends-task_boundary (unordered children) at few =
          Ends-unordered_children n m fuel visit visits children [] [] b (below idx _ at) tt tt f
            few
      Ends-task_boundary (ordered children) at few =
          Ends-ordered_children n m fuel visit visits children [] none b (below idx _ at) tt tt f
            few

      Ends-containment_cycle :
          get_elem? b.states idx ≡ some on_stack
          → Ends (Visited n m idx b) (containment_cycle tasks atoms_map idx b)
      unfolding containment_cycle
      Ends-containment_cycle here =
          let (p, at, less) =
            Placed-mem b.stack_positions b.stack idx f.placed ((f.members idx).1 here) in
          Ends->>= (λ x. get_elem? b.stack_positions idx ≡ some x) (Visited n m idx b)
            (at_index b.stack_positions idx) _
            (Ends-at_index b.stack_positions idx (lt-length_of_get b.stack_positions idx p at))
            (λ x h.
              rw (le→leb x (length b.stack) (omega (arith, less, some_injective p x (sym at ∙ h))))
                tt)

      Ends-on_stack :
          get_elem? b.states idx ≡ some on_stack
          → Ends (Visited n m idx b) (enter_task tasks atoms_map visit idx on_stack b)
      unfolding enter_task
      Ends-on_stack = Ends-containment_cycle

      Ends-done :
          get_elem? b.states idx ≡ some done
          → Ends (Visited n m idx b) (enter_task tasks atoms_map visit idx done b)
      unfolding enter_task
      Ends-done here =
          let (x, at, good) = f.finished idx here in
          Ends->>= (λ o. get_elem? b.boundaries idx ≡ some o) (Visited n m idx b)
            (at_index b.boundaries idx) _
            (Ends-at_index b.boundaries idx (lt-length_of_get b.boundaries idx (some x) at))
            (λ o h.
              let same = some_injective (some x) o (sym at ∙ h) in
              subst (λ o'. Ends (Visited n m idx b) (unwrap o' >>= λ boundary. ok (boundary, b)))
                same
                (record {
                  looped = record { fine = f; keeps = Keeps-refl b; good = good };
                  finished = here;
                }))

    Ends-fresh :
        (fuel : ℕ) (visit : Visit)
        → ((idx : ℕ) (b : BoundaryBuild)
            → idx < n
            → Fine n m b
            → unseen b.states < fuel
            → Ends (Visited n m idx b) (visit idx b))
        → (idx : ℕ) (b : BoundaryBuild) → Fine n m b
        → idx < n
        → get_elem? b.states idx ≡ some not_seen
        → unseen b.states < suc fuel
        → Ends (Visited n m idx b) (enter_task tasks atoms_map visit idx not_seen b)
    unfolding enter_task
    Ends-fresh fuel visit visits idx b f bound fresh few =
        Ends->>= (λ task. get_elem? tasks idx ≡ some task) (Visited n m idx b) (at_index tasks idx)
          _ (Ends-at_index tasks idx (omega (arith, bound, size)))
          (λ task at.
            Ends->>= (Looped n m pushed) (Visited n m idx b)
              (task_boundary tasks atoms_map visit idx task pushed) _
              (Ends-task_boundary fuel visit visits idx pushed pushed_fine task at
                (omega (arith, few, unseen-push n m tasks atoms_map idx b fresh)))
              leave)
      where
        pushed : BoundaryBuild
        pushed = push tasks atoms_map idx b

        pushed_fine : Fine n m pushed
        pushed_fine = push-Fine n m tasks atoms_map idx b f fresh

        leave :
            (r : Boundary × BoundaryBuild)
            → Looped n m pushed r
            → Visited n m idx b (r.0, pop tasks atoms_map idx r.0 r.1)
        leave r l =
            let top = l.keeps.stack ∙ pushed-stack n m tasks atoms_map idx b in
            record {
              looped = record {
                fine = popped-Fine n m tasks atoms_map idx r.0 r.1 b.stack l.fine top l.good;
                keeps = record {
                  stack = popped-stack n m tasks atoms_map idx r.0 r.1 b.stack l.fine top l.good;
                  fewer = omega (
                    arith,
                    l.keeps.fewer,
                    unseen-popped n m tasks atoms_map idx r.0 r.1 b.stack l.fine top l.good,
                    unseen-push n m tasks atoms_map idx b fresh,
                  );
                  still = λ t h.
                      popped-still n m tasks atoms_map idx r.0 r.1 b.stack l.fine top l.good t
                        (l.keeps.still t (pushed-still n m tasks atoms_map idx b fresh t h));
                };
                good = l.good;
              };
              finished = popped-done n m tasks atoms_map idx r.0 r.1 b.stack l.fine top l.good;
            }

    Ends-enter_task :
        (fuel : ℕ) (visit : Visit)
        → ((idx : ℕ) (b : BoundaryBuild)
            → idx < n
            → Fine n m b
            → unseen b.states < fuel
            → Ends (Visited n m idx b) (visit idx b))
        → (idx : ℕ) (b : BoundaryBuild) → Fine n m b
        → idx < n
        → unseen b.states < suc fuel
        → (state : State) → get_elem? b.states idx ≡ some state
        → Ends (Visited n m idx b) (enter_task tasks atoms_map visit idx state b)
    Ends-enter_task fuel visit visits idx b f bound few not_seen here =
        Ends-fresh fuel visit visits idx b f bound here few
    Ends-enter_task fuel visit visits idx b f bound few on_stack here =
        Ends-on_stack fuel visit visits idx b f here
    Ends-enter_task fuel visit visits idx b f bound few done here =
        Ends-done fuel visit visits idx b f here

    -- With more fuel than there are tasks to enter, a visit ends.
    pub Ends-build_boundary :
        (fuel idx : ℕ) (b : BoundaryBuild)
        → idx < n
        → Fine n m b
        → unseen b.states < fuel
        → Ends (Visited n m idx b) (build_boundary tasks atoms_map fuel idx b)
    unfolding build_boundary
    Ends-build_boundary zero idx b bound f few = absurd (omega (arith, few))
    Ends-build_boundary (suc fuel) idx b bound f few =
        Ends->>= (λ state. get_elem? b.states idx ≡ some state) (Visited n m idx b)
          (at_index b.states idx) _
          (Ends-at_index b.states idx (omega (arith, bound, f.states_size)))
          (Ends-enter_task fuel (build_boundary tasks atoms_map fuel) (Ends-build_boundary fuel) idx
            b f bound few)
