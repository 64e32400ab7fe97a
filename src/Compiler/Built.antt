-- ===== src/Compiler/Built.antt =====
-- The loop over all tasks: every task has a boundary in the end.
use sys_tester.Base.{
  All-get, All-get, ℕ, suc, ◌≤◌, ◌<◌, ◌+◌, none, some, List, [], ◌∷◌, ◌≡◌, refl, ap, ◌∙◌, inl, inr,
  arith, length, get_elem?, length-replicate, eq_of_get-replicate, ◌∈◌, All, All-of_mem, range,
  mem-range_from, lt-length_of_get,
}
use sys_tester.Model.{Task, TaskInfo, Atom, atom}
use sys_tester.Compiler.Boundary.{
  Boundary, State, not_seen, on_stack, done, BoundaryBuild, build_boundary, build_boundaries,
  new_build,
}
use sys_tester.Compiler.Flatten.{number_atoms, collect_atoms}
use sys_tester.Compiler.Compile.{compile_boundaries}
use sys_tester.Compiler.Declared.{row_empty}
use sys_tester.Compiler.Ends.{Ends, Ends->>=, Within, IsBelow}
use sys_tester.Compiler.Build.{unseen, IsBoundary, Fine, Keeps, Keeps-refl, Keeps-trans}
use sys_tester.Compiler.Loops.{Ends-map, children_of, Visited}
use sys_tester.Compiler.Visits.{Ends-build_boundary}
use sys_tester.Compiler.Numbers.{number_of_task}

unseen-le : (states : List State) → unseen states ≤ length states
unseen-le [] = omega arith
unseen-le (not_seen ∷ states) = omega (arith, unseen-le states)
unseen-le (on_stack ∷ states) = omega (arith, unseen-le states)
unseen-le (done ∷ states) = omega (arith, unseen-le states)

pub new_build-Fine : (n m : ℕ) → Fine n m (new_build n m)
unfolding new_build
new_build-Fine n m = record {
  states_size = length-replicate n not_seen;
  positions_size = length-replicate n 0;
  boundaries_size = length-replicate n none;
  edges = record { size = length-replicate m []; inside = λ u v h. absurd (row_empty m u v h) };
  placed = tt;
  once = tt;
  members = λ t. (λ h. absurd h, λ h. absurd (cc (eq_of_get-replicate n t not_seen on_stack h)));
  finished = λ t h. absurd (cc (eq_of_get-replicate n t not_seen done h));
}

module _ (n m : ℕ) (tasks : List Task) (atoms_map : List ℕ) (size : length tasks ≡ n)
    (below : (t : ℕ) (task : Task) → get_elem? tasks t ≡ some task → IsBelow n (children_of task))
    (numbers : (t : ℕ) (a : Atom)
      → get_elem? tasks t ≡ some (atom a)
      → (k : ℕ) × (get_elem? atoms_map t ≡ some k) × (k < m)) where
  -- The tasks of the list are done.
  pub record Built (xs : List ℕ) (b b' : BoundaryBuild) : Type 0 where
    pub fine : Fine n m b'
    pub keeps : Keeps b b'
    pub all : (t : ℕ) → t ∈ xs → get_elem? b'.states t ≡ some done

  Ends-build_boundaries :
      (xs : List ℕ) (b : BoundaryBuild)
      → IsBelow n xs
      → Fine n m b
      → Ends (Built xs b) (build_boundaries tasks atoms_map xs b)
  unfolding build_boundaries
  Ends-build_boundaries [] b inside f = record {
    fine = f;
    keeps = Keeps-refl b;
    all = λ t h. absurd h;
  }
  Ends-build_boundaries (idx ∷ xs) b inside f =
      Ends->>= (Visited n m idx b) (Built (idx ∷ xs) b)
        (build_boundary tasks atoms_map (suc (length tasks)) idx b) _
        (Ends-build_boundary n m tasks atoms_map size below numbers (suc (length tasks)) idx b
          inside.0 f (omega (arith, unseen-le b.states, f.states_size, size)))
        (λ r v.
          let l = v.looped in
          Ends-map (Built xs r.1) (Built (idx ∷ xs) b) _
            (Ends-build_boundaries xs r.1 inside.1 l.fine)
            (λ b' w. record {
              fine = w.fine;
              keeps = Keeps-trans b r.1 b' l.keeps w.keeps;
              all = λ t h. elim h [
                | inl e ↦ ap (get_elem? b'.states) e ∙ w.keeps.still idx v.finished
                | inr h' ↦ w.all t h'
              ];
            }))

-- Every child of a task is a task, and so is every task of `happens_before`.
pub record IsClosed (info : TaskInfo) : Type 0 where
  pub children : All (λ task. IsBelow (length info.tasks) (children_of task)) info.tasks
  pub before :
      All
        (λ (p : ℕ × List ℕ). (p.0 < length info.tasks) × IsBelow (length info.tasks) p.1)
        info.happens_before

-- What the build of a test has in the end.
pub record IsBuild (info : TaskInfo) (b : BoundaryBuild) : Type 0 where
  pub edges :
      Within (length (collect_atoms info.tasks)) (length (collect_atoms info.tasks)) b.atom_edges
  pub boundaries :
      (t : ℕ)
      → t < length info.tasks
      → (x : Boundary) × (get_elem? b.boundaries t ≡ some (some x))
        × IsBoundary (length info.tasks) (length (collect_atoms info.tasks)) x

pub Ends-compile_boundaries :
    (info : TaskInfo) → IsClosed info → Ends (IsBuild info) (compile_boundaries info)
unfolding compile_boundaries
Ends-compile_boundaries info closed =
    Ends-map (Built n m info.tasks _ refl below numbers (range n) (new_build n m)) (IsBuild info) _
      (Ends-build_boundaries n m info.tasks (number_atoms 0 info.tasks) refl below numbers (range n)
        (new_build n m)
        (All-of_mem (λ t. t < n) (range n) (λ t h. omega (arith, (mem-range_from t 0 n).0 h)))
        (new_build-Fine n m))
      (λ b w. record {
        edges = w.fine.edges;
        boundaries = λ t h.
            let low : 0 ≤ t = omega arith in
            let high : t < 0 + n = omega (arith, h) in
            w.fine.finished t (w.all t ((mem-range_from t 0 n).1 (low, high)));
      })
  where
    n : ℕ
    n = length info.tasks

    m : ℕ
    m = length (collect_atoms info.tasks)

    below :
        (t : ℕ) (task : Task)
        → get_elem? info.tasks t ≡ some task
        → IsBelow (length info.tasks) (children_of task)
    below t task at =
        All-get (λ task. IsBelow (length info.tasks) (children_of task)) info.tasks t task
          closed.children at

    numbers :
        (t : ℕ) (a : Atom)
        → get_elem? info.tasks t ≡ some (atom a)
        → (k : ℕ) × (get_elem? (number_atoms 0 info.tasks) t ≡ some k)
          × (k < length (collect_atoms info.tasks))
    numbers t a at =
        let (k, num) = number_of_task 0 0 info.tasks t a at in
        (
          0 + k,
          num.number,
          omega (arith, lt-length_of_get (collect_atoms info.tasks) k a num.content),
        )
