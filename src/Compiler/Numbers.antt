-- ===== src/Compiler/Numbers.antt =====
-- The numbers of the atoms: `number_atoms`, `atom_tasks` and `collect_atoms` agree.
use sys_tester.Base.{
  ℕ, zero, suc, ◌+◌, ◌<◌, some, List, [], ◌∷◌, ◌≡◌, refl, ap, ◌∙◌, arith, length, get_elem?,
}
use sys_tester.Model.{Atom, Task, atom, ordered, unordered}
use sys_tester.Compiler.Links.{atom_tasks}
use sys_tester.Compiler.Flatten.{number_atoms, collect_atoms}

-- The task `t` is the atom `a` and has the number `k`; the numbers begin at `c`, the tasks at `i`.
pub record IsNumbered (c i : ℕ) (tasks : List Task) (t k : ℕ) (a : Atom) : Type 0 where
  pub task : get_elem? tasks t ≡ some (atom a)
  pub number : get_elem? (number_atoms c tasks) t ≡ some (c + k)
  pub back : get_elem? (atom_tasks i tasks) k ≡ some (i + t)
  pub content : get_elem? (collect_atoms tasks) k ≡ some a

shift_group :
    (c i : ℕ) (tasks : List Task) (t k : ℕ) (a : Atom)
    → IsNumbered c (suc i) tasks t k a
    → get_elem? (atom_tasks (suc i) tasks) k ≡ some (i + suc t)
shift_group c i tasks t k a n = n.back ∙ ap some (omega arith)

step_atom :
    (c i : ℕ) (b : Atom) (tasks : List Task) (t k : ℕ) (a : Atom)
    → IsNumbered (suc c) (suc i) tasks t k a
    → IsNumbered c i (atom b ∷ tasks) (suc t) (suc k) a
unfolding number_atoms atom_tasks collect_atoms
step_atom c i b tasks t k a n = record {
  task = n.task;
  number = n.number ∙ ap some (omega arith);
  back = n.back ∙ ap some (omega arith);
  content = n.content;
}

step_ordered :
    (c i : ℕ) (children : List ℕ) (tasks : List Task) (t k : ℕ) (a : Atom)
    → IsNumbered c (suc i) tasks t k a
    → IsNumbered c i (ordered children ∷ tasks) (suc t) k a
unfolding number_atoms atom_tasks collect_atoms
step_ordered c i children tasks t k a n = record {
  task = n.task;
  number = n.number;
  back = shift_group c i tasks t k a n;
  content = n.content;
}

step_unordered :
    (c i : ℕ) (children : List ℕ) (tasks : List Task) (t k : ℕ) (a : Atom)
    → IsNumbered c (suc i) tasks t k a
    → IsNumbered c i (unordered children ∷ tasks) (suc t) k a
unfolding number_atoms atom_tasks collect_atoms
step_unordered c i children tasks t k a n = record {
  task = n.task;
  number = n.number;
  back = shift_group c i tasks t k a n;
  content = n.content;
}

first_atom : (c i : ℕ) (a : Atom) (tasks : List Task) → IsNumbered c i (atom a ∷ tasks) 0 0 a
unfolding number_atoms atom_tasks collect_atoms
first_atom c i a tasks = record {
  task = refl;
  number = ap some (omega arith);
  back = ap some (omega arith);
  content = refl;
}

-- Every atom among the tasks has a number.
pub number_of_task :
    (c i : ℕ) (tasks : List Task) (t : ℕ) (a : Atom)
    → get_elem? tasks t ≡ some (atom a)
    → (k : ℕ) × IsNumbered c i tasks t k a
number_of_task c i [] t a h = absurd cc
number_of_task c i (atom b ∷ tasks) zero a h =
    let same : b ≡ a = cc in (0, rw same (first_atom c i a tasks))
number_of_task c i (atom b ∷ tasks) (suc t) a h =
    let (k, n) = number_of_task (suc c) (suc i) tasks t a h in
    (suc k, step_atom c i b tasks t k a n)
number_of_task c i (ordered cs ∷ tasks) zero a h = absurd cc
number_of_task c i (ordered cs ∷ tasks) (suc t) a h =
    let (k, n) = number_of_task c (suc i) tasks t a h in (k, step_ordered c i cs tasks t k a n)
number_of_task c i (unordered cs ∷ tasks) zero a h = absurd cc
number_of_task c i (unordered cs ∷ tasks) (suc t) a h =
    let (k, n) = number_of_task c (suc i) tasks t a h in (k, step_unordered c i cs tasks t k a n)

-- Every number is that of an atom.
pub task_of_number :
    (c i : ℕ) (tasks : List Task) (k : ℕ)
    → k < length (collect_atoms tasks)
    → (t : ℕ) × (a : Atom) × IsNumbered c i tasks t k a
unfolding collect_atoms
task_of_number c i [] k h = elim h [ ]
task_of_number c i (atom a ∷ tasks) zero h = (0, a, first_atom c i a tasks)
task_of_number c i (atom b ∷ tasks) (suc k) h =
    let (t, a, n) = task_of_number (suc c) (suc i) tasks k (omega arith) in
    (suc t, a, step_atom c i b tasks t k a n)
task_of_number c i (ordered cs ∷ tasks) k h =
    let (t, a, n) = task_of_number c (suc i) tasks k h in
    (suc t, a, step_ordered c i cs tasks t k a n)
task_of_number c i (unordered cs ∷ tasks) k h =
    let (t, a, n) = task_of_number c (suc i) tasks k h in
    (suc t, a, step_unordered c i cs tasks t k a n)

pub length-atom_tasks :
    (i : ℕ) (tasks : List Task) → length (atom_tasks i tasks) ≡ length (collect_atoms tasks)
unfolding atom_tasks collect_atoms
length-atom_tasks i [] = refl
length-atom_tasks i (atom a ∷ tasks) = ap suc (length-atom_tasks (suc i) tasks)
length-atom_tasks i (ordered cs ∷ tasks) = length-atom_tasks (suc i) tasks
length-atom_tasks i (unordered cs ∷ tasks) = length-atom_tasks (suc i) tasks
