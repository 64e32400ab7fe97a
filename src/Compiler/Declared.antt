-- ===== src/Compiler/Declared.antt =====
-- The edges that tasks declare, and that the compiler has exactly these before it adds those of atoms.
use sys_tester.Base.{
  ℕ, zero, suc, List, [], ◌∷◌, ◌≡◌, ◌∙◌, ◌↔◌, ◌⊎◌, inl, inr, length, replicate, length-replicate,
  ◌∈◌,
}
use sys_tester.Graph.Topo.{ok}
use sys_tester.Model.{Task, TaskInfo, atom, ordered, unordered}
use sys_tester.Compiler.Sets.{extend_at}
use sys_tester.Compiler.Links.{explicit_edges, link_after, link_children, link_tasks}
use sys_tester.Compiler.Compile.{declared_edges}
use sys_tester.Compiler.Outcomes.{>>=-ok}
use sys_tester.Compiler.Adds.{row, Adds, Adds-ok, Adds-trans, extend_at-Adds}

-- `u` happens before `v` by the map.
abbrev pub Explicit : List (ℕ × List ℕ) → ℕ → ℕ → Type 0
Explicit [] u v = ⊥
Explicit ((from, destinations) ∷ rest) u v = ((u ≡ from) × (v ∈ destinations)) ⊎ Explicit rest u v

-- `v` is right behind `u` in the list that has `child` before `children`.
abbrev pub Next : ℕ → List ℕ → ℕ → ℕ → Type 0
Next child [] u v = ⊥
Next child (next ∷ children) u v = ((u ≡ child) × (v ∈ (next ∷ []))) ⊎ Next next children u v

abbrev pub InTask : Task → ℕ → ℕ → Type 0
InTask (atom a) u v = ⊥
InTask (unordered children) u v = ⊥
InTask (ordered []) u v = ⊥
InTask (ordered (child ∷ children)) u v = Next child children u v

abbrev pub InTasks : List Task → ℕ → ℕ → Type 0
InTasks [] u v = ⊥
InTasks (task ∷ tasks) u v = InTask task u v ⊎ InTasks tasks u v

-- The task `u` is declared to come before the task `v`: by `happens_before`, or as its neighbour in an
-- `Ordered` task.
abbrev pub Declared : TaskInfo → ℕ → ℕ → Type 0
Declared info u v = Explicit info.happens_before u v ⊎ InTasks info.tasks u v

explicit_edges-Adds :
    (before : List (ℕ × List ℕ)) (edges edges' : List (List ℕ))
    → explicit_edges before edges ≡ ok edges'
    → Adds (Explicit before) edges edges'
unfolding explicit_edges
explicit_edges-Adds [] edges edges' e = Adds-ok edges edges' e
explicit_edges-Adds ((from, destinations) ∷ rest) edges edges' e =
    let (mid, first, then) = >>=-ok (extend_at edges from destinations) _ edges' e in
    Adds-trans (extend_at-Adds edges mid from destinations first)
      (explicit_edges-Adds rest mid edges' then)

link_after-Adds :
    (child : ℕ) (children : List ℕ) (edges edges' : List (List ℕ))
    → link_after child children edges ≡ ok edges'
    → Adds (Next child children) edges edges'
unfolding link_after
link_after-Adds child [] edges edges' e = Adds-ok edges edges' e
link_after-Adds child (next ∷ children) edges edges' e =
    let (mid, first, then) = >>=-ok (extend_at edges child (next ∷ [])) _ edges' e in
    Adds-trans (extend_at-Adds edges mid child (next ∷ []) first)
      (link_after-Adds next children mid edges' then)

link_children-Adds :
    (task : Task) (edges edges' : List (List ℕ))
    → link_children task edges ≡ ok edges'
    → Adds (InTask task) edges edges'
unfolding link_children
link_children-Adds (atom a) edges edges' e = Adds-ok edges edges' e
link_children-Adds (unordered children) edges edges' e = Adds-ok edges edges' e
link_children-Adds (ordered []) edges edges' e = Adds-ok edges edges' e
link_children-Adds (ordered (child ∷ children)) edges edges' e =
    link_after-Adds child children edges edges' e

link_tasks-Adds :
    (tasks : List Task) (edges edges' : List (List ℕ))
    → link_tasks tasks edges ≡ ok edges'
    → Adds (InTasks tasks) edges edges'
unfolding link_tasks
link_tasks-Adds [] edges edges' e = Adds-ok edges edges' e
link_tasks-Adds (task ∷ tasks) edges edges' e =
    let (mid, first, then) = >>=-ok (link_children task edges) _ edges' e in
    Adds-trans (link_children-Adds task edges mid first) (link_tasks-Adds tasks mid edges' then)

pub row_empty : (n u v : ℕ) → ¬ (v ∈ row (replicate n []) u)
row_empty zero u v m = m
row_empty (suc n) zero v m = m
row_empty (suc n) (suc u) v m = row_empty n u v m

-- `declared_edges` has a set for each task, with exactly the declared successors.
pub declared_edges_lem :
    (info : TaskInfo) (edges : List (List ℕ))
    → declared_edges info ≡ ok edges
    → (length edges ≡ length info.tasks) × ((u v : ℕ) → (v ∈ row edges u) ↔ Declared info u v)
unfolding declared_edges
declared_edges_lem info edges e =
    let start : List (List ℕ) = replicate (length info.tasks) [] in
    let (mid, first, then) = >>=-ok (explicit_edges info.happens_before start) _ edges e in
    let both =
      Adds-trans (explicit_edges-Adds info.happens_before start mid first)
        (link_tasks-Adds info.tasks mid edges then) in
    (
      both.size ∙ length-replicate (length info.tasks) [],
      λ u v. (
        λ m. elim ((both.pairs u v).0 m) [
          | inl old ↦ absurd (row_empty (length info.tasks) u v old)
          | inr d ↦ d
        ],
        λ d. (both.pairs u v).1 (inr d),
      ),
    )
