-- ===== src/Compiler/Proper.antt =====
-- What `compile` returns is what the supervisor needs.
use sys_tester.Base.{
  some_injective, ℕ, ◌<◌, none, some, Option, List, ◌≡◌, sym, ap, ◌∙◌, inl, inr, arith, length,
  get_elem?, get_elem?-some, lt-length_of_get, ◌∈◌, subst, ltb, ltb→lt, Bool-cases,
}
use sys_tester.Graph.Walk.{listed}
use sys_tester.Graph.Packed.{VecGraph, full_edges, from_adjacency_lists}
use sys_tester.Graph.Packed.RoundTrip.{full_edges-from_adjacency_lists}
use sys_tester.Graph.Topo.{ok}
use sys_tester.Model.{u32_max, Atom, atom, TaskInfo, CompiledSetup}
use sys_tester.Runner.Request.{AtomReq, request}
use sys_tester.Runner.Schedule.{request_of}
use sys_tester.Runner.Schedule.Counts.{count, count_pos_of_mem, mem_of_count}
use sys_tester.Runner.Schedule.Inv.{after_of, before_of, IsSetup}
use sys_tester.Compiler.Sets.{at_index}
use sys_tester.Compiler.Flatten.{collect_atoms}
use sys_tester.Compiler.Compile.{compile}
use sys_tester.Compiler.Outcomes.{at_index-some}
use sys_tester.Compiler.Adds.{row}
use sys_tester.Compiler.Built.{IsClosed}
use sys_tester.Compiler.Numbers.{task_of_number}
use sys_tester.Compiler.Mirror.{reverse_edges_mirror}
use sys_tester.Compiler.Collect.{collect-get, length-collect}
use sys_tester.Compiler.Setup.{IsFlat, compile-IsFlat}

-- A compiled test that the supervisor can run: every atom of the tasks has a request, no compiled atom
-- comes after itself, and fewer than `u32::MAX` atoms come right before one.
pub record IsRunnable (info : TaskInfo) (setup : CompiledSetup) : Type 0 where
  pub answered :
      (t : ℕ) (a : Atom)
      → get_elem? info.tasks t ≡ some (atom a)
      → (r : AtomReq) × (request a.content ≡ some r)
  pub no_loop : (v : ℕ) → ¬ (v ∈ after_of setup v)
  pub few : (v : ℕ) → v < length setup.atoms → length (before_of setup v) < u32_max

module _ (info : TaskInfo) (setup : CompiledSetup) (run : IsRunnable info setup) (ids : List ℕ)
    (after before : List (List ℕ)) (flat : IsFlat info setup ids after before) where
  size : length setup.atoms ≡ length ids
  size = length-collect (at_index (collect_atoms info.tasks)) ids setup.atoms flat.contents

  before_size : length before ≡ length ids
  before_size = (reverse_edges_mirror after (length ids) before flat.reversing).0

  after_row : (v : ℕ) → after_of setup v ≡ row after v
  after_row v =
      ap (λ g. listed (full_edges g v)) flat.after_graph
      ∙ ap listed ((full_edges-from_adjacency_lists after).0 v)

  before_row : (v : ℕ) → before_of setup v ≡ row before v
  before_row v =
      ap (λ g. listed (full_edges g v)) flat.before_graph
      ∙ ap listed ((full_edges-from_adjacency_lists before).0 v)

  found :
      (g : VecGraph) (lists : List (List ℕ)) (v : ℕ)
      → g ≡ from_adjacency_lists lists
      → v < length lists
      → full_edges g v ≡ some (listed (full_edges g v))
  found g lists v same h =
      let (es, at) = get_elem?-some lists v h in
      let read = ap (λ x. full_edges x v) same ∙ (full_edges-from_adjacency_lists lists).0 v ∙ at in
      read ∙ ap (λ o. some (listed o)) (sym read)

  mirror : (u v : ℕ) → u < length ids → count v (after_of setup u) ≡ count u (before_of setup v)
  mirror u v h =
      ap (count v) (after_row u)
      ∙ (reverse_edges_mirror after (length ids) before flat.reversing).1 u v h
      ∙ ap (count u) (sym (before_row v))

  earlier : (p v : ℕ) → p ∈ before_of setup v → p < v
  earlier p v h = elim (Bool-cases (ltb p (length ids))) [
    | inl e ↦
        let bound = ltb→lt p (length ids) e in
        let pos : 0 < count v (after_of setup p) =
          omega (arith, mirror p v bound, count_pos_of_mem p (before_of setup v) h) in
        let edge = mem_of_count v (after_of setup p) pos in
        flat.lower p v (λ q. run.no_loop v (subst (λ x. v ∈ after_of setup x) q edge))
          (subst (λ l. v ∈ l) (after_row p) edge)
    | inr e ↦
        let none_there =
          (reverse_edges_mirror after (length ids) before flat.reversing).2 p v
            (ground (arith, e)) in
        absurd (
          omega (
            arith,
            none_there,
            ap (count p) (before_row v),
            count_pos_of_mem p (before_of setup v) h,
          ))
  ]

  answered : (v : ℕ) → v < length setup.atoms → (r : AtomReq) × (request_of setup v ≡ some r)
  unfolding request_of
  answered v h =
      let (a, at) = get_elem?-some setup.atoms v h in
      let (id, here, e) =
        collect-get (at_index (collect_atoms info.tasks)) ids setup.atoms v a flat.contents at in
      let read = at_index-some (collect_atoms info.tasks) id a e in
      let (t, b, n) =
        task_of_number 0 0 info.tasks id (lt-length_of_get (collect_atoms info.tasks) id a read) in
      let (r, asked) = run.answered t b n.task in
      let same : a ≡ b = some_injective a b (sym read ∙ n.content) in
      (
        r,
        ap (λ (o : Option Atom). elim o [ none ↦ none | some x ↦ request x.content ]) at
            ∙ ap (λ (x : Atom). request x.content) same
            ∙ asked,
      )

  proper : IsSetup setup
  proper = record {
    has_after =
        λ v h. found setup.after_graph after v flat.after_graph (omega (arith, h, flat.rows, size));
    has_before = λ v h.
        found setup.before_graph before v flat.before_graph (omega (arith, h, before_size, size));
    inside =
        λ u v _ h. omega (arith, size, (flat.inside u v (subst (λ l. v ∈ l) (after_row u) h)).1);
    mirror = λ u v h _. mirror u v (omega (arith, h, size));
    earlier = λ p v _ h. earlier p v h;
    answered = answered;
    few = run.few;
  }

-- Let every child of a task and every task of `happens_before` be a task, let every atom of the tasks
-- have a request, and let no atom of the compiled setup come after itself and fewer than
-- `u32::MAX` atoms right before one. Then the setup that `compile` returns is a proper one for the
-- supervisor: its two graphs have all atoms and mirror each other, and the atoms stand in an order
-- in which every edge leads forward.
pub compile-IsSetup :
    (info : TaskInfo) (setup : CompiledSetup)
    → IsClosed info
    → compile info ≡ ok setup
    → IsRunnable info setup
    → IsSetup setup
compile-IsSetup info setup closed e run =
    let (ids, after, before, flat) = compile-IsFlat info setup closed e in
    proper info setup run ids after before flat
