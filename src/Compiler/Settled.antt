-- ===== src/Compiler/Settled.antt =====
-- `build_boundary` keeps the boundaries that it has made, and makes each as described.
use sys_tester.Base.{
  ℕ, zero, suc, ◌<◌, Bool, true, false, none, some, some_injective, List, [], ◌∷◌, ◌++◌, ◌≡◌, ◌≢◌,
  refl, sym, ap, ◌∙◌, inl, inr, arith, get_elem?, length, length-set, length-replicate, replicate,
  lt-length_of_get, ◌∈◌, subst, Bool-cases, ◌==◌, ==→eq, ==→ne, get_elem?-set_self,
  get_elem?-set_ne, if◌then◌else◌, range, leb, drop, mem-range_from,
}
use mathlib.Core.List.{reverse}
use sys_tester.Graph.Topo.{ok, err, panic}
use sys_tester.Model.{Task, TaskInfo, atom, ordered, unordered}
use sys_tester.Compiler.Sets.{at_index}
use sys_tester.Compiler.Flatten.{number_atoms, collect_atoms}
use sys_tester.Compiler.Compile.{compile_boundaries}
use sys_tester.Compiler.Boundary.{
  Boundary, State, not_seen, on_stack, done, BoundaryBuild, Visit, task_boundary, containment_cycle,
  push, pop, enter_task, build_boundary, build_boundaries, new_build, unordered_children,
  ordered_children,
}
use sys_tester.Compiler.Yields.{Yields, Yields->>=, Yields-map, Yields-ok, Yields-at_index}
use sys_tester.Compiler.Described.{
  Known, KeepsKnown, ByTask, ByTask-keeps, Sound, Grown, Seen, unordered_children-Gathered,
  ordered_children-Chained,
}

apart :
    (states : List State) (idx t : ℕ) (s s' : State)
    → get_elem? states idx ≡ some s
    → get_elem? states t ≡ some s'
    → s ≢ s'
    → idx ≢ t
apart states idx t s s' h h' ne q = ne (some_injective s s' (sym h ∙ ap (get_elem? states) q ∙ h'))

not_seen≢done : not_seen ≢ done
not_seen≢done e = absurd (cc e)

not_seen≢on_stack : not_seen ≢ on_stack
not_seen≢on_stack e = absurd (cc e)

on_stack≢done : on_stack ≢ done
on_stack≢done e = absurd (cc e)

module _ (tasks : List Task) (atoms_map : List ℕ) where
  abbrev Described : ℕ → Task → BoundaryBuild → Boundary × BoundaryBuild → Type 0
  Described idx task b r =
      Sound tasks atoms_map r.1 × Grown tasks atoms_map b r.1 × ByTask atoms_map r.1 idx task r.0

  task_boundary-Described :
      (visit : Visit)
      → ((c : ℕ) (b : BoundaryBuild)
          → Sound tasks atoms_map b
          → Yields (Seen tasks atoms_map c b) (visit c b))
      → (idx : ℕ) (task : Task) (b : BoundaryBuild) → Sound tasks atoms_map b
      → Yields (Described idx task b) (task_boundary tasks atoms_map visit idx task b)
  unfolding task_boundary
  task_boundary-Described visit visits idx (atom a) b s =
      Yields->>= (λ id. get_elem? atoms_map idx ≡ some id) (Described idx (atom a) b)
        (at_index atoms_map idx) _ (Yields-at_index atoms_map idx)
        (λ id at. (s, (λ c y k. k, λ t h. h), (id, at, refl)))
  task_boundary-Described visit visits idx (unordered children) b s =
      Yields-map _ (Described idx (unordered children) b)
        (unordered_children visit children [] [] b)
        (unordered_children-Gathered tasks atoms_map visit visits children [] [] b s) (λ r g. g)
  task_boundary-Described visit visits idx (ordered children) b s =
      Yields-map _ (Described idx (ordered children) b) (ordered_children visit children [] none b)
        (ordered_children-Chained tasks atoms_map visit visits children [] none b s)
        (λ r g.
          let (es, xs, chained, first, last) = g.2 in
          (g.0, g.1, (es, xs, chained, λ i. record { entries = first i; exits = last i })))

  module _ (idx : ℕ) (b : BoundaryBuild) (s : Sound tasks atoms_map b)
      (fresh : get_elem? b.states idx ≡ some not_seen) where
    pushed : BoundaryBuild
    pushed = push tasks atoms_map idx b

    here : get_elem? pushed.states idx ≡ some on_stack
    unfolding push pushed
    here = get_elem?-set_self b.states idx on_stack (lt-length_of_get b.states idx not_seen fresh)

    Grown-pushed : Grown tasks atoms_map b pushed
    unfolding push pushed
    Grown-pushed = (
      λ c y k. (
        get_elem?-set_ne b.states idx c on_stack
              (apart b.states idx c not_seen done fresh k.0 not_seen≢done)
            ∙ k.0,
        k.1,
      ),
      λ t h.
          get_elem?-set_ne b.states idx t on_stack
            (apart b.states idx t not_seen on_stack fresh h not_seen≢on_stack)
          ∙ h,
    )

    Sound-pushed : Sound tasks atoms_map pushed
    unfolding push pushed
    Sound-pushed = (same_size, said)
      where
        same_size : length pushed.boundaries ≡ length pushed.states
        same_size = s.0 ∙ sym (length-set b.states idx on_stack)

        before :
            (t : ℕ)
            → idx ≢ t
            → get_elem? pushed.states t ≡ some done
            → get_elem? b.states t ≡ some done
        before t ne h = sym (get_elem?-set_ne b.states idx t on_stack ne) ∙ h

        unchanged : (t : ℕ) → get_elem? pushed.boundaries t ≡ get_elem? b.boundaries t
        unchanged t = refl

        said :
            (t : ℕ)
            → get_elem? pushed.states t ≡ some done
            → (x : Boundary) × (task : Task) × (get_elem? pushed.boundaries t ≡ some (some x))
              × (get_elem? tasks t ≡ some task)
              × ByTask atoms_map pushed t task x
        said t h =
            let ne = apart pushed.states idx t on_stack done here h on_stack≢done in
            let (x, task, at, is, d) = s.1 t (before t ne h) in
            (
              x,
              task,
              unchanged t ∙ at,
              is,
              ByTask-keeps atoms_map b pushed t task x Grown-pushed.0 d,
            )

    module _ (task : Task) (is : get_elem? tasks idx ≡ some task) (r : Boundary × BoundaryBuild)
        (d : Described idx task pushed r) where
      popped : BoundaryBuild
      popped = pop tasks atoms_map idx r.0 r.1

      top : get_elem? r.1.states idx ≡ some on_stack
      top = d.1.1 idx here

      KeepsKnown-popped : KeepsKnown r.1 popped
      unfolding pop popped
      KeepsKnown-popped c y k =
          let ne = apart r.1.states idx c on_stack done top k.0 on_stack≢done in
          (
            get_elem?-set_ne r.1.states idx c done ne ∙ k.0,
            get_elem?-set_ne r.1.boundaries idx c (some r.0) ne ∙ k.1,
          )

      Known-popped : Known popped idx r.0
      unfolding pop popped
      Known-popped =
          let bound = lt-length_of_get r.1.states idx on_stack top in
          (
            get_elem?-set_self r.1.states idx done bound,
            get_elem?-set_self r.1.boundaries idx (some r.0)
                (subst (λ n. idx < n) (sym d.0.0) bound),
          )

      Grown-popped : Grown tasks atoms_map b popped
      unfolding pop popped
      Grown-popped = (
        λ c y k. KeepsKnown-popped c y (d.1.0 c y (Grown-pushed.0 c y k)),
        λ t h.
            get_elem?-set_ne r.1.states idx t done
              (apart b.states idx t not_seen on_stack fresh h not_seen≢on_stack)
            ∙ d.1.1 t (Grown-pushed.1 t h),
      )

      Sound-popped : Sound tasks atoms_map popped
      unfolding pop popped
      Sound-popped = (same_size, said)
        where
          same_size : length popped.boundaries ≡ length popped.states
          same_size =
              length-set r.1.boundaries idx (some r.0)
              ∙ d.0.0
              ∙ sym (length-set r.1.states idx done)

          before :
              (t : ℕ)
              → idx ≢ t
              → get_elem? popped.states t ≡ some done
              → get_elem? r.1.states t ≡ some done
          before t ne h = sym (get_elem?-set_ne r.1.states idx t done ne) ∙ h

          by_task :
              (x : Boundary) (t : ℕ) (u : Task)
              → ByTask atoms_map r.1 t u x
              → ByTask atoms_map popped t u x
          by_task x t u = ByTask-keeps atoms_map r.1 popped t u x KeepsKnown-popped

          Said : ℕ → Type 0
          Said t =
              (x : Boundary) × (task : Task) × (get_elem? popped.boundaries t ≡ some (some x))
              × (get_elem? tasks t ≡ some task)
              × ByTask atoms_map popped t task x

          said : (t : ℕ) → get_elem? popped.states t ≡ some done → Said t
          said t h = elim (Bool-cases (idx == t)) [
            | inl e ↦
                subst Said (==→eq idx t e) (r.0, task, Known-popped.1, is, by_task r.0 idx task d.2)
            | inr e ↦
                let old = before t (==→ne idx t e) h in
                let (x, u, at, is', d') = d.0.1 t old in
                (x, u, (KeepsKnown-popped t x (old, at)).1, is', by_task x t u d')
          ]

  Seen-enter_task :
      (visit : Visit)
      → ((c : ℕ) (b : BoundaryBuild)
          → Sound tasks atoms_map b
          → Yields (Seen tasks atoms_map c b) (visit c b))
      → (idx : ℕ) (b : BoundaryBuild) → Sound tasks atoms_map b
      → (state : State) → get_elem? b.states idx ≡ some state
      → Yields (Seen tasks atoms_map idx b) (enter_task tasks atoms_map visit idx state b)
  unfolding enter_task containment_cycle pushed popped
  Seen-enter_task visit visits idx b s on_stack at = cycle
    where
      either_way :
          (c : Bool) (xs : List ℕ)
          → Yields (Seen tasks atoms_map idx b) (if c then err xs else panic)
      either_way true xs = tt
      either_way false xs = tt

      cycle : Yields (Seen tasks atoms_map idx b) (containment_cycle tasks atoms_map idx b)
      cycle =
          Yields->>= (λ x. get_elem? b.stack_positions idx ≡ some x) (Seen tasks atoms_map idx b)
            (at_index b.stack_positions idx) _ (Yields-at_index b.stack_positions idx)
            (λ start _.
              either_way (leb start (length b.stack)) (drop start (reverse b.stack) ++ idx ∷ []))
  Seen-enter_task visit visits idx b s done at =
      Yields->>= (λ o. get_elem? b.boundaries idx ≡ some o) (Seen tasks atoms_map idx b)
        (at_index b.boundaries idx) _ (Yields-at_index b.boundaries idx)
        (elim [ none ↦ λ _. tt | some x ↦ λ found. (s, (λ c y k. k, λ t h. h), (at, found)) ])
  Seen-enter_task visit visits idx b s not_seen at =
      Yields->>= (λ task. get_elem? tasks idx ≡ some task) (Seen tasks atoms_map idx b)
        (at_index tasks idx) _ (Yields-at_index tasks idx)
        (λ task is.
          Yields->>= (Described idx task (pushed idx b s at)) (Seen tasks atoms_map idx b)
            (task_boundary tasks atoms_map visit idx task (pushed idx b s at)) _
            (task_boundary-Described visit visits idx task (pushed idx b s at)
              (Sound-pushed idx b s at))
            (left task is))
    where
      left :
          (task : Task) (is : get_elem? tasks idx ≡ some task) (r : Boundary × BoundaryBuild)
          → Described idx task (pushed idx b s at) r
          → Seen tasks atoms_map idx b (r.0, pop tasks atoms_map idx r.0 r.1)
      left task is r d = (
        Sound-popped idx b s at task is r d,
        Grown-popped idx b s at task is r d,
        Known-popped idx b s at task is r d,
      )

  Seen-build_boundary :
      (fuel idx : ℕ) (b : BoundaryBuild)
      → Sound tasks atoms_map b
      → Yields (Seen tasks atoms_map idx b) (build_boundary tasks atoms_map fuel idx b)
  unfolding build_boundary
  Seen-build_boundary zero idx b s = tt
  Seen-build_boundary (suc fuel) idx b s =
      Yields->>= (λ state. get_elem? b.states idx ≡ some state) (Seen tasks atoms_map idx b)
        (at_index b.states idx) _ (Yields-at_index b.states idx)
        (λ state at.
          Seen-enter_task (build_boundary tasks atoms_map fuel) (Seen-build_boundary fuel) idx b s
            state at)

  -- What the loop over the tasks leaves behind.
  abbrev SeenAll : List ℕ → BoundaryBuild → BoundaryBuild → Type 0
  SeenAll idxs b b' =
      Sound tasks atoms_map b'
      × KeepsKnown b b'
      × ((t : ℕ) → t ∈ idxs → (y : Boundary) × Known b' t y)

  build_boundaries-SeenAll :
      (idxs : List ℕ) (b : BoundaryBuild)
      → Sound tasks atoms_map b
      → Yields (SeenAll idxs b) (build_boundaries tasks atoms_map idxs b)
  unfolding build_boundaries
  build_boundaries-SeenAll [] b s = (s, λ c y k. k, λ t m. absurd m)
  build_boundaries-SeenAll (idx ∷ idxs) b s =
      Yields->>= (Seen tasks atoms_map idx b) (SeenAll (idx ∷ idxs) b)
        (build_boundary tasks atoms_map (suc (length tasks)) idx b) _
        (Seen-build_boundary (suc (length tasks)) idx b s)
        (λ r v.
          Yields-map (SeenAll idxs r.1) (SeenAll (idx ∷ idxs) b) _
            (build_boundaries-SeenAll idxs r.1 v.0)
            (λ b' w. (
              w.0,
              λ c y k. w.1 c y (v.1.0 c y k),
              λ t m. elim m [
                | inl q ↦ subst (λ z. (y : Boundary) × Known b' z y) (sym q) (r.0, w.1 idx r.0 v.2)
                | inr m' ↦ w.2 t m'
              ],
            )))

no_done : (n t : ℕ) → ¬ (get_elem? (replicate n not_seen) t ≡ some done)
no_done zero t h = absurd cc
no_done (suc n) zero h = absurd cc
no_done (suc n) (suc t) h = no_done n t h

Sound-new_build :
    (tasks : List Task) (atoms_map : List ℕ) (n m : ℕ) → Sound tasks atoms_map (new_build n m)
unfolding new_build
Sound-new_build tasks atoms_map n m =
    (length-replicate n none ∙ sym (length-replicate n not_seen), λ t h. absurd (no_done n t h))

-- Each task has a boundary in the end, made from those of its children.
pub compile_boundaries-ByTask :
    (info : TaskInfo) (b : BoundaryBuild)
    → compile_boundaries info ≡ ok b
    → (t : ℕ) (task : Task) → get_elem? info.tasks t ≡ some task
    → (x : Boundary) × (get_elem? b.boundaries t ≡ some (some x))
      × ByTask (number_atoms 0 info.tasks) b t task x
unfolding compile_boundaries
compile_boundaries-ByTask info b e t task at =
    let n = length info.tasks in
    let atoms_map = number_atoms 0 info.tasks in
    let start = new_build n (length (collect_atoms info.tasks)) in
    let (sound, _, all) =
      Yields-ok (SeenAll info.tasks atoms_map (range n) start)
        (build_boundaries info.tasks atoms_map (range n) start) b
        (build_boundaries-SeenAll info.tasks atoms_map (range n) start
          (Sound-new_build info.tasks atoms_map n (length (collect_atoms info.tasks))))
        e in
    let (y, known) = all t (
      (mem-range_from t 0 n).1
        (omega arith, omega (arith, lt-length_of_get info.tasks t task at))) in
    let (x, task', found, is, d) = sound.1 t known.0 in
    let same = some_injective task' task (sym is ∙ at) in
    (x, found, subst (λ u. ByTask atoms_map b t u x) same d)
