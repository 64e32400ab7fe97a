-- ===== src/Compiler/Walked.antt =====
-- The walk of the contraction: from a stack it marks every task that it reaches through tasks without
-- atoms, and links the exits with the entries of those that have some.
use sys_tester.Base.{
  ℕ, zero, suc, Bool, true, false, none, some, some_injective, List, [], ◌∷◌, ◌++◌, ◌≡◌, sym, ap,
  ◌∙◌, ◌⊎◌, inl, inr, get_elem?, set, replicate, lt-length_of_get, ◌∈◌, mem-append, subst,
  Bool-cases, ◌==◌, ==→eq, ==→ne, get_elem?-set_self, get_elem?-set_ne,
}
use sys_tester.Graph.Walk.{listed}
use sys_tester.Graph.Topo.{ok}
use sys_tester.Compiler.Sets.{at_index, connect}
use sys_tester.Compiler.Boundary.{Boundary, BoundaryBuild, is_empty}
use sys_tester.Compiler.Links.{boundary_of, follow}
use sys_tester.Compiler.Adds.{row}
use sys_tester.Compiler.Yields.{
  Yields, Yields->>=, Yields-map, Yields-by, Yields-at_index, Yields-of, connect-Adds,
}

-- The mark of a task after that of `to` is set.
set_cases :
    (seen : List Bool) (to t : ℕ)
    → get_elem? seen to ≡ some false
    → get_elem? (set seen to true) t ≡ some true
    → (t ≡ to) ⊎ (get_elem? seen t ≡ some true)
set_cases seen to t at h = elim (Bool-cases (to == t)) [
  | inl e ↦ inl (sym (==→eq to t e))
  | inr e ↦ inr (sym (get_elem?-set_ne seen to t true (==→ne to t e)) ∙ h)
]

set_here :
    (seen : List Bool) (to : ℕ)
    → get_elem? seen to ≡ some false
    → get_elem? (set seen to true) to ≡ some true
set_here seen to at = get_elem?-set_self seen to true (lt-length_of_get seen to false at)

set_keeps :
    (seen : List Bool) (to t : ℕ)
    → get_elem? seen to ≡ some false
    → get_elem? seen t ≡ some true
    → get_elem? (set seen to true) t ≡ some true
set_keeps seen to t at h = elim (Bool-cases (to == t)) [
  | inl e ↦ ap (get_elem? (set seen to true)) (sym (==→eq to t e)) ∙ set_here seen to at
  | inr e ↦ get_elem?-set_ne seen to t true (==→ne to t e) ∙ h
]

pub unmarked : (n t : ℕ) → ¬ (get_elem? (replicate n false) t ≡ some true)
unmarked zero t h = absurd cc
unmarked (suc n) zero h = absurd cc
unmarked (suc n) (suc t) h = unmarked n t h

no_mem : (xs : List ℕ) (b : ℕ) → is_empty xs ≡ true → ¬ (b ∈ xs)
no_mem [] b e m = m
no_mem (x ∷ xs) b e m = absurd cc

abbrev pub Grows : List (List ℕ) → List (List ℕ) → Type 0
Grows edges edges' = (u v : ℕ) → v ∈ row edges u → v ∈ row edges' u

-- Every exit has an edge to every entry.
abbrev pub Linked : List ℕ → List ℕ → List (List ℕ) → Type 0
Linked exits entries edges = (a b : ℕ) → a ∈ exits → b ∈ entries → b ∈ row edges a

module _ (build : BoundaryBuild) where
  abbrev pub HasBoundary : ℕ → Boundary → Type 0
  HasBoundary t x = get_elem? build.boundaries t ≡ some (some x)

  pub one_boundary : (t : ℕ) (x y : Boundary) → HasBoundary t x → HasBoundary t y → x ≡ y
  one_boundary t x y h h' = some_injective x y (some_injective (some x) (some y) (sym h ∙ h'))

  -- From `u` the task `v` is reached along edges, with tasks without atoms between.
  pub data Through (edges : ℕ → ℕ → Type 0) : ℕ → ℕ → Type 0 where
    straight : (u v : ℕ) → edges u v → Through edges u v
    across :
        (u w v : ℕ) (x : Boundary)
        → edges u w
        → HasBoundary w x
        → is_empty x.entries ≡ true
        → Through edges w v
        → Through edges u v

  module _ (task_edges : List (List ℕ)) where
    pub Yields-boundary_of : (t : ℕ) → Yields (HasBoundary t) (boundary_of build task_edges t)
    unfolding boundary_of
    Yields-boundary_of t =
        Yields->>= (λ o. get_elem? build.boundaries t ≡ some o) (HasBoundary t)
          (at_index build.boundaries t) _ (Yields-at_index build.boundaries t)
          (elim [ none ↦ λ at. tt | some x ↦ λ at. at ])

    -- What holds between the steps of the walk.
    pub record Inv (exits : List ℕ) (seen : List Bool) (stack : List ℕ) (edges : List (List ℕ))
        : Type 0 where
      pub pass :
          (t w : ℕ) (x : Boundary)
          → get_elem? seen t ≡ some true
          → HasBoundary t x
          → is_empty x.entries ≡ true
          → w ∈ row task_edges t
          → (w ∈ stack) ⊎ (get_elem? seen w ≡ some true)
      pub link :
          (t : ℕ) (x : Boundary)
          → get_elem? seen t ≡ some true
          → HasBoundary t x
          → Linked exits x.entries edges

    -- What the walk ends with.
    pub record Followed (exits : List ℕ) (seen : List Bool) (stack : List ℕ)
        (edges edges' : List (List ℕ)) : Type 0 where
      pub marks : List Bool
      pub inv : Inv exits marks [] edges'
      pub kept : (t : ℕ) → get_elem? seen t ≡ some true → get_elem? marks t ≡ some true
      pub taken : (t : ℕ) → t ∈ stack → get_elem? marks t ≡ some true
      pub grows : Grows edges edges'

    -- A step that marks one more task and puts others on the stack.
    marked :
        (exits : List ℕ) (seen : List Bool) (to : ℕ) (more stack : List ℕ) (x : Boundary)
        (edges edges' : List (List ℕ))
        → Inv exits seen (to ∷ stack) edges
        → get_elem? seen to ≡ some false
        → HasBoundary to x
        → (is_empty x.entries ≡ true → (w : ℕ) → w ∈ row task_edges to → w ∈ more)
        → Linked exits x.entries edges'
        → Grows edges edges'
        → Inv exits (set seen to true) (more ++ stack) edges'
    marked exits seen to more stack x edges edges' i at has next linked grows = record {
      pass = pass;
      link = link;
    }
      where
        on :
            (w : ℕ)
            → (w ∈ (to ∷ stack)) ⊎ (get_elem? seen w ≡ some true)
            → (w ∈ (more ++ stack)) ⊎ (get_elem? (set seen to true) w ≡ some true)
        on w (inl (inl q)) = inr (ap (get_elem? (set seen to true)) q ∙ set_here seen to at)
        on w (inl (inr m)) = inl ((mem-append w more stack).1 (inr m))
        on w (inr h) = inr (set_keeps seen to w at h)

        pass :
            (t w : ℕ) (y : Boundary)
            → get_elem? (set seen to true) t ≡ some true
            → HasBoundary t y
            → is_empty y.entries ≡ true
            → w ∈ row task_edges t
            → (w ∈ (more ++ stack)) ⊎ (get_elem? (set seen to true) w ≡ some true)
        pass t w y h has' e m = elim (set_cases seen to t at h) [
          | inl q ↦
              let same = one_boundary to y x (subst (λ z. HasBoundary z y) q has') has in
              inl (
                (mem-append w more stack).1 (
                  inl (
                    next (subst (λ (b : Boundary). is_empty b.entries ≡ true) same e) w
                      (subst (λ z. w ∈ row task_edges z) q m))))
          | inr old ↦ on w (i.pass t w y old has' e m)
        ]

        link :
            (t : ℕ) (y : Boundary)
            → get_elem? (set seen to true) t ≡ some true
            → HasBoundary t y
            → Linked exits y.entries edges'
        link t y h has' = elim (set_cases seen to t at h) [
          | inl q ↦
              let same = one_boundary to y x (subst (λ z. HasBoundary z y) q has') has in
              subst (λ (b : Boundary). Linked exits b.entries edges') (sym same) linked
          | inr old ↦ λ a b ma mb. grows a b (i.link t y old has' a b ma mb)
        ]

    -- What follows a step ends as the walk from before it.
    stepped :
        (exits : List ℕ) (seen : List Bool) (to : ℕ) (more stack : List ℕ)
        (edges mid edges' : List (List ℕ))
        → get_elem? seen to ≡ some false
        → Grows edges mid
        → Followed exits (set seen to true) (more ++ stack) mid edges'
        → Followed exits seen (to ∷ stack) edges edges'
    stepped exits seen to more stack edges mid edges' at grows f = record {
      marks = f.marks;
      inv = f.inv;
      kept = λ t h. f.kept t (set_keeps seen to t at h);
      taken = λ t m. elim m [
        | inl q ↦ f.kept t (ap (get_elem? (set seen to true)) q ∙ set_here seen to at)
        | inr m' ↦ f.taken t ((mem-append t more stack).1 (inr m'))
      ];
      grows = λ u v m. f.grows u v (grows u v m);
    }

    again :
        (exits : List ℕ) (seen : List Bool) (to : ℕ) (stack : List ℕ) (edges edges' : List (List ℕ))
        → get_elem? seen to ≡ some true
        → Followed exits seen stack edges edges'
        → Followed exits seen (to ∷ stack) edges edges'
    again exits seen to stack edges edges' at f = record {
      marks = f.marks;
      inv = f.inv;
      kept = f.kept;
      taken =
          λ t m. elim m [ inl q ↦ f.kept t (ap (get_elem? seen) q ∙ at) | inr m' ↦ f.taken t m' ];
      grows = f.grows;
    }

    popped :
        (exits : List ℕ) (seen : List Bool) (to : ℕ) (stack : List ℕ) (edges : List (List ℕ))
        → get_elem? seen to ≡ some true
        → Inv exits seen (to ∷ stack) edges
        → Inv exits seen stack edges
    popped exits seen to stack edges at i = record {
      pass = λ t w x h has e m. elim (i.pass t w x h has e m) [
        | inl (inl q) ↦ inr (ap (get_elem? seen) q ∙ at)
        | inl (inr m') ↦ inl m'
        | inr h' ↦ inr h'
      ];
      link = i.link;
    }

    pub follow-Followed :
        (fuel : ℕ) (exits : List ℕ) (seen : List Bool) (stack : List ℕ) (edges : List (List ℕ))
        → Inv exits seen stack edges
        → Yields
            (Followed exits seen stack edges)
            (follow build task_edges fuel exits seen stack edges)
    unfolding follow
    follow-Followed fuel exits seen [] edges i = record {
      marks = seen;
      inv = i;
      kept = λ t h. h;
      taken = λ t m. absurd m;
      grows = λ u v m. m;
    }
    follow-Followed zero exits seen (to ∷ stack) edges i = tt
    follow-Followed (suc fuel) exits seen (to ∷ stack) edges i =
        Yields->>= (λ s. get_elem? seen to ≡ some s) (Followed exits seen (to ∷ stack) edges)
          (at_index seen to) _ (Yields-at_index seen to)
          (elim [
            | true ↦ λ at.
                Yields-map (Followed exits seen stack edges)
                  (Followed exits seen (to ∷ stack) edges) _
                  (follow-Followed fuel exits seen stack edges
                    (popped exits seen to stack edges at i))
                  (λ edges' f. again exits seen to stack edges edges' at f)
            | false ↦ λ at.
                Yields->>= (HasBoundary to) (Followed exits seen (to ∷ stack) edges)
                  (boundary_of build task_edges to) _ (Yields-boundary_of to)
                  (λ x has.
                    Yields-by (Followed exits seen (to ∷ stack) edges) (is_empty x.entries) _ _
                      (λ e.
                        Yields->>= (λ es. get_elem? task_edges to ≡ some es)
                          (Followed exits seen (to ∷ stack) edges) (at_index task_edges to) _
                          (Yields-at_index task_edges to)
                          (λ more found.
                            Yields-map (Followed exits (set seen to true) (more ++ stack) edges)
                              (Followed exits seen (to ∷ stack) edges) _
                              (follow-Followed fuel exits (set seen to true) (more ++ stack) edges (
                                marked exits seen to more stack x edges edges i at has
                                  (λ _ w m. subst (λ o. w ∈ listed o) found m)
                                  (λ a b ma mb. absurd (no_mem x.entries b e mb)) (λ u v m. m)))
                              (λ edges' f.
                                stepped exits seen to more stack edges edges edges' at (λ u v m. m)
                                  f)))
                      (λ e.
                        Yields->>= (λ mid. connect edges exits x.entries ≡ ok mid)
                          (Followed exits seen (to ∷ stack) edges) (connect edges exits x.entries) _
                          (Yields-of _ (connect edges exits x.entries) (λ mid c. c))
                          (λ mid c.
                            let adds = connect-Adds edges mid exits x.entries c in
                            let grows : Grows edges mid = λ u v m. (adds.pairs u v).1 (inl m) in
                            Yields-map (Followed exits (set seen to true) stack mid)
                              (Followed exits seen (to ∷ stack) edges) _
                              (follow-Followed fuel exits (set seen to true) stack mid (
                                marked exits seen to [] stack x edges mid i at has
                                  (λ e'. absurd (cc (e, e')))
                                  (λ a b ma mb. (adds.pairs a b).1 (inr (ma, mb))) grows))
                              (λ edges' f.
                                stepped exits seen to [] stack edges mid edges' at grows f))))
          ])
