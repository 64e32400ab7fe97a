-- ===== src/Compiler/Loops.antt =====
-- The loops over the children of a task, with a visit that neither panics nor runs out of fuel.
use sys_tester.Base.{
  ℕ, ◌<◌, Bool, true, false, Option, none, some, List, [], ◌∷◌, ◌++◌, ◌≡◌, refl, arith, get_elem?,
  All-mem, All-of_mem, if◌then◌else◌,
}
use sys_tester.Base.Sort.{sort_by_key, dedup, mem-sort_by_key, mem-dedup}
use sys_tester.Graph.Topo.{Outcome, ok, err, panic, out_of_fuel}
use sys_tester.Model.{Task, atom, ordered, unordered}
use sys_tester.Compiler.Sets.{connect, deduplicate}
use sys_tester.Compiler.Boundary.{
  Boundary, done, BoundaryBuild, Visit, is_empty, or_default, unordered_children, connect_previous,
  ordered_children,
}
use sys_tester.Compiler.Ends.{Ends, Ends->>=, Within, IsBelow, Ends-connect}
use sys_tester.Compiler.Build.{unseen, IsBoundary, Fine, Keeps, Keeps-refl, Keeps-trans}

-- The children of a task.
abbrev pub children_of : Task → List ℕ
children_of (atom a) = []
children_of (ordered children) = children
children_of (unordered children) = children

pub IsBelow-append : (k : ℕ) (xs ys : List ℕ) → IsBelow k xs → IsBelow k ys → IsBelow k (xs ++ ys)
IsBelow-append k [] ys h h' = h'
IsBelow-append k (x ∷ xs) ys h h' = (h.0, IsBelow-append k xs ys h.1 h')

IsBelow-deduplicate : (k : ℕ) (xs : List ℕ) → IsBelow k xs → IsBelow k (deduplicate xs)
unfolding deduplicate
IsBelow-deduplicate k xs h =
    All-of_mem (λ x. x < k) (dedup (sort_by_key (λ x. x) xs))
      (λ x m.
        All-mem (λ y. y < k) xs x h
          ((mem-sort_by_key (λ y. y) x xs).0 ((mem-dedup x (sort_by_key (λ y. y) xs)).0 m)))

pub Ends-map :
    {A : Type 0} (P Q : A → Type 0) (o : Outcome A) → Ends P o → ((a : A) → P a → Q a) → Ends Q o
Ends-map P Q (ok a) h k = k a h
Ends-map P Q (err c) h k = tt
Ends-map P Q panic h k = h
Ends-map P Q out_of_fuel h k = h

pub Ends-by :
    {A : Type 0} (P : A → Type 0) (c : Bool) (x y : Outcome A)
    → Ends P x
    → Ends P y
    → Ends P (elim c [ true ↦ x | false ↦ y ])
Ends-by P true x y h h' = h
Ends-by P false x y h h' = h'

module _ (n m : ℕ) where
  -- What a loop over children ends with, from a build on.
  pub record Looped (b : BoundaryBuild) (r : Boundary × BoundaryBuild) : Type 0 where
    pub fine : Fine n m r.1
    pub keeps : Keeps b r.1
    pub good : IsBoundary n m r.0

  -- What a visit of a task ends with.
  pub record Visited (idx : ℕ) (b : BoundaryBuild) (r : Boundary × BoundaryBuild) : Type 0 where
    pub looped : Looped b r
    pub finished : get_elem? r.1.states idx ≡ some done

  Looped-after :
      (a b : BoundaryBuild) (r : Boundary × BoundaryBuild) → Keeps a b → Looped b r → Looped a r
  Looped-after a b r k l = record {
    fine = l.fine;
    keeps = Keeps-trans a b r.1 k l.keeps;
    good = l.good;
  }

  with_edges :
      (b : BoundaryBuild) (edges : List (List ℕ))
      → Fine n m b
      → Within m m edges
      → Fine n m (record b { atom_edges = edges })
  with_edges b edges f w = record {
    states_size = f.states_size;
    positions_size = f.positions_size;
    boundaries_size = f.boundaries_size;
    edges = w;
    placed = f.placed;
    once = f.once;
    members = f.members;
    finished = f.finished;
  }

  -- `connect_previous` changes the edges only.
  abbrev Connected : BoundaryBuild → BoundaryBuild → Type 0
  Connected b b' = Fine n m b' × Keeps b b'

  Ends-connect_previous :
      (previous : Option (List ℕ)) (entries : List ℕ) (b : BoundaryBuild)
      → Fine n m b
      → IsBelow m (or_default previous)
      → IsBelow m entries
      → Ends (Connected b) (connect_previous previous entries b)
  unfolding connect_previous
  Ends-connect_previous none entries b f below below' = (f, Keeps-refl b)
  Ends-connect_previous (some previous) entries b f below below' =
      Ends->>= (Within m m) (Connected b) (connect b.atom_edges previous entries) _
        (Ends-connect m m b.atom_edges previous entries f.edges below below')
        (λ edges w.
          (with_edges b edges f w, record { stack = refl; fewer = omega arith; still = λ t h. h }))

  -- The loops, with a visit that does well on builds with fewer than `fuel` tasks to enter.
  module _ (fuel : ℕ) (visit : Visit)
      (visits : (idx : ℕ) (b : BoundaryBuild)
        → idx < n
        → Fine n m b
        → unseen b.states < fuel
        → Ends (Visited idx b) (visit idx b)) where
    pub Ends-unordered_children :
        (children entries exits : List ℕ) (b : BoundaryBuild)
        → IsBelow n children
        → IsBelow m entries
        → IsBelow m exits
        → Fine n m b
        → unseen b.states < fuel
        → Ends (Looped b) (unordered_children visit children entries exits b)
    unfolding unordered_children
    Ends-unordered_children [] entries exits b below good good' f few = record {
      fine = f;
      keeps = Keeps-refl b;
      good = (IsBelow-deduplicate m entries good, IsBelow-deduplicate m exits good');
    }
    Ends-unordered_children (child ∷ children) entries exits b below good good' f few =
        Ends->>= (Visited child b) (Looped b) (visit child b) _ (visits child b below.0 f few)
          (λ r v.
            let l = v.looped in
            Ends-map (Looped r.1) (Looped b) _
              (Ends-unordered_children children (entries ++ r.0.entries) (exits ++ r.0.exits) r.1
                below.1 (IsBelow-append m entries r.0.entries good l.good.0)
                (IsBelow-append m exits r.0.exits good' l.good.1) l.fine
                (omega (arith, few, l.keeps.fewer)))
              (λ r' l'. Looped-after b r.1 r' l.keeps l'))

    pub Ends-ordered_children :
        (children entries : List ℕ) (previous : Option (List ℕ)) (b : BoundaryBuild)
        → IsBelow n children
        → IsBelow m entries
        → IsBelow m (or_default previous)
        → Fine n m b
        → unseen b.states < fuel
        → Ends (Looped b) (ordered_children visit children entries previous b)
    unfolding ordered_children
    Ends-ordered_children [] entries previous b below good good' f few = record {
      fine = f;
      keeps = Keeps-refl b;
      good = (good, good');
    }
    Ends-ordered_children (child ∷ children) entries previous b below good good' f few =
        Ends->>= (Visited child b) (Looped b) (visit child b) _ (visits child b below.0 f few)
          (λ r v.
            let l = v.looped in
            let few' : unseen r.1.states < fuel = omega (arith, few, l.keeps.fewer) in
            Ends-by (Looped b) (is_empty r.0.entries) _ _
              (Ends-map (Looped r.1) (Looped b) _
                (Ends-ordered_children children entries previous r.1 below.1 good good' l.fine few')
                (λ r' l'. Looped-after b r.1 r' l.keeps l'))
              (Ends->>= (Connected r.1) (Looped b) (connect_previous previous r.0.entries r.1) _
                (Ends-connect_previous previous r.0.entries r.1 l.fine good' l.good.0)
                (λ b' c.
                  Ends-map (Looped b') (Looped b) _
                    (Ends-ordered_children children
                      (if is_empty entries then r.0.entries else entries) (some r.0.exits) b'
                      below.1 (entries_below entries r.0.entries good l.good.0) l.good.1 c.0
                      (omega (arith, few', c.1.fewer)))
                    (λ r' l'. Looped-after b b' r' (Keeps-trans b r.1 b' l.keeps c.1) l'))))
      where
        entries_below :
            (xs ys : List ℕ)
            → IsBelow m xs
            → IsBelow m ys
            → IsBelow m (if is_empty xs then ys else xs)
        entries_below [] ys h h' = h'
        entries_below (x ∷ xs) ys h h' = h
