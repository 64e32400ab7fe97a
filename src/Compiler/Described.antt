-- ===== src/Compiler/Described.antt =====
-- The boundaries that `build_boundary` makes, described by those of the children.
use sys_tester.Base.{
  ℕ, Bool, true, false, none, some, List, [], ◌∷◌, ◌++◌, ◌≡◌, refl, sym, ap, ◌∙◌, inl, inr,
  get_elem?, length, subst, Bool-cases, if◌then◌else◌, Option,
}
use mathlib.Core.List.{append_assoc, append-nil}
use sys_tester.Model.{Task, atom, ordered, unordered}
use sys_tester.Compiler.Sets.{connect, deduplicate}
use sys_tester.Compiler.Boundary.{
  Boundary, on_stack, done, BoundaryBuild, Visit, is_empty, or_default, unordered_children,
  connect_previous, ordered_children,
}
use sys_tester.Compiler.Yields.{Yields, Yields->>=, Yields-map, Yields-by, Yields-of}

-- The task is done and has this boundary.
abbrev pub Known : BoundaryBuild → ℕ → Boundary → Type 0
Known b c y = (get_elem? b.states c ≡ some done) × (get_elem? b.boundaries c ≡ some (some y))

-- The entries, or the exits, of all children together.
abbrev pub Gathered : BoundaryBuild → List ℕ → List ℕ → List ℕ → Type 0
Gathered b [] es xs = (es ≡ []) × (xs ≡ [])
Gathered b (c ∷ children) es xs =
    (y : Boundary) × (es' : List ℕ) × (xs' : List ℕ) × Known b c y
    × Gathered b children es' xs'
    × (es ≡ y.entries ++ es')
    × (xs ≡ y.exits ++ xs')

abbrev pub either : List ℕ → List ℕ → List ℕ
either first rest = if is_empty first then rest else first

-- The entries of the first child that has some, and the exits of the last child that has entries.
abbrev pub Chained : BoundaryBuild → List ℕ → List ℕ → List ℕ → Type 0
Chained b [] es xs = (es ≡ []) × (xs ≡ [])
Chained b (c ∷ children) es xs =
    (y : Boundary) × (es' : List ℕ) × (xs' : List ℕ) × Known b c y
    × Chained b children es' xs'
    × (es ≡ either y.entries es')
    × (xs ≡ (if is_empty es' then (if is_empty y.entries then [] else y.exits) else xs'))

-- The boundary of a task: its own number, or what its children have.
abbrev pub ByTask : List ℕ → BoundaryBuild → ℕ → Task → Boundary → Type 0
ByTask atoms_map b idx (atom a) x =
    (id : ℕ) × (get_elem? atoms_map idx ≡ some id)
    × (x ≡ record { entries = id ∷ []; exits = id ∷ [] })
ByTask atoms_map b idx (unordered children) x =
    (es : List ℕ) × (xs : List ℕ) × Gathered b children es xs
    × (x ≡ record { entries = deduplicate es; exits = deduplicate xs })
ByTask atoms_map b idx (ordered children) x =
    (es : List ℕ) × (xs : List ℕ) × Chained b children es xs
    × (x ≡ record { entries = es; exits = if is_empty es then [] else xs })

abbrev pub KeepsKnown : BoundaryBuild → BoundaryBuild → Type 0
KeepsKnown b b' = (c : ℕ) (y : Boundary) → Known b c y → Known b' c y

Gathered-keeps :
    (b b' : BoundaryBuild) (children es xs : List ℕ)
    → KeepsKnown b b'
    → Gathered b children es xs
    → Gathered b' children es xs
Gathered-keeps b b' [] es xs k g = g
Gathered-keeps b b' (c ∷ children) es xs k (y, es', xs', known, rest, e, x) =
    (y, es', xs', k c y known, Gathered-keeps b b' children es' xs' k rest, e, x)

Chained-keeps :
    (b b' : BoundaryBuild) (children es xs : List ℕ)
    → KeepsKnown b b'
    → Chained b children es xs
    → Chained b' children es xs
Chained-keeps b b' [] es xs k g = g
Chained-keeps b b' (c ∷ children) es xs k (y, es', xs', known, rest, e, x) =
    (y, es', xs', k c y known, Chained-keeps b b' children es' xs' k rest, e, x)

pub ByTask-keeps :
    (atoms_map : List ℕ) (b b' : BoundaryBuild) (idx : ℕ) (task : Task) (x : Boundary)
    → KeepsKnown b b'
    → ByTask atoms_map b idx task x
    → ByTask atoms_map b' idx task x
ByTask-keeps atoms_map b b' idx (atom a) x k d = d
ByTask-keeps atoms_map b b' idx (unordered children) x k (es, xs, g, e) =
    (es, xs, Gathered-keeps b b' children es xs k g, e)
ByTask-keeps atoms_map b b' idx (ordered children) x k (es, xs, g, e) =
    (es, xs, Chained-keeps b b' children es xs k g, e)

module _ (tasks : List Task) (atoms_map : List ℕ) where
  -- Every task that is done has its boundary.
  abbrev pub Sound : BoundaryBuild → Type 0
  Sound b =
      (length b.boundaries ≡ length b.states)
      × ((t : ℕ)
          → get_elem? b.states t ≡ some done
          → (x : Boundary) × (task : Task) × (get_elem? b.boundaries t ≡ some (some x))
            × (get_elem? tasks t ≡ some task)
            × ByTask atoms_map b t task x)

  abbrev pub Grown : BoundaryBuild → BoundaryBuild → Type 0
  Grown b b' =
      KeepsKnown b b'
      × ((t : ℕ) → get_elem? b.states t ≡ some on_stack → get_elem? b'.states t ≡ some on_stack)

  Grown-trans : (a b c : BoundaryBuild) → Grown a b → Grown b c → Grown a c
  Grown-trans a b c p q = (λ t y k. q.0 t y (p.0 t y k), λ t h. q.1 t (p.1 t h))

  -- What a visit leaves behind.
  abbrev pub Seen : ℕ → BoundaryBuild → Boundary × BoundaryBuild → Type 0
  Seen c b r = Sound r.1 × Grown b r.1 × Known r.1 c r.0

  abbrev GatheredAll : List ℕ → List ℕ → List ℕ → BoundaryBuild → Boundary × BoundaryBuild → Type 0
  GatheredAll children es₀ xs₀ b r =
      Sound r.1
      × Grown b r.1
      × ((es : List ℕ) × (xs : List ℕ) × Gathered r.1 children es xs
          × (r.0 ≡ record { entries = deduplicate (es₀ ++ es); exits = deduplicate (xs₀ ++ xs) }))

  abbrev ChainedAll :
      List ℕ → List ℕ → Option (List ℕ) → BoundaryBuild → Boundary × BoundaryBuild → Type 0
  ChainedAll children es₀ previous b r =
      Sound r.1
      × Grown b r.1
      × ((es : List ℕ) × (xs : List ℕ) × Chained r.1 children es xs
          × (r.0.entries ≡ either es₀ es)
          × (r.0.exits ≡ (if is_empty es then or_default previous else xs)))

  module _ (visit : Visit)
      (visits : (c : ℕ) (b : BoundaryBuild) → Sound b → Yields (Seen c b) (visit c b)) where
    pub unordered_children-Gathered :
        (children es₀ xs₀ : List ℕ) (b : BoundaryBuild)
        → Sound b
        → Yields (GatheredAll children es₀ xs₀ b) (unordered_children visit children es₀ xs₀ b)
    unfolding unordered_children
    unordered_children-Gathered [] es₀ xs₀ b s = (
      s,
      (λ c y k. k, λ t h. h),
      (
        [],
        [],
        (refl, refl),
        λ i. record {
          entries = deduplicate (sym (append-nil es₀) i);
          exits = deduplicate (sym (append-nil xs₀) i);
        },
      ),
    )
    unordered_children-Gathered (c ∷ children) es₀ xs₀ b s =
        Yields->>= (Seen c b) (GatheredAll (c ∷ children) es₀ xs₀ b) (visit c b) _ (visits c b s)
          (λ r v.
            Yields-map (GatheredAll children (es₀ ++ r.0.entries) (xs₀ ++ r.0.exits) r.1)
              (GatheredAll (c ∷ children) es₀ xs₀ b) _
              (unordered_children-Gathered children (es₀ ++ r.0.entries) (xs₀ ++ r.0.exits) r.1 v.0)
              (λ r' g.
                let (es, xs, rest, same) = g.2 in
                (
                  g.0,
                  Grown-trans b r.1 r'.1 v.1 g.1,
                  (
                    r.0.entries ++ es,
                    r.0.exits ++ xs,
                    (r.0, es, xs, g.1.0 c r.0 v.2, rest, refl, refl),
                    same ∙ (λ i. record {
                      entries = deduplicate (append_assoc es₀ r.0.entries es i);
                      exits = deduplicate (append_assoc xs₀ r.0.exits xs i);
                    }),
                  ),
                )))

    -- The loop over the children of an `Ordered` task: what it has is put before what follows.
    skipped :
        (c : ℕ) (children es₀ : List ℕ) (previous : Option (List ℕ)) (b : BoundaryBuild)
        (r r' : Boundary × BoundaryBuild)
        → Seen c b r
        → is_empty r.0.entries ≡ true
        → ChainedAll children es₀ previous r.1 r'
        → ChainedAll (c ∷ children) es₀ previous b r'
    skipped c children es₀ previous b r r' v e g =
        let (es, xs, rest, first, last) = g.2 in
        (
          g.0,
          Grown-trans b r.1 r'.1 v.1 g.1,
          (
            either r.0.entries es,
            if is_empty es then (if is_empty r.0.entries then [] else r.0.exits) else xs,
            (r.0, es, xs, g.1.0 c r.0 v.2, rest, refl, refl),
            rw e first,
            elim (Bool-cases (is_empty es)) [
              | inl nil ↦
                  rw (e, nil)
                    (subst (λ (t : Bool). r'.0.exits ≡ (if t then or_default previous else xs)) nil
                      last)
              | inr cons ↦
                  rw (e, cons)
                    (subst (λ (t : Bool). r'.0.exits ≡ (if t then or_default previous else xs)) cons
                      last)
            ],
          ),
        )

    linked :
        (c : ℕ) (children es₀ : List ℕ) (previous : Option (List ℕ)) (b b' : BoundaryBuild)
        (r r' : Boundary × BoundaryBuild)
        → Seen c b r
        → is_empty r.0.entries ≡ false
        → Grown r.1 b'
        → ChainedAll children (if is_empty es₀ then r.0.entries else es₀) (some r.0.exits) b' r'
        → ChainedAll (c ∷ children) es₀ previous b r'
    linked c children es₀ previous b b' r r' v e k g =
        let (es, xs, rest, first, last) = g.2 in
        (
          g.0,
          Grown-trans b r.1 r'.1 v.1 (Grown-trans r.1 b' r'.1 k g.1),
          (
            either r.0.entries es,
            if is_empty es then (if is_empty r.0.entries then [] else r.0.exits) else xs,
            (r.0, es, xs, g.1.0 c r.0 (k.0 c r.0 v.2), rest, refl, refl),
            elim (Bool-cases (is_empty es₀)) [
              | inl nil ↦
                  rw (nil, e)
                    (first
                      ∙ ap (λ (t : Bool). either (if t then r.0.entries else es₀) es) nil
                      ∙ ap (λ (t : Bool). if t then es else r.0.entries) e)
              | inr cons ↦ rw cons (
                  first
                  ∙ ap (λ (t : Bool). either (if t then r.0.entries else es₀) es) cons
                  ∙ ap (λ (t : Bool). if t then es else es₀) cons)
            ],
            rw (e, e) last,
          ),
        )

    Grown-connect_previous :
        (previous : Option (List ℕ)) (entries : List ℕ) (b : BoundaryBuild)
        → Sound b
        → Yields (λ b'. Sound b' × Grown b b') (connect_previous previous entries b)
    unfolding connect_previous
    Grown-connect_previous none entries b s = (s, (λ c y k. k, λ t h. h))
    Grown-connect_previous (some exits) entries b s =
        Yields->>= (λ _. Unit {0}) (λ b'. Sound b' × Grown b b')
          (connect b.atom_edges exits entries) _
          (Yields-of (λ _. Unit {0}) (connect b.atom_edges exits entries) (λ _ _. tt))
          (λ edges _. (s, (λ c y k. k, λ t h. h)))

    pub ordered_children-Chained :
        (children es₀ : List ℕ) (previous : Option (List ℕ)) (b : BoundaryBuild)
        → Sound b
        → Yields
            (ChainedAll children es₀ previous b)
            (ordered_children visit children es₀ previous b)
    unfolding ordered_children
    ordered_children-Chained [] es₀ previous b s =
        (s, (λ c y k. k, λ t h. h), ([], [], (refl, refl), either_empty es₀, refl))
      where
        either_empty : (es : List ℕ) → es ≡ either es []
        either_empty [] = refl
        either_empty (e ∷ es) = refl
    ordered_children-Chained (c ∷ children) es₀ previous b s =
        Yields->>= (Seen c b) (ChainedAll (c ∷ children) es₀ previous b) (visit c b) _
          (visits c b s)
          (λ r v.
            Yields-by (ChainedAll (c ∷ children) es₀ previous b) (is_empty r.0.entries) _ _
              (λ e.
                Yields-map (ChainedAll children es₀ previous r.1)
                  (ChainedAll (c ∷ children) es₀ previous b) _
                  (ordered_children-Chained children es₀ previous r.1 v.0)
                  (λ r' g. skipped c children es₀ previous b r r' v e g))
              (λ e.
                Yields->>= (λ b'. Sound b' × Grown r.1 b')
                  (ChainedAll (c ∷ children) es₀ previous b)
                  (connect_previous previous r.0.entries r.1) _
                  (Grown-connect_previous previous r.0.entries r.1 v.0)
                  (λ b' k.
                    Yields-map
                      (ChainedAll children (if is_empty es₀ then r.0.entries else es₀)
                        (some r.0.exits) b')
                      (ChainedAll (c ∷ children) es₀ previous b) _
                      (ordered_children-Chained children (if is_empty es₀ then r.0.entries else es₀)
                        (some r.0.exits) b' k.0)
                      (λ r' g. linked c children es₀ previous b b' r r' v e k.1 g))))
