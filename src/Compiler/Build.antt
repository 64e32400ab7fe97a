-- ===== src/Compiler/Build.antt =====
-- The invariant of `build_boundary`: the stack holds the tasks whose state says so, each at the
-- position noted for it, and the tasks that are done have a boundary of atoms.
use sys_tester.Base.{
  ℕ, zero, suc, ◌≤◌, ◌<◌, some, List, [], ◌∷◌, ◌≡◌, refl, sym, ap, ◌∙◌, ◌↔◌, inl, inr, arith,
  length, get_elem?, set, length-set, get_elem?-set_self, get_elem?-set_ne, lt-length_of_get, ◌∈◌,
  IsNodup, subst, Bool-cases, ◌==◌, ==→eq, ==→ne,
}
use sys_tester.Compiler.Boundary.{Boundary, State, not_seen, on_stack, done, BoundaryBuild, push}
use sys_tester.Compiler.Ends.{Within, IsBelow}
use sys_tester.Model.{Task}

-- The number of tasks that have not been entered.
abbrev pub unseen : List State → ℕ
unseen [] = 0
unseen (not_seen ∷ states) = suc (unseen states)
unseen (on_stack ∷ states) = unseen states
unseen (done ∷ states) = unseen states

unseen-set_push :
    (states : List State) (i : ℕ)
    → get_elem? states i ≡ some not_seen
    → suc (unseen (set states i on_stack)) ≡ unseen states
unseen-set_push [] i h = absurd cc
unseen-set_push (not_seen ∷ states) zero h = refl
unseen-set_push (on_stack ∷ states) zero h = absurd cc
unseen-set_push (done ∷ states) zero h = absurd cc
unseen-set_push (not_seen ∷ states) (suc i) h = ap suc (unseen-set_push states i h)
unseen-set_push (on_stack ∷ states) (suc i) h = unseen-set_push states i h
unseen-set_push (done ∷ states) (suc i) h = unseen-set_push states i h

pub unseen-set_pop :
    (states : List State) (i : ℕ)
    → get_elem? states i ≡ some on_stack
    → unseen (set states i done) ≡ unseen states
unseen-set_pop [] i h = absurd cc
unseen-set_pop (not_seen ∷ states) zero h = absurd cc
unseen-set_pop (on_stack ∷ states) zero h = refl
unseen-set_pop (done ∷ states) zero h = refl
unseen-set_pop (not_seen ∷ states) (suc i) h = ap suc (unseen-set_pop states i h)
unseen-set_pop (on_stack ∷ states) (suc i) h = unseen-set_pop states i h
unseen-set_pop (done ∷ states) (suc i) h = unseen-set_pop states i h

-- The position of a task on the stack is the number of tasks below it.
abbrev pub Placed : List ℕ → List ℕ → Type 0
Placed positions [] = Unit {0}
Placed positions (t ∷ rest) = (get_elem? positions t ≡ some (length rest)) × Placed positions rest

Placed-set :
    (positions stack : List ℕ) (i p : ℕ)
    → ¬ (i ∈ stack)
    → Placed positions stack
    → Placed (set positions i p) stack
Placed-set positions [] i p off h = tt
Placed-set positions (t ∷ rest) i p off h = (
  get_elem?-set_ne positions i t p (λ e. off (inl e)) ∙ h.0,
  Placed-set positions rest i p (λ m. off (inr m)) h.1,
)

pub Placed-mem :
    (positions stack : List ℕ) (t : ℕ)
    → Placed positions stack
    → t ∈ stack
    → (p : ℕ) × (get_elem? positions t ≡ some p) × (p < length stack)
Placed-mem positions [] t h m = absurd m
Placed-mem positions (s ∷ rest) t h (inl e) =
    (length rest, ap (get_elem? positions) e ∙ h.0, omega arith)
Placed-mem positions (s ∷ rest) t h (inr m) =
    let (p, at, less) = Placed-mem positions rest t h.1 m in (p, at, omega (arith, less))

module _ (n m : ℕ) where
  -- A boundary of atoms.
  abbrev pub IsBoundary : Boundary → Type 0
  IsBoundary b = IsBelow m b.entries × IsBelow m b.exits

  pub record Fine (b : BoundaryBuild) : Type 0 where
    pub states_size : length b.states ≡ n
    pub positions_size : length b.stack_positions ≡ n
    pub boundaries_size : length b.boundaries ≡ n
    pub edges : Within m m b.atom_edges
    pub placed : Placed b.stack_positions b.stack
    pub once : IsNodup b.stack
    pub members : (t : ℕ) → (t ∈ b.stack) ↔ (get_elem? b.states t ≡ some on_stack)
    pub finished :
        (t : ℕ)
        → get_elem? b.states t ≡ some done
        → (x : Boundary) × (get_elem? b.boundaries t ≡ some (some x)) × IsBoundary x

-- What a visit leaves as it was.
pub record Keeps (b b' : BoundaryBuild) : Type 0 where
  pub stack : b'.stack ≡ b.stack
  pub fewer : unseen b'.states ≤ unseen b.states
  pub still : (t : ℕ) → get_elem? b.states t ≡ some done → get_elem? b'.states t ≡ some done

pub Keeps-refl : (b : BoundaryBuild) → Keeps b b
Keeps-refl b = record { stack = refl; fewer = omega arith; still = λ t h. h }

pub Keeps-trans : (a b c : BoundaryBuild) → Keeps a b → Keeps b c → Keeps a c
Keeps-trans a b c p q = record {
  stack = q.stack ∙ p.stack;
  fewer = omega (arith, p.fewer, q.fewer);
  still = λ t h. q.still t (p.still t h);
}

module _ (n m : ℕ) (tasks : List Task) (atoms_map : List ℕ) (idx : ℕ) (b : BoundaryBuild) where
  pub push-Fine :
      Fine n m b → get_elem? b.states idx ≡ some not_seen → Fine n m (push tasks atoms_map idx b)
  unfolding push
  push-Fine f fresh = record {
    states_size = length-set b.states idx on_stack ∙ f.states_size;
    positions_size = length-set b.stack_positions idx (length b.stack) ∙ f.positions_size;
    boundaries_size = f.boundaries_size;
    edges = f.edges;
    placed = (
      get_elem?-set_self b.stack_positions idx (length b.stack)
          (omega (arith, inside, f.positions_size, f.states_size)),
      Placed-set b.stack_positions b.stack idx (length b.stack) off f.placed,
    );
    once = (off, f.once);
    members = members;
    finished = λ t h. elim (Bool-cases (idx == t)) [
      | inl e ↦ absurd (mixed t (==→eq idx t e) h)
      | inr e ↦ f.finished t (sym (get_elem?-set_ne b.states idx t on_stack (==→ne idx t e)) ∙ h)
    ];
  }
    where
      inside : idx < length b.states
      inside = lt-length_of_get b.states idx not_seen fresh

      off : ¬ (idx ∈ b.stack)
      off h = cc ((f.members idx).0 h, fresh)

      mixed : (t : ℕ) → idx ≡ t → ¬ (get_elem? (set b.states idx on_stack) t ≡ some done)
      mixed t e h = cc (
          sym (get_elem?-set_self b.states idx on_stack inside)
          ∙ ap (get_elem? (set b.states idx on_stack)) e
          ∙ h)

      members :
          (t : ℕ)
          → (t ∈ (idx ∷ b.stack)) ↔ (get_elem? (set b.states idx on_stack) t ≡ some on_stack)
      members t = (
        λ h. elim h [
          | inl e ↦
              ap (get_elem? (set b.states idx on_stack)) e
              ∙ get_elem?-set_self b.states idx on_stack inside
          | inr h' ↦
              get_elem?-set_ne b.states idx t on_stack
                (λ e. off (subst (λ x. x ∈ b.stack) (sym e) h'))
              ∙ (f.members t).0 h'
        ],
        λ h. elim (Bool-cases (idx == t)) [
          | inl e ↦ inl (sym (==→eq idx t e))
          | inr e ↦
              inr (
                (f.members t).1
                  (sym (get_elem?-set_ne b.states idx t on_stack (==→ne idx t e)) ∙ h))
        ],
      )

  pub unseen-push :
      get_elem? b.states idx ≡ some not_seen
      → suc (unseen (push tasks atoms_map idx b).states) ≡ unseen b.states
  unfolding push
  unseen-push = unseen-set_push b.states idx

  pub pushed-stack : (push tasks atoms_map idx b).stack ≡ idx ∷ b.stack
  unfolding push
  pushed-stack = refl

  pub pushed-still :
      get_elem? b.states idx ≡ some not_seen
      → (t : ℕ) → get_elem? b.states t ≡ some done
      → get_elem? (push tasks atoms_map idx b).states t ≡ some done
  unfolding push
  pushed-still fresh t h = elim (Bool-cases (idx == t)) [
    | inl e ↦ absurd (cc (h, fresh, ==→eq idx t e))
    | inr e ↦ get_elem?-set_ne b.states idx t on_stack (==→ne idx t e) ∙ h
  ]
