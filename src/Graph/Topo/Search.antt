-- ===== src/Graph/Topo/Search.antt =====
-- The depth-first search of `topological_order`: its invariant, kept by every round.
use mathlib.Core.List.{reverse}
use sys_tester.Base.{
  ℕ, ◌≡◌, refl, ◌⊎◌, ◌↔◌, inl, inr, none, some, List, [], ◌∷◌, map, length, get_elem?, ◌∈◌, All,
  IsNodup, arith,
}
use sys_tester.Graph.{DirectedGraph}
use sys_tester.Graph.Walk.{Edge}
use sys_tester.Graph.Topo.{
  DagVisitState, not_seen, working, done, DagWorkFrame, Dfs, Scanned, descend, back, exhausted,
  out_of_range, scan,
}

abbrev pub IsIn : List DagVisitState → DagVisitState → ℕ → Type 0
IsIn states state v = get_elem? states v ≡ some state

-- What `scan` has learned when it stops, for each way to stop.
abbrev pub ScanFacts : List DagVisitState → List ℕ → Scanned → Type 0
ScanFacts states es (descend next rest) =
    IsIn states not_seen next
    × (next ∈ es)
    × ((v : ℕ) → v ∈ rest → v ∈ es)
    × ((v : ℕ) → v ∈ es → (v ∈ rest) ⊎ IsIn states done v ⊎ (v ≡ next))
ScanFacts states es (back next) = IsIn states working next × (next ∈ es)
ScanFacts states es exhausted = (v : ℕ) → v ∈ es → IsIn states done v
ScanFacts states es out_of_range = (v : ℕ) × (v ∈ es) × (get_elem? states v ≡ none)

ScanFacts-cons :
    (states : List DagVisitState) (x : ℕ) (es : List ℕ) (r : Scanned)
    → IsIn states done x
    → ScanFacts states es r
    → ScanFacts states (x ∷ es) r
ScanFacts-cons states x es (descend next rest) d (fresh, m, sub, sup) = (
  fresh,
  inr m,
  λ v h. inr (sub v h),
  λ v. elim [ inl e ↦ inr (inl (ground arith)) | inr h ↦ sup v h ],
)
ScanFacts-cons states x es (back next) d (w, m) = (w, inr m)
ScanFacts-cons states x es exhausted d all = λ v. elim [ inl e ↦ ground arith | inr h ↦ all v h ]
ScanFacts-cons states x es out_of_range d (v, m, out) = (v, inr m, out)

pub scan_lem : (states : List DagVisitState) (es : List ℕ) → ScanFacts states es (scan states es)
unfolding scan
scan_lem states [] = λ v m. absurd m
scan_lem states (x ∷ es) = read (get_elem? states x) refl (scan_lem states es)
  where
    read :
        (o : _)
        → get_elem? states x ≡ o
        → ScanFacts states es (scan states es)
        → ScanFacts states (x ∷ es) (scan states (x ∷ es))
    read none e ih = rw (e, scan) (x, inl refl, e)
    read (some not_seen) e ih =
        rw (e, scan) (e, inl refl, λ v m. inr m, λ v. elim [ inl q ↦ inr (inr q) | inr m ↦ inl m ])
    read (some working) e ih = rw (e, scan) (e, inl refl)
    read (some done) e ih = rw (e, scan) (ScanFacts-cons states x es (scan states es) e ih)

abbrev pub nodes : List DagWorkFrame → List ℕ
nodes = map (λ (f : DagWorkFrame). f.node)

-- `stack_pos` tells how many frames stand below the frame of a node.
abbrev pub IsPlaced : List ℕ → List DagWorkFrame → Type 0
IsPlaced pos [] = Unit {0}
IsPlaced pos (f ∷ fs) = (get_elem? pos f.node ≡ some (length fs)) × IsPlaced pos fs

module _ (g : DirectedGraph) where
  -- A node is opened by an edge from the frame below it.
  abbrev pub IsCalled : ℕ → List DagWorkFrame → Type 0
  IsCalled u [] = Unit {0}
  IsCalled u (p ∷ fs) = Edge g p.node u

  abbrev pub IsLinked : List DagWorkFrame → Type 0
  IsLinked [] = Unit {0}
  IsLinked (f ∷ fs) = IsCalled f.node fs × IsLinked fs

  -- The edges that a frame has not looked at are edges of its node.
  abbrev pub Remains : DagWorkFrame → Type 0
  Remains f = (v : ℕ) → v ∈ f.edges → Edge g f.node v

  -- Every edge of a frame is not looked at yet, or leads to a closed node, or, below the top, to
  -- the node of the frame above it.
  abbrev pub Waits : List ℕ → ℕ → List DagWorkFrame → Type 0
  Waits order child [] = Unit {0}
  Waits order child (f ∷ fs) =
      ((v : ℕ) → Edge g f.node v → (v ∈ f.edges) ⊎ (v ∈ order) ⊎ (v ≡ child))
      × Waits order f.node fs

  abbrev pub IsAccounted : List ℕ → List DagWorkFrame → Type 0
  IsAccounted order [] = Unit {0}
  IsAccounted order (f ∷ fs) =
      ((v : ℕ) → Edge g f.node v → (v ∈ f.edges) ⊎ (v ∈ order)) × Waits order f.node fs

  -- In the result an edge leads from a node to a later one.
  abbrev pub IsClosed : List ℕ → Type 0
  IsClosed [] = Unit {0}
  IsClosed (x ∷ xs) = ((v : ℕ) → Edge g x v → v ∈ xs) × IsClosed xs

  -- The part of the invariant that holds also between the reading of an edge and its opening.
  pub record Core (s : Dfs) : Type 0 where
    pub size : length s.states ≡ g.num_nodes
    pub pos_size : length s.stack_pos ≡ g.num_nodes
    pub open_iff : (v : ℕ) → IsIn s.states working v ↔ (v ∈ nodes s.call_stack)
    pub done_iff : (v : ℕ) → IsIn s.states done v ↔ (v ∈ s.reverse_order)
    pub distinct : IsNodup (nodes s.call_stack)
    pub once : IsNodup (reverse s.reverse_order)
    pub placed : IsPlaced s.stack_pos s.call_stack
    pub linked : IsLinked s.call_stack
    pub remain : All Remains s.call_stack
    pub closed : IsClosed (reverse s.reverse_order)

  pub record Inv (s : Dfs) : Type 0 where
    pub core : Core s
    pub open core use *
    pub accounted : IsAccounted s.reverse_order s.call_stack
