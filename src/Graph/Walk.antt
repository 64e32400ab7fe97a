-- ===== src/Graph/Walk.antt =====
-- What the graph algorithms of src/graph.rs are about: edges, walks and cycles.
use sys_tester.Base.{
  ℕ, ◌<◌, ◌≡◌, subst, Option, none, some, List, [], ◌∷◌, ◌++◌, length, get_elem?-some, All, All-mem,
  All-get, ◌∈◌,
}
use sys_tester.Graph.{DirectedGraph, BasicGraph, basic}

abbrev pub listed : Option (List ℕ) → List ℕ
listed none = []
listed (some es) = es

-- The targets of a node, none where `edges` panics.
abbrev pub targets : DirectedGraph → ℕ → List ℕ
targets g u = listed (g.edges u)

abbrev pub Edge : DirectedGraph → ℕ → ℕ → Type 0
Edge g u v = v ∈ targets g u

-- Every node has a list of edges, and they lead to nodes.
pub record IsValid (g : DirectedGraph) : Type 0 where
  pub has_edges : (u : ℕ) → u < g.num_nodes → (es : List ℕ) × (g.edges u ≡ some es)
  pub inside : (u v : ℕ) → u < g.num_nodes → Edge g u v → v < g.num_nodes

-- The walks of one edge or more.
pub data Walk (g : DirectedGraph) : ℕ → ℕ → Type 0 where
  last : {u v : ℕ} → Edge g u v → Walk g u v
  next : {u v w : ℕ} → Edge g u v → Walk g v w → Walk g u w

pub Walk-trans : {g : DirectedGraph} {u v w : ℕ} → Walk g u v → Walk g v w → Walk g u w
Walk-trans (last e) q = next e q
Walk-trans (next e p) q = next e (Walk-trans p q)

-- The nodes of the list are visited in turn, by edges, from `u` on.
abbrev pub Leads : DirectedGraph → ℕ → List ℕ → Type 0
Leads g u [] = Unit {0}
Leads g u (v ∷ vs) = Edge g u v × Leads g v vs

-- A closed path, as `GraphCycle` describes it: the first and the last node are the same one,
-- a node of the graph.
abbrev pub IsCycle : DirectedGraph → List ℕ → Type 0
IsCycle g cycle =
    (u : ℕ) × (between : List ℕ) × (cycle ≡ u ∷ (between ++ u ∷ []))
    × (u < g.num_nodes)
    × Leads g u (between ++ u ∷ [])

pub Leads-snoc :
    (g : DirectedGraph) (u p w : ℕ) (vs : List ℕ)
    → Leads g u (vs ++ p ∷ [])
    → Edge g p w
    → Leads g u ((vs ++ p ∷ []) ++ w ∷ [])
Leads-snoc g u p w [] l e = (l.0, (e, tt))
Leads-snoc g u p w (v ∷ vs) l e = (l.0, Leads-snoc g v p w vs l.1 e)

pub Walk-of_Leads :
    (g : DirectedGraph) (u w : ℕ) (vs : List ℕ) → Leads g u (vs ++ w ∷ []) → Walk g u w
Walk-of_Leads g u w [] l = last l.0
Walk-of_Leads g u w (v ∷ vs) l = next l.0 (Walk-of_Leads g v w vs l.1)

-- A `BasicGraph` is valid if its lists hold indices of lists only.
pub basic-IsValid :
    (b : BasicGraph) → All (λ es. All (λ v. v < length b.edges) es) b.edges → IsValid (basic b)
basic-IsValid b h = record {
  has_edges = get_elem?-some b.edges;
  inside = λ u v bound e.
      let (es, at) = get_elem?-some b.edges u bound in
      All-mem (λ w. w < length b.edges) es v
        (All-get (λ es. All (λ w. w < length b.edges) es) b.edges u es h at)
        (subst (λ o. v ∈ listed o) at e);
}
