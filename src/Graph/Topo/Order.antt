-- ===== src/Graph/Topo/Order.antt =====
-- The last lines of `topological_order`: the list of nodes and the map from a node to its index.
use sys_tester.Base.{
  ℕ, zero, suc, ◌+◌, ◌<◌, ◌≡◌, refl, ◌↔◌, inl, inr, sym, ◌∙◌, ap, some, List, [], ◌∷◌, length,
  get_elem?, set, length-set, get_elem?-set_self, get_elem?-set_ne, ◌∈◌, IsNodup, All, arith,
}
use sys_tester.Graph.{DirectedGraph}
use sys_tester.Graph.Walk.{Edge, IsCycle}
use sys_tester.Graph.Topo.{Outcome, ok, err, panic, out_of_fuel, TopologicalOrder, number}
use sys_tester.Graph.Topo.Search.{IsClosed}

pub mem_of_get : (xs : List ℕ) (i x : ℕ) → get_elem? xs i ≡ some x → x ∈ xs
mem_of_get [] i x h = absurd (ground arith)
mem_of_get (y ∷ xs) zero x h = inl (ground arith)
mem_of_get (y ∷ xs) (suc i) x h = inr (mem_of_get xs i x h)

pub get_of_mem : (xs : List ℕ) (x : ℕ) → x ∈ xs → (i : ℕ) × (get_elem? xs i ≡ some x)
get_of_mem [] x m = absurd m
get_of_mem (y ∷ xs) x (inl e) = (0, ap some (sym e))
get_of_mem (y ∷ xs) x (inr m) = let (i, h) = get_of_mem xs x m in (suc i, h)

pub length-number : (k : ℕ) (xs m : List ℕ) → length (number k xs m) ≡ length m
unfolding number
length-number k [] m = refl
length-number k (x ∷ xs) m = length-number (suc k) xs (set m x k) ∙ length-set m x k

number_other :
    (k : ℕ) (xs m : List ℕ) (v : ℕ) → ¬ (v ∈ xs) → get_elem? (number k xs m) v ≡ get_elem? m v
unfolding number
number_other k [] m v off = refl
number_other k (x ∷ xs) m v off =
    number_other (suc k) xs (set m x k) v (λ h. off (inr h))
    ∙ get_elem?-set_ne m x v k (λ e. off (inl (sym e)))

-- The map that `number` fills is the inverse of the list of distinct nodes.
pub number_lem :
    (k : ℕ) (xs m : List ℕ) (i x : ℕ)
    → All (λ v. v < length m) xs
    → IsNodup xs
    → get_elem? xs i ≡ some x
    → get_elem? (number k xs m) x ≡ some (k + i)
unfolding number
number_lem k [] m i x inside once h = absurd (ground arith)
number_lem k (y ∷ xs) m zero x inside once h =
    let e : y ≡ x = ground arith in
    rw (← e) (
      number_other (suc k) xs (set m y k) y once.0
      ∙ get_elem?-set_self m y k inside.0
      ∙ ap some (omega arith))
number_lem k (y ∷ xs) m (suc i) x inside once h =
    number_lem (suc k) xs (set m y k) i x (rw (length-set m y k) inside.1) once.1 h
    ∙ ap some (omega arith)

-- In a closed list the edges lead to later places.
pub IsClosed-later :
    (g : DirectedGraph) (xs : List ℕ) (i u v : ℕ)
    → IsClosed g xs
    → get_elem? xs i ≡ some u
    → Edge g u v
    → (j : ℕ) × (get_elem? xs j ≡ some v) × (i < j)
IsClosed-later g [] i u v c h e = absurd (ground arith)
IsClosed-later g (x ∷ xs) zero u v c h e =
    let same : x ≡ u = ground arith in
    let (j, at) = get_of_mem xs v (c.0 v (rw same e)) in (suc j, at, omega arith)
IsClosed-later g (x ∷ xs) (suc i) u v c h e =
    let (j, at, after) = IsClosed-later g xs i u v c.1 h e in (suc j, at, omega arith)

-- `order` lists every node once, `map` is its inverse, and every edge points to a later node.
pub record IsTopological (g : DirectedGraph) (t : TopologicalOrder) : Type 0 where
  pub all : (v : ℕ) → (v ∈ t.order) ↔ (v < g.num_nodes)
  pub once : IsNodup t.order
  pub map_size : length t.map ≡ g.num_nodes
  pub inverse : (i v : ℕ) → get_elem? t.order i ≡ some v → get_elem? t.map v ≡ some i
  pub forward :
      (u v : ℕ)
      → u < g.num_nodes
      → Edge g u v
      → (i : ℕ) × (j : ℕ) × (get_elem? t.map u ≡ some i) × (get_elem? t.map v ≡ some j) × (i < j)

abbrev pub TopoOk : DirectedGraph → Outcome TopologicalOrder → Type 0
TopoOk g (ok t) = IsTopological g t
TopoOk g (err cycle) = IsCycle g cycle
TopoOk g panic = ⊥
TopoOk g out_of_fuel = ⊥
