-- ===== src/Graph/Reduce/Placed.antt =====
-- The sort of the reduction does not panic if the order has a place for every target.
use sys_tester.Base.{ℕ, ◌<◌, ◌≡◌, refl, true, some, List, [], ◌∷◌, length, lt→ltb, ◌∈◌, inl, inr}
use sys_tester.Base.Sort.{sort_by_key}
use sys_tester.Graph.Topo.{TopologicalOrder}
use sys_tester.Graph.Reduce.{place, all_placed, sort_by_place}

all_placed_lem :
    (map targets : List ℕ)
    → ((v : ℕ) → v ∈ targets → v < length map)
    → all_placed map targets ≡ true
unfolding all_placed
all_placed_lem map [] inside = refl
all_placed_lem map (to ∷ targets) inside =
    rw (lt→ltb to (length map) (inside to (inl refl)))
      (all_placed_lem map targets (λ v m. inside v (inr m)))

pub sort_by_place_lem :
    (topo : TopologicalOrder) (targets : List ℕ)
    → ((v : ℕ) → v ∈ targets → v < length topo.map)
    → sort_by_place topo targets ≡ some (sort_by_key (place topo) targets)
unfolding sort_by_place sort_by_key
sort_by_place_lem topo [] inside = refl
sort_by_place_lem topo (to ∷ []) inside = refl
sort_by_place_lem topo (to ∷ next ∷ targets) inside =
    rw (all_placed_lem topo.map (to ∷ next ∷ targets) inside) refl
