-- ===== src/Compiler/Sets.antt =====
-- src/compiler.rs: the sets of edges, `connect` and `deduplicate`. A `HashSet` is the list of its
-- elements in the order of their insertion; the code sorts before the order matters.
use sys_tester.Base.{
  ℕ, Bool, true, false, none, some, List, [], ◌∷◌, ◌++◌, get_elem?, set, ◌==◌, if◌then◌else◌,
}
use sys_tester.Base.Sort.{sort_by_key, dedup}
use sys_tester.Graph.Topo.{Outcome, ok, panic, ◌>>=◌}

abbrev pub member : ℕ → List ℕ → Bool
member x [] = false
member x (y ∷ ys) = let rest = member x ys in if x == y then true else rest

-- `HashSet::insert_value`
unfoldable pub insert_value : ℕ → List ℕ → List ℕ
insert_value x s = if member x s then s else s ++ x ∷ []

-- `HashSet::extend`
unfoldable pub extend : List ℕ → List ℕ → List ℕ
unfolding insert_value
extend s [] = s
extend s (x ∷ xs) = extend (insert_value x s) xs

-- An index out of range panics.
unfoldable pub at_index : {A : Type 0} → List A → ℕ → Outcome A
at_index xs i = elim (get_elem? xs i) [ none ↦ panic | some x ↦ ok x ]

-- `edges[from].extend(to)`
unfoldable pub extend_at : List (List ℕ) → ℕ → List ℕ → Outcome (List (List ℕ))
extend_at edges from to = at_index edges from >>= λ s. ok (set edges from (extend s to))

-- The inner loop of `connect`: an `insert_value` for each entry.
unfoldable pub connect_from : List (List ℕ) → ℕ → List ℕ → Outcome (List (List ℕ))
connect_from edges from [] = ok edges
connect_from edges from (to ∷ entries) =
    extend_at edges from (to ∷ []) >>= λ edges'. connect_from edges' from entries

unfoldable pub connect : List (List ℕ) → List ℕ → List ℕ → Outcome (List (List ℕ))
connect edges [] entries = ok edges
connect edges (from ∷ exits) entries =
    connect_from edges from entries >>= λ edges'. connect edges' exits entries

unfoldable pub deduplicate : List ℕ → List ℕ
deduplicate values = dedup (sort_by_key (λ x. x) values)
