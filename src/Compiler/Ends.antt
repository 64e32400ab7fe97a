-- ===== src/Compiler/Ends.antt =====
-- Steps that neither panic nor run out of fuel, and what they leave behind.
use sys_tester.Base.{
  ℕ, zero, suc, ◌<◌, some, List, [], ◌∷◌, ◌≡◌, refl, sym, ◌∙◌, inl, inr, arith, length, get_elem?,
  ◌∈◌, All, All-mem, subst,
}
use sys_tester.Graph.Topo.{Outcome, ok, err, panic, out_of_fuel, ◌>>=◌}
use sys_tester.Compiler.Sets.{at_index, extend_at, connect_from, connect}
use sys_tester.Compiler.Adds.{row, extend_at-Adds}

-- The outcome is an `Ok` of which `P` holds, or an `Err`.
abbrev pub Ends : {A : Type 0} → (A → Type 0) → Outcome A → Type 0
Ends P (ok a) = P a
Ends P (err cycle) = Unit
Ends P panic = ⊥
Ends P out_of_fuel = ⊥

pub Ends->>= :
    {A B : Type 0} (P : A → Type 0) (Q : B → Type 0) (o : Outcome A) (f : A → Outcome B)
    → Ends P o
    → ((a : A) → P a → Ends Q (f a))
    → Ends Q (o >>= f)
Ends->>= P Q (ok a) f h k = k a h
Ends->>= P Q (err cycle) f h k = tt
Ends->>= P Q panic f h k = absurd h
Ends->>= P Q out_of_fuel f h k = absurd h

pub Ends-at_index :
    {A : Type 0} (xs : List A) (i : ℕ)
    → i < length xs
    → Ends (λ x. get_elem? xs i ≡ some x) (at_index xs i)
unfolding at_index
Ends-at_index [] i h = elim h [ ]
Ends-at_index (x ∷ xs) zero h = refl
Ends-at_index (x ∷ xs) (suc i) h = Ends-at_index xs i (omega arith)

-- `n` sets of numbers below `k`.
pub record Within (n k : ℕ) (edges : List (List ℕ)) : Type 0 where
  pub size : length edges ≡ n
  pub inside : (u v : ℕ) → v ∈ row edges u → v < k

abbrev pub IsBelow : ℕ → List ℕ → Type 0
IsBelow k xs = All (λ x. x < k) xs

extend_at-Ends :
    (edges : List (List ℕ)) (from : ℕ) (to : List ℕ)
    → from < length edges
    → Ends (λ _. Unit {0}) (extend_at edges from to)
unfolding extend_at
extend_at-Ends edges from to h =
    Ends->>= (λ s. get_elem? edges from ≡ some s) (λ _. Unit {0}) (at_index edges from) _
      (Ends-at_index edges from h) (λ s at. tt)

module _ (n k : ℕ) where
  pub Ends-extend_at :
      (edges : List (List ℕ)) (from : ℕ) (to : List ℕ)
      → Within n k edges
      → from < n
      → IsBelow k to
      → Ends (Within n k) (extend_at edges from to)
  Ends-extend_at edges from to w bound below =
      returned (extend_at edges from to) refl
        (extend_at-Ends edges from to (subst (λ l. from < l) (sym w.size) bound))
    where
      returned :
          (o : Outcome (List (List ℕ)))
          → extend_at edges from to ≡ o
          → Ends (λ _. Unit {0}) o
          → Ends (Within n k) o
      returned (ok edges') e h =
          let adds = extend_at-Adds edges edges' from to e in
          record {
            size = adds.size ∙ w.size;
            inside = λ u v m. elim ((adds.pairs u v).0 m) [
              | inl old ↦ w.inside u v old
              | inr p ↦ All-mem (λ x. x < k) to v below p.1
            ];
          }
      returned (err c) e h = tt
      returned panic e h = h
      returned out_of_fuel e h = h

  pub Ends-connect_from :
      (edges : List (List ℕ)) (from : ℕ) (entries : List ℕ)
      → Within n k edges
      → from < n
      → IsBelow k entries
      → Ends (Within n k) (connect_from edges from entries)
  unfolding connect_from
  Ends-connect_from edges from [] w bound below = w
  Ends-connect_from edges from (to ∷ entries) w bound below =
      Ends->>= (Within n k) (Within n k) (extend_at edges from (to ∷ [])) _
        (Ends-extend_at edges from (to ∷ []) w bound (below.0, tt))
        (λ edges' w'. Ends-connect_from edges' from entries w' bound below.1)

  pub Ends-connect :
      (edges : List (List ℕ)) (exits entries : List ℕ)
      → Within n k edges
      → IsBelow n exits
      → IsBelow k entries
      → Ends (Within n k) (connect edges exits entries)
  unfolding connect
  Ends-connect edges [] entries w below below' = w
  Ends-connect edges (from ∷ exits) entries w below below' =
      Ends->>= (Within n k) (Within n k) (connect_from edges from entries) _
        (Ends-connect_from edges from entries w below.0 below')
        (λ edges' w'. Ends-connect edges' exits entries w' below.1 below')
