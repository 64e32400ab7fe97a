-- ===== src/Compiler/Yields.antt =====
-- What steps leave behind when they return, whether or not they can panic.
use sys_tester.Base.{
  ℕ, zero, suc, Bool, true, false, some, List, [], ◌∷◌, ◌≡◌, refl, subst, get_elem?, ◌∈◌, inl, inr,
}
use sys_tester.Graph.Topo.{Outcome, ok, err, panic, out_of_fuel, ◌>>=◌}
use sys_tester.Compiler.Sets.{at_index, extend_at, connect_from, connect}
use sys_tester.Compiler.Outcomes.{>>=-ok}
use sys_tester.Compiler.Adds.{Adds, Adds-ok, Adds-iff, Adds-trans, extend_at-Adds}

-- `P` holds of the result, if there is one.
abbrev pub Yields : {A : Type 0} → (A → Type 0) → Outcome A → Type 0
Yields P (ok a) = P a
Yields P (err cycle) = Unit
Yields P panic = Unit
Yields P out_of_fuel = Unit

pub Yields->>= :
    {A B : Type 0} (P : A → Type 0) (Q : B → Type 0) (o : Outcome A) (f : A → Outcome B)
    → Yields P o
    → ((a : A) → P a → Yields Q (f a))
    → Yields Q (o >>= f)
Yields->>= P Q (ok a) f h k = k a h
Yields->>= P Q (err cycle) f h k = tt
Yields->>= P Q panic f h k = tt
Yields->>= P Q out_of_fuel f h k = tt

pub Yields-by :
    {A : Type 0} (P : A → Type 0) (c : Bool) (x y : Outcome A)
    → (c ≡ true → Yields P x)
    → (c ≡ false → Yields P y)
    → Yields P (elim c [ true ↦ x | false ↦ y ])
Yields-by P true x y h h' = h refl
Yields-by P false x y h h' = h' refl

pub Yields-at_index :
    {A : Type 0} (xs : List A) (i : ℕ) → Yields (λ x. get_elem? xs i ≡ some x) (at_index xs i)
unfolding at_index
Yields-at_index [] i = tt
Yields-at_index (x ∷ xs) zero = refl
Yields-at_index (x ∷ xs) (suc i) = Yields-at_index xs i

pub Yields-ok : {A : Type 0} (P : A → Type 0) (o : Outcome A) (a : A) → Yields P o → o ≡ ok a → P a
Yields-ok P o a h e = subst (Yields P) e h

pub Yields-of :
    {A : Type 0} (P : A → Type 0) (o : Outcome A) → ((a : A) → o ≡ ok a → P a) → Yields P o
Yields-of P (ok a) h = h a refl
Yields-of P (err cycle) h = tt
Yields-of P panic h = tt
Yields-of P out_of_fuel h = tt

connect_from-Adds :
    (edges edges' : List (List ℕ)) (from : ℕ) (entries : List ℕ)
    → connect_from edges from entries ≡ ok edges'
    → Adds (λ u v. (u ≡ from) × (v ∈ entries)) edges edges'
unfolding connect_from
connect_from-Adds edges edges' from [] e =
    Adds-iff (λ u v. (λ h. absurd h, λ p. p.1)) (Adds-ok edges edges' e)
connect_from-Adds edges edges' from (to ∷ entries) e =
    let (mid, first, then) = >>=-ok (extend_at edges from (to ∷ [])) _ edges' e in
    Adds-iff
      (λ u v. (
        elim [ inl (q, inl m) ↦ (q, inl m) | inl (q, inr m) ↦ absurd m | inr (q, m) ↦ (q, inr m) ],
        λ p. elim p.1 [ inl m ↦ inl (p.0, inl m) | inr m ↦ inr (p.0, m) ],
      ))
      (Adds-trans (extend_at-Adds edges mid from (to ∷ []) first)
        (connect_from-Adds mid edges' from entries then))

-- `connect` adds the pairs of an exit and an entry, and no other.
pub connect-Adds :
    (edges edges' : List (List ℕ)) (exits entries : List ℕ)
    → connect edges exits entries ≡ ok edges'
    → Adds (λ u v. (u ∈ exits) × (v ∈ entries)) edges edges'
unfolding connect
connect-Adds edges edges' [] entries e =
    Adds-iff (λ u v. (λ h. absurd h, λ p. p.0)) (Adds-ok edges edges' e)
connect-Adds edges edges' (from ∷ exits) entries e =
    let (mid, first, then) = >>=-ok (connect_from edges from entries) _ edges' e in
    Adds-iff
      (λ u v. (
        elim [ inl (q, m) ↦ (inl q, m) | inr (x, m) ↦ (inr x, m) ],
        λ p. elim p.0 [ inl q ↦ inl (q, p.1) | inr x ↦ inr (x, p.1) ],
      ))
      (Adds-trans (connect_from-Adds edges mid from entries first)
        (connect-Adds mid edges' exits entries then))

pub Yields-map :
    {A : Type 0} (P Q : A → Type 0) (o : Outcome A)
    → Yields P o
    → ((a : A) → P a → Q a)
    → Yields Q o
Yields-map P Q (ok a) h k = k a h
Yields-map P Q (err cycle) h k = tt
Yields-map P Q panic h k = tt
Yields-map P Q out_of_fuel h k = tt
