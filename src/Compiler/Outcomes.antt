-- ===== src/Compiler/Outcomes.antt =====
-- What it says of a chain of steps that it ends with `ok`.
use sys_tester.Base.{ℕ, zero, suc, some, List, [], ◌∷◌, ◌≡◌, refl, ap, get_elem?}
use sys_tester.Graph.Topo.{Outcome, ok, err, panic, out_of_fuel, ◌>>=◌}
use sys_tester.Compiler.Sets.{at_index}

pub ok_injective : {A : Type 0} (a b : A) → ok a ≡ ok b → a ≡ b
ok_injective a b e = ap (λ (o : Outcome _). elim o [ ok x ↦ x | _ ↦ a ]) e

pub >>=-ok :
    {A B : Type 0} (o : Outcome A) (f : A → Outcome B) (b : B)
    → (o >>= f) ≡ ok b
    → (a : A) × (o ≡ ok a) × (f a ≡ ok b)
>>=-ok (ok a) f b e = (a, refl, e)
>>=-ok (err c) f b e = absurd cc
>>=-ok panic f b e = absurd cc
>>=-ok out_of_fuel f b e = absurd cc

pub at_index-some :
    {A : Type 0} (xs : List A) (i : ℕ) (x : A) → at_index xs i ≡ ok x → get_elem? xs i ≡ some x
unfolding at_index
at_index-some [] i x e = absurd cc
at_index-some (y ∷ xs) zero x e = ap some (ok_injective y x e)
at_index-some (y ∷ xs) (suc i) x e = at_index-some xs i x e
