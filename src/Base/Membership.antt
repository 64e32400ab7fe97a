-- ===== src/Base/Membership.antt =====
-- Membership and absence of repetition, by recursion, so that the tactics read and build them.
use Prim.Native.Nat.{ℕ, zero, suc, ◌+◌, ◌≤◌, ◌<◌}
use mathlib.Core.Path.{◌≡◌, refl, sym, ap, subst}
use mathlib.Core.Logic.{◌↔◌, ◌⊎◌, inl, inr}
use mathlib.Core.List.{List, [], ◌∷◌, ◌++◌, map, reverse, reverse-cons}
use mathlib.Core.Option.{some}
use native.Mathlib.Omega.{arith}
use sys_tester.Base.Lists.{get_elem?, range_from}

infix 40 ◌∈◌
abbrev pub ◌∈◌ : {A : Type 0} → A → List A → Type 0
a ∈ [] = ⊥
a ∈ (x ∷ xs) = (a ≡ x) ⊎ (a ∈ xs)

-- Every element satisfies the predicate.
abbrev pub All {ℓ κ} : {A : Type ℓ} → (A → Type κ) → List A → Type κ
All P [] = Unit
All P (x ∷ xs) = P x × All P xs

-- No element stands twice.
abbrev pub IsNodup : {A : Type 0} → List A → Type 0
IsNodup [] = Unit {0}
IsNodup (x ∷ xs) = (¬ (x ∈ xs)) × IsNodup xs

module _ {A : Type 0} where
  pub mem-append : (a : A) (xs ys : List A) → (a ∈ (xs ++ ys)) ↔ ((a ∈ xs) ⊎ (a ∈ ys))
  mem-append a [] ys = (inr, elim [ inl m ↦ absurd m | inr m ↦ m ])
  mem-append a (x ∷ xs) ys = ground (arith, mem-append a xs ys)

  pub mem-reverse : (a : A) (xs : List A) → (a ∈ reverse xs) ↔ (a ∈ xs)
  mem-reverse a [] = (λ m. m, λ m. m)
  mem-reverse a (x ∷ xs) =
      rw (reverse-cons x xs) (ground (arith, mem-append a (reverse xs) (x ∷ []), mem-reverse a xs))

pub mem-map : {A B : Type 0} (f : A → B) (a : A) (xs : List A) → a ∈ xs → f a ∈ map f xs
mem-map f a [] m = m
mem-map f a (x ∷ xs) (inl e) = inl (ap f e)
mem-map f a (x ∷ xs) (inr m) = inr (mem-map f a xs m)

pub mem-range_from : (a i n : ℕ) → (a ∈ range_from i n) ↔ ((i ≤ a) × (a < i + n))
mem-range_from a i zero = (λ m. absurd m, λ h. absurd (omega arith))
mem-range_from a i (suc n) = ground (arith, mem-range_from a (suc i) n)

module _ {A : Type 0} (P : A → Type 0) where
  pub All-mem : (xs : List A) (x : A) → All P xs → x ∈ xs → P x
  All-mem [] x h m = absurd m
  All-mem (y ∷ xs) x h (inl e) = subst P (sym e) h.0
  All-mem (y ∷ xs) x h (inr m) = All-mem xs x h.1 m

  pub All-get : (xs : List A) (i : ℕ) (x : A) → All P xs → get_elem? xs i ≡ some x → P x
  All-get [] i x h e = absurd (ground arith)
  All-get (y ∷ xs) zero x h e = subst P (ground arith) h.0
  All-get (y ∷ xs) (suc i) x h e = All-get xs i x h.1 e

  pub All-of_mem : (xs : List A) → ((x : A) → x ∈ xs → P x) → All P xs
  All-of_mem [] h = tt
  All-of_mem (x ∷ xs) h = (h x (inl refl), All-of_mem xs (λ y m. h y (inr m)))
