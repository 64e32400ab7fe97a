-- ===== src/Base/Sort.antt =====
-- `slice::sort_unstable_by_key` and `Vec::dedup` of the standard library, on lists of numbers. Which
-- of two elements with equal keys comes first is left open by the library; the theorems are used
-- where equal keys mean equal elements.
use Prim.Native.Nat.{ℕ, ◌≤◌, ◌<◌}
use mathlib.Core.Path.{◌≡◌, refl}
use mathlib.Core.Logic.{◌↔◌, ◌⊎◌, inl, inr}
use mathlib.Core.Bool.{true, false}
use mathlib.Core.List.{List, [], ◌∷◌}
use native.Mathlib.Omega.{arith}
use sys_tester.Base.Tests.{leb, ◌==◌, Bool-cases, ==→ne}
use sys_tester.Base.Membership.{◌∈◌, All}

pub insert_by_key : (ℕ → ℕ) → ℕ → List ℕ → List ℕ
insert_by_key key x [] = x ∷ []
insert_by_key key x (y ∷ ys) = elim (leb (key x) (key y)) [
  | true ↦ x ∷ y ∷ ys
  | false ↦ y ∷ insert_by_key key x ys
]

unfoldable pub sort_by_key : (ℕ → ℕ) → List ℕ → List ℕ
unfolding insert_by_key
sort_by_key key [] = []
sort_by_key key (x ∷ xs) = insert_by_key key x (sort_by_key key xs)

-- The elements behind one that is kept.
pub dedup_after : ℕ → List ℕ → List ℕ
dedup_after x [] = []
dedup_after x (y ∷ ys) = elim (x == y) [ true ↦ dedup_after x ys | false ↦ y ∷ dedup_after y ys ]

unfoldable pub dedup : List ℕ → List ℕ
unfolding dedup_after
dedup [] = []
dedup (x ∷ xs) = x ∷ dedup_after x xs

mem-insert_by_key :
    (key : ℕ → ℕ) (a x : ℕ) (ys : List ℕ) → (a ∈ insert_by_key key x ys) ↔ ((a ≡ x) ⊎ (a ∈ ys))
unfolding insert_by_key
mem-insert_by_key key a x [] = (λ m. m, λ m. m)
mem-insert_by_key key a x (y ∷ ys) = ground (arith, mem-insert_by_key key a x ys)

pub mem-sort_by_key : (key : ℕ → ℕ) (a : ℕ) (xs : List ℕ) → (a ∈ sort_by_key key xs) ↔ (a ∈ xs)
unfolding sort_by_key
mem-sort_by_key key a [] = (λ m. m, λ m. m)
mem-sort_by_key key a (x ∷ xs) =
    ground (arith, mem-insert_by_key key a x (sort_by_key key xs), mem-sort_by_key key a xs)

mem-dedup_after :
    (a x : ℕ) (ys : List ℕ) → ((a ≡ x) ⊎ (a ∈ dedup_after x ys)) ↔ ((a ≡ x) ⊎ (a ∈ ys))
unfolding dedup_after
mem-dedup_after a x [] = (λ m. m, λ m. m)
mem-dedup_after a x (y ∷ ys) = ground (arith, mem-dedup_after a x ys, mem-dedup_after a y ys)

pub mem-dedup : (a : ℕ) (xs : List ℕ) → (a ∈ dedup xs) ↔ (a ∈ xs)
unfolding dedup
mem-dedup a [] = (λ m. m, λ m. m)
mem-dedup a (x ∷ xs) = mem-dedup_after a x xs

-- The keys do not fall, from left to right.
abbrev pub IsSorted : (ℕ → ℕ) → List ℕ → Type 0
IsSorted key [] = Unit {0}
IsSorted key (x ∷ xs) = All (λ y. key x ≤ key y) xs × IsSorted key xs

-- The keys rise.
abbrev pub IsAscending : (ℕ → ℕ) → List ℕ → Type 0
IsAscending key [] = Unit {0}
IsAscending key (x ∷ xs) = All (λ y. key x < key y) xs × IsAscending key xs

module _ (key : ℕ → ℕ) where
  All-le_trans : (a b : ℕ) (xs : List ℕ) → a ≤ b → All (λ y. b ≤ key y) xs → All (λ y. a ≤ key y) xs
  All-le_trans a b [] h all = tt
  All-le_trans a b (x ∷ xs) h all = (omega arith, All-le_trans a b xs h all.1)

  All-insert_by_key :
      (a x : ℕ) (ys : List ℕ)
      → a ≤ key x
      → All (λ y. a ≤ key y) ys
      → All (λ y. a ≤ key y) (insert_by_key key x ys)
  unfolding insert_by_key
  All-insert_by_key a x [] h all = (h, tt)
  All-insert_by_key a x (y ∷ ys) h all = ground (arith, All-insert_by_key a x ys)

  insert_by_key-IsSorted :
      (x : ℕ) (ys : List ℕ) → IsSorted key ys → IsSorted key (insert_by_key key x ys)
  unfolding insert_by_key
  insert_by_key-IsSorted x [] h = (tt, tt)
  insert_by_key-IsSorted x (y ∷ ys) h = elim (Bool-cases (leb (key x) (key y))) [
    | inl e ↦
        let low : key x ≤ key y = ground arith in
        rw (e, insert_by_key) ((low, All-le_trans (key x) (key y) ys low h.0), h)
    | inr e ↦
        let high : key y ≤ key x = ground arith in
        rw (e, insert_by_key)
          (All-insert_by_key (key y) x ys high h.0, insert_by_key-IsSorted x ys h.1)
  ]

  pub sort_by_key-IsSorted : (xs : List ℕ) → IsSorted key (sort_by_key key xs)
  unfolding sort_by_key
  sort_by_key-IsSorted [] = tt
  sort_by_key-IsSorted (x ∷ xs) =
      insert_by_key-IsSorted x (sort_by_key key xs) (sort_by_key-IsSorted xs)

  -- On elements that their keys tell apart, removing equal neighbours makes the keys rise.
  dedup_after-IsAscending :
      (x : ℕ) (ys : List ℕ)
      → ((a b : ℕ) → a ∈ (x ∷ ys) → b ∈ (x ∷ ys) → key a ≡ key b → a ≡ b)
      → IsSorted key (x ∷ ys)
      → IsAscending key (x ∷ dedup_after x ys)
  unfolding dedup_after
  dedup_after-IsAscending x [] apart h = (tt, tt)
  dedup_after-IsAscending x (y ∷ ys) apart h = elim (Bool-cases (x == y)) [
    | inl e ↦
        rw (e, dedup_after)
          (dedup_after-IsAscending x ys (λ a b ma mb. apart a b (skip a ma) (skip b mb))
            (h.0.1, h.1.1))
    | inr e ↦
        let (above, rest) =
          dedup_after-IsAscending y ys (λ a b ma mb. apart a b (inr ma) (inr mb)) h.1 in
        let less : key x < key y =
          ground (arith, apart x y (inl refl) (inr (inl refl)), ==→ne x y e) in
        rw (e, dedup_after) ((less, raise less (dedup_after y ys) above), (above, rest))
  ]
    where
      skip : (a : ℕ) → a ∈ (x ∷ ys) → a ∈ (x ∷ y ∷ ys)
      skip a (inl q) = inl q
      skip a (inr m) = inr (inr m)

      raise :
          key x < key y
          → (zs : List ℕ) → All (λ (z : ℕ). key y < key z) zs
          → All (λ (z : ℕ). key x < key z) zs
      raise less [] all = tt
      raise less (z ∷ zs) all = (omega arith, raise less zs all.1)

  pub dedup-IsAscending :
      (xs : List ℕ)
      → ((a b : ℕ) → a ∈ xs → b ∈ xs → key a ≡ key b → a ≡ b)
      → IsSorted key xs
      → IsAscending key (dedup xs)
  unfolding dedup
  dedup-IsAscending [] apart h = tt
  dedup-IsAscending (x ∷ xs) apart h = dedup_after-IsAscending x xs apart h
