-- ===== src/Runner/Schedule/Undone.antt =====
-- `iter_undone` goes through the indices whose count is not the mark.
use sys_tester.Base.{
  ℕ, suc, ◌-◌, ◌≤◌, ◌<◌, ◌≡◌, ◌≢◌, ◌⊎◌, ◌↔◌, inl, inr, sym, ◌∙◌, ap, some, List, [], ◌∷◌, length,
  get_elem?, lt-length_of_get, ◌==◌, ==→eq, ==→ne, Bool-cases, ◌∈◌, arith,
}
use sys_tester.Model.{CompiledSetup, u32_max}
use sys_tester.Runner.Request.{AtomReq}
use sys_tester.Runner.Schedule.{undone_from, iter_undone}
use sys_tester.Runner.Schedule.Counts.{pending, pending-le-length}
use sys_tester.Runner.Schedule.Release.{state}
use sys_tester.Runner.Schedule.Inv.{before_of, IsSetup, Inv}

-- The count of index `v`, with `i` the index of the first one.
abbrev Unmarked : ℕ → List ℕ → ℕ → Type 0
Unmarked i counts v = (i ≤ v) × (c : ℕ) × (get_elem? counts (v - i) ≡ some c) × (c ≢ u32_max)

module _ (i c : ℕ) (counts : List ℕ) (v : ℕ) where
  get_elem?-later : i < v → get_elem? (c ∷ counts) (v - i) ≡ get_elem? counts (v - suc i)
  get_elem?-later h = let e : v - i ≡ suc (v - suc i) = omega arith in ap (get_elem? (c ∷ counts)) e

  get_elem?-first : v ≡ i → get_elem? (c ∷ counts) (v - i) ≡ some c
  get_elem?-first h = let e : v - i ≡ 0 = omega arith in ap (get_elem? (c ∷ counts)) e

  Unmarked-later : Unmarked (suc i) counts v → Unmarked i (c ∷ counts) v
  Unmarked-later (h, k, at, ne) = (omega (arith, h), k, get_elem?-later h ∙ at, ne)

  Unmarked-first : v ≡ i → c ≢ u32_max → Unmarked i (c ∷ counts) v
  Unmarked-first e ne = (omega (arith, e), c, get_elem?-first e, ne)

  Unmarked-cases : Unmarked i (c ∷ counts) v → ((v ≡ i) × (c ≢ u32_max)) ⊎ Unmarked (suc i) counts v
  Unmarked-cases (h, k, at, ne) = elim (Bool-cases (v == i)) [
    | inl e ↦
        let same : c ≡ k = ground (arith, at, get_elem?-first (==→eq v i e)) in
        inl (==→eq v i e, λ m. ne (sym same ∙ m))
    | inr e ↦
        let later : i < v = omega (arith, h, ==→ne v i e) in
        inr (later, k, sym (get_elem?-later later) ∙ at, ne)
  ]

mem-undone_from :
    (i : ℕ) (counts : List ℕ) (v : ℕ) → (v ∈ undone_from i counts) ↔ Unmarked i counts v
unfolding undone_from
mem-undone_from i [] v = (λ m. absurd m, λ h. absurd (ground (arith, h.2)))
mem-undone_from i (c ∷ counts) v =
    let below = mem-undone_from (suc i) counts v in
    elim (Bool-cases (c == u32_max)) [
      | inl e ↦ rw e (
        λ m. Unmarked-later i c counts v (below.0 m),
        λ h. elim (Unmarked-cases i c counts v h) [
          | inl here ↦ absurd (here.1 (==→eq c u32_max e))
          | inr later ↦ below.1 later
        ],
      )
      | inr e ↦ rw e (
        λ m. elim m [
          | inl s ↦ Unmarked-first i c counts v s (==→ne c u32_max e)
          | inr later ↦ Unmarked-later i c counts v (below.0 later)
        ],
        λ h. elim (Unmarked-cases i c counts v h) [
          | inl here ↦ inl here.0
          | inr later ↦ inr (below.1 later)
        ],
      )
    ]

module _ (info : CompiledSetup) (setup : IsSetup info) (taken done : List ℕ)
    (ready : AtomReq → List ℕ) (waits : List ℕ) (inv : Inv info taken done ready waits) where
  pub mem-iter_undone :
      (v : ℕ)
      → (v ∈ iter_undone (state info ready waits)) ↔ ((v < length info.atoms) × (¬ (v ∈ done)))
  unfolding iter_undone
  mem-iter_undone v = (into, out)
    where
      from_zero : v - 0 ≡ v
      from_zero = omega arith

      into : v ∈ undone_from 0 waits → (v < length info.atoms) × (¬ (v ∈ done))
      into m =
          let (low, c, at, ne) = (mem-undone_from 0 waits v).0 m in
          let at' : get_elem? waits v ≡ some c = ap (get_elem? waits) (sym from_zero) ∙ at in
          (
            omega (arith, lt-length_of_get waits v c at', inv.size),
            λ d. ne (ground (arith, at', inv.finished v d)),
          )

      out : (v < length info.atoms) × (¬ (v ∈ done)) → v ∈ undone_from 0 waits
      out (inside, off) = (mem-undone_from 0 waits v).1 (
        omega arith,
        pending done (before_of info v),
        ap (get_elem? waits) from_zero ∙ inv.waiting v inside off,
        λ e. omega (arith, e, pending-le-length done (before_of info v), setup.few v inside),
      )
