-- ===== src/Runner/Schedule/Loop.antt =====
-- The whole loop of `mark_done`, round by round.
use sys_tester.Base.{
  ℕ, suc, ◌-◌, ◌≤◌, ◌≡◌, refl, ◌⊎◌, inl, inr, sym, ◌∙◌, ap, subst, some, List, [], ◌∷◌, get_elem?,
  set, length-set, get_elem?-set_self, get_elem?-set_ne, lt-length_of_get, ◌==◌, ==→eq, ==→ne,
  ==_self, Bool-cases, ◌∈◌, arith,
}
use sys_tester.Model.{CompiledSetup, u32_max}
use sys_tester.Runner.Request.{AtomReq}
use sys_tester.Runner.Schedule.{request_of, release_all}
use sys_tester.Runner.Schedule.Counts.{count, mem_of_count}
use sys_tester.Runner.Schedule.Release.{state, IsListed, Released, Round, round_lem, above_zero}

module _ (info : CompiledSetup) where
  module _ (x c : ℕ) (r : AtomReq) (ready : AtomReq → List ℕ) (waits : List ℕ)
      (asked : request_of info x ≡ some r) (at : get_elem? waits x ≡ some (suc c))
      (small : suc c ≤ u32_max) (listed : IsListed info ready waits) where
    -- The first round and the rest of the loop together.
    join :
        (xs : List ℕ) (ready₁ ready' : AtomReq → List ℕ) (waits' : List ℕ)
        → count x xs ≤ c
        → Round info x c r ready waits ready₁
        → Released info xs ready₁ (set waits x c) ready' waits'
        → Released info (x ∷ xs) ready waits ready' waits'
    join xs ready₁ ready' waits' few first rest = record {
      size = rest.size ∙ length-set waits x c;
      counts = counts;
      listed = rest.listed;
      ready_iff = λ q v. (into q v, out q v);
    }
      where
        at_x : get_elem? waits' x ≡ some (c - count x xs)
        at_x = rest.counts x c (get_elem?-set_self waits x c (lt-length_of_get waits x _ at))

        left : {k : ℕ} → k ≡ suc c → c - count x xs ≡ k - suc (count x xs)
        left e = omega arith

        counts :
            (v k : ℕ)
            → get_elem? waits v ≡ some k
            → get_elem? waits' v ≡ some (k - count v (x ∷ xs))
        counts v k here = elim (Bool-cases (v == x)) [
          | inl e ↦ rw e (
              subst (λ y. get_elem? waits' y ≡ some (k - suc (count y xs))) (sym (==→eq v x e))
                (at_x ∙ ap some (left (ground (arith, at, here, ==→eq v x e)))))
          | inr e ↦
              rw e
                (rest.counts v k (get_elem?-set_ne waits x v c (λ s. ==→ne v x e (sym s)) ∙ here))
        ]

        into :
            (q : AtomReq) (v : ℕ)
            → v ∈ ready' q
            → (v ∈ ready q)
              ⊎ (v ∈ (x ∷ xs)) × (get_elem? waits' v ≡ some 0) × (request_of info v ≡ some q)
        into q v m = elim ((rest.ready_iff q v).0 m) [
          | inl m' ↦ elim ((first.ready_iff q v).0 m') [
            | inl old ↦ inl old
            | inr (s, _, _) ↦ inr (inl s, rest.listed.waits_zero q v m, rest.listed.under q v m)
          ]
          | inr (m', zero_left, under) ↦ inr (inr m', zero_left, under)
        ]

        out :
            (q : AtomReq) (v : ℕ)
            → (v ∈ ready q)
              ⊎ (v ∈ (x ∷ xs)) × (get_elem? waits' v ≡ some 0) × (request_of info v ≡ some q)
            → v ∈ ready' q
        out q v (inl m) = (rest.ready_iff q v).1 (inl ((first.ready_iff q v).1 (inl m)))
        out q v (inr (inr m, h, h')) = (rest.ready_iff q v).1 (inr (m, h, h'))
        out q v (inr (inl s, zero_left, under)) =
            let used_up : c - count x xs ≡ 0 =
              ground (arith, at_x, subst (λ y. get_elem? waits' y ≡ some 0) s zero_left) in
            elim (Bool-cases (c == 0)) [
              | inl e ↦
                  let same : r ≡ q =
                    ground (arith, asked, subst (λ y. request_of info y ≡ some q) s under) in
                  (rest.ready_iff q v).1
                    (inl ((first.ready_iff q v).1 (inr (s, ==→eq c 0 e, same))))
              | inr e ↦
                  let again : x ∈ xs =
                    mem_of_count x xs (ground (arith, used_up, few, ==→ne c 0 e)) in
                  (rest.ready_iff q v).1 (inr (subst (λ y. y ∈ xs) (sym s) again, zero_left, under))
            ]

  -- What is left to take suffices for the rest of the loop.
  enough_left :
      (x c : ℕ) (waits xs : List ℕ)
      → get_elem? waits x ≡ some (suc c)
      → count x xs ≤ c
      → suc c ≤ u32_max
      → ((y : ℕ)
          → y ∈ xs
          → (k : ℕ) × (get_elem? waits y ≡ some k) × (count y (x ∷ xs) ≤ k) × (k ≤ u32_max))
      → (y : ℕ) → y ∈ xs
      → (k : ℕ) × (get_elem? (set waits x c) y ≡ some k) × (count y xs ≤ k) × (k ≤ u32_max)
  enough_left x c waits xs at few small enough y m = elim (Bool-cases (y == x)) [
    | inl e ↦
        rw (==→eq y x e) (
          c,
          get_elem?-set_self waits x c (lt-length_of_get waits x _ at),
          few,
          omega (arith, small),
        )
    | inr e ↦
        let (k, here, rest, low) = enough y m in
        (
          k,
          get_elem?-set_ne waits x y c (λ s. ==→ne y x e (sym s)) ∙ here,
          ground (arith, rest, e),
          low,
        )
  ]

  -- The whole loop: no round panics, and each count loses the number of the atom's occurrences.
  pub release_all-Released :
      (xs : List ℕ) (ready : AtomReq → List ℕ) (waits : List ℕ)
      → ((x : ℕ) → x ∈ xs → (r : AtomReq) × (request_of info x ≡ some r))
      → ((x : ℕ)
          → x ∈ xs
          → (c : ℕ) × (get_elem? waits x ≡ some c) × (count x xs ≤ c) × (c ≤ u32_max))
      → IsListed info ready waits
      → (ready' : AtomReq → List ℕ) × (waits' : List ℕ) × (release_all (state info ready waits) xs
          ≡ some (state info ready' waits'))
        × Released info xs ready waits ready' waits'
  unfolding release_all
  release_all-Released [] ready waits asked enough listed = (
    ready,
    waits,
    refl,
    record {
      size = refl;
      counts = λ v c at. at ∙ ap some (omega arith);
      listed = listed;
      ready_iff = λ q v. (inl, elim [ inl m ↦ m | inr (m, _, _) ↦ absurd m ]);
    },
  )
  release_all-Released (x ∷ xs) ready waits asked enough listed =
      let (k, here, few, small) = enough x (inl refl) in
      let (c, is_suc) = above_zero k (ground (arith, few, ==_self x)) in
      let at : get_elem? waits x ≡ some (suc c) = here ∙ ap some is_suc in
      let small' : suc c ≤ u32_max = omega (arith, small, is_suc) in
      let (r, request) = asked x (inl refl) in
      let few' : count x xs ≤ c = ground (arith, few, is_suc, ==_self x) in
      let (ready₁, first) = round_lem info x c r ready waits request at small' listed in
      let (ready', waits', runs, rest) =
        release_all-Released xs ready₁ (set waits x c) (λ y m. asked y (inr m))
          (enough_left x c waits xs at few' small' (λ y m. enough y (inr m))) first.listed in
      (
        ready',
        waits',
        rw (first.runs, release_all) runs,
        join x c r ready waits request at small' listed xs ready₁ ready' waits' few' first rest,
      )
