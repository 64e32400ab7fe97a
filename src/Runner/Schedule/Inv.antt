-- ===== src/Runner/Schedule/Inv.antt =====
-- What holds of a supervisor's schedule when some atoms have been handed out and some are done, and
-- that `mark_done` keeps it.
use sys_tester.Base.{
  ℕ, ◌+◌, ◌≤◌, ◌<◌, ◌≡◌, refl, ◌↔◌, inl, inr, sym, ◌∙◌, ap, subst, some, List, ◌∷◌, length,
  get_elem?, set, length-set, get_elem?-set_self, get_elem?-set_ne, get_elem?-some, ◌==◌, ==→eq,
  ==→ne, Bool-cases, ◌∈◌, IsNodup, arith,
}
use sys_tester.Graph.Packed.{full_edges}
use sys_tester.Graph.Walk.{listed}
use sys_tester.Model.{CompiledSetup, u32_max}
use sys_tester.Runner.Request.{AtomReq}
use sys_tester.Runner.Schedule.{request_of, release_all, mark_done}
use sys_tester.Runner.Schedule.Counts.{
  count, pending, mem_of_count, count_pos_of_mem, pending-cons, pending-le-length,
  done_of_pending_zero,
}
use sys_tester.Runner.Schedule.Release.{state, IsListed, Released}
use sys_tester.Runner.Schedule.Loop.{release_all-Released}

abbrev pub after_of : CompiledSetup → ℕ → List ℕ
after_of info v = listed (full_edges info.after_graph v)

abbrev pub before_of : CompiledSetup → ℕ → List ℕ
before_of info v = listed (full_edges info.before_graph v)

-- What the supervisor needs of a compiled test: both graphs have all atoms and mirror each other, the
-- atoms stand in a topological order, fewer than `u32::MAX` edges lead to an atom, and every atom
-- has a request.
pub record IsSetup (info : CompiledSetup) : Type 0 where
  pub has_after :
      (v : ℕ) → v < length info.atoms → full_edges info.after_graph v ≡ some (after_of info v)
  pub has_before :
      (v : ℕ) → v < length info.atoms → full_edges info.before_graph v ≡ some (before_of info v)
  pub inside : (u v : ℕ) → u < length info.atoms → v ∈ after_of info u → v < length info.atoms
  pub mirror :
      (u v : ℕ)
      → u < length info.atoms
      → v < length info.atoms
      → count v (after_of info u) ≡ count u (before_of info v)
  pub earlier : (p v : ℕ) → v < length info.atoms → p ∈ before_of info v → p < v
  pub answered : (v : ℕ) → v < length info.atoms → (r : AtomReq) × (request_of info v ≡ some r)
  pub few : (v : ℕ) → v < length info.atoms → length (before_of info v) < u32_max

-- The schedule when the atoms `taken` have been handed out and the atoms `done` of them are done.
pub record Inv (info : CompiledSetup) (taken done : List ℕ) (ready : AtomReq → List ℕ)
    (waits : List ℕ) : Type 0 where
  pub size : length waits ≡ length info.atoms
  pub finished : (v : ℕ) → v ∈ done → get_elem? waits v ≡ some u32_max
  pub waiting :
      (v : ℕ)
      → v < length info.atoms
      → ¬ (v ∈ done)
      → get_elem? waits v ≡ some (pending done (before_of info v))
  pub ready_iff :
      (q : AtomReq) (v : ℕ)
      → (v ∈ ready q) ↔ (
          (v < length info.atoms)
          × (¬ (v ∈ taken))
          × (request_of info v ≡ some q)
          × (pending done (before_of info v) ≡ 0))
  pub once : (q : AtomReq) → IsNodup (ready q)
  pub begun : (v : ℕ) → v ∈ done → v ∈ taken
  pub able : (v : ℕ) → v ∈ taken → (v < length info.atoms) × (pending done (before_of info v) ≡ 0)

module _ (info : CompiledSetup) (setup : IsSetup info) where
  module _ (taken done : List ℕ) (ready : AtomReq → List ℕ) (waits : List ℕ)
      (inv : Inv info taken done ready waits) where
    ready-IsListed : IsListed info ready waits
    ready-IsListed = record {
      waits_zero = λ q v m.
          let (inside, off, asked, none_left) = (inv.ready_iff q v).0 m in
          inv.waiting v inside (λ d. off (inv.begun v d)) ∙ ap some none_left;
      under = λ q v m. let (inside, off, asked, none_left) = (inv.ready_iff q v).0 m in asked;
      once = inv.once;
    }

    module _ (id : ℕ) (has : id ∈ taken) (fresh : ¬ (id ∈ done)) where
      id_inside : id < length info.atoms
      id_inside = (inv.able id has).0

      -- An atom after one that is not done has not been handed out.
      not_taken : (v : ℕ) → v ∈ after_of info id → ¬ (v ∈ taken)
      not_taken v m t =
          let (inside, none_left) = inv.able v t in
          let before : id ∈ before_of info v = mem_of_count id (before_of info v) (
            omega (
              arith,
              setup.mirror id v id_inside inside,
              count_pos_of_mem v (after_of info id) m,
            )) in
          fresh (done_of_pending_zero done (before_of info v) id none_left before)

      pub enough :
          (x : ℕ)
          → x ∈ after_of info id
          → (c : ℕ) × (get_elem? waits x ≡ some c)
            × (count x (after_of info id) ≤ c)
            × (c ≤ u32_max)
      enough x m =
          let inside = setup.inside id x id_inside m in
          (
            pending done (before_of info x),
            inv.waiting x inside (λ d. not_taken x m (inv.begun x d)),
            omega (
              arith,
              pending-cons id done (before_of info x) fresh,
              setup.mirror id x id_inside inside,
            ),
            omega (arith, pending-le-length done (before_of info x), setup.few x inside),
          )

      -- A count that is not touched by the loop.
      none_of : (v : ℕ) → ¬ (v ∈ after_of info id) → count v (after_of info id) ≡ 0
      none_of v off = elim (Bool-cases (count v (after_of info id) == 0)) [
        | inl e ↦ ==→eq _ _ e
        | inr e ↦ absurd (off (mem_of_count v (after_of info id) (omega (arith, ==→ne _ _ e))))
      ]

      -- What the atom `v` still waits for once `id` is done.
      less :
          (v : ℕ)
          → v < length info.atoms
          → pending (id ∷ done) (before_of info v) + count v (after_of info id)
            ≡ pending done (before_of info v)
      less v inside =
          omega (
            arith,
            pending-cons id done (before_of info v) fresh,
            setup.mirror id v id_inside inside,
          )

      module _ (ready' : AtomReq → List ℕ) (waits' : List ℕ)
          (out : Released info (after_of info id) ready waits ready' waits') where
        settled :
            (v : ℕ)
            → v < length info.atoms
            → ¬ (v ∈ done)
            → get_elem? waits' v ≡ some (pending (id ∷ done) (before_of info v))
        settled v inside off =
            out.counts v (pending done (before_of info v)) (inv.waiting v inside off)
            ∙ ap some (omega (arith, less v inside))

        old_marks : (v : ℕ) → v ∈ done → get_elem? waits' v ≡ some u32_max
        old_marks v d =
            out.counts v u32_max (inv.finished v d)
            ∙ ap some (omega (arith, none_of v (λ m. not_taken v m (inv.begun v d))))

        ready_only :
            (q : AtomReq) (v : ℕ)
            → v ∈ ready' q
            → (v < length info.atoms)
              × (¬ (v ∈ taken))
              × (request_of info v ≡ some q)
              × (pending (id ∷ done) (before_of info v) ≡ 0)
        ready_only q v m = elim ((out.ready_iff q v).0 m) [
          | inl old ↦
              let (inside, off, asked, none_left) = (inv.ready_iff q v).0 old in
              (inside, off, asked, omega (arith, less v inside, none_left))
          | inr (after, zero_left, asked) ↦
              let inside = setup.inside id v id_inside after in
              let off = not_taken v after in
              let left = settled v inside (λ d. off (inv.begun v d)) in
              (inside, off, asked, ground (arith, left, zero_left))
        ]

        ready_all :
            (q : AtomReq) (v : ℕ)
            → v < length info.atoms
            → ¬ (v ∈ taken)
            → request_of info v ≡ some q
            → pending (id ∷ done) (before_of info v) ≡ 0
            → v ∈ ready' q
        ready_all q v inside off asked none_left =
            elim (Bool-cases (count v (after_of info id) == 0)) [
              | inl e ↦
                  let same : pending done (before_of info v) ≡ 0 =
                    omega (arith, less v inside, none_left, ==→eq _ _ e) in
                  (out.ready_iff q v).1 (inl ((inv.ready_iff q v).1 (inside, off, asked, same)))
              | inr e ↦
                  let after : v ∈ after_of info id =
                    mem_of_count v (after_of info id) (omega (arith, ==→ne _ _ e)) in
                  let left = settled v inside (λ d. off (inv.begun v d)) in
                  (out.ready_iff q v).1 (inr (after, left ∙ ap some none_left, asked))
            ]

        in_waits : id < length waits'
        in_waits = omega (arith, out.size, inv.size, id_inside)

        marked-Inv : Inv info taken (id ∷ done) ready' (set waits' id u32_max)
        marked-Inv = record {
          size = length-set waits' id u32_max ∙ out.size ∙ inv.size;
          finished = finished;
          waiting = λ v inside off.
              get_elem?-set_ne waits' id v u32_max (λ e. off (inl (sym e)))
              ∙ settled v inside (λ d. off (inr d));
          ready_iff = λ q v. (ready_only q v, λ h. ready_all q v h.0 h.1 h.2 h.3);
          once = out.listed.once;
          begun =
              λ v m. elim m [ inl e ↦ subst (λ y. y ∈ taken) (sym e) has | inr d ↦ inv.begun v d ];
          able = λ v m.
              let (inside, none_left) = inv.able v m in
              (inside, omega (arith, less v inside, none_left));
        }
          where
            finished :
                (v : ℕ) → v ∈ (id ∷ done) → get_elem? (set waits' id u32_max) v ≡ some u32_max
            finished v (inl e) =
                subst (λ y. get_elem? (set waits' id u32_max) y ≡ some u32_max) (sym e)
                  (get_elem?-set_self waits' id u32_max in_waits)
            finished v (inr d) =
                get_elem?-set_ne waits' id v u32_max (λ e. fresh (subst (λ y. y ∈ done) (sym e) d))
                ∙ old_marks v d

      runs_through :
          (ready' : AtomReq → List ℕ) (waits' : List ℕ) (c : ℕ)
          → release_all (state info ready waits) (after_of info id)
            ≡ some (state info ready' waits')
          → get_elem? waits' id ≡ some c
          → mark_done (state info ready waits) id ≡ some (state info ready' (set waits' id u32_max))
      unfolding mark_done full_edges
      runs_through ready' waits' c runs there = rw (setup.has_after id id_inside, runs, there) refl

      -- `mark_done` of an atom that was handed out and is not done does not panic.
      pub mark_done-Inv :
          (ready' : AtomReq → List ℕ) × (waits' : List ℕ) × (mark_done (state info ready waits) id
            ≡ some (state info ready' waits'))
          × Inv info taken (id ∷ done) ready' waits'
      mark_done-Inv =
          let (ready', waits', runs, out) =
            release_all-Released info (after_of info id) ready waits
              (λ x m. setup.answered x (setup.inside id x id_inside m)) enough ready-IsListed in
          let (c, there) = get_elem?-some waits' id (in_waits ready' waits' out) in
          (
            ready',
            set waits' id u32_max,
            runs_through ready' waits' c runs there,
            marked-Inv ready' waits' out,
          )
