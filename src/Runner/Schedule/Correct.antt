-- ===== src/Runner/Schedule/Correct.antt =====
-- The schedules that a supervisor reaches, and what the answers of its operations are there.
use sys_tester.Base.{
  some_injective, ℕ, ◌≤◌, ◌<◌, ◌≡◌, refl, ◌↔◌, inl, inr, sym, ◌∙◌, ap, subst, none, some, List, [],
  ◌∷◌, length, get_elem?, List-cases, ◌∈◌,
}
use sys_tester.Model.{CompiledSetup}
use sys_tester.Runner.Request.{AtomReq}
use sys_tester.Runner.Schedule.{
  Schedule, request_of, new_schedule, mark_done, get_task, iter_undone,
}
use sys_tester.Runner.Schedule.Counts.{count, done_of_pending_zero, pending_zero_of_done}
use sys_tester.Runner.Schedule.Release.{state}
use sys_tester.Runner.Schedule.Inv.{after_of, before_of, IsSetup, Inv, mark_done-Inv, enough}
use sys_tester.Runner.Schedule.Take.{popped, popped-Inv, get_task_runs, get_task_empty}
use sys_tester.Runner.Schedule.Build.{new_schedule-Inv}
use sys_tester.Runner.Schedule.Undone.{mem-iter_undone}

-- The supervisor is created, hands out atoms by `get_task`, and is told by `mark_done`, once for each,
-- that atoms it has handed out are done.
pub data Reach (info : CompiledSetup) : List ℕ → List ℕ → Schedule → Type 0 where
  created : (s : Schedule) → new_schedule info ≡ some s → Reach info [] [] s
  handed_out :
      (taken done : List ℕ) (s s' : Schedule) (r : AtomReq) (id total : ℕ)
      → Reach info taken done s
      → get_task s r ≡ some ((id, total), s')
      → Reach info (id ∷ taken) done s'
  completed :
      (taken done : List ℕ) (s s' : Schedule) (id : ℕ)
      → Reach info taken done s
      → id ∈ taken
      → ¬ (id ∈ done)
      → mark_done s id ≡ some s'
      → Reach info taken (id ∷ done) s'

-- The schedule has the invariant.
pub record IsSound (info : CompiledSetup) (taken done : List ℕ) (s : Schedule) : Type 0 where
  pub ready : AtomReq → List ℕ
  pub waits : List ℕ
  pub shape : s ≡ state info ready waits
  pub inv : Inv info taken done ready waits

-- What `get_task` does to a sound schedule.
module _ (info : CompiledSetup) (taken done : List ℕ) (ready : AtomReq → List ℕ) (waits : List ℕ)
    (inv : Inv info taken done ready waits) (r : AtomReq) where
  taken_from :
      (id total : ℕ) (s' : Schedule)
      → get_task (state info ready waits) r ≡ some ((id, total), s')
      → (rest : List ℕ) × (ready r ≡ id ∷ rest)
        × (total ≡ length (id ∷ rest))
        × (s' ≡ state info (popped r rest ready) waits)
  taken_from id total s' e = elim (List-cases (ready r)) [
    | inl empty ↦ absurd (cc (e, get_task_empty info ready waits r empty))
    | inr (id', rest, head) ↦
        let answer =
          some_injective _ _ (sym (get_task_runs info ready waits r id' rest head) ∙ e) in
        let same = ap (λ (a : (ℕ × ℕ) × Schedule). a.0.0) answer in
        (
          rest,
          head ∙ ap (λ x. x ∷ rest) same,
          sym (ap (λ (a : (ℕ × ℕ) × Schedule). a.0.1) answer),
          sym (ap (λ (a : (ℕ × ℕ) × Schedule). a.1) answer),
        )
  ]

module _ (info : CompiledSetup) (setup : IsSetup info) where
  pub Reach-IsSound :
      (taken done : List ℕ) (s : Schedule) → Reach info taken done s → IsSound info taken done s
  Reach-IsSound _ _ _ (created s e) =
      let (ready, waits, runs, inv) = new_schedule-Inv info setup in
      record { ready = ready; waits = waits; shape = some_injective _ _ (sym e ∙ runs); inv = inv }
  Reach-IsSound _ _ _ (handed_out taken done s s' r id total reach e) =
      let i = Reach-IsSound taken done s reach in
      let (rest, head, size, shape) =
        taken_from info taken done i.ready i.waits i.inv r id total s'
          (ap (λ x. get_task x r) (sym i.shape) ∙ e) in
      record {
        ready = popped r rest i.ready;
        waits = i.waits;
        shape = shape;
        inv = popped-Inv info taken done i.ready i.waits i.inv r id rest head;
      }
  Reach-IsSound _ _ _ (completed taken done s s' id reach has fresh e) =
      let i = Reach-IsSound taken done s reach in
      let (ready', waits', runs, inv') =
        mark_done-Inv info setup taken done i.ready i.waits i.inv id has fresh in
      record {
        ready = ready';
        waits = waits';
        shape = some_injective _ _ (sym e ∙ ap (λ x. mark_done x id) i.shape ∙ runs);
        inv = inv';
      }

-- The atom may be handed out for the request: it exists, it was not handed out, it answers the
-- request, and the atoms before it are all done.
pub record IsDue (info : CompiledSetup) (taken done : List ℕ) (r : AtomReq) (id : ℕ) : Type 0 where
  pub inside : id < length info.atoms
  pub fresh : ¬ (id ∈ taken)
  pub answers : request_of info id ≡ some r
  pub after : (p : ℕ) → p ∈ before_of info id → p ∈ done

module _ (info : CompiledSetup) (taken done : List ℕ) (ready : AtomReq → List ℕ) (waits : List ℕ)
    (inv : Inv info taken done ready waits) (r : AtomReq) (id : ℕ) where
  IsDue-ready : id ∈ ready r → IsDue info taken done r id
  IsDue-ready m =
      let (inside, off, asked, none_left) = (inv.ready_iff r id).0 m in
      record {
        inside = inside;
        fresh = off;
        answers = asked;
        after = λ p. done_of_pending_zero done (before_of info id) p none_left;
      }

  pub ready-IsDue : IsDue info taken done r id → id ∈ ready r
  ready-IsDue d =
      (inv.ready_iff r id).1
        (d.inside, d.fresh, d.answers, pending_zero_of_done done (before_of info id) d.after)

-- In every schedule that a supervisor of a proper setup reaches, `get_task` hands out only an atom that
-- answers the request, was not handed out before, and comes after done atoms only; and it
-- answers `None` only if there is no such atom.
pub get_task-IsDue :
    (info : CompiledSetup) (taken done : List ℕ) (s : Schedule) (r : AtomReq)
    → IsSetup info
    → Reach info taken done s
    → ((id total : ℕ) (s' : Schedule)
        → get_task s r ≡ some ((id, total), s')
        → IsDue info taken done r id)
      × (get_task s r ≡ none → (id : ℕ) → ¬ IsDue info taken done r id)
get_task-IsDue info taken done s r setup reach = (sound, complete)
  where
    i : IsSound info taken done s
    i = Reach-IsSound info setup taken done s reach

    asked : get_task s r ≡ get_task (state info i.ready i.waits) r
    asked = ap (λ x. get_task x r) i.shape

    sound :
        (id total : ℕ) (s' : Schedule)
        → get_task s r ≡ some ((id, total), s')
        → IsDue info taken done r id
    sound id total s' e =
        let (rest, head, size, shape) =
          taken_from info taken done i.ready i.waits i.inv r id total s' (sym asked ∙ e) in
        IsDue-ready info taken done i.ready i.waits i.inv r id (rw head (inl refl))

    complete : get_task s r ≡ none → (id : ℕ) → ¬ IsDue info taken done r id
    complete e id d = elim (List-cases (i.ready r)) [
      | inl empty ↦
          subst (λ xs. id ∈ xs) empty (ready-IsDue info taken done i.ready i.waits i.inv r id d)
      | inr (id', rest, head) ↦
          absurd (cc (e, asked, get_task_runs info i.ready i.waits r id' rest head))
    ]

-- In every schedule that a supervisor of a proper setup reaches, `mark_done` of an atom that was
-- handed out and is not marked yet does not panic, and the debug assertion holds: every atom after it
-- still has a count that suffices for all the decrements.
pub mark_done_returns :
    (info : CompiledSetup) (taken done : List ℕ) (s : Schedule) (id : ℕ)
    → IsSetup info
    → Reach info taken done s
    → id ∈ taken
    → ¬ (id ∈ done)
    → ((s' : Schedule) × (mark_done s id ≡ some s'))
      × ((x : ℕ)
          → x ∈ after_of info id
          → (c : ℕ) × (get_elem? s.wait_counts x ≡ some c) × (count x (after_of info id) ≤ c))
mark_done_returns info taken done s id setup reach has fresh =
    let i = Reach-IsSound info setup taken done s reach in
    let (ready', waits', runs, inv') =
      mark_done-Inv info setup taken done i.ready i.waits i.inv id has fresh in
    (
      (state info ready' waits', ap (λ x. mark_done x id) i.shape ∙ runs),
      λ x m.
          let (c, at, suffices, _) =
            enough info setup taken done i.ready i.waits i.inv id has fresh x m in
          (c, ap (λ (y : Schedule). get_elem? y.wait_counts x) i.shape ∙ at, suffices),
    )

-- In every schedule that a supervisor of a proper setup reaches, `iter_undone` goes through exactly the
-- atoms that have not been marked as done.
pub iter_undone_iff :
    (info : CompiledSetup) (taken done : List ℕ) (s : Schedule) (v : ℕ)
    → IsSetup info
    → Reach info taken done s
    → (v ∈ iter_undone s) ↔ ((v < length info.atoms) × (¬ (v ∈ done)))
iter_undone_iff info taken done s v setup reach =
    let i = Reach-IsSound info setup taken done s reach in
    rw i.shape (mem-iter_undone info setup taken done i.ready i.waits i.inv v)

-- `Supervisor::new` of a proper setup does not panic, and no atom is done in what it returns.
pub new_schedule_returns :
    (info : CompiledSetup)
    → IsSetup info
    → (s : Schedule) × (new_schedule info ≡ some s)
      × ((v : ℕ) → (v ∈ iter_undone s) ↔ (v < length info.atoms))
new_schedule_returns info setup =
    let (ready, waits, runs, inv) = new_schedule-Inv info setup in
    (
      state info ready waits,
      runs,
      λ v.
          let undone =
            iter_undone_iff info [] [] (state info ready waits) v setup (created _ runs) in
          (λ m. (undone.0 m).0, λ h. undone.1 (h, λ d. d)),
    )
