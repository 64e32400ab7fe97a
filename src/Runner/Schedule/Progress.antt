-- ===== src/Runner/Schedule/Progress.antt =====
-- The supervisor does not get stuck: while atoms are left, one of them can be handed out.
use sys_tester.Base.{
  ℕ, zero, suc, ◌<◌, ◌≡◌, inl, inr, ◌∙◌, ap, subst, some, List, ◌∷◌, length, List-cases, ◌==◌,
  ==→eq, ==→ne, Bool-cases, ◌∈◌, arith,
}
use sys_tester.Model.{CompiledSetup}
use sys_tester.Runner.Request.{AtomReq}
use sys_tester.Runner.Schedule.{Schedule, get_task, iter_undone}
use sys_tester.Runner.Schedule.Counts.{pending, pending_one, done_of_pending_zero}
use sys_tester.Runner.Schedule.Release.{state}
use sys_tester.Runner.Schedule.Inv.{before_of, IsSetup}
use sys_tester.Runner.Schedule.Take.{popped, get_task_runs}
use sys_tester.Runner.Schedule.Correct.{Reach, Reach-IsSound, IsDue, ready-IsDue, iter_undone_iff}

module _ (info : CompiledSetup) (setup : IsSetup info) (taken done : List ℕ)
    (idle : (v : ℕ) → v ∈ taken → v ∈ done) where
  -- The first atom that is not done, counting down along the atoms before it.
  IsDue-below :
      (bound v : ℕ)
      → v < bound
      → v < length info.atoms
      → ¬ (v ∈ done)
      → (r : AtomReq) × (id : ℕ) × IsDue info taken done r id
  IsDue-below zero v low inside off = absurd (omega (arith, low))
  IsDue-below (suc bound) v low inside off =
      elim (Bool-cases (pending done (before_of info v) == 0)) [
        | inl e ↦
            let (r, asked) = setup.answered v inside in
            (
              r,
              v,
              record {
                inside = inside;
                fresh = λ t. off (idle v t);
                answers = asked;
                after = λ p.
                    done_of_pending_zero done (before_of info v) p
                      (==→eq (pending done (before_of info v)) 0 e);
              },
            )
        | inr e ↦
            let (p, m, undone) =
              pending_one done (before_of info v)
                (omega (arith, ==→ne (pending done (before_of info v)) 0 e)) in
            let less = setup.earlier p v inside m in
            IsDue-below bound p (omega (arith, less, low)) (omega (arith, less, inside)) undone
      ]

-- In every schedule that a supervisor of a proper setup reaches, if every atom that was handed out is
-- done and some atom is not done, then there is a request for which `get_task` hands out an atom.
pub get_task_progress :
    (info : CompiledSetup) (taken done : List ℕ) (s : Schedule) (v : ℕ)
    → IsSetup info
    → Reach info taken done s
    → ((u : ℕ) → u ∈ taken → u ∈ done)
    → v ∈ iter_undone s
    → (r : AtomReq) × (id : ℕ) × (total : ℕ) × (s' : Schedule) × (get_task s r
        ≡ some ((id, total), s'))
get_task_progress info taken done s v setup reach idle left =
    let (inside, off) = (iter_undone_iff info taken done s v setup reach).0 left in
    let (r, id, due) = IsDue-below info setup taken done idle (suc v) v (omega arith) inside off in
    let i = Reach-IsSound info setup taken done s reach in
    let has = ready-IsDue info taken done i.ready i.waits i.inv r id due in
    elim (List-cases (i.ready r)) [
      | inl empty ↦ absurd (subst (λ xs. id ∈ xs) empty has)
      | inr (first, rest, head) ↦ (
        r,
        first,
        length (first ∷ rest),
        state info (popped r rest i.ready) i.waits,
        ap (λ x. get_task x r) i.shape ∙ get_task_runs info i.ready i.waits r first rest head,
      )
    ]
