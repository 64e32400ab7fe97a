-- ===== src/Runner/Schedule/Take.antt =====
-- `get_task` keeps the invariant of the schedule.
use mathlib.Core.Logic.{ite}
use sys_tester.Base.{
  ℕ, ◌<◌, ◌≡◌, refl, ◌↔◌, inl, inr, sym, ◌∙◌, ap, subst, none, some, List, [], ◌∷◌, length, ◌∈◌,
  IsNodup, arith,
}
use sys_tester.Model.{CompiledSetup}
use sys_tester.Runner.Request.{AtomReq, AtomReq-discrete}
use sys_tester.Runner.Schedule.{request_of, get_task}
use sys_tester.Runner.Schedule.Counts.{pending}
use sys_tester.Runner.Schedule.Release.{state}
use sys_tester.Runner.Schedule.Inv.{before_of, Inv}

-- The lists of ready atoms once the first one for `r` is gone.
abbrev pub popped : AtomReq → List ℕ → (AtomReq → List ℕ) → AtomReq → List ℕ
popped r rest ready q = ite (AtomReq-discrete r q) rest (ready q)

module _ (info : CompiledSetup) (taken done : List ℕ) (ready : AtomReq → List ℕ) (waits : List ℕ)
    (inv : Inv info taken done ready waits) (r : AtomReq) (id : ℕ) (rest : List ℕ)
    (head : ready r ≡ id ∷ rest) where
  first_ready : id ∈ ready r
  first_ready = rw head (inl refl)

  mem-popped : (q : AtomReq) (v : ℕ) → (v ∈ popped r rest ready q) ↔ ((v ∈ ready q) × (¬ (v ≡ id)))
  mem-popped q v =
      elim (AtomReq-discrete r q)
        as (λ d. (v ∈ ite d rest (ready q)) ↔ ((v ∈ ready q) × (¬ (v ≡ id)))) [
          | yes e ↦ (
            λ m. (
              subst (λ x. v ∈ ready x) e (rw head (inr m)),
              λ s. once.0 (subst (λ y. y ∈ rest) s m),
            ),
            λ h. elim (subst (λ xs. v ∈ xs) (ap ready (sym e) ∙ head) h.0) [
              | inl s ↦ absurd (h.1 s)
              | inr m ↦ m
            ],
          )
          | no ne ↦ (λ m. (m, λ s. ne (other q (subst (λ y. y ∈ ready q) s m))), λ h. h.0)
        ]
    where
      once : IsNodup (id ∷ rest)
      once = subst (λ xs. IsNodup xs) head (inv.once r)

      other : (x : AtomReq) → id ∈ ready x → r ≡ x
      other x m =
          let (_, _, asked, _) = (inv.ready_iff r id).0 first_ready in
          let (_, _, asked', _) = (inv.ready_iff x id).0 m in ground (arith, asked, asked')

  IsNodup-popped : (q : AtomReq) → IsNodup (popped r rest ready q)
  IsNodup-popped q = elim (AtomReq-discrete r q) as (λ d. IsNodup (ite d rest (ready q))) [
    | yes e ↦ (subst (λ xs. IsNodup xs) head (inv.once r)).1
    | no ne ↦ inv.once q
  ]

  pub popped-Inv : Inv info (id ∷ taken) done (popped r rest ready) waits
  popped-Inv = record {
    size = inv.size;
    finished = inv.finished;
    waiting = inv.waiting;
    ready_iff = λ q v. (into q v, out q v);
    once = IsNodup-popped;
    begun = λ v d. inr (inv.begun v d);
    able = λ v m. elim m [
      | inl e ↦
          let (inside, _, _, none_left) = (inv.ready_iff r id).0 first_ready in
          subst (λ y. (y < length info.atoms) × (pending done (before_of info y) ≡ 0)) (sym e)
            (inside, none_left)
      | inr old ↦ inv.able v old
    ];
  }
    where
      into :
          (q : AtomReq) (v : ℕ)
          → v ∈ popped r rest ready q
          → (v < length info.atoms)
            × (¬ (v ∈ (id ∷ taken)))
            × (request_of info v ≡ some q)
            × (pending done (before_of info v) ≡ 0)
      into q v m =
          let (old, other) = (mem-popped q v).0 m in
          let (inside, off, asked, none_left) = (inv.ready_iff q v).0 old in
          (inside, elim [ inl e ↦ other e | inr t ↦ off t ], asked, none_left)

      out :
          (q : AtomReq) (v : ℕ)
          → (v < length info.atoms)
            × (¬ (v ∈ (id ∷ taken)))
            × (request_of info v ≡ some q)
            × (pending done (before_of info v) ≡ 0)
          → v ∈ popped r rest ready q
      out q v (inside, off, asked, none_left) =
          (mem-popped q v).1
            ((inv.ready_iff q v).1 (inside, λ t. off (inr t), asked, none_left), λ e. off (inl e))

pub get_task_runs :
    (info : CompiledSetup) (ready : AtomReq → List ℕ) (waits : List ℕ) (r : AtomReq) (id : ℕ)
    (rest : List ℕ)
    → ready r ≡ id ∷ rest
    → get_task (state info ready waits) r
      ≡ some ((id, length (id ∷ rest)), state info (popped r rest ready) waits)
unfolding get_task
get_task_runs info ready waits r id rest head = rw head refl

pub get_task_empty :
    (info : CompiledSetup) (ready : AtomReq → List ℕ) (waits : List ℕ) (r : AtomReq)
    → ready r ≡ []
    → get_task (state info ready waits) r ≡ none
unfolding get_task
get_task_empty info ready waits r e = rw e refl
