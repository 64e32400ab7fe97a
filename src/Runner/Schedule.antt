-- ===== src/Runner/Schedule.antt =====
-- src/runner/supervisor.rs, the part of `Supervisor` that schedules the atoms: which requests may be
-- answered now, and what becomes ready when an atom is done.
pub mod Counts
pub mod Release
pub mod Loop
pub mod Inv
pub mod Take
pub mod Build
pub mod Undone
pub mod Correct
pub mod Progress
mod Tests
use mathlib.Core.Logic.{ite}
use sys_tester.Base.{
  ℕ, zero, suc, ◌+◌, ◌-◌, ◌%◌, ◌^◌, Option, none, some, List, [], ◌∷◌, ◌++◌, length, get_elem?, set,
  ◌==◌, if◌then◌else◌, range,
}
use sys_tester.Graph.Packed.{VecGraph, full_edges}
use sys_tester.Model.{Atom, CompiledSetup, u32_max}
use sys_tester.Runner.Request.{AtomReq, AtomReq-discrete, request}

-- The map of ready atoms as a function: a key that is missing reads as an empty vector, which
-- `get_task` answers alike. Each vector has its last element first.
pub record Schedule : Type 0 where
  pub ready_atoms : AtomReq → List ℕ
  pub wait_counts : List ℕ
  pub info : CompiledSetup

-- `ready_atoms.entry(req).or_default().push(id)`
unfoldable pub push_ready : AtomReq → ℕ → (AtomReq → List ℕ) → AtomReq → List ℕ
push_ready req id ready r = ite (AtomReq-discrete req r) (id ∷ ready r) (ready r)

-- The request of atom `id`; `none` for an index out of range and for `todo!("handle logs")`.
unfoldable pub request_of : CompiledSetup → ℕ → Option AtomReq
unfolding request
request_of info id = elim (get_elem? info.atoms id) [ none ↦ none | some a ↦ request a.content ]

-- The body of the loop of `Supervisor::new`.
pub add_atom : Schedule → ℕ → Option Schedule
add_atom s id = elim (full_edges s.info.before_graph id) [
  | none ↦ none
  | some edges ↦
      let waiting = record s { wait_counts = s.wait_counts ++ (length edges % 2 ^ 32) ∷ [] } in
      elim edges [
        | _ ∷ _ ↦ some waiting
        | [] ↦ elim (request_of s.info id) [
          | none ↦ none
          | some req ↦ some (record waiting { ready_atoms = push_ready req id s.ready_atoms })
        ]
      ]
]

pub add_atoms : Schedule → List ℕ → Option Schedule
add_atoms s [] = some s
add_atoms s (id ∷ ids) = elim (add_atom s id) [ none ↦ none | some s' ↦ add_atoms s' ids ]

-- `Supervisor::new`
unfoldable pub new_schedule : CompiledSetup → Option Schedule
unfolding push_ready request_of add_atom add_atoms
new_schedule info =
    add_atoms (record { ready_atoms = λ _. []; wait_counts = []; info = info })
      (range (length info.atoms))

-- The body of the loop of `mark_done`. The subtraction is that of a build without overflow checks.
pub release : Schedule → ℕ → Option Schedule
release s x = elim (get_elem? s.wait_counts x) [
  | none ↦ none
  | some count ↦
      let left = (count + 2 ^ 32 - 1) % 2 ^ 32 in
      let s' = record s { wait_counts = set s.wait_counts x left } in
      if left == 0
      then elim (request_of s.info x) [
        | none ↦ none
        | some req ↦ some (record s' { ready_atoms = push_ready req x s.ready_atoms })
      ]
      else some s'
]

pub release_all : Schedule → List ℕ → Option Schedule
release_all s [] = some s
release_all s (x ∷ xs) = elim (release s x) [ none ↦ none | some s' ↦ release_all s' xs ]

-- `mark_done`: the atoms after `id` wait for one atom less, and `id` gets the mark `u32::MAX`.
unfoldable pub mark_done : Schedule → ℕ → Option Schedule
unfolding push_ready request_of release release_all
mark_done s id = elim (full_edges s.info.after_graph id) [
  | none ↦ none
  | some edges ↦ elim (release_all s edges) [
    | none ↦ none
    | some s' ↦ elim (get_elem? s'.wait_counts id) [
      | none ↦ none
      | some _ ↦ some (record s' { wait_counts = set s'.wait_counts id u32_max })
    ]
  ]
]

-- `iter_undone`: the indices whose count is not the mark.
pub undone_from : ℕ → List ℕ → List ℕ
undone_from i [] = []
undone_from i (c ∷ counts) =
    if c == u32_max then undone_from (suc i) counts else i ∷ undone_from (suc i) counts

unfoldable pub iter_undone : Schedule → List ℕ
unfolding undone_from
iter_undone s = undone_from 0 s.wait_counts

-- `get_task`: the atom pushed last for the request, and how many were ready for it.
unfoldable pub get_task : Schedule → AtomReq → Option ((ℕ × ℕ) × Schedule)
get_task s r = elim (s.ready_atoms r) [
  | [] ↦ none
  | id ∷ rest ↦ some (
    (id, length (id ∷ rest)),
    record s { ready_atoms = λ q. ite (AtomReq-discrete r q) rest (s.ready_atoms q) },
  )
]
