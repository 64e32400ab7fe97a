-- ===== src/Runner/Schedule/Tests.antt =====
-- A test of three atoms in a row, `open`, `read`, `close`: its schedules, and the theorems on them.
use sys_tester.Base.{
  ℕ, zero, suc, ◌≤◌, ◌<◌, ◌≡◌, refl, ◌↔◌, inl, inr, subst, sym, none, some, List, [], ◌∷◌, length,
  get_elem?, ◌∈◌, arith,
}
use sys_tester.Graph.Packed.{from_adjacency_lists, full_edges}
use sys_tester.Model.{CompiledSetup, mock_fd, open_file, read, close}
use sys_tester.Runner.Request.{AtomReq, AtomReq-discrete, open_req, read_req, close_req, request}
use sys_tester.Runner.Schedule.{
  push_ready, Schedule, request_of, new_schedule, mark_done, get_task, iter_undone,
}
use sys_tester.Runner.Schedule.Counts.{count}
use sys_tester.Runner.Schedule.Inv.{after_of, before_of, IsSetup}
use sys_tester.Base.{ℕ_discrete}
use sys_tester.Runner.Schedule.Take.{popped}
use sys_tester.Runner.Schedule.Correct.{
  Reach, created, handed_out, IsDue, get_task-IsDue, mark_done_returns, iter_undone_iff,
  new_schedule_returns,
}
use sys_tester.Runner.Schedule.Progress.{get_task_progress}

abbrev three : CompiledSetup
unfolding from_adjacency_lists
three = record {
  atoms =
      record { content = open_file (mock_fd 0) (97 ∷ []); error = none }
      ∷ record { content = read (mock_fd 0) (120 ∷ []) 4; error = none }
      ∷ record { content = close (mock_fd 0); error = none }
      ∷ [];
  file_count = 1;
  after_graph = from_adjacency_lists ((1 ∷ []) ∷ (2 ∷ []) ∷ [] ∷ []);
  before_graph = from_adjacency_lists ([] ∷ (0 ∷ []) ∷ (1 ∷ []) ∷ []);
}

below_three : (P : ℕ → Type 0) → P 0 → P 1 → P 2 → (v : ℕ) → v < 3 → P v
below_three P a b c zero h = a
below_three P a b c (suc zero) h = b
below_three P a b c (suc (suc zero)) h = c
below_three P a b c (suc (suc (suc v))) h = absurd (omega (arith, h))

only : (P : ℕ → Type 0) (x : ℕ) → P x → (v : ℕ) → v ∈ (x ∷ []) → P v
only P x p v (inl e) = subst P (sym e) p
only P x p v (inr m) = absurd m

three-IsSetup : IsSetup three
unfolding from_adjacency_lists full_edges request_of request
three-IsSetup = record {
  has_after = below_three _ refl refl refl;
  has_before = below_three _ refl refl refl;
  inside = λ u v h.
      below_three (λ x. v ∈ after_of three x → v < 3) (only (λ y. y < 3) 1 (omega arith) v)
        (only (λ y. y < 3) 2 (omega arith) v) (λ m. absurd m) u h;
  mirror = λ u v h k.
      below_three (λ x. count v (after_of three x) ≡ count x (before_of three v))
        (below_three (λ y. count y (1 ∷ []) ≡ count 0 (before_of three y)) refl refl refl v k)
        (below_three (λ y. count y (2 ∷ []) ≡ count 1 (before_of three y)) refl refl refl v k)
        (below_three (λ y. 0 ≡ count 2 (before_of three y)) refl refl refl v k) u h;
  earlier = λ p v h.
      below_three (λ x. p ∈ before_of three x → p < x) (λ m. absurd m)
        (only (λ y. y < 1) 0 (omega arith) p) (only (λ y. y < 2) 1 (omega arith) p) v h;
  answered =
      below_three (λ x. (r : AtomReq) × (request_of three x ≡ some r)) (open_req (97 ∷ []), refl)
        (read_req (mock_fd 0) 4, refl) (close_req (mock_fd 0), refl);
  few = below_three _ (omega arith) (omega arith) (omega arith);
}

abbrev none_done : List ℕ
none_done = []

abbrev opening : AtomReq
opening = open_req (97 ∷ [])

abbrev fresh_schedule : Schedule
fresh_schedule = record {
  ready_atoms = push_ready opening 0 (λ _. []);
  wait_counts = 0 ∷ 1 ∷ 1 ∷ [];
  info = three;
}

creates : new_schedule three ≡ some fresh_schedule
unfolding new_schedule full_edges from_adjacency_lists request
creates = refl

abbrev after_first : Schedule
after_first = record {
  ready_atoms = popped opening [] (push_ready opening 0 (λ _. []));
  wait_counts = 0 ∷ 1 ∷ 1 ∷ [];
  info = three;
}

hands_out_first : get_task fresh_schedule opening ≡ some ((0, 1), after_first)
unfolding get_task push_ready AtomReq-discrete ℕ_discrete
hands_out_first = refl

reaches_fresh : Reach three [] [] fresh_schedule
reaches_fresh = created fresh_schedule creates

reaches_after_first : Reach three (0 ∷ []) [] after_first
reaches_after_first =
    handed_out [] [] fresh_schedule after_first opening 0 1 reaches_fresh hands_out_first

has_undone : 0 ∈ iter_undone fresh_schedule
unfolding iter_undone
has_undone = inl refl

get_task-IsDue_example :
    ((id total : ℕ) (s' : Schedule)
      → get_task after_first opening ≡ some ((id, total), s')
      → IsDue three (0 ∷ []) [] opening id)
    × (get_task after_first opening ≡ none → (id : ℕ) → ¬ IsDue three (0 ∷ []) [] opening id)
get_task-IsDue_example =
    get_task-IsDue three (0 ∷ []) [] after_first opening three-IsSetup reaches_after_first

mark_done_returns_example :
    ((s' : Schedule) × (mark_done after_first 0 ≡ some s'))
    × ((x : ℕ)
        → x ∈ after_of three 0
        → (c : ℕ) × (get_elem? after_first.wait_counts x ≡ some c)
          × (count x (after_of three 0) ≤ c))
mark_done_returns_example =
    mark_done_returns three (0 ∷ []) [] after_first 0 three-IsSetup reaches_after_first (inl refl)
      (λ m. m)

iter_undone_iff_example :
    (2 ∈ iter_undone after_first) ↔ ((2 < length three.atoms) × (¬ (2 ∈ none_done)))
iter_undone_iff_example =
    iter_undone_iff three (0 ∷ []) [] after_first 2 three-IsSetup reaches_after_first

new_schedule_returns_example :
    (s : Schedule) × (new_schedule three ≡ some s)
    × ((v : ℕ) → (v ∈ iter_undone s) ↔ (v < length three.atoms))
new_schedule_returns_example = new_schedule_returns three three-IsSetup

get_task_progress_example :
    (r : AtomReq) × (id : ℕ) × (total : ℕ) × (s' : Schedule) × (get_task fresh_schedule r
      ≡ some ((id, total), s'))
get_task_progress_example =
    get_task_progress three [] [] fresh_schedule 0 three-IsSetup reaches_fresh (λ u m. absurd m)
      has_undone
