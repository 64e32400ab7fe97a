-- ===== src/Graph/Topo.antt =====
-- src/graph.rs, `topological_order`: a depth-first search with an explicit stack.
pub mod Search
pub mod Moves
pub mod Rounds
pub mod Run
pub mod Order
pub mod Correct
mod Tests
use mathlib.Core.List.{reverse}
use mathlib.Core.Option
use sys_tester.Base.{
  ℕ, zero, suc, ◌-◌, ◌*◌, ◌^◌, Option, none, some, List, [], ◌∷◌, ◌++◌, map, length, get_elem?, set,
  drop, replicate, leb, if◌then◌else◌,
}
use sys_tester.Graph.{DirectedGraph, iter_nodes}

-- `Result<_, GraphCycle>`, and the two ways in which the model does not return: a panic of the
-- code, and fuel that has run out.
pub data Outcome (A : Type 0) : Type 0 where
  ok : A → Outcome A
  err : List ℕ → Outcome A
  panic out_of_fuel : Outcome A

infixl 5 ◌>>=◌
abbrev pub ◌>>=◌ : {A B : Type 0} → Outcome A → (A → Outcome B) → Outcome B
ok a >>= f = f a
err c >>= f = err c
panic >>= f = panic
out_of_fuel >>= f = out_of_fuel

pub record TopologicalOrder : Type 0 where
  pub order : List ℕ
  pub map : List ℕ

pub data DagVisitState : Type 0 where
  not_seen working done : DagVisitState

pub record DagWorkFrame : Type 0 where
  pub node : ℕ
  pub edges : List ℕ

-- The variables of the search. `call_stack` has its last frame first.
pub record Dfs : Type 0 where
  pub states : List DagVisitState
  pub stack_pos : List ℕ
  pub call_stack : List DagWorkFrame
  pub reverse_order : List ℕ

abbrev pub usize_max : ℕ
usize_max = 2 ^ 64 - 1

-- The three statements that open a node, a root or a successor alike, with the edges that
-- `graph.edges(node)` gives.
pub opened : Dfs → ℕ → List ℕ → Dfs
opened s node es = record {
  states = set s.states node working;
  stack_pos = set s.stack_pos node (length s.call_stack);
  call_stack = record { node = node; edges = es } ∷ s.call_stack;
  reverse_order = s.reverse_order;
}

pub enter : DirectedGraph → Dfs → ℕ → Option Dfs
unfolding opened
enter g s node = Option.map (opened s node) (g.edges node)

-- What follows `call_stack.pop()`: the frame `f` has no edge left, `fs` are the frames below it.
pub leave : Dfs → DagWorkFrame → List DagWorkFrame → Dfs
leave s f fs = record {
  states = set s.states f.node done;
  stack_pos = set s.stack_pos f.node usize_max;
  call_stack = fs;
  reverse_order = s.reverse_order ++ f.node ∷ [];
}

-- How `for next in frame.edges.by_ref()` ends.
pub data Scanned : Type 0 where
  descend : (next : ℕ) (rest : List ℕ) → Scanned
  back : (next : ℕ) → Scanned
  exhausted out_of_range : Scanned

pub scan : List DagVisitState → List ℕ → Scanned
scan states [] = exhausted
scan states (next ∷ rest) = elim (get_elem? states next) [
  | none ↦ out_of_range
  | some s ↦ elim s [ not_seen ↦ descend next rest | working ↦ back next | done ↦ scan states rest ]
]

-- `call_stack[start..]`, which panics past the end; the nodes of its frames, and `next` once more.
pub cycle_from : Dfs → ℕ → ℕ → Option (List ℕ)
cycle_from s next start =
    if leb start (length s.call_stack)
    then some (drop start (reverse (map (λ (f : DagWorkFrame). f.node) s.call_stack)) ++ next ∷ [])
    else none

pub data Step : Type 0 where
  continue : Dfs → Step
  stop : List ℕ → Step
  fault : Step

-- One round of `'recurse`, with the top frame `f` and the frames `fs` below it.
pub step_scanned : DirectedGraph → Dfs → DagWorkFrame → List DagWorkFrame → Scanned → Step
step_scanned g s f fs (descend next rest) =
    elim (enter g (record s { call_stack = record f { edges = rest } ∷ fs }) next) [
      | none ↦ fault
      | some s' ↦ continue s'
    ]
step_scanned g s f fs (back next) = elim (get_elem? s.stack_pos next) [
  | none ↦ fault
  | some start ↦ elim (cycle_from s next start) [ none ↦ fault | some cycle ↦ stop cycle ]
]
step_scanned g s f fs exhausted = continue (leave s f fs)
step_scanned g s f fs out_of_range = fault

pub step : DirectedGraph → Dfs → DagWorkFrame → List DagWorkFrame → Step
step g s f fs = step_scanned g s f fs (scan s.states f.edges)

-- How the code goes on after a round.
pub proceed : (Dfs → Outcome Dfs) → Step → Outcome Dfs
proceed next_round (continue s) = next_round s
proceed next_round (stop cycle) = err cycle
proceed next_round fault = panic

-- `while let Some(frame) = call_stack.last_mut()`
pub recurse : DirectedGraph → ℕ → Dfs → Outcome Dfs
unfolding proceed
recurse g zero s = elim s.call_stack [ [] ↦ ok s | _ ∷ _ ↦ out_of_fuel ]
recurse g (suc fuel) s = elim s.call_stack [
  | [] ↦ ok s
  | f ∷ fs ↦ proceed (recurse g fuel) (step g s f fs)
]

-- A round opens a node or closes one, so two for each node are enough.
abbrev pub fuel_for : DirectedGraph → ℕ
fuel_for g = 2 * g.num_nodes

-- The body of `for root in graph.iter_nodes()`.
pub visit_root : DirectedGraph → Dfs → ℕ → Outcome Dfs
visit_root g s root = elim (get_elem? s.states root) [
  | none ↦ panic
  | some state ↦ elim state [
    | not_seen ↦ elim (enter g s root) [ none ↦ panic | some s' ↦ recurse g (fuel_for g) s' ]
    | _ ↦ ok s
  ]
]

pub visit_roots : DirectedGraph → Dfs → List ℕ → Outcome Dfs
visit_roots g s [] = ok s
visit_roots g s (root ∷ roots) = visit_root g s root >>= λ s'. visit_roots g s' roots

pub initial : DirectedGraph → Dfs
initial g = record {
  states = replicate g.num_nodes not_seen;
  stack_pos = replicate g.num_nodes usize_max;
  call_stack = [];
  reverse_order = [];
}

-- `for (index, &node) in reverse_order.iter().enumerate() { map[node] = index }`; the
-- nodes of the order are those of the map, so no write is out of range.
pub number : ℕ → List ℕ → List ℕ → List ℕ
number index [] m = m
number index (node ∷ nodes) m = number (suc index) nodes (set m node index)

pub finish : DirectedGraph → Dfs → TopologicalOrder
finish g s =
    let order = reverse s.reverse_order in
    record { order = order; map = number 0 order (iter_nodes g) }

unfoldable pub topological_order : DirectedGraph → Outcome TopologicalOrder
unfolding enter leave scan cycle_from step_scanned step recurse visit_root visit_roots initial
    number finish
topological_order g = visit_roots g (initial g) (iter_nodes g) >>= λ s. ok (finish g s)
