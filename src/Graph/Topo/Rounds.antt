-- ===== src/Graph/Topo/Rounds.antt =====
-- One round of the search: what it finds is a cycle, what it leaves is in order, and it gets nearer
-- to the end.
use mathlib.Core.List.{reverse, reverse-cons}
use sys_tester.Base.{
  ℕ, zero, suc, ◌+◌, ◌*◌, ◌≤◌, ◌<◌, ◌≡◌, refl, ◌⊎◌, inl, inr, sym, ◌∙◌, ap, some, List, [], ◌∷◌,
  ◌++◌, length, get_elem?, set, drop, le→leb, drop-append, drop-length, length-reverse, length-map,
  ◌∈◌, mem-append, arith, lt-length_of_get, get_elem?-some,
}
use sys_tester.Graph.{DirectedGraph}
use sys_tester.Graph.Walk.{IsValid, Leads, Leads-snoc, IsCycle}
use sys_tester.Graph.Topo.{
  DagVisitState, not_seen, working, done, DagWorkFrame, Dfs, opened, enter, leave, Step, continue,
  stop, fault, step, step_scanned, scan, Scanned, descend, back, exhausted, out_of_range,
  cycle_from,
}
use sys_tester.Graph.Topo.Search.{
  IsIn, nodes, IsPlaced, IsCalled, IsLinked, Waits, Core, Inv, ScanFacts, scan_lem,
}
use sys_tester.Graph.Topo.Moves.{Inv-opened, Inv-leave}

-- The nodes that are still to be opened.
abbrev pub unseen : List DagVisitState → ℕ
unseen [] = 0
unseen (not_seen ∷ states) = suc (unseen states)
unseen (working ∷ states) = unseen states
unseen (done ∷ states) = unseen states

pub unseen-open :
    (states : List DagVisitState) (i : ℕ)
    → IsIn states not_seen i
    → suc (unseen (set states i working)) ≡ unseen states
unseen-open [] i h = absurd (ground arith)
unseen-open (s ∷ states) zero h = ground arith
unseen-open (not_seen ∷ states) (suc i) h = ap suc (unseen-open states i h)
unseen-open (working ∷ states) (suc i) h = unseen-open states i h
unseen-open (done ∷ states) (suc i) h = unseen-open states i h

unseen-close :
    (states : List DagVisitState) (i : ℕ)
    → IsIn states working i
    → unseen (set states i done) ≡ unseen states
unseen-close [] i h = refl
unseen-close (s ∷ states) zero h = ground arith
unseen-close (not_seen ∷ states) (suc i) h = ap suc (unseen-close states i h)
unseen-close (working ∷ states) (suc i) h = unseen-close states i h
unseen-close (done ∷ states) (suc i) h = unseen-close states i h

-- An unseen node will be opened and closed, a node on the stack will be closed.
abbrev pub work : Dfs → ℕ
work s = 2 * unseen s.states + length s.call_stack

-- The nodes that have been opened.
abbrev pub IsKnown : Dfs → ℕ → Type 0
IsKnown s v = (v ∈ nodes s.call_stack) ⊎ (v ∈ s.reverse_order)

module _ (g : DirectedGraph) where
  -- Below the top of the stack the edges lead from a node up to the frame that `w` is called from.
  stack-Leads :
      (pos : List ℕ) (stack : List DagWorkFrame) (next start : ℕ)
      → IsPlaced pos stack
      → IsLinked g stack
      → next ∈ nodes stack
      → get_elem? pos next ≡ some start
      → (between : List ℕ) × (drop start (reverse (nodes stack)) ≡ next ∷ between)
        × (start ≤ length stack)
        × ((w : ℕ) → IsCalled g w stack → Leads g next (between ++ w ∷ []))
  stack-Leads pos [] next start p l m at = absurd m
  stack-Leads pos (f ∷ fs) next start p l (inl e) at =
      let low : start ≡ length fs = ground arith in
      let size = length-reverse (nodes fs) in
      let size' = length-map (λ (x : DagWorkFrame). x.node) fs in
      (
        [],
        rw
            (
              reverse-cons f.node (nodes fs),
              drop-append start (reverse (nodes fs)) (f.node ∷ []) (omega arith),
              drop-length start (reverse (nodes fs)) (omega arith),
              e,
            )
            refl,
        omega arith,
        λ w called. (rw e called, tt),
      )
  stack-Leads pos (f ∷ fs) next start p l (inr m) at =
      let (between, cut, low, leads) = stack-Leads pos fs next start p.1 l.1 m at in
      let size = length-reverse (nodes fs) in
      let size' = length-map (λ (x : DagWorkFrame). x.node) fs in
      (
        between ++ f.node ∷ [],
        rw
            (
              reverse-cons f.node (nodes fs),
              drop-append start (reverse (nodes fs)) (f.node ∷ []) (omega arith),
              cut,
            )
            refl,
        omega arith,
        λ w e. Leads-snoc g next f.node w between (leads f.node l.0) e,
      )

  -- What a round may do from a state that satisfies the invariant.
  abbrev pub StepOk : Dfs → Step → Type 0
  StepOk s (continue s') = Inv g s' × (work s' < work s) × ((v : ℕ) → IsKnown s v → IsKnown s' v)
  StepOk s (stop cycle) = IsCycle g cycle
  StepOk s fault = ⊥

  module _ (valid : IsValid g) (s : Dfs) (f : DagWorkFrame) (fs : List DagWorkFrame) where
    abbrev now : Dfs
    now = record s { call_stack = f ∷ fs }

    top_inside : Inv g now → f.node < g.num_nodes
    top_inside i =
        omega (
          arith,
          lt-length_of_get s.states f.node working ((i.open_iff f.node).1 (inl refl)),
          i.size,
        )

    -- The top frame gives up the edges up to the unseen node that it found.
    Core-descend :
        (next : ℕ) (rest : List ℕ)
        → Inv g now
        → ScanFacts s.states f.edges (descend next rest)
        → Core g (record s { call_stack = record f { edges = rest } ∷ fs })
          × Waits g s.reverse_order next (record f { edges = rest } ∷ fs)
    Core-descend next rest i (fresh, m, sub, sup) = (
      record {
        size = i.size;
        pos_size = i.pos_size;
        open_iff = i.open_iff;
        done_iff = i.done_iff;
        distinct = i.distinct;
        once = i.once;
        placed = i.placed;
        linked = i.linked;
        remain = (λ v r. i.remain.0 v (sub v r), i.remain.1);
        closed = i.closed;
      },
      (
        λ v e. elim (i.accounted.0 v e) [
          | inr closed ↦ inr (inl closed)
          | inl left ↦ elim (sup v left) [
            | inl r ↦ inl r
            | inr (inl d) ↦ inr (inl ((i.done_iff v).0 d))
            | inr (inr q) ↦ inr (inr q)
          ]
        ],
        i.accounted.1,
      ),
    )

    step_descend :
        (next : ℕ) (rest : List ℕ)
        → Inv g now
        → ScanFacts s.states f.edges (descend next rest)
        → StepOk now (step_scanned g now f fs (descend next rest))
    unfolding step_scanned enter
    step_descend next rest i facts =
        let below = record s { call_stack = record f { edges = rest } ∷ fs } in
        let (fresh, m, sub, sup) = facts in
        let inside : next < g.num_nodes =
          omega (arith, lt-length_of_get s.states next not_seen fresh, i.size) in
        let (es, listed) = valid.has_edges next inside in
        let (core, waits) = Core-descend next rest i facts in
        rw (listed, step_scanned, enter)
          (
            Inv-opened g below next es core waits (i.remain.0 next m) fresh listed,
            fewer next es fresh,
            λ v. elim [ inl m ↦ inl (inr m) | inr m ↦ inr m ],
          )
      where
        fewer :
            (next : ℕ) (es : List ℕ)
            → IsIn s.states not_seen next
            → work (opened (record s { call_stack = record f { edges = rest } ∷ fs }) next es)
              < work now
        fewer next es fresh = omega (arith, unseen-open s.states next fresh)

    step_back :
        (next : ℕ)
        → Inv g now
        → ScanFacts s.states f.edges (back next)
        → StepOk now (step_scanned g now f fs (back next))
    unfolding step_scanned cycle_from
    step_back next i (open_next, m) =
        let here = (i.open_iff next).0 open_next in
        let inside : next < length s.stack_pos =
          omega (arith, lt-length_of_get s.states next working open_next, i.size, i.pos_size) in
        let (start, at) = get_elem?-some s.stack_pos next inside in
        let (between, cut, low, leads) =
          stack-Leads s.stack_pos (f ∷ fs) next start i.placed i.linked here at in
        rw (at, step_scanned, le→leb start (length (f ∷ fs)) low, cycle_from, cut)
          (next, between, refl, omega (arith, inside, i.pos_size), leads next (i.remain.0 next m))

    step_leave :
        Inv g now
        → ScanFacts s.states f.edges exhausted
        → StepOk now (step_scanned g now f fs exhausted)
    unfolding step_scanned leave
    step_leave i all_done = (
      Inv-leave g s f fs i all_done,
      omega (arith, unseen-close s.states f.node ((i.open_iff f.node).1 (inl refl))),
      λ v. elim [
        | inl (inl q) ↦ inr ((mem-append v s.reverse_order (f.node ∷ [])).1 (inr (inl q)))
        | inl (inr m) ↦ inl m
        | inr m ↦ inr ((mem-append v s.reverse_order (f.node ∷ [])).1 (inl m))
      ],
    )

    step_out_of_range : Inv g now → ScanFacts s.states f.edges out_of_range → ⊥
    step_out_of_range i (v, m, out) =
        let inside = valid.inside f.node v (top_inside i) (i.remain.0 v m) in
        let (state, found) = get_elem?-some s.states v (omega (arith, i.size)) in
        cc (sym found ∙ out)

    -- A round from the invariant keeps it and does some work, or finds a cycle; it does not panic.
    pub step-StepOk : Inv g now → StepOk now (step g now f fs)
    unfolding step
    step-StepOk i = by_scan (scan s.states f.edges) (scan_lem s.states f.edges)
      where
        by_scan :
            (r : Scanned) → ScanFacts s.states f.edges r → StepOk now (step_scanned g now f fs r)
        by_scan (descend next rest) facts = step_descend next rest i facts
        by_scan (back next) facts = step_back next i facts
        by_scan exhausted facts = step_leave i facts
        by_scan out_of_range facts = absurd (step_out_of_range i facts)
