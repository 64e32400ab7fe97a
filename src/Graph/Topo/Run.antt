-- ===== src/Graph/Topo/Run.antt =====
-- The loops of `topological_order` end with the fuel given, and keep the invariant to the end.
use sys_tester.Base.{
  ℕ, zero, suc, ◌+◌, ◌*◌, ◌≤◌, ◌<◌, ◌≡◌, refl, inl, inr, subst, ap, some, List, [], ◌∷◌, length,
  replicate, length-replicate, get_elem?-replicate, get_elem?-some, lt-length_of_get, ◌∈◌, All,
  arith,
}
use sys_tester.Graph.{DirectedGraph}
use sys_tester.Graph.Walk.{IsValid, IsCycle}
use sys_tester.Graph.Topo.{
  Outcome, ◌>>=◌, ok, err, panic, out_of_fuel, ◌>>=◌, not_seen, working, done, DagVisitState, Dfs,
  DagWorkFrame, opened, enter, Step, continue, stop, fault, step, proceed, recurse, fuel_for,
  visit_root, visit_roots, initial, usize_max,
}
use sys_tester.Graph.Topo.Search.{IsIn, nodes, Inv}
use sys_tester.Graph.Topo.Moves.{Inv-opened}
use sys_tester.Graph.Topo.Rounds.{unseen, unseen-open, IsKnown, work, StepOk, step-StepOk}

unseen-le-length : (states : List DagVisitState) → unseen states ≤ length states
unseen-le-length [] = omega arith
unseen-le-length (not_seen ∷ states) = omega (arith, unseen-le-length states)
unseen-le-length (working ∷ states) = omega (arith, unseen-le-length states)
unseen-le-length (done ∷ states) = omega (arith, unseen-le-length states)

module _ (g : DirectedGraph) where
  -- What the loop over the stack, and the loop over the roots, may do from a state.
  abbrev pub RunOk : Dfs → Outcome Dfs → Type 0
  RunOk s (ok t) = Inv g t × (t.call_stack ≡ []) × ((v : ℕ) → IsKnown s v → v ∈ t.reverse_order)
  RunOk s (err cycle) = IsCycle g cycle
  RunOk s panic = ⊥
  RunOk s out_of_fuel = ⊥

  RunOk-from :
      (s s' : Dfs) (r : Outcome Dfs)
      → ((v : ℕ) → IsKnown s v → IsKnown s' v)
      → RunOk s' r
      → RunOk s r
  RunOk-from s s' (ok t) sub (inv, empty, more) = (inv, empty, λ v m. more v (sub v m))
  RunOk-from s s' (err cycle) sub c = c
  RunOk-from s s' panic sub c = c
  RunOk-from s s' out_of_fuel sub c = c

  module _ (valid : IsValid g) where
    recurse_from :
        (fuel : ℕ) (stack : List DagWorkFrame) (s : Dfs)
        → Inv g (record s { call_stack = stack })
        → 2 * unseen s.states + length stack ≤ fuel
        → RunOk (record s { call_stack = stack }) (recurse g fuel (record s { call_stack = stack }))
    unfolding recurse
    recurse_from zero [] s i enough = (i, refl, λ v. elim [ inl m ↦ absurd m | inr m ↦ m ])
    recurse_from zero (f ∷ fs) s i enough = absurd (omega arith)
    recurse_from (suc fuel) [] s i enough = (i, refl, λ v. elim [ inl m ↦ absurd m | inr m ↦ m ])
    recurse_from (suc fuel) (f ∷ fs) s i enough =
        after (recurse_from fuel) (step g (record s { call_stack = f ∷ fs }) f fs)
          (step-StepOk g valid s f fs i)
      where
        after :
            ((stack : List DagWorkFrame) (s' : Dfs)
              → Inv g (record s' { call_stack = stack })
              → 2 * unseen s'.states + length stack ≤ fuel
              → RunOk
                  (record s' { call_stack = stack })
                  (recurse g fuel (record s' { call_stack = stack })))
            → (r : Step) → StepOk g (record s { call_stack = f ∷ fs }) r
            → RunOk (record s { call_stack = f ∷ fs }) (proceed (recurse g fuel) r)
        after ih (continue s') (inv, less, sub) =
            RunOk-from (record s { call_stack = f ∷ fs }) s' (recurse g fuel s') sub
              (ih s'.call_stack s' inv (omega arith))
        after ih (stop cycle) c = c
        after ih fault c = c

    -- With fuel for the work left the loop over the stack ends.
    pub recurse-RunOk : (fuel : ℕ) (s : Dfs) → Inv g s → work s ≤ fuel → RunOk s (recurse g fuel s)
    recurse-RunOk fuel s i enough = recurse_from fuel s.call_stack s i enough

    -- What the loop over the roots may do: the roots it has gone through are in the order.
    abbrev pub RootsOk : Dfs → List ℕ → Outcome Dfs → Type 0
    RootsOk s roots (ok t) =
        Inv g t
        × (t.call_stack ≡ [])
        × ((v : ℕ) → v ∈ s.reverse_order → v ∈ t.reverse_order)
        × ((v : ℕ) → v ∈ roots → v ∈ t.reverse_order)
    RootsOk s roots (err cycle) = IsCycle g cycle
    RootsOk s roots panic = ⊥
    RootsOk s roots out_of_fuel = ⊥

    visit_root-RootsOk :
        (s : Dfs) (root : ℕ)
        → Inv g s
        → s.call_stack ≡ []
        → root < g.num_nodes
        → RootsOk s (root ∷ []) (visit_root g s root)
    unfolding visit_root opened enter
    visit_root-RootsOk s root i empty inside =
        let (state, found) = get_elem?-some s.states root (omega (arith, i.size)) in
        by_state state found
      where
        first :
            (es : List ℕ)
            → IsIn s.states not_seen root
            → g.edges root ≡ some es
            → Inv g (opened s root es)
        first es fresh listed =
            Inv-opened g s root es i.core (rw empty tt) (rw empty tt) fresh listed

        enough : (es : List ℕ) → IsIn s.states not_seen root → work (opened s root es) ≤ fuel_for g
        enough es fresh = omega (
          arith,
          unseen-open s.states root fresh,
          unseen-le-length s.states,
          i.size,
          ap length empty,
        )

        after :
            (es : List ℕ) (r : Outcome Dfs) → RunOk (opened s root es) r → RootsOk s (root ∷ []) r
        after es (ok t) (inv, done_all, known) = (
          inv,
          done_all,
          λ v m. known v (inr m),
          λ v. elim [ inl q ↦ known v (inl (inl q)) | inr none_left ↦ absurd none_left ],
        )
        after es (err cycle) c = c
        after es panic c = c
        after es out_of_fuel c = c

        by_state :
            (state : DagVisitState)
            → IsIn s.states state root
            → RootsOk s (root ∷ []) (visit_root g s root)
        by_state not_seen found =
            let (es, listed) = valid.has_edges root inside in
            rw (found, visit_root, listed, enter)
              (after es (recurse g (fuel_for g) (opened s root es)) (
                recurse-RunOk (fuel_for g) (opened s root es) (first es found listed)
                  (enough es found)))
        by_state working found =
            absurd (subst (λ k. root ∈ nodes k) empty ((i.open_iff root).0 found))
        by_state done found =
            rw (found, visit_root)
              (
                i,
                empty,
                λ v m. m,
                λ v. elim [
                  | inl q ↦ rw q ((i.done_iff root).0 found)
                  | inr none_left ↦ absurd none_left
                ],
              )

    pub visit_roots-RootsOk :
        (roots : List ℕ) (s : Dfs)
        → Inv g s
        → s.call_stack ≡ []
        → All (λ root. root < g.num_nodes) roots
        → RootsOk s roots (visit_roots g s roots)
    unfolding visit_roots
    visit_roots-RootsOk [] s i empty inside = (i, empty, λ v m. m, λ v m. absurd m)
    visit_roots-RootsOk (root ∷ roots) s i empty inside =
        after (visit_roots-RootsOk roots) (visit_root g s root)
          (visit_root-RootsOk s root i empty inside.0)
      where
        join :
            (t : Dfs) (r : Outcome Dfs)
            → ((v : ℕ) → v ∈ s.reverse_order → v ∈ t.reverse_order)
            → root ∈ t.reverse_order
            → RootsOk t roots r
            → RootsOk s (root ∷ roots) r
        join t (ok u) old here (inv, done_all, more, all) = (
          inv,
          done_all,
          λ v m. more v (old v m),
          λ v. elim [ inl q ↦ more v (rw q here) | inr m ↦ all v m ],
        )
        join t (err cycle) old here c = c
        join t panic old here c = c
        join t out_of_fuel old here c = c

        after :
            ((t : Dfs)
              → Inv g t
              → t.call_stack ≡ []
              → All (λ (v : ℕ). v < g.num_nodes) roots
              → RootsOk t roots (visit_roots g t roots))
            → (r : Outcome Dfs) → RootsOk s (root ∷ []) r
            → RootsOk s (root ∷ roots) (r >>= λ t. visit_roots g t roots)
        after ih (ok t) (inv, done_all, old, here) =
            join t (visit_roots g t roots) old (here root (inl refl)) (ih t inv done_all inside.1)
        after ih (err cycle) c = c
        after ih panic c = c
        after ih out_of_fuel c = c

  -- Nothing is open and nothing closed at the start.
  pub Inv-initial : Inv g (initial g)
  unfolding initial
  Inv-initial = record {
    core = record {
      size = length-replicate g.num_nodes not_seen;
      pos_size = length-replicate g.num_nodes usize_max;
      open_iff = λ v. (λ h. cc (fresh v working h), λ m. absurd m);
      done_iff = λ v. (λ h. cc (fresh v done h), λ m. absurd m);
      distinct = tt;
      once = tt;
      placed = tt;
      linked = tt;
      remain = tt;
      closed = tt;
    };
    accounted = tt;
  }
    where
      fresh :
          (v : ℕ) (state : DagVisitState)
          → IsIn (replicate g.num_nodes not_seen) state v
          → state ≡ not_seen
      fresh v state h =
          let inside : v < g.num_nodes = omega (
            arith,
            lt-length_of_get (replicate g.num_nodes not_seen) v state h,
            length-replicate g.num_nodes not_seen,
          ) in
          cc (h, get_elem?-replicate g.num_nodes v not_seen inside)
