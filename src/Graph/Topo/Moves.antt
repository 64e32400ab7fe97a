-- ===== src/Graph/Topo/Moves.antt =====
-- The two moves of the search keep its invariant: opening a node and closing one.
use mathlib.Core.List.{reverse, reverse-append}
use sys_tester.Base.{
  ℕ, ◌<◌, ◌≡◌, refl, ◌↔◌, inl, inr, false, sym, subst, ◌∙◌, Bool-cases, ==→eq, ==→ne, some, List,
  [], ◌∷◌, ◌++◌, length, get_elem?, set, if◌then◌else◌, ◌==◌, length-set, lt-length_of_get,
  get_elem?-set, ◌∈◌, mem-append, mem-reverse, arith,
}
use sys_tester.Graph.{DirectedGraph}
use sys_tester.Graph.Walk.{Edge}
use sys_tester.Graph.Topo.{not_seen, working, done, DagWorkFrame, Dfs, opened, leave, usize_max}
use sys_tester.Graph.Topo.Search.{IsIn, nodes, IsPlaced, IsCalled, Waits, IsAccounted, Core, Inv}

-- A write of `stack_pos` at a node that is not on the stack leaves the stack placed.
IsPlaced-set :
    (pos : List ℕ) (i v : ℕ) (fs : List DagWorkFrame)
    → i < length pos
    → ¬ (i ∈ nodes fs)
    → IsPlaced pos fs
    → IsPlaced (set pos i v) fs
IsPlaced-set pos i v [] h off p = tt
IsPlaced-set pos i v (f ∷ fs) h off p = (
  ground (arith, get_elem?-set pos i f.node v h),
  IsPlaced-set pos i v fs h (λ m. off (inr m)) p.1,
)

module _ (g : DirectedGraph) where
  Waits-mono :
      (order order' : List ℕ) (child : ℕ) (fs : List DagWorkFrame)
      → ((v : ℕ) → v ∈ order → v ∈ order')
      → Waits g order child fs
      → Waits g order' child fs
  Waits-mono order order' child [] sub w = tt
  Waits-mono order order' child (f ∷ fs) sub w =
      (λ v e. ground (arith, w.0 v e, sub v), Waits-mono order order' f.node fs sub w.1)

  -- Opening an unseen node that an edge of the top frame leads to.
  pub Inv-opened :
      (s : Dfs) (next : ℕ) (es : List ℕ)
      → Core g s
      → Waits g s.reverse_order next s.call_stack
      → IsCalled g next s.call_stack
      → IsIn s.states not_seen next
      → g.edges next ≡ some es
      → Inv g (opened s next es)
  unfolding opened
  Inv-opened s next es c waits called fresh listed = record {
    core = record {
      size = ground (arith, length-set s.states next working, c.size);
      pos_size = ground (arith, length-set s.stack_pos next (length s.call_stack), c.pos_size);
      open_iff = λ v. ground (arith, read v, c.open_iff v);
      done_iff = λ v. ground (arith, read v, c.done_iff v);
      distinct = (off, c.distinct);
      once = c.once;
      placed = (
        ground (arith, get_elem?-set s.stack_pos next next (length s.call_stack) room),
        IsPlaced-set s.stack_pos next (length s.call_stack) s.call_stack room off c.placed,
      );
      linked = (called, c.linked);
      remain = (λ v m. ground arith, c.remain);
      closed = c.closed;
    };
    accounted = (λ v m. inl (ground arith), waits);
  }
    where
      inside : next < length s.states
      inside = lt-length_of_get s.states next not_seen fresh

      room : next < length s.stack_pos
      room = ground (arith, inside, c.size, c.pos_size)

      read :
          (v : ℕ)
          → get_elem? (set s.states next working) v
            ≡ (if next == v then some working else get_elem? s.states v)
      read v = get_elem?-set s.states next v working inside

      off : ¬ (next ∈ nodes s.call_stack)
      off m = ground (arith, (c.open_iff next).1 m)

  -- Closing the top frame when it has no edge left.
  pub Inv-leave :
      (s : Dfs) (f : DagWorkFrame) (fs : List DagWorkFrame)
      → Inv g (record s { call_stack = f ∷ fs })
      → ((v : ℕ) → v ∈ f.edges → IsIn s.states done v)
      → Inv g (leave s f fs)
  unfolding leave
  Inv-leave s f fs i all_done = record {
    core = record {
      size = ground (arith, length-set s.states f.node done, i.size);
      pos_size = ground (arith, length-set s.stack_pos f.node usize_max, i.pos_size);
      open_iff = still_open;
      done_iff =
          λ v. ground (arith, read v, i.done_iff v, mem-append v s.reverse_order (f.node ∷ []));
      distinct = i.distinct.1;
      once = rw turned (not_done, i.once);
      placed = IsPlaced-set s.stack_pos f.node usize_max fs room i.distinct.0 i.placed.1;
      linked = i.linked.1;
      remain = i.remain.1;
      closed = rw turned (λ v e. (mem-reverse v s.reverse_order).1 (ended v e), i.closed);
    };
    accounted = accounted_below fs i.accounted.1;
  }
    where
      opened_here : IsIn s.states working f.node
      opened_here = (i.open_iff f.node).1 (inl refl)

      inside : f.node < length s.states
      inside = lt-length_of_get s.states f.node working opened_here

      room : f.node < length s.stack_pos
      room = ground (arith, inside, i.size, i.pos_size)

      read :
          (v : ℕ)
          → get_elem? (set s.states f.node done) v
            ≡ (if f.node == v then some done else get_elem? s.states v)
      read v = get_elem?-set s.states f.node v done inside

      read_other :
          (v : ℕ)
          → (f.node == v) ≡ false
          → get_elem? (set s.states f.node done) v ≡ get_elem? s.states v
      read_other v e = ground (arith, read v)

      still_open : (v : ℕ) → IsIn (set s.states f.node done) working v ↔ (v ∈ nodes fs)
      still_open v = elim (Bool-cases (f.node == v)) [
        | inl e ↦
            let same = ==→eq f.node v e in
            (
              λ h. ground (arith, read v, h),
              λ m. absurd (i.distinct.0 (subst (λ (k : ℕ). k ∈ nodes fs) (sym same) m)),
            )
        | inr e ↦
            let other = ==→ne f.node v e in
            (
              λ h. elim ((i.open_iff v).0 (sym (read_other v e) ∙ h)) [
                | inl q ↦ absurd (other (sym q))
                | inr m ↦ m
              ],
              λ m. read_other v e ∙ (i.open_iff v).1 (inr m),
            )
      ]

      not_done : ¬ (f.node ∈ reverse s.reverse_order)
      not_done m =
          let shut = (i.done_iff f.node).1 ((mem-reverse f.node s.reverse_order).0 m) in
          cc (sym opened_here ∙ shut)

      turned : reverse (s.reverse_order ++ f.node ∷ []) ≡ f.node ∷ reverse s.reverse_order
      turned = reverse-append s.reverse_order (f.node ∷ [])

      ended : (v : ℕ) → Edge g f.node v → v ∈ s.reverse_order
      ended v e = elim (i.accounted.0 v e) [
        | inl left ↦ (i.done_iff v).0 (all_done v left)
        | inr m ↦ m
      ]

      grown : (v : ℕ) → v ∈ s.reverse_order → v ∈ (s.reverse_order ++ f.node ∷ [])
      grown v m = (mem-append v s.reverse_order (f.node ∷ [])).1 (inl m)

      accounted_below :
          (below : List DagWorkFrame)
          → Waits g s.reverse_order f.node below
          → IsAccounted g (s.reverse_order ++ f.node ∷ []) below
      accounted_below [] w = tt
      accounted_below (p ∷ below) w = (
        λ v e. elim (w.0 v e) [
          | inl left ↦ inl left
          | inr (inl m) ↦ inr (grown v m)
          | inr (inr q) ↦ inr ((mem-append v s.reverse_order (f.node ∷ [])).1 (inr (inl q)))
        ],
        Waits-mono s.reverse_order (s.reverse_order ++ f.node ∷ []) p.node below grown w.1,
      )
