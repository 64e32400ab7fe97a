-- ===== src/Runner/Schedule/Build.antt =====
-- `Supervisor::new` sets up the schedule in which nothing has been handed out.
use sys_tester.Base.{
  ℕ, zero, suc, ◌+◌, ◌%◌, ◌^◌, ◌<◌, ◌≡◌, refl, ◌↔◌, inl, inr, sym, ◌∙◌, ap, subst, some, List, [],
  ◌∷◌, ◌++◌, length, get_elem?, length-append, range_from, ◌∈◌, IsNodup, arith, dec_lt, List-cases,
}
use sys_tester.Graph.Packed.{full_edges}
use sys_tester.Model.{CompiledSetup, u32_max}
use sys_tester.Runner.Request.{AtomReq}
use sys_tester.Runner.Schedule.{push_ready, request_of, add_atom, add_atoms, new_schedule}
use sys_tester.Runner.Schedule.Counts.{pending-nil}
use sys_tester.Runner.Schedule.Release.{state, mem-push_ready, IsNodup-push_ready}
use sys_tester.Runner.Schedule.Inv.{before_of, IsSetup, Inv}

get_elem?-snoc :
    (xs : List ℕ) (x i : ℕ)
    → i < suc (length xs)
    → (i < length xs → ⊥)
    → get_elem? (xs ++ x ∷ []) i ≡ some x
get_elem?-snoc [] x zero h off = refl
get_elem?-snoc [] x (suc i) h off = absurd (omega arith)
get_elem?-snoc (y ∷ xs) x zero h off = absurd (off (omega arith))
get_elem?-snoc (y ∷ xs) x (suc i) h off =
    get_elem?-snoc xs x i (omega arith) (λ l. off (omega arith))

get_elem?-snoc_old :
    (xs : List ℕ) (x i : ℕ) → i < length xs → get_elem? (xs ++ x ∷ []) i ≡ get_elem? xs i
get_elem?-snoc_old [] x i h = absurd (omega arith)
get_elem?-snoc_old (y ∷ xs) x zero h = refl
get_elem?-snoc_old (y ∷ xs) x (suc i) h = get_elem?-snoc_old xs x i (omega arith)

module _ (info : CompiledSetup) (setup : IsSetup info) where
  -- The schedule after the atoms below `k`.
  record Built (k : ℕ) (ready : AtomReq → List ℕ) (waits : List ℕ) : Type 0 where
    size : length waits ≡ k
    counts : (v : ℕ) → v < k → get_elem? waits v ≡ some (length (before_of info v))
    ready_iff :
        (q : AtomReq) (v : ℕ)
        → (v ∈ ready q) ↔ ((v < k) × (request_of info v ≡ some q) × (length (before_of info v) ≡ 0))
    once : (q : AtomReq) → IsNodup (ready q)

  module _ (k : ℕ) (ready : AtomReq → List ℕ) (waits : List ℕ) (b : Built k ready waits) where
    counts_next :
        (v : ℕ)
        → v < suc k
        → get_elem? (waits ++ length (before_of info k) ∷ []) v ≡ some (length (before_of info v))
    counts_next v h = elim (dec_lt v k) [
      | yes low ↦ get_elem?-snoc_old waits _ v (omega (arith, b.size)) ∙ b.counts v low
      | no high ↦
          let last : k ≡ v = omega arith in
          subst
            (λ y.
              get_elem? (waits ++ length (before_of info k) ∷ []) y
              ≡ some (length (before_of info y)))
            last (get_elem?-snoc waits _ k (omega (arith, b.size)) (λ l. omega (arith, b.size)))
    ]

    size_next : length (waits ++ length (before_of info k) ∷ []) ≡ suc k
    size_next = omega (arith, length-append waits (length (before_of info k) ∷ []), b.size)

    waiting_next :
        ¬ (length (before_of info k) ≡ 0)
        → Built (suc k) ready (waits ++ length (before_of info k) ∷ [])
    waiting_next some_left = record {
      size = size_next;
      counts = counts_next;
      ready_iff = λ q v. (
        λ m.
            let (low, asked, none_left) = (b.ready_iff q v).0 m in
            (omega (arith, low), asked, none_left),
        λ h. (b.ready_iff q v).1 (below v h.0 h.2, h.1, h.2),
      );
      once = b.once;
    }
      where
        below : (v : ℕ) → v < suc k → length (before_of info v) ≡ 0 → v < k
        below v h none_left = elim (dec_lt v k) [
          | yes low ↦ low
          | no high ↦
              let last : v ≡ k = omega arith in
              absurd (some_left (subst (λ y. length (before_of info y) ≡ 0) last none_left))
        ]

    ready_next :
        (r : AtomReq)
        → request_of info k ≡ some r
        → length (before_of info k) ≡ 0
        → Built (suc k) (push_ready r k ready) (waits ++ length (before_of info k) ∷ [])
    ready_next r asked none_left = record {
      size = size_next;
      counts = counts_next;
      ready_iff = λ q v. (
        λ m. elim ((mem-push_ready info r q k v ready).0 m) [
          | inl old ↦
              let (low, asked', none_left') = (b.ready_iff q v).0 old in
              (omega (arith, low), asked', none_left')
          | inr (s, e) ↦ subst (holds q) (sym s) (omega arith, asked ∙ ap some e, none_left)
        ],
        λ h. (mem-push_ready info r q k v ready).1 (elim (dec_lt v k) [
          | yes low ↦ inl ((b.ready_iff q v).1 (low, h.1, h.2))
          | no high ↦
              let last : v ≡ k = omega (arith, h.0) in
              inr (last, ground (arith, asked, subst (λ y. request_of info y ≡ some q) last h.1))
        ]),
      );
      once = λ q.
          IsNodup-push_ready info r q k ready (b.once q)
            (λ m. let (low, _, _) = (b.ready_iff q k).0 m in omega (arith, low));
    }
      where
        holds : AtomReq → ℕ → Type 0
        holds q y = (y < suc k) × (request_of info y ≡ some q) × (length (before_of info y) ≡ 0)

    add_waiting :
        (es : List ℕ) (p : ℕ) (ps : List ℕ)
        → full_edges info.before_graph k ≡ some es
        → length es < u32_max
        → es ≡ p ∷ ps
        → add_atom (state info ready waits) k ≡ some (state info ready (waits ++ length es ∷ []))
    unfolding add_atom full_edges
    add_waiting es p ps has few e =
        rw (has, e) (λ i. some (state info ready (waits ++ unwrapped i ∷ [])))
      where
        unwrapped : length es % 2 ^ 32 ≡ length (p ∷ ps)
        unwrapped = omega (arith, few, ap length e)

    add_ready :
        (es : List ℕ) (r : AtomReq)
        → full_edges info.before_graph k ≡ some es
        → request_of info k ≡ some r
        → es ≡ []
        → add_atom (state info ready waits) k
          ≡ some (state info (push_ready r k ready) (waits ++ length es ∷ []))
    unfolding add_atom full_edges
    add_ready es r has asked e =
        rw (has, e, asked)
          (λ i. some (state info (push_ready r k ready) (waits ++ unwrapped i ∷ [])))
      where
        unwrapped : length es % 2 ^ 32 ≡ 0
        unwrapped = omega (arith, ap length e)

    add_atom-Built :
        k < length info.atoms
        → (ready' : AtomReq → List ℕ) × (waits' : List ℕ) × (add_atom (state info ready waits) k
            ≡ some (state info ready' waits'))
          × Built (suc k) ready' waits'
    add_atom-Built inside = elim (List-cases (before_of info k)) [
      | inl e ↦
          let (r, asked) = setup.answered k inside in
          (
            push_ready r k ready,
            waits ++ length (before_of info k) ∷ [],
            add_ready (before_of info k) r (setup.has_before k inside) asked e,
            ready_next r asked (ap length e),
          )
      | inr (p, ps, e) ↦ (
        ready,
        waits ++ length (before_of info k) ∷ [],
        add_waiting (before_of info k) p ps (setup.has_before k inside) (setup.few k inside) e,
        waiting_next (λ z. ground (arith, z, e)),
      )
    ]

  add_atoms-Built :
      (m k : ℕ) (ready : AtomReq → List ℕ) (waits : List ℕ)
      → k + m ≡ length info.atoms
      → Built k ready waits
      → (ready' : AtomReq → List ℕ) × (waits' : List ℕ) × (add_atoms
            (state info ready waits)
            (range_from k m)
          ≡ some (state info ready' waits'))
        × Built (length info.atoms) ready' waits'
  unfolding add_atoms
  add_atoms-Built zero k ready waits e b =
      (ready, waits, refl, subst (λ n. Built n ready waits) (omega arith) b)
  add_atoms-Built (suc m) k ready waits e b =
      let (ready₁, waits₁, first, b₁) = add_atom-Built k ready waits b (omega arith) in
      let (ready', waits', runs, last) = add_atoms-Built m (suc k) ready₁ waits₁ (omega arith) b₁ in
      (ready', waits', rw (first, add_atoms) runs, last)

  Built-Inv :
      (ready : AtomReq → List ℕ) (waits : List ℕ)
      → Built (length info.atoms) ready waits
      → Inv info [] [] ready waits
  Built-Inv ready waits b = record {
    size = b.size;
    finished = λ v m. absurd m;
    waiting = λ v inside off. b.counts v inside ∙ ap some (sym (pending-nil (before_of info v)));
    ready_iff = λ q v. (
      λ m.
          let (inside, asked, none_left) = (b.ready_iff q v).0 m in
          (inside, λ t. t, asked, pending-nil (before_of info v) ∙ none_left),
      λ h. (b.ready_iff q v).1 (h.0, h.2, sym (pending-nil (before_of info v)) ∙ h.3),
    );
    once = b.once;
    begun = λ v m. absurd m;
    able = λ v m. absurd m;
  }

  pub new_schedule-Inv :
      (ready : AtomReq → List ℕ) × (waits : List ℕ) × (new_schedule info
        ≡ some (state info ready waits))
      × Inv info [] [] ready waits
  unfolding new_schedule
  new_schedule-Inv =
      let (ready, waits, runs, b) =
        add_atoms-Built (length info.atoms) 0 (λ _. []) [] (omega arith)
          record {
            size = refl;
            counts = λ v h. absurd (omega arith);
            ready_iff = λ q v. (λ m. absurd m, λ h. absurd (omega (arith, h.0)));
            once = λ q. tt;
          } in
      (ready, waits, runs, Built-Inv ready waits b)
