-- ===== src/Graph/Reduce/Cover.antt =====
-- The loop over the successors of one node: it keeps the successors that no other one leads to, and
-- marks what is reached through any of them.
use sys_tester.Base.{
  ℕ, zero, suc, ◌<◌, ◌≡◌, refl, ◌⊎◌, ◌↔◌, inl, inr, sym, subst, ap, ◌∙◌, Bool, true, false, some,
  List, [], ◌∷◌, ◌++◌, length, get_elem?, get_elem?-set, set, length-set, if◌then◌else◌, ◌==◌,
  Bool-cases, ==→eq, ◌∈◌, All, All-mem, mem-append, arith,
}
use sys_tester.Graph.{DirectedGraph}
use sys_tester.Graph.Walk.{Walk, Walk-trans}
use sys_tester.Graph.Reduce.{Rows, or_into}

abbrev pub IsMarked : List Bool → ℕ → Type 0
IsMarked row v = get_elem? row v ≡ some true

pub length-or_into : (covered row : List Bool) → length (or_into covered row) ≡ length covered
unfolding or_into
length-or_into [] row = refl
length-or_into (c ∷ covered) [] = refl
length-or_into (c ∷ covered) (b ∷ row) = ap suc (length-or_into covered row)

IsMarked-or_into :
    (covered row : List Bool) (v : ℕ)
    → length covered ≡ length row
    → IsMarked (or_into covered row) v ↔ (IsMarked covered v ⊎ IsMarked row v)
unfolding or_into
IsMarked-or_into [] [] v e = (inl, elim [ inl h ↦ h | inr h ↦ h ])
IsMarked-or_into [] (b ∷ row) v e = absurd (omega arith)
IsMarked-or_into (c ∷ covered) [] v e = absurd (omega arith)
IsMarked-or_into (true ∷ covered) (b ∷ row) zero e = (λ h. inl refl, λ h. refl)
IsMarked-or_into (false ∷ covered) (b ∷ row) zero e = (inr, elim [ inl h ↦ cc | inr h ↦ h ])
IsMarked-or_into (c ∷ covered) (b ∷ row) (suc v) e = IsMarked-or_into covered row v (omega arith)

module _ (g : DirectedGraph) where
  -- `w` is `v` or is reached from it.
  abbrev pub IsUnder : ℕ → ℕ → Type 0
  IsUnder v w = (w ≡ v) ⊎ Walk g v w

  -- The row of a node whose successors have been gone through.
  pub record IsReachRow (v : ℕ) (row : List Bool) : Type 0 where
    pub size : length row ≡ g.num_nodes
    pub marks : (w : ℕ) → IsMarked row w ↔ Walk g v w

  -- What the rows hold once the successors `seen` have been gone through.
  pub record Covers (seen : List ℕ) (r : Rows) : Type 0 where
    pub size : length r.covered ≡ g.num_nodes
    pub sound : (w : ℕ) → IsMarked r.covered w → (x : ℕ) × (x ∈ seen) × IsUnder x w
    pub full : (x w : ℕ) → x ∈ seen → IsUnder x w → IsMarked r.covered w
    pub from_seen : (v : ℕ) → v ∈ r.kept → v ∈ seen
    pub needed : (v y : ℕ) → v ∈ r.kept → y ∈ seen → ¬ Walk g y v
    pub enough : (v : ℕ) → v ∈ seen → (v ∈ r.kept) ⊎ ((y : ℕ) × (y ∈ seen) × Walk g y v)

  module _ (rank : ℕ → ℕ) (rises : (u v : ℕ) → u < g.num_nodes → Walk g u v → rank u < rank v) where
    -- A successor that is covered already is reached through an earlier one.
    pub Covers-skip :
        (seen : List ℕ) (to : ℕ) (r : Rows)
        → to < g.num_nodes
        → All (λ x. rank x < rank to) seen
        → IsMarked r.covered to
        → Covers seen r
        → Covers (to ∷ seen) r
    Covers-skip seen to r inside below marked c = record {
      size = c.size;
      sound = λ w h. let (x, m, u) = c.sound w h in (x, inr m, u);
      full = λ x w. elim [
        | inl e ↦ (λ u. through w (subst (λ k. IsUnder k w) e u))
        | inr m ↦ c.full x w m
      ];
      from_seen = λ v m. inr (c.from_seen v m);
      needed = λ v y kept. elim [
        | inl e ↦ (λ p. lower v kept (subst (λ k. Walk g k v) e p))
        | inr m ↦ c.needed v y kept m
      ];
      enough = λ v. elim [
        | inl e ↦ inr (subst (λ k. (y : ℕ) × (y ∈ (to ∷ seen)) × Walk g y k) (sym e) reached)
        | inr m ↦ elim (c.enough v m) [
          | inl kept ↦ inl kept
          | inr (y, there, p) ↦ inr (y, inr there, p)
        ]
      ];
    }
      where
        reached : (y : ℕ) × (y ∈ (to ∷ seen)) × Walk g y to
        reached =
            let (x, m, u) = c.sound to marked in
            elim u [
              | inl e ↦
                  let less = All-mem (λ x. rank x < rank to) seen x below m in
                  absurd (omega (arith, less, ap rank e))
              | inr p ↦ (x, inr m, p)
            ]

        through : (w : ℕ) → IsUnder to w → IsMarked r.covered w
        through w (inl e) = rw e marked
        through w (inr p) =
            let (x, m, u) = c.sound to marked in
            c.full x w m
              (elim u [ inl e ↦ inr (subst (λ k. Walk g k w) e p) | inr q ↦ inr (Walk-trans q p) ])

        lower : (v : ℕ) → v ∈ r.kept → ¬ Walk g to v
        lower v kept p =
            let less = All-mem (λ x. rank x < rank to) seen v below (c.from_seen v kept) in
            omega (arith, less, rises to v inside p)

    -- A successor that is not covered is kept, and its row is added.
    pub Covers-keep :
        (seen : List ℕ) (to : ℕ) (r : Rows) (row : List Bool)
        → to < g.num_nodes
        → All (λ x. rank x < rank to) seen
        → get_elem? r.covered to ≡ some false
        → IsReachRow to row
        → Covers seen r
        → Covers
            (to ∷ seen)
            (record { kept = r.kept ++ to ∷ []; covered = or_into (set r.covered to true) row })
    Covers-keep seen to r row inside below unmarked reach c = record {
      size = length-or_into (set r.covered to true) row ∙ length-set r.covered to true ∙ c.size;
      sound = sound;
      full = full;
      from_seen = λ v m. elim ((mem-append v r.kept (to ∷ [])).0 m) [
        | inl old ↦ inr (c.from_seen v old)
        | inr (inl e) ↦ inl e
        | inr (inr nowhere) ↦ absurd nowhere
      ];
      needed = needed;
      enough = λ v. elim [
        | inl e ↦ inl ((mem-append v r.kept (to ∷ [])).1 (inr (inl e)))
        | inr m ↦ elim (c.enough v m) [
          | inl kept ↦ inl ((mem-append v r.kept (to ∷ [])).1 (inl kept))
          | inr (y, there, p) ↦ inr (y, inr there, p)
        ]
      ];
    }
      where
        marks :
            (w : ℕ)
            → IsMarked (or_into (set r.covered to true) row) w
              ↔ (IsMarked (set r.covered to true) w ⊎ IsMarked row w)
        marks w =
            IsMarked-or_into (set r.covered to true) row w
              (omega (arith, length-set r.covered to true, c.size, reach.size))

        write :
            (w : ℕ)
            → get_elem? (set r.covered to true) w
              ≡ (if to == w then some true else get_elem? r.covered w)
        write w = get_elem?-set r.covered to w true (omega (arith, c.size))

        sound :
            (w : ℕ)
            → IsMarked (or_into (set r.covered to true) row) w
            → (x : ℕ) × (x ∈ (to ∷ seen)) × IsUnder x w
        sound w h = elim ((marks w).0 h) [
          | inr marked ↦ (to, inl refl, inr ((reach.marks w).0 marked))
          | inl marked ↦ elim (Bool-cases (to == w)) [
            | inl e ↦ (to, inl refl, inl (sym (==→eq to w e)))
            | inr e ↦
                let old : IsMarked r.covered w = ground (arith, write w) in
                let (x, m, u) = c.sound w old in (x, inr m, u)
          ]
        ]

        full :
            (x w : ℕ)
            → x ∈ (to ∷ seen)
            → IsUnder x w
            → IsMarked (or_into (set r.covered to true) row) w
        full x w (inl e) (inl q) = (marks w).1 (inl (ground (arith, write w)))
        full x w (inl e) (inr p) =
            (marks w).1 (inr ((reach.marks w).1 (subst (λ k. Walk g k w) e p)))
        full x w (inr m) u =
            let old = c.full x w m u in (marks w).1 (inl (ground (arith, write w, old)))

        uncovered : (y : ℕ) → y ∈ seen → ¬ Walk g y to
        uncovered y m p = cc (c.full y to m (inr p))

        needed : (v y : ℕ) → v ∈ (r.kept ++ to ∷ []) → y ∈ (to ∷ seen) → ¬ Walk g y v
        needed v y m there p = elim ((mem-append v r.kept (to ∷ [])).0 m) [
          | inl old ↦ elim there [
            | inl e ↦
                let less = All-mem (λ x. rank x < rank to) seen v below (c.from_seen v old) in
                omega (arith, less, rises to v inside (subst (λ k. Walk g k v) e p))
            | inr earlier ↦ c.needed v y old earlier p
          ]
          | inr (inl e) ↦ elim there [
            | inl q ↦
                let around : Walk g to to =
                  subst (λ k. Walk g to k) e (subst (λ k. Walk g k v) q p) in
                omega (arith, rises to to inside around)
            | inr earlier ↦ uncovered y earlier (subst (λ k. Walk g y k) e p)
          ]
          | inr (inr nowhere) ↦ absurd nowhere
        ]
