-- ===== src/Runner/Schedule/Release.antt =====
-- The loop of `mark_done`: each atom in the list waits for one atom less, and those that reach 0 become
-- ready.
use mathlib.Core.Logic.{ite}
use sys_tester.Base.{
  ℕ, zero, suc, ◌+◌, ◌-◌, ◌%◌, ◌^◌, ◌≤◌, ◌<◌, ◌≡◌, refl, ◌⊎◌, ◌↔◌, inl, inr, sym, ◌∙◌, ap, subst,
  some, List, ◌∷◌, length, get_elem?, set, get_elem?-set_self, get_elem?-set_ne, lt-length_of_get,
  ◌==◌, ==→eq, ==→ne, Bool-cases, ◌∈◌, IsNodup, arith,
}
use sys_tester.Model.{CompiledSetup, u32_max}
use sys_tester.Runner.Request.{AtomReq, AtomReq-discrete}
use sys_tester.Runner.Schedule.{Schedule, push_ready, request_of, release}
use sys_tester.Runner.Schedule.Counts.{count}

pub above_zero : (n : ℕ) → 0 < n → (m : ℕ) × (n ≡ suc m)
above_zero zero h = absurd (omega arith)
above_zero (suc m) h = (m, refl)

module _ (info : CompiledSetup) where
  abbrev pub state : (AtomReq → List ℕ) → List ℕ → Schedule
  state ready waits = record { ready_atoms = ready; wait_counts = waits; info = info }

  -- An atom is listed under its own request, once, and waits for nothing.
  pub record IsListed (ready : AtomReq → List ℕ) (waits : List ℕ) : Type 0 where
    pub waits_zero : (q : AtomReq) (v : ℕ) → v ∈ ready q → get_elem? waits v ≡ some 0
    pub under : (q : AtomReq) (v : ℕ) → v ∈ ready q → request_of info v ≡ some q
    pub once : (q : AtomReq) → IsNodup (ready q)

  -- What the loop over `xs` makes of the two fields.
  pub record Released (xs : List ℕ) (ready : AtomReq → List ℕ) (waits : List ℕ)
      (ready' : AtomReq → List ℕ) (waits' : List ℕ) : Type 0 where
    pub size : length waits' ≡ length waits
    pub counts : (v c : ℕ) → get_elem? waits v ≡ some c → get_elem? waits' v ≡ some (c - count v xs)
    pub listed : IsListed ready' waits'
    pub ready_iff :
        (q : AtomReq) (v : ℕ)
        → (v ∈ ready' q) ↔ (
            (v ∈ ready q) ⊎ (v ∈ xs) × (get_elem? waits' v ≡ some 0) × (request_of info v ≡ some q))

  pub mem-push_ready :
      (req q : AtomReq) (id v : ℕ) (ready : AtomReq → List ℕ)
      → (v ∈ push_ready req id ready q) ↔ ((v ∈ ready q) ⊎ (v ≡ id) × (req ≡ q))
  unfolding push_ready
  mem-push_ready req q id v ready =
      elim (AtomReq-discrete req q)
        as (λ d. (v ∈ ite d (id ∷ ready q) (ready q)) ↔ ((v ∈ ready q) ⊎ (v ≡ id) × (req ≡ q))) [
          | yes e ↦ (
            elim [ inl s ↦ inr (s, e) | inr m ↦ inl m ],
            elim [ inl m ↦ inr m | inr (s, _) ↦ inl s ],
          )
          | no ne ↦ (inl, elim [ inl m ↦ m | inr (_, e) ↦ absurd (ne e) ])
        ]

  -- The wrapped subtraction of 1 from a count that is not 0.
  take_one : (c : ℕ) → suc c ≤ u32_max → (suc c + 2 ^ 32 - 1) % 2 ^ 32 ≡ c
  take_one c h = omega arith

  pub IsNodup-push_ready :
      (req q : AtomReq) (id : ℕ) (ready : AtomReq → List ℕ)
      → IsNodup (ready q)
      → ¬ (id ∈ ready q)
      → IsNodup (push_ready req id ready q)
  unfolding push_ready
  IsNodup-push_ready req q id ready once off =
      elim (AtomReq-discrete req q) as (λ d. IsNodup (ite d (id ∷ ready q) (ready q))) [
        | yes e ↦ (off, once)
        | no ne ↦ once
      ]

  -- What one round does to an atom that waits for `suc c` atoms.
  pub record Round (x c : ℕ) (r : AtomReq) (ready : AtomReq → List ℕ) (waits : List ℕ)
      (ready' : AtomReq → List ℕ) : Type 0 where
    pub runs : release (state ready waits) x ≡ some (state ready' (set waits x c))
    pub listed : IsListed ready' (set waits x c)
    pub ready_iff :
        (q : AtomReq) (v : ℕ) → (v ∈ ready' q) ↔ ((v ∈ ready q) ⊎ (v ≡ x) × (c ≡ 0) × (r ≡ q))

  module _ (x c : ℕ) (r : AtomReq) (ready : AtomReq → List ℕ) (waits : List ℕ)
      (asked : request_of info x ≡ some r) (at : get_elem? waits x ≡ some (suc c))
      (small : suc c ≤ u32_max) (listed : IsListed ready waits) where
    off : (q : AtomReq) → ¬ (x ∈ ready q)
    off q m = ground (arith, listed.waits_zero q x m, at)

    kept_zero : (q : AtomReq) (v : ℕ) → v ∈ ready q → get_elem? (set waits x c) v ≡ some 0
    kept_zero q v m =
        get_elem?-set_ne waits x v c (λ e. off q (subst (λ y. y ∈ ready q) (sym e) m))
        ∙ listed.waits_zero q v m

    pub round_lem : (ready' : AtomReq → List ℕ) × Round x c r ready waits ready'
    unfolding release
    round_lem = elim (Bool-cases (c == 0)) [
      | inl e ↦ (
        push_ready r x ready,
        record {
          runs = rw (at, take_one c small, e, asked, take_one c small) refl;
          listed = record {
            waits_zero = λ q v m. elim ((mem-push_ready r q x v ready).0 m) [
              | inl m' ↦ kept_zero q v m'
              | inr (s, _) ↦
                  subst (λ y. get_elem? (set waits x c) y ≡ some 0) (sym s)
                    (get_elem?-set_self waits x c (lt-length_of_get waits x _ at)
                      ∙ ap some (==→eq c 0 e))
            ];
            under = λ q v m. elim ((mem-push_ready r q x v ready).0 m) [
              | inl m' ↦ listed.under q v m'
              | inr (s, e') ↦ subst (λ y. request_of info y ≡ some q) (sym s) (asked ∙ ap some e')
            ];
            once = λ q. IsNodup-push_ready r q x ready (listed.once q) (off q);
          };
          ready_iff = λ q v. (
            λ m. elim ((mem-push_ready r q x v ready).0 m) [
              | inl m' ↦ inl m'
              | inr (s, e') ↦ inr (s, ==→eq c 0 e, e')
            ],
            elim [
              | inl m ↦ (mem-push_ready r q x v ready).1 (inl m)
              | inr (s, _, e') ↦ (mem-push_ready r q x v ready).1 (inr (s, e'))
            ],
          );
        },
      )
      | inr e ↦ (
        ready,
        record {
          runs = rw (at, take_one c small, e) refl;
          listed = record { waits_zero = kept_zero; under = listed.under; once = listed.once };
          ready_iff = λ q v. (inl, elim [ inl m ↦ m | inr (_, z, _) ↦ absurd (==→ne c 0 e z) ]);
        },
      )
    ]
