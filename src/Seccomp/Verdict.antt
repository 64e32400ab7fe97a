-- ===== src/Seccomp/Verdict.antt =====
-- What a filter does with a system call: the action of the rule that applies, or the default.
use Prim.Native.String.{String}
use Prim.Native.Nat.{bit_and}
use text.Mathlib.Text
use text.Mathlib.TextEquality.{eq_iff}
use sys_tester.Base.{
  ℕ, Bool, true, false, ◌&&◌, some, Option-cases, Bool-cases, List, [], ◌∷◌, ◌++◌, ◌≡◌, refl, ◌∙◌,
  ap, if◌then◌else◌, inl, inr, arith, ltb, ◌==◌, ==→eq, ==→ne,
}
use sys_tester.Seccomp.Context.{
  ScmpAction, Compare, always, arg0_below, arg3_masked, Rule, Seccomp, Context, contains,
}
use sys_tester.Seccomp.Fresh.{rules_of}

-- Whether the comparison holds of the arguments 0 and 3.
abbrev pub holds : Compare → ℕ → ℕ → Bool
holds always arg0 arg3 = true
holds (arg0_below bound) arg0 arg3 = ltb arg0 bound
holds (arg3_masked mask) arg0 arg3 = bit_and arg3 mask == mask

-- The documented meaning of a filter: a rule for the system call whose comparison holds gives its
-- action; without one the fallback is taken.
abbrev pub decide : List Rule → ScmpAction → ℕ → ℕ → ℕ → ScmpAction
decide [] fallback syscall arg0 arg3 = fallback
decide (rule ∷ rules) fallback syscall arg0 arg3 =
    let rest = decide rules fallback syscall arg0 arg3 in
    if rule.syscall == syscall && holds rule.compare arg0 arg3 then rule.action else rest

-- What the exported filter does with a system call.
abbrev pub verdict : Context → ℕ → ℕ → ℕ → ScmpAction
verdict c syscall arg0 arg3 = decide c.rules c.default_action syscall arg0 arg3

pub decide-append :
    (rules more : List Rule) (fallback : ScmpAction) (syscall arg0 arg3 : ℕ)
    → decide (rules ++ more) fallback syscall arg0 arg3
      ≡ decide rules (decide more fallback syscall arg0 arg3) syscall arg0 arg3
decide-append [] more fallback syscall arg0 arg3 = refl
decide-append (rule ∷ rules) more fallback syscall arg0 arg3 =
    ap (λ d. if rule.syscall == syscall && holds rule.compare arg0 arg3 then rule.action else d)
      (decide-append rules more fallback syscall arg0 arg3)

pub decide-append_5 :
    (a b c d e : List Rule) (fallback : ScmpAction) (syscall arg0 arg3 : ℕ)
    → decide ((((a ++ b) ++ c) ++ d) ++ e) fallback syscall arg0 arg3
      ≡ decide a
          (decide b
            (decide c
              (decide d (decide e fallback syscall arg0 arg3) syscall arg0 arg3)
              syscall
              arg0
              arg3)
            syscall
            arg0
            arg3)
          syscall
          arg0
          arg3
decide-append_5 a b c d e fallback syscall arg0 arg3 =
    decide-append (((a ++ b) ++ c) ++ d) e fallback syscall arg0 arg3
    ∙ decide-append ((a ++ b) ++ c) d _ syscall arg0 arg3
    ∙ decide-append (a ++ b) c _ syscall arg0 arg3
    ∙ decide-append a b _ syscall arg0 arg3

module _ (lib : Seccomp)
    (apart : (n m : String) (s : ℕ) → lib.from_name n ≡ some s → lib.from_name m ≡ some s → n ≡ m)
    (name : String) (syscall : ℕ) (known : lib.from_name name ≡ some syscall) (arg0 arg3 : ℕ) where
  differs : (other : String) → (name ≡ other → ⊥) → Text.◌==◌ name other ≡ false
  differs other ne = elim (Bool-cases (Text.◌==◌ name other)) [
    | inl e ↦ absurd (ne ((eq_iff name other).0 e))
    | inr e ↦ e
  ]

  number_of : (s : ℕ) (other : String) → lib.from_name other ≡ some s → name ≡ other → s ≡ syscall
  number_of s other e p = ground (arith, e, known, ap lib.from_name p)

  -- What a group decides about a system call that it names or does not name.
  pub decide-rules_of :
      (action fallback : ScmpAction) (compare : Compare) (names : List String)
      → decide (rules_of lib action compare names) fallback syscall arg0 arg3
        ≡ (if contains name names && holds compare arg0 arg3 then action else fallback)
  decide-rules_of action fallback compare [] = refl
  decide-rules_of action fallback compare (other ∷ names) =
      let rest = decide-rules_of action fallback compare names in
      elim (Option-cases (lib.from_name other)) [
        | inl e ↦ rw (rules_of, e, differs other (λ s. cc (s, e, known))) rest
        | inr (s, e) ↦ elim (Bool-cases (s == syscall)) [
          | inl same ↦
              let equal : name ≡ other =
                apart name other syscall known (e ∙ ap some (==→eq s syscall same)) in
              rw (rules_of, e, same, (eq_iff name other).1 equal)
                (by_compare _ (contains name names) rest)
          | inr other_number ↦
              rw
                (
                  rules_of,
                  e,
                  other_number,
                  differs other (λ p. ==→ne s syscall other_number (number_of s other e p)),
                )
                rest
        ]
      ]
    where
      closed :
          (b : Bool)
          → holds compare arg0 arg3 ≡ false
          → (if b && holds compare arg0 arg3 then action else fallback) ≡ fallback
      closed true e = rw e refl
      closed false e = refl

      by_compare :
          (d : ScmpAction) (b : Bool)
          → d ≡ (if b && holds compare arg0 arg3 then action else fallback)
          → (if holds compare arg0 arg3 then action else d)
            ≡ (if holds compare arg0 arg3 then action else fallback)
      by_compare d b h = elim (Bool-cases (holds compare arg0 arg3)) [
        | inl e ↦ rw e refl
        | inr e ↦ rw e (h ∙ closed b e)
      ]

-- A system call without a name meets no rule.
pub decide-rules_of_nameless :
    (lib : Seccomp) (syscall arg0 arg3 : ℕ)
    → ((name : String) → lib.from_name name ≡ some syscall → ⊥)
    → (action fallback : ScmpAction) (compare : Compare) (names : List String)
    → decide (rules_of lib action compare names) fallback syscall arg0 arg3 ≡ fallback
decide-rules_of_nameless lib syscall arg0 arg3 nameless action fallback compare [] = refl
decide-rules_of_nameless lib syscall arg0 arg3 nameless action fallback compare (name ∷ names) =
    let rest =
      decide-rules_of_nameless lib syscall arg0 arg3 nameless action fallback compare names in
    elim (Option-cases (lib.from_name name)) [
      | inl e ↦ rw (rules_of, e) rest
      | inr (s, e) ↦ elim (Bool-cases (s == syscall)) [
        | inl same ↦ absurd (nameless name (e ∙ ap some (==→eq s syscall same)))
        | inr other ↦ rw (rules_of, e, other) rest
      ]
    ]
