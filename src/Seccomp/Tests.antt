-- ===== src/Seccomp/Tests.antt =====
-- Runs of the filters with a libseccomp that knows two names.
use Prim.Native.String.{String}
use text.Mathlib.Text
use text.Mathlib.TextEquality.{eq_iff}
use sys_tester.Base.{
  ℕ, true, Option, none, some, ◌≡◌, refl, sym, ◌≢◌, ◌⊎◌, inl, inr, ◌∙◌, Bool-cases, if◌then◌else◌,
  arith,
}
use sys_tester.Base.Result.{done}
use sys_tester.Seccomp.Context.{Seccomp, Context, strict, reserved_range, notify, contains, Policy}
use sys_tester.Seccomp.Export.{export_filter}
use sys_tester.Seccomp.Verdict.{verdict}
use sys_tester.Seccomp.Correct.{IsWorking, classify, export_filter-classify, export_filter_nameless}

-- `mmap` is number 9 and `read` number 0; no other name is known.
abbrev number : String → Option ℕ
number name =
    if Text.◌==◌ name "mmap" then some 9 else if Text.◌==◌ name "read" then some 0 else none

abbrev lib : Seccomp
lib = record { from_name = number; accepts = λ _ _. true; map_anonymous = 32 }

abbrev strict_policy : Policy
strict_policy = record {
  file_name = "x86_64_range_strict.bpf";
  fd_policy = reserved_range;
  scope = strict;
}

number_cases :
    (n : String) (s : ℕ) → number n ≡ some s → ((n ≡ "mmap") × (s ≡ 9)) ⊎ ((n ≡ "read") × (s ≡ 0))
number_cases n s h = elim (Bool-cases (Text.◌==◌ n "mmap")) [
  | inl e ↦ inl ((eq_iff n "mmap").0 e, ground (arith, h, e))
  | inr e ↦ elim (Bool-cases (Text.◌==◌ n "read")) [
    | inl r ↦ inr ((eq_iff n "read").0 r, ground (arith, h, e, r))
    | inr r ↦ absurd (ground (arith, h, e, r))
  ]
]

apart_lem :
    (n m : String) (s : ℕ)
    → ((n ≡ "mmap") × (s ≡ 9)) ⊎ ((n ≡ "read") × (s ≡ 0))
    → ((m ≡ "mmap") × (s ≡ 9)) ⊎ ((m ≡ "read") × (s ≡ 0))
    → n ≡ m
apart_lem n m s (inl (a, _)) (inl (b, _)) = a ∙ sym b
apart_lem n m s (inr (a, _)) (inr (b, _)) = a ∙ sym b
apart_lem n m s (inl (_, a)) (inr (_, b)) = absurd (omega (arith, a, b))
apart_lem n m s (inr (_, a)) (inl (_, b)) = absurd (omega (arith, a, b))

lib-IsWorking : IsWorking lib
lib-IsWorking = record {
  accepting = λ _ _. refl;
  mmap = 9;
  known = refl;
  apart = λ n m s hn hm. apart_lem n m s (number_cases n s hn) (number_cases m s hm);
}

nameless : (name : String) → number name ≢ some 7
nameless name h = elim (number_cases name 7 h) [
  | inl (_, e) ↦ omega (arith, e)
  | inr (_, e) ↦ omega (arith, e)
]

export_filter-classify_example :
    (c : Context) × (export_filter lib strict_policy ≡ done c)
    × (verdict c 9 0 34 ≡ classify 32 strict_policy (contains "mmap") 0 34)
export_filter-classify_example =
    export_filter-classify lib strict_policy "mmap" 9 0 34 lib-IsWorking refl

export_filter_nameless_example :
    (c : Context) × (export_filter lib strict_policy ≡ done c) × (verdict c 7 0 0 ≡ notify)
export_filter_nameless_example =
    export_filter_nameless lib strict_policy 7 0 0 lib-IsWorking nameless
