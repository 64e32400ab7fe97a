-- ===== src/Runner/Fd/Range/Correct.antt =====
-- The range of mock descriptors, and the answers of `RangeFileSpace`.
use sys_tester.Base.{
  some_injective, ℕ, suc, ◌+◌, ◌-◌, ◌^◌, ◌≤◌, ◌<◌, ◌≡◌, refl, ◌↔◌, inl, inr, Option, none, some,
  ltb, lt→ltb, le→leb, ltb→lt, Bool-cases, ap, sym, subst, ◌∙◌, arith, dec_lt,
}
use sys_tester.Base.Signed.{ℤ, pos, negsuc, IsI32}
use sys_tester.Model.{mock_fd, u32_max}
use sys_tester.Runner.Fd.{ChildFile, real, mock, mock_fd_base}
use sys_tester.Runner.Fd.Range.{raw_fd, decode_mock, lookup_fd}

raw_fd-some :
    (m : ℕ) → mock_fd_base + m < 2 ^ 31 → raw_fd (mock_fd m) ≡ some (pos (mock_fd_base + m))
unfolding raw_fd
raw_fd-some m h =
    rw
      (
        lt→ltb (mock_fd_base + m) (2 ^ 64) (omega arith),
        lt→ltb (mock_fd_base + m) (2 ^ 31) (omega arith),
      )
      refl

raw_fd-none : (m : ℕ) → 2 ^ 31 ≤ mock_fd_base + m → raw_fd (mock_fd m) ≡ none
unfolding raw_fd
raw_fd-none m h = ground arith

pub lookup_fd-mock :
    (n : ℕ)
    → mock_fd_base ≤ n
    → n ≤ 2 ^ 31 - 1
    → lookup_fd (pos n) ≡ some (mock (mock_fd (n - mock_fd_base)))
unfolding lookup_fd decode_mock
lookup_fd-mock n low high = elim (Bool-cases (ltb n mock_fd_base)) [
  | inl e ↦ absurd (omega (arith, ltb→lt n mock_fd_base e, low))
  | inr e ↦ rw (lookup_fd, decode_mock, e, le→leb (n - mock_fd_base) u32_max (omega arith)) refl
]

pub lookup_fd-real : (n : ℕ) → n < mock_fd_base → lookup_fd (pos n) ≡ some real
unfolding lookup_fd decode_mock
lookup_fd-real n low = rw (lookup_fd, decode_mock, lt→ltb n mock_fd_base low) refl

-- The number behind an answer.
abbrev number : ChildFile → ℕ
number real = 0
number (mock (mock_fd m)) = suc m

abbrev number_of : Option ChildFile → ℕ
number_of none = 0
number_of (some file) = number file

-- Only the descriptor of the mock is taken for it.
pub lookup_fd-mock_only :
    (fd : ℤ) (m : ℕ)
    → IsI32 fd
    → lookup_fd fd ≡ some (mock (mock_fd m))
    → raw_fd (mock_fd m) ≡ some fd
unfolding lookup_fd
lookup_fd-mock_only (negsuc n) m fits e = absurd (ground (arith, e))
lookup_fd-mock_only (pos n) m fits e = elim (dec_lt n mock_fd_base) [
  | yes h ↦ absurd (0≢1 (sym (ap number_of (lookup_fd-real n h)) ∙ ap number_of e))
  | no h ↦
      let same : suc (n - mock_fd_base) ≡ suc m =
        ap number_of (sym (lookup_fd-mock n (omega (arith, h)) fits) ∙ e) in
      raw_fd-some m (omega (arith, same, h, fits)) ∙ ap (λ k. some (pos k)) (omega (arith, same, h))
]
  where
    0≢1 : 0 ≡ suc m → ⊥
    0≢1 h = omega arith

-- For every descriptor that an `i32` can hold and every mock that a `u32` can hold: `mock_fd` gives the
-- mock this descriptor exactly if `lookup_fd` takes the descriptor for this mock. `mock_fd` fails
-- exactly if `MOCK_FD_BASE` and the mock's number make more than `i32::MAX`.
pub raw_fd_iff_lookup_fd :
    (fd : ℤ) (m : ℕ)
    → IsI32 fd
    → m ≤ u32_max
    → ((raw_fd (mock_fd m) ≡ some fd) ↔ (lookup_fd fd ≡ some (mock (mock_fd m))))
      × ((raw_fd (mock_fd m) ≡ none) ↔ (2 ^ 31 ≤ mock_fd_base + m))
raw_fd_iff_lookup_fd fd m fits small =
    ((there fd fits, lookup_fd-mock_only fd m fits), (fails, raw_fd-none m))
  where
    fits_if :
        (fd : ℤ)
        → raw_fd (mock_fd m) ≡ some fd
        → (mock_fd_base + m < 2 ^ 31) × (fd ≡ pos (mock_fd_base + m))
    fits_if fd e = elim (dec_lt (mock_fd_base + m) (2 ^ 31)) [
      | yes h ↦ (h, some_injective _ _ (sym e ∙ raw_fd-some m h))
      | no h ↦ absurd (cc (e, raw_fd-none m (omega (arith, h))))
    ]

    there :
        (fd : ℤ) → IsI32 fd → raw_fd (mock_fd m) ≡ some fd → lookup_fd fd ≡ some (mock (mock_fd m))
    there fd fits e =
        let (h, same) = fits_if fd e in
        rw same (
          lookup_fd-mock (mock_fd_base + m) (omega arith) (omega (arith, h))
          ∙ ap (λ k. some (mock (mock_fd k))) (omega arith))

    fails : raw_fd (mock_fd m) ≡ none → 2 ^ 31 ≤ mock_fd_base + m
    fails e = elim (dec_lt (mock_fd_base + m) (2 ^ 31)) [
      | yes h ↦ absurd (cc (e, raw_fd-some m h))
      | no h ↦ omega (arith, h)
    ]

-- A descriptor of a mock fits an `i32`.
pub raw_fd-IsI32 : (m : ℕ) (fd : ℤ) → raw_fd (mock_fd m) ≡ some fd → IsI32 fd
raw_fd-IsI32 m fd e = elim (dec_lt (mock_fd_base + m) (2 ^ 31)) [
  | yes h ↦ subst IsI32 (some_injective _ _ (sym (raw_fd-some m h) ∙ e)) (omega (arith, h))
  | no h ↦ absurd (cc (e, raw_fd-none m (omega (arith, h))))
]
