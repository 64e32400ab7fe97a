-- ===== src/Index/Spans.antt =====
-- A part of a span has the same indices as the part of its indices.
use sys_tester.Base.{
  ℕ, zero, suc, ◌+◌, ◌-◌, ◌^◌, ◌≤◌, ◌<◌, ◌≡◌, refl, ap, ◌∙◌, sym, some, List, ◌∷◌, le→leb, lt→ltb,
  take, drop, range_from, arith,
}
use sys_tester.Index.{IndexSpan, new_index, plus, new_span, ids_at, ids, subslice}

module _ (max_index : ℕ) (machine : max_index < 2 ^ 64) where
  plus-some : (i amount : ℕ) → i + amount ≤ max_index → plus max_index i amount ≡ some (i + amount)
  unfolding plus new_index
  plus-some i amount h =
      rw (lt→ltb (i + amount) (2 ^ 64) (omega (arith, h, machine)), le→leb (i + amount) max_index h)
        refl

  ids_at-range_from :
      (span : IndexSpan) (i n : ℕ)
      → span.first + (i + n) ≤ suc max_index
      → ids_at max_index span (range_from i n) ≡ some (range_from (span.first + i) n)
  unfolding ids_at
  ids_at-range_from span i zero h = refl
  ids_at-range_from span i (suc n) h =
      let rest : ids_at max_index span (range_from (suc i) n)
          ≡ some (range_from (suc (span.first + i)) n) =
        ids_at-range_from span (suc i) n (omega (arith, h))
        ∙ ap (λ k. some (range_from k n)) (omega arith) in
      rw (ids_at, plus-some span.first i (omega (arith, h)), rest) refl

drop-range_from : (i n k : ℕ) → k ≤ n → drop k (range_from i n) ≡ range_from (i + k) (n - k)
drop-range_from i n zero h = λ j. range_from (same j) (less j)
  where
    same : i ≡ i + 0
    same = omega arith

    less : n ≡ n - 0
    less = omega arith
drop-range_from i zero (suc k) h = absurd (omega (arith, h))
drop-range_from i (suc n) (suc k) h =
    drop-range_from (suc i) n k (omega (arith, h)) ∙ (λ j. range_from (same j) (less j))
  where
    same : suc i + k ≡ i + suc k
    same = omega arith

    less : n - k ≡ suc n - suc k
    less = omega arith

take-range_from : (i n k : ℕ) → k ≤ n → take k (range_from i n) ≡ range_from i k
take-range_from i n zero h = refl
take-range_from i zero (suc k) h = absurd (omega (arith, h))
take-range_from i (suc n) (suc k) h =
    ap (λ l. i ∷ l) (take-range_from (suc i) n k (omega (arith, h)))

-- Let the end of a span, `first + count`, be an index of the index type itself, which is a machine word at
-- most. A part of `count` indices from `offset` on, with `offset + count` at most the span's count, can be
-- taken without a panic; its indices, and those of the span, can be listed without a panic; and the
-- indices of the part are `count` indices of the span from `offset` on.
pub ids-subslice :
    (max_index : ℕ) (span : IndexSpan) (offset count : ℕ)
    → max_index < 2 ^ 64
    → span.first + span.count ≤ max_index
    → offset + count ≤ span.count
    → (part : IndexSpan) × (all : List ℕ) × (subslice max_index span offset count ≡ some part)
      × (ids max_index span ≡ some all)
      × (ids max_index part ≡ some (take count (drop offset all)))
unfolding subslice ids new_span new_index
ids-subslice max_index span offset count machine inside within = (
  record { first = span.first + offset; count = count },
  range_from (span.first + 0) span.count,
  rw
      (
        le→leb (offset + count) span.count within,
        plus-some max_index machine span.first offset (omega (arith, inside, within)),
        new_span,
        new_index,
        le→leb count max_index (omega (arith, inside, within)),
      )
      refl,
  ids_at-range_from max_index machine span 0 span.count (omega (arith, inside)),
  ids_at-range_from max_index machine (record { first = span.first + offset; count = count }) 0
        count (omega (arith, inside, within))
      ∙ ap some (sym cut),
)
  where
    same : span.first + 0 + offset ≡ span.first + offset + 0
    same = omega arith

    cut :
        take count (drop offset (range_from (span.first + 0) span.count))
        ≡ range_from (span.first + offset + 0) count
    cut =
        ap (take count) (drop-range_from (span.first + 0) span.count offset (omega (arith, within)))
        ∙ take-range_from (span.first + 0 + offset) (span.count - offset) count
            (omega (arith, within))
        ∙ ap (λ k. range_from k count) same
