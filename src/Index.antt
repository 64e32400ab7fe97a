-- ===== src/Index.antt =====
-- src/index.rs: index types and spans of indices. An index type is given by its largest index,
-- `u32::MAX` or `usize::MAX`; the assertions are those of a debug build.
pub mod Spans
mod Tests
use sys_tester.Base.{
  ℕ, ◌+◌, ◌%◌, ◌^◌, Option, none, some, List, [], ◌∷◌, ltb, leb, ◌==◌, Bool, if◌then◌else◌, range,
}

-- `IndexSpan`
pub record IndexSpan : Type 0 where
  pub first : ℕ
  pub count : ℕ

module _ (max_index : ℕ) where
  -- `Idx::new`
  unfoldable pub new_index : ℕ → Option ℕ
  new_index idx = if leb idx max_index then some idx else none

  -- `Idx::plus`: the sum is that of two `usize`.
  unfoldable pub plus : ℕ → ℕ → Option ℕ
  plus i amount = if ltb (i + amount) (2 ^ 64) then new_index (i + amount) else none

  unfoldable pub new_span : ℕ → ℕ → Option IndexSpan
  new_span start count = elim (new_index count) [
    | none ↦ none
    | some c ↦ some (record { first = start; count = c })
  ]

  unfoldable pub at : IndexSpan → ℕ → Option ℕ
  at span index = if ltb index span.count then plus span.first index else none

  pub ids_at : IndexSpan → List ℕ → Option (List ℕ)
  ids_at span [] = some []
  ids_at span (i ∷ is) = elim (plus span.first i) [
    | none ↦ none
    | some id ↦ elim (ids_at span is) [ none ↦ none | some ids ↦ some (id ∷ ids) ]
  ]

  -- All indices of the span.
  unfoldable pub ids : IndexSpan → Option (List ℕ)
  unfolding ids_at
  ids span = ids_at span (range span.count)

  unfoldable pub subslice : IndexSpan → ℕ → ℕ → Option IndexSpan
  subslice span offset count =
      if leb (offset + count) span.count
      then elim (plus span.first offset) [ none ↦ none | some start ↦ new_span start count ]
      else none
