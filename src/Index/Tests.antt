-- ===== src/Index/Tests.antt =====
-- A span of four indices from 10 on, and a part of it.
use sys_tester.Base.{ℕ, ◌≡◌, refl, none, some, List, take, drop, arith}
use sys_tester.Model.{u32_max}
use sys_tester.Index.{IndexSpan, at, ids, subslice, plus, new_index}
use sys_tester.Index.Spans.{ids-subslice}

abbrev span_10 : IndexSpan
span_10 = record { first = 10; count = 4 }

third : at u32_max span_10 2 ≡ some 12
unfolding at plus new_index
third = refl

out_of_bounds : at u32_max span_10 4 ≡ none
unfolding at
out_of_bounds = refl

ids-subslice_example :
    (part : IndexSpan) × (all : List ℕ) × (subslice u32_max span_10 1 2 ≡ some part)
    × (ids u32_max span_10 ≡ some all)
    × (ids u32_max part ≡ some (take 2 (drop 1 all)))
ids-subslice_example = ids-subslice u32_max span_10 1 2 (omega arith) (omega arith) (omega arith)
