-- ===== src/Buffer/Crossing.antt =====
-- No read of a path crosses the end of a page.
use sys_tester.Base.{
  ℕ, zero, suc, ◌+◌, ◌%◌, ◌≤◌, Bool, true, false, ◌&&◌, Option, none, some, List, [], ◌∷◌, ◌++◌,
  inl, inr, arith, length, take, leb, ltb, Bool-cases, All, if◌then◌else◌,
}
use sys_tester.Base.Result.{Result, done, failed}
use sys_tester.Buffer.{max_path, position_of_nul}
use sys_tester.Buffer.Read.{
  ProcessCopyError, errno, ReadCall, Kernel, Calls, Action, usize_max, page_len, call_at,
  read_process_memory_once, go_on, read_process_c_path,
}

-- The bytes asked for lie in one page.
abbrev pub IsInPage : ReadCall → Type 0
IsInPage call = call.address % max_path + call.len ≤ max_path

abbrev pub AreInPages : Option (Action (List ℕ)) → Type 0
AreInPages none = Unit
AreInPages (some (r, calls)) = All IsInPage calls

module _ (k : Kernel) (pid address : ℕ) where
  page_len_lem : (offset : ℕ) → (address + offset) % max_path + page_len address offset ≤ max_path
  page_len_lem offset = omega arith

  go_on-AreInPages :
      (next : List ℕ → Calls → Option (Action (List ℕ))) (r : Action (List ℕ))
      → ((bytes : List ℕ) (calls : Calls) → All IsInPage calls → AreInPages (next bytes calls))
      → All IsInPage r.1
      → AreInPages (go_on k pid address next r)
  unfolding go_on
  go_on-AreInPages next (done bytes, calls) goes h = goes bytes calls h
  go_on-AreInPages next (failed e, calls) goes h = h

  once-AreInPages :
      (offset : ℕ) (calls : Calls)
      → All IsInPage calls
      → All IsInPage
          (read_process_memory_once k pid address offset (page_len address offset) calls).1
  unfolding read_process_memory_once
  once-AreInPages offset calls h =
      by_range
        (leb (address + offset) usize_max
          && leb (address + offset + page_len address offset) usize_max)
        _ _
    where
      by_range :
          (b : Bool) (x y : Result (List ℕ) ProcessCopyError)
          → All IsInPage (
              (λ (r : Action (List ℕ)). r.1)
                (if b
                  then (x, call_at k pid address offset (page_len address offset) ∷ calls)
                  else (y, calls)))
      by_range true x y = (page_len_lem offset, h)
      by_range false x y = h

  read_process_c_path_pages :
      (fuel : ℕ) (acc : List ℕ) (calls : Calls)
      → All IsInPage calls
      → AreInPages (read_process_c_path k pid address fuel acc calls)
  unfolding read_process_c_path
  read_process_c_path_pages zero acc calls h = by_test (ltb (length acc) max_path)
    where
      by_test :
          (b : Bool) → AreInPages (if b then none else some (failed (errno k.enametoolong), calls))
      by_test true = tt
      by_test false = h
  read_process_c_path_pages (suc fuel) acc calls h = elim (Bool-cases (ltb (length acc) max_path)) [
    | inl e ↦ elim (Bool-cases (leb (address + length acc) usize_max)) [
      | inl e' ↦
          rw (read_process_c_path, e, e')
            (go_on-AreInPages _ _
              (λ bytes calls' h'.
                after acc bytes calls' h' (position_of_nul bytes)
                  (read_process_c_path_pages fuel (acc ++ bytes) calls' h'))
              (once-AreInPages (length acc) calls h))
      | inr e' ↦ rw (read_process_c_path, e, e') h
    ]
    | inr e ↦ rw (read_process_c_path, e) h
  ]
    where
      after :
          (acc bytes : List ℕ) (calls' : Calls)
          → All IsInPage calls'
          → (o : Option ℕ)
          → AreInPages (read_process_c_path k pid address fuel (acc ++ bytes) calls')
          → AreInPages (elim o [
            | none ↦ read_process_c_path k pid address fuel (acc ++ bytes) calls'
            | some nul ↦ some (done (acc ++ take nul bytes), calls')
          ])
      after acc bytes calls' h' none next = next
      after acc bytes calls' h' (some nul) next = h'

-- Whatever the kernel answers, every call that `read_process_c_path` makes asks for bytes of one page.
pub read_process_c_path-AreInPages :
    (k : Kernel) (pid address : ℕ) → AreInPages (read_process_c_path k pid address max_path [] [])
read_process_c_path-AreInPages k pid address =
    read_process_c_path_pages k pid address max_path [] [] tt
