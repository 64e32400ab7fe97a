-- ===== src/Model/Files.antt =====
-- `TaskInfo::new_file`, called again and again.
use sys_tester.Base.{
  ℕ, zero, suc, ◌+◌, ◌≤◌, ◌≡◌, ap, Option, none, some, List, [], ◌∷◌, map, range_from, lt→ltb,
  arith,
}
use sys_tester.Model.{MockFd, mock_fd, TaskInfo, new_file, u32_max}

-- `n` calls in a row: the descriptors in order, and the last state.
pub new_files : ℕ → TaskInfo → Option (List MockFd × TaskInfo)
new_files zero info = some ([], info)
new_files (suc n) info = elim (new_file info) [
  | none ↦ none
  | some (fd, info') ↦ elim (new_files n info') [
    | none ↦ none
    | some (fds, last) ↦ some (fd ∷ fds, last)
  ]
]

new_files_lem :
    (n : ℕ) (info : TaskInfo)
    → info.file_count + n ≤ u32_max
    → new_files n info
      ≡ some (
        map mock_fd (range_from info.file_count n),
        record info { file_count = info.file_count + n },
      )
unfolding new_files new_file
new_files_lem zero info h = ap (λ k. some ([], record info { file_count = k })) (omega arith)
new_files_lem (suc n) info h =
    let runs = new_files_lem n (record info { file_count = info.file_count + 1 }) (omega arith) in
    rw (lt→ltb info.file_count u32_max (omega arith), new_files, runs)
      λ i. some (
        mock_fd info.file_count ∷ map mock_fd (range_from (next i) n),
        record info { file_count = total i },
      )
  where
    next : info.file_count + 1 ≡ suc info.file_count
    next = omega arith

    total : info.file_count + 1 + n ≡ info.file_count + suc n
    total = omega arith

new_file_full : (info : TaskInfo) → info.file_count ≡ u32_max → new_file info ≡ none
unfolding new_file
new_file_full info e = ground arith

-- As long as at most `u32::MAX` files are made in all, `n` calls of `new_file` hand out the descriptors
-- `file_count`, `file_count + 1`, … in order, add `n` to `file_count` and change nothing else; the
-- call at `file_count = u32::MAX` panics.
pub new_files_dense :
    (n : ℕ) (info : TaskInfo)
    → info.file_count + n ≤ u32_max
    → (new_files n info
        ≡ some (
          map mock_fd (range_from info.file_count n),
          record info { file_count = info.file_count + n },
        ))
      × (info.file_count + n ≡ u32_max
          → new_file (record info { file_count = info.file_count + n }) ≡ none)
new_files_dense n info h =
    (new_files_lem n info h, new_file_full (record info { file_count = info.file_count + n }))
